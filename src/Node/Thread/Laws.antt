-- ===== src/Node/Thread/Laws.antt =====
-- ipmb-js/src/lib.rs: what the receiving thread hands over, and when it ends.
use ipmb.Prelude.{
  ℕ, ◌≡◌, refl, sym, ap, ◌∙◌, arith, Bool, true, false, not, Option, List, [], ◌∷◌, ◌++◌,
  if◌then◌else◌, append_assoc, append-nil, retain,
}
use ipmb.Errors.{RecvError, ok, err}
use ipmb.Node.Action.{Received, DelegateAction}
use ipmb.Node.Buffer.{Env}
use ipmb.Node.Run.{
  Operation, ask, mark, act, Spec, spec_started, spec_step, spec_run, started, replay, answers,
  is_answer,
}
use ipmb.Node.Delivery.{replay-Refines}
use ipmb.Node.Thread.{turn, Round, serve, signalled, disconnected, empty}

abbrev pub is_timeout : Received → Bool
is_timeout r = elim r [
  | ok m ↦ false
  | err e ↦ elim e [
    | RecvError.timeout ↦ true
    | RecvError.decode ↦ false
    | RecvError.version_mismatch v ↦ false
    | RecvError.token_mismatch ↦ false
    | RecvError.permission_denied ↦ false
  ]
]

-- An error after which the endpoint is of no more use.
abbrev pub is_fatal : Received → Bool
is_fatal r = elim r [
  | ok m ↦ false
  | err e ↦ elim e [
    | RecvError.timeout ↦ false
    | RecvError.decode ↦ false
    | RecvError.version_mismatch v ↦ true
    | RecvError.token_mismatch ↦ true
    | RecvError.permission_denied ↦ true
  ]
]

-- The results of the rounds that are no timeouts, up to the first fatal error, or the first timeout
-- with a guard that says something.
abbrev pub results : List Round → List Received
results [] = []
results ((r, guard) ∷ rounds) =
    let rest = results rounds in
    if is_fatal r
    then r ∷ []
    else if not (is_timeout r)
    then r ∷ rest
    else elim guard [ empty ↦ rest | signalled ↦ [] | disconnected ↦ [] ]

-- What the calls hand over.
abbrev pub handed : List DelegateAction → List Received
handed [] = []
handed (DelegateAction.recv r ∷ calls) = r ∷ handed calls
handed (DelegateAction.close ∷ calls) = handed calls
handed (DelegateAction.clean_timeout ∷ calls) = handed calls

-- The calls among the operations on a buffer.
abbrev pub calls_of : List Operation → List DelegateAction
calls_of [] = []
calls_of (act now a ∷ es) = a ∷ calls_of es
calls_of (ask now timeout ∷ es) = calls_of es
calls_of (mark ∷ es) = calls_of es

handed-serve : (rounds : List Round) → handed (serve rounds).calls ≡ results rounds
unfolding serve turn
handed-serve [] = refl
handed-serve ((err RecvError.timeout, signalled) ∷ rounds) = refl
handed-serve ((err RecvError.timeout, disconnected) ∷ rounds) = refl
handed-serve ((err RecvError.timeout, empty) ∷ rounds) = handed-serve rounds
handed-serve ((err (RecvError.version_mismatch v), guard) ∷ rounds) = refl
handed-serve ((err RecvError.token_mismatch, guard) ∷ rounds) = refl
handed-serve ((err RecvError.permission_denied, guard) ∷ rounds) = refl
handed-serve ((err RecvError.decode, guard) ∷ rounds) =
    ap (◌∷◌ (err RecvError.decode)) (handed-serve rounds)
handed-serve ((ok m, guard) ∷ rounds) = ap (◌∷◌ (ok m)) (handed-serve rounds)

results-ask :
    (s : Spec) (now : ℕ) (timeout : Option ℕ) → (spec_step s (ask now timeout)).results ≡ s.results
results-ask s now timeout = ground arith

-- The results of the abstract view are those that the calls hand over.
results-spec_run :
    (s : Spec) (es : List Operation) → (spec_run s es).results ≡ s.results ++ handed (calls_of es)
results-spec_run s [] = sym (append-nil s.results)
results-spec_run s (act now (DelegateAction.recv r) ∷ es) =
    results-spec_run (spec_step s (act now (DelegateAction.recv r))) es
    ∙ append_assoc s.results (r ∷ []) (handed (calls_of es))
results-spec_run s (act now DelegateAction.close ∷ es) =
    results-spec_run (spec_step s (act now DelegateAction.close)) es
results-spec_run s (act now DelegateAction.clean_timeout ∷ es) =
    results-spec_run (spec_step s (act now DelegateAction.clean_timeout)) es
results-spec_run s (ask now timeout ∷ es) =
    results-spec_run (spec_step s (ask now timeout)) es
    ∙ ap (λ rs. rs ++ handed (calls_of es)) (results-ask s now timeout)
results-spec_run s (mark ∷ es) = results-spec_run (spec_step s mark) es

-- For a receiving thread whose calls are handled in the order they were made, whatever calls of `recv`
-- and `close` come between them: the results that are no timeouts, up to the round in which the thread
-- ends, settle the promises that were not withdrawn, in order, the n-th result the n-th promise.
pub replay-serve :
    (env : Env) (rounds : List Round) (es : List Operation)
    → calls_of es ≡ (serve rounds).calls
    → retain is_answer (replay env started es).log
      ≡ answers env (spec_run spec_started es).promises (results rounds)
replay-serve env rounds es h =
    (replay-Refines env es).outcomes
    ∙ ap (answers env (spec_run spec_started es).promises)
        (results-spec_run spec_started es ∙ ap handed h ∙ handed-serve rounds)
