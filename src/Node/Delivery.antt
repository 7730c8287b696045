-- ===== src/Node/Delivery.antt =====
-- ipmb-js/src/lib.rs: a `LocalBuffer` gives the results to the promises in order.
pub mod Parts
pub mod Matching
use ipmb.Prelude.{
  append-singleton, ℕ, zero, suc, ◌+◌, ◌≤◌, ◌<◌, ◌≡◌, refl, sym, ap, subst, ◌∙◌, ◌⊎◌, inl, inr,
  arith, Bool, true, false, not, Option, none, some, List, [], ◌∷◌, ◌++◌, length, take, drop,
  retain, Bool-cases, append-nil, append_assoc, length-append, take-append, drop-append,
  if◌then◌else◌, is_empty, ◌||◌,
}
use ipmb.Errors.{ok, err}
use ipmb.Node.Action.{Received, Reason, Outcome, DelegateAction}
use ipmb.Node.Buffer.{
  Env, Waiting, LocalBuffer, Settled, asserted, deadline_of, recv, mark_closed, delegate_receiver,
  consume_deferred, reject_all, close, hand_over, take_message,
}
use ipmb.Node.Timeouts.{unexpired, expired, clean_timeout_lem}
use ipmb.Node.Run.{
  Operation, ask, mark, act, System, started, step, replay, Spec, spec_started, spec_step, spec_run,
  answers, is_answer, after, after_ask, after_mark,
}
use ipmb.Node.Delivery.Parts.{
  retain-append, retain-consume_deferred, retain-reject_timeout, retain-reject_closed, answers-snoc,
  answered-snoc, answered-more, other_empty, take-nil, answers-nil, parts, answers-append, swap,
}
use ipmb.Node.Delivery.Matching.{Matched, met, step-Matched}

replay-Matched :
    (env : Env) (s : Spec) (y : System) (es : List Operation)
    → Matched env s y
    → Matched env (spec_run s es) (replay env y es)
unfolding replay
replay-Matched env s y [] m = m
replay-Matched env s y (e ∷ es) m =
    replay-Matched env (spec_step s e) (step env y e) es (step-Matched env s y e m)

started-Matched : (env : Env) → Matched env spec_started started
unfolding answers
started-Matched env = record {
  ps = [];
  rs = [];
  same_length = refl;
  flag = refl;
  count = refl;
  promises_of = refl;
  results_of = refl;
  tidy = inl refl;
  answered = refl;
}

-- What a buffer should hold, and what its promises should have come to, for an abstract state.
pub record Refines (env : Env) (s : Spec) (y : System) : Type 0 where
  pub outcomes : retain is_answer y.log ≡ answers env s.promises s.results
  pub waiting : y.buffer.deferred_list ≡ drop (length s.results) s.promises
  pub buffered : y.buffer.messages ≡ drop (length s.promises) s.results
  pub closing : y.buffer.closed ≡ s.is_closed

Matched-Refines : (env : Env) (s : Spec) (y : System) → Matched env s y → Refines env s y
Matched-Refines env s y m = record {
  outcomes =
      rw (m.promises_of, m.results_of)
        (m.answered
          ∙ sym (
              answers-append env m.ps y.buffer.deferred_list m.rs y.buffer.messages m.same_length
                m.tidy));
  waiting = sym (met env s y m).1;
  buffered =
      rw (m.promises_of, m.results_of)
        (sym
          (parts m.rs y.buffer.messages m.ps y.buffer.deferred_list (sym m.same_length)
            (swap m.tidy)).1);
  closing = m.flag;
}

-- Whatever the order of calls of `recv` and `close`, of results, and of passes over the timeouts, the
-- n-th result settles the n-th promise among those that were not withdrawn before it came, and no
-- other result settles a promise; the rest of the promises waits, or the rest of the results.
pub replay-Refines :
    (env : Env) (es : List Operation)
    → Refines env (spec_run spec_started es) (replay env started es)
replay-Refines env es =
    Matched-Refines env _ _ (replay-Matched env spec_started started es (started-Matched env))

asserted-tidy :
    (b : LocalBuffer) (ds : List Waiting) (ms : List Received)
    → (ds ≡ []) ⊎ (ms ≡ [])
    → (is_empty ds || is_empty ms) ≡ true
asserted-tidy b ds ms (inl e) = ground (arith, e)
asserted-tidy b ds ms (inr e) = ground (arith, e)

-- The condition that `recv` and `delegate_receiver` assert holds after any history of operations.
pub replay-asserted :
    (env : Env) (es : List Operation) → asserted (replay env started es).buffer ≡ true
replay-asserted env es =
    let b = (replay env started es).buffer in
    asserted-tidy b b.deferred_list b.messages
      (replay-Matched env spec_started started es (started-Matched env)).tidy
