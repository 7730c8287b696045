-- ===== src/Node/Run.antt =====
-- ipmb-js/src/lib.rs: histories of a `LocalBuffer`, as the sequence of the operations that took its
-- lock, and what they should do: the n-th result goes to the n-th promise that did not time out.
use ipmb.Prelude.{
  ℕ, suc, Bool, true, false, Option, none, some, List, [], ◌∷◌, ◌++◌, length, take, drop,
  if◌then◌else◌,
}
use ipmb.Errors.{ok, err}
use ipmb.Node.Action.{Received, Reason, DelegateAction}
use ipmb.Node.Buffer.{
  Env, Waiting, LocalBuffer, Settled, empty_buffer, deadline_of, recv, mark_closed,
  delegate_receiver, consume_deferred,
}
use ipmb.Node.Timeouts.{unexpired}

-- `receiver.recv(timeout)`, the start of `receiver.close()`, and a call of `delegate_receiver`.
pub data Operation : Type 0 where
  ask : ℕ → Option ℕ → Operation
  mark : Operation
  act : ℕ → DelegateAction → Operation

-- A buffer, the promises made so far, which are numbered as they are made, and those settled.
pub record System : Type 0 where
  pub buffer : LocalBuffer
  pub created : ℕ
  pub log : List Settled

abbrev pub started : System
started = record { buffer = empty_buffer; created = 0; log = [] }

-- An operation that returns an error, or does not end, changes nothing.
abbrev pub after : System → Option (LocalBuffer × List Settled) → System
after s none = s
after s (some (b, settled)) = record s { buffer = b; log = s.log ++ settled }

abbrev pub after_ask : System → Option (LocalBuffer × List Settled) → System
after_ask s none = s
after_ask s (some (b, settled)) = record {
  buffer = b;
  created = suc s.created;
  log = s.log ++ settled;
}

abbrev pub after_mark : System → Option LocalBuffer → System
after_mark s none = s
after_mark s (some b) = record s { buffer = b }

unfoldable pub step : Env → System → Operation → System
unfolding recv mark_closed delegate_receiver
step env s (ask now timeout) = after_ask s (recv env now s.created timeout s.buffer)
step env s mark = after_mark s (mark_closed s.buffer)
step env s (act now a) = after s (delegate_receiver env now a s.buffer)

unfoldable pub replay : Env → System → List Operation → System
unfolding step
replay env s [] = s
replay env s (e ∷ es) = replay env (step env s e) es

-- The abstract view: every promise that may get a result, and every result, in order.
pub record Spec : Type 0 where
  pub is_closed : Bool
  pub made : ℕ
  pub promises : List Waiting
  pub results : List Received

abbrev pub spec_started : Spec
spec_started = record { is_closed = false; made = 0; promises = []; results = [] }

-- Promises from the n-th on can still be withdrawn.
abbrev pub spec_step : Spec → Operation → Spec
spec_step s (ask now timeout) = if s.is_closed then s else record s {
  made = suc s.made;
  promises = s.promises ++ record { deferred = s.made; deadline = deadline_of now timeout } ∷ [];
}
spec_step s mark = record s { is_closed = true }
spec_step s (act now (DelegateAction.recv r)) = record s { results = s.results ++ r ∷ [] }
spec_step s (act now DelegateAction.clean_timeout) = record s {
  promises =
      take (length s.results) s.promises ++ unexpired now (drop (length s.results) s.promises);
}
spec_step s (act now DelegateAction.close) = record s {
  is_closed = true;
  promises = take (length s.results) s.promises;
}

abbrev pub spec_run : Spec → List Operation → Spec
spec_run s [] = s
spec_run s (e ∷ es) = spec_run (spec_step s e) es

-- Each promise with the result of the same position.
unfoldable pub answers : Env → List Waiting → List Received → List Settled
unfolding consume_deferred
answers env [] rs = []
answers env (w ∷ ws) [] = []
answers env (w ∷ ws) (r ∷ rs) = consume_deferred env w.deferred r ++ answers env ws rs

-- What a result did to its promise: not a timeout, and not a closed receiver.
abbrev pub is_answer : Settled → Bool
is_answer s = elim s.outcome [
  | ok m ↦ true
  | err e ↦ elim e [
    | Reason.timeout ↦ false
    | Reason.closed ↦ false
    | Reason.from_endpoint x ↦ true
  ]
]
