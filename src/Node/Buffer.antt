-- ===== src/Node/Buffer.antt =====
-- ipmb-js/src/lib.rs: `LocalBuffer`, which pairs the results of the receiving thread with the
-- promises of the callers. Both threads hold its lock for a whole operation.
use ipmb.Prelude.{
  ℕ, zero, suc, ◌+◌, ◌*◌, ◌^◌, Bool, true, false, Option, none, some, List, [], ◌∷◌, ◌++◌, ltb,
  if◌then◌else◌, is_empty, get_elem?, remove_at, length, ◌||◌,
}
use ipmb.Errors.{ok, err}
use ipmb.Message.{Message, BytesMessage}
use ipmb.Node.Action.{Received, Reason, Outcome, DelegateAction}

-- Whether the calls of Node-API that make an error, or the object for a message, succeed.
pub record Env : Type 0 where
  pub create_error : Reason → Bool
  pub create_object : Message BytesMessage → Bool

-- A promise by its number, with the instant in nanoseconds at which it times out.
pub record Waiting : Type 0 where
  pub deferred : ℕ
  pub deadline : Option ℕ

-- A promise that `napi_resolve_deferred` or `napi_reject_deferred` was called for.
pub record Settled : Type 0 where
  pub promise : ℕ
  pub outcome : Outcome

pub record LocalBuffer : Type 0 where
  pub closed : Bool
  pub messages : List Received
  pub deferred_list : List Waiting

abbrev pub empty_buffer : LocalBuffer
empty_buffer = record { closed = false; messages = []; deferred_list = [] }

-- The condition of the two `debug_assert!`
abbrev pub asserted : LocalBuffer → Bool
asserted b = is_empty b.deferred_list || is_empty b.messages

-- A rejection, where the error could be made.
abbrev pub reject : Env → ℕ → Reason → List Settled
reject env d e = if env.create_error e then record { promise = d; outcome = err e } ∷ [] else []

-- `consume_deferred`
unfoldable pub consume_deferred : Env → ℕ → Received → List Settled
consume_deferred env d (ok message) =
    if env.create_object message then record { promise = d; outcome = ok message } ∷ [] else []
consume_deferred env d (err e) = reject env d (Reason.from_endpoint e)

-- `timeout.map(|t| Instant::now() + Duration::from_millis(t))`
abbrev pub deadline_of : ℕ → Option ℕ → Option ℕ
deadline_of now none = none
deadline_of now (some t) = some (now + t * 10 ^ 6)

abbrev pub take_message : Env → LocalBuffer → Waiting → List Received → LocalBuffer × List Settled
take_message env b w [] = (record b { deferred_list = b.deferred_list ++ w ∷ [] }, [])
take_message env b w (r ∷ rs) = (record b { messages = rs }, consume_deferred env w.deferred r)

-- `Receiver::recv` for a fresh promise; `none` for the error of a closed receiver
unfoldable pub recv : Env → ℕ → ℕ → Option ℕ → LocalBuffer → Option (LocalBuffer × List Settled)
unfolding consume_deferred
recv env now d timeout b =
    if b.closed
    then none
    else some (
        take_message env b (record { deferred = d; deadline = deadline_of now timeout }) b.messages)

-- The first block of `Receiver::close`; `none` where the receiver is closed already
unfoldable pub mark_closed : LocalBuffer → Option LocalBuffer
mark_closed b = if b.closed then none else some (record b { closed = true })

abbrev pub is_expired : ℕ → Waiting → Bool
is_expired now w = elim w.deadline [ none ↦ false | some deadline ↦ ltb deadline now ]

-- The loop of `clean_timeout` from index `i`, on fuel: the promises left, and those removed.
unfoldable pub clean_loop :
    ℕ → ℕ → ℕ → List Waiting → List Waiting → Option (List Waiting × List Waiting)
clean_loop zero now i ws removed = none
clean_loop (suc fuel) now i ws removed = elim (get_elem? ws i) [
  | none ↦ some (ws, removed)
  | some w ↦ elim (is_expired now w) [
    | true ↦ clean_loop fuel now i (remove_at ws i) (removed ++ w ∷ [])
    | false ↦ clean_loop fuel now (suc i) ws removed
  ]
]

-- The rejection of each of some promises.
unfoldable pub reject_all : Env → Reason → List Waiting → List Settled
reject_all env e [] = []
reject_all env e (w ∷ ws) = reject env w.deferred e ++ reject_all env e ws

abbrev pub cleaned :
    Env → LocalBuffer → Option (List Waiting × List Waiting) → Option (LocalBuffer × List Settled)
cleaned env b none = none
cleaned env b (some (ws, removed)) =
    some (record b { deferred_list = ws }, reject_all env Reason.timeout removed)

-- `LocalBuffer::clean_timeout`; each turn passes or removes one promise
unfoldable pub clean_timeout : Env → ℕ → LocalBuffer → Option (LocalBuffer × List Settled)
unfolding clean_loop reject_all
clean_timeout env now b =
    if is_empty b.deferred_list
    then some (b, [])
    else cleaned env b (clean_loop (suc (length b.deferred_list)) now 0 b.deferred_list [])

-- `LocalBuffer::close`
unfoldable pub close : Env → LocalBuffer → LocalBuffer × List Settled
unfolding reject_all
close env b =
    (record b { closed = true; deferred_list = [] }, reject_all env Reason.closed b.deferred_list)

abbrev pub hand_over : Env → LocalBuffer → Received → List Waiting → LocalBuffer × List Settled
hand_over env b r [] = (record b { messages = b.messages ++ r ∷ [] }, [])
hand_over env b r (w ∷ ws) = (record b { deferred_list = ws }, consume_deferred env w.deferred r)

-- `delegate_receiver` at an instant
unfoldable pub delegate_receiver :
    Env → ℕ → DelegateAction → LocalBuffer → Option (LocalBuffer × List Settled)
unfolding consume_deferred clean_timeout close
delegate_receiver env now DelegateAction.close b = some (close env b)
delegate_receiver env now DelegateAction.clean_timeout b = clean_timeout env now b
delegate_receiver env now (DelegateAction.recv r) b = some (hand_over env b r b.deferred_list)
