-- ===== src/Node/Thread.antt =====
-- ipmb-js/src/lib.rs: the loop of the receiving thread, which `join` starts.
pub mod Laws
use ipmb.Prelude.{Bool, true, false, Option, some, none, List, [], ◌∷◌, ◌++◌, if◌then◌else◌}
use ipmb.Errors.{RecvError, ok, err}
use ipmb.Message.{Message, BytesMessage}
use ipmb.Node.Action.{Received, DelegateAction}

-- What `guard_receiver.try_recv()` returns: a signal that `close` waits with, that no receiver is left
-- to signal, or nothing.
pub data TryRecv : Type 0 where
  signalled disconnected empty : TryRecv

-- The calls of the thread-safe function in a turn, and whether the loop goes on. `destroy` calls it
-- with `Close`.
pub record Turn : Type 0 where
  pub calls : List DelegateAction
  pub again : Bool

abbrev pub on_timeout : TryRecv → Turn
on_timeout signalled = record { calls = DelegateAction.close ∷ []; again = false }
on_timeout disconnected = record { calls = []; again = false }
on_timeout empty = record { calls = DelegateAction.clean_timeout ∷ []; again = true }

abbrev pub fatal : Received → Turn
fatal r = record { calls = DelegateAction.recv r ∷ DelegateAction.close ∷ []; again = false }

abbrev pub passed : Received → Turn
passed r = record { calls = DelegateAction.recv r ∷ []; again = true }

-- The body of the loop, given what `receiver.recv` returned and what the guard would return.
unfoldable pub turn : Received → TryRecv → Turn
turn (err RecvError.timeout) guard = on_timeout guard
turn (err (RecvError.version_mismatch v)) guard = fatal (err (RecvError.version_mismatch v))
turn (err RecvError.token_mismatch) guard = fatal (err RecvError.token_mismatch)
turn (err RecvError.permission_denied) guard = fatal (err RecvError.permission_denied)
turn (err RecvError.decode) guard = passed (err RecvError.decode)
turn (ok m) guard = passed (ok m)

abbrev pub Round : Type 0
Round = Received × TryRecv

-- The loop over a history of rounds: its calls, and whether it goes on after them.
unfoldable pub serve : List Round → Turn
unfolding turn
serve [] = record { calls = []; again = true }
serve ((r, guard) ∷ rounds) =
    let one = turn r guard in
    let rest = serve rounds in
    if one.again then record rest { calls = one.calls ++ rest.calls } else one
