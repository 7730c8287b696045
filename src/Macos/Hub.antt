-- ===== src/Macos/Hub.antt =====
-- ipmb/src/platform/macos/mod.rs: `Pipe`, which reads from a port, and `IoHub`, over what the kernel
-- answers.
pub mod Reading
pub mod Outcomes
pub mod Laws
pub mod Returning
pub mod Ending
mod Examples
use ipmb.Prelude.{
  ℕ, ◌+◌, ◌%◌, ◌^◌, Bool, true, false, not, ◌&&◌, Option, none, some, List, [], ◌∷◌, any, ltb, ◌==◌,
  if◌then◌else◌,
}
use ipmb.Errors.{Error, Result, ok, err}
use ipmb.Region.{Headers}
use ipmb.Message.{Bytes, Selector, Codec}
use ipmb.Windows.Hub.{Step, panics, unfinished, continues, is_none}
use ipmb.Macos.Wire.{EncodedMessage, Parsed, new_encoded, base_size}

pub data PipeStatus : Type 0 where
  readable pending offline : PipeStatus

pub record Pipe : Type 0 where
  pub port : ℕ
  pub status : PipeStatus

-- `Pipe::new`
abbrev pub new_pipe : ℕ → Pipe
new_pipe port = record { port = port; status = readable }

-- What `mach_msg` answers a receive: the message is larger than the buffer, with its size; a message;
-- or an error.
pub data Received : Type 0 where
  too_large : ℕ → Received
  message : Bytes → Received
  timed_out port_died other : Received

-- The answer to one call, by the capacity that it is called with.
abbrev pub Answer : Type 0
Answer = ℕ → Received

abbrev pub trailer_size : ℕ
trailer_size = 8

abbrev pub first_capacity : ℕ
first_capacity = base_size + trailer_size + 64

-- What the match on an answer does, with `again` for the next call
abbrev pub after_answer :
    Pipe → (ℕ → Option (Option Bytes × Pipe)) → Received → Option (Option Bytes × Pipe)
after_answer pipe again (too_large size) = again size
after_answer pipe again (message mach_msg) = some (some mach_msg, pipe)
after_answer pipe again timed_out = some (none, record pipe { status = pending })
after_answer pipe again port_died = some (none, record pipe { status = offline })
after_answer pipe again other = some (none, record pipe { status = offline })

-- The loop in `Pipe::read`; `grow` is what `Vec::reserve` makes of a capacity. `none` where the answers
-- end first.
unfoldable pub read_loop : (ℕ → ℕ → ℕ) → ℕ → List Answer → Pipe → Option (Option Bytes × Pipe)
read_loop grow capacity [] pipe = none
read_loop grow capacity (answer ∷ answers) pipe =
    after_answer pipe (λ size. read_loop grow (grow capacity (size + trailer_size)) answers pipe)
      (answer (capacity % 2 ^ 32))

-- `Pipe::read`
unfoldable pub read : (ℕ → ℕ → ℕ) → List Answer → Pipe → Option (Option Bytes × Pipe)
unfolding read_loop
read grow answers pipe = elim pipe.status [
  | readable ↦ read_loop grow first_capacity answers pipe
  | pending ↦ some (none, pipe)
  | offline ↦ some (none, pipe)
]

-- The hub without its kqueue: whether the channel of the controller's own messages is there, and the
-- port.
pub record IoHub : Type 0 where
  pub local : Option Pipe
  pub bus_receiver : Bool

-- `IoHub::for_bus_controller` and `IoHub::for_endpoint`
abbrev pub for_bus_controller : ℕ → IoHub
for_bus_controller local = record { local = some (new_pipe local); bus_receiver = true }

abbrev pub for_endpoint : ℕ → IoHub
for_endpoint local = record { local = some (new_pipe local); bus_receiver = false }

pub data TryRecv : Type 0 where
  queued : EncodedMessage → TryRecv
  empty disconnected : TryRecv

-- A turn of the loop in `recv`: the answers of the channel and of the port, whether the remote is dead,
-- the identifiers of the events of the wait, and the instant behind it.
pub record Round : Type 0 where
  pub received : TryRecv
  pub answers : List Answer
  pub dead : Bool
  pub events : List ℕ
  pub now : ℕ

-- How `recv` ends: a message of the controller itself, one that was read from the port, or an error.
pub data Outcome : Type 0 where
  from_bus : EncodedMessage → Outcome
  arrived : Bytes → Outcome
  fails : Error → Outcome

abbrev pub is_overdue : Option ℕ → ℕ → Bool
is_overdue none now = false
is_overdue (some end) now = ltb end now

-- The events of a wait, where there are any
abbrev pub notice : List ℕ → Option Pipe → Option Pipe
notice events none = none
notice events (some pipe) =
    if any (λ ident. ident == pipe.port) events
    then some (record pipe { status = readable })
    else some pipe

-- The end of a turn, from the wait on
abbrev pub after_wait : Option ℕ → Round → IoHub → List ℕ → Option Outcome × IoHub
after_wait end r hub [] = (if is_overdue end r.now then some (fails Error.timeout) else none, hub)
after_wait end r hub (event ∷ events) =
    (none, record hub { local = notice (event ∷ events) hub.local })

-- The end of a turn, behind the read
abbrev pub after_local : Option ℕ → Round → IoHub → Option Outcome × IoHub
after_local end r hub =
    if not hub.bus_receiver && is_none hub.local
    then (some (fails Error.disconnect), hub)
    else after_wait end r hub r.events

-- A read gave nothing; `watches` is whether `recv` was given a remote
abbrev pub after_nothing :
    Option ℕ → Bool → Round → IoHub → Pipe → PipeStatus → Step (Option Outcome × IoHub)
after_nothing end watches r hub pipe readable = panics
after_nothing end watches r hub pipe pending =
    continues
      (after_local end r (record hub { local = if watches && r.dead then none else some pipe }))
after_nothing end watches r hub pipe offline =
    continues (after_local end r (record hub { local = none }))

-- What the match behind `local.read()` does
abbrev pub after_read :
    Option ℕ → Bool → Round → IoHub → Option (Option Bytes × Pipe) → Step (Option Outcome × IoHub)
after_read end watches r hub none = unfinished
after_read end watches r hub (some (some mach_msg, pipe)) =
    continues (some (arrived mach_msg), record hub { local = some pipe })
after_read end watches r hub (some (none, pipe)) = after_nothing end watches r hub pipe pipe.status

abbrev pub local_of :
    (Option ℕ)
    → Bool
    → Round
    → IoHub
    → (Pipe → Option (Option Bytes × Pipe))
    → Option Pipe
    → Step (Option Outcome × IoHub)
local_of end watches r hub read_pipe none = continues (after_local end r hub)
local_of end watches r hub read_pipe (some pipe) = after_read end watches r hub (read_pipe pipe)

unfoldable pub read_local :
    (ℕ → ℕ → ℕ) → Option ℕ → Bool → Round → IoHub → Step (Option Outcome × IoHub)
unfolding read
read_local grow end watches r hub =
    local_of end watches r hub (λ pipe. read grow r.answers pipe) hub.local

abbrev pub after_channel :
    IoHub → (Bool → Step (Option Outcome × IoHub)) → TryRecv → Step (Option Outcome × IoHub)
after_channel hub go_on (queued msg) = continues (some (from_bus msg), hub)
after_channel hub go_on empty = go_on true
after_channel hub go_on disconnected = go_on false

-- The body of the loop in `IoHub::recv`
unfoldable pub turn : (ℕ → ℕ → ℕ) → Option ℕ → Bool → Round → IoHub → Step (Option Outcome × IoHub)
unfolding read_local
turn grow end watches r hub =
    let go_on = λ (b : Bool). read_local grow end watches r (record hub { bus_receiver = b }) in
    if hub.bus_receiver then after_channel hub go_on r.received else go_on false

abbrev pub next_turn :
    Step (Option Outcome × IoHub) → (IoHub → Step (Outcome × IoHub)) → Step (Outcome × IoHub)
next_turn panics rest = panics
next_turn unfinished rest = unfinished
next_turn (continues (some outcome, hub)) rest = continues (outcome, hub)
next_turn (continues (none, hub)) rest = rest hub

-- The loop in `IoHub::recv`, where `end` is the instant at which the timeout is over
unfoldable pub recv_outcome :
    (ℕ → ℕ → ℕ) → Option ℕ → Bool → List Round → IoHub → Step (Outcome × IoHub)
unfolding turn
recv_outcome grow end watches [] hub = unfinished
recv_outcome grow end watches (r ∷ rounds) hub =
    next_turn (turn grow end watches r hub) (λ hub'. recv_outcome grow end watches rounds hub')

-- The result, with the headers of the shared memories and the hub
abbrev pub Returned : Type 0
Returned = Result EncodedMessage Error × Headers × IoHub

-- `break EncodedMessage::new(mach_msg)`
abbrev pub with_new : IoHub → Parsed → Step Returned
with_new hub none = panics
with_new hub (some (result, h)) = continues (result, h, hub)

abbrev pub concluded : Codec Selector → (ℕ → ℕ) → Headers → Step (Outcome × IoHub) → Step Returned
concluded selectors target h panics = panics
concluded selectors target h unfinished = unfinished
concluded selectors target h (continues (from_bus msg, hub)) = continues (ok msg, h, hub)
concluded selectors target h (continues (arrived mach_msg, hub)) =
    with_new hub (new_encoded selectors target h mach_msg)
concluded selectors target h (continues (fails e, hub)) = continues (err e, h, hub)

-- `IoHub::recv`
unfoldable pub recv :
    Codec Selector
    → (ℕ → ℕ)
    → Headers
    → (ℕ → ℕ → ℕ)
    → Option ℕ
    → Bool
    → List Round
    → IoHub
    → Step Returned
unfolding recv_outcome new_encoded
recv selectors target h grow end watches rounds hub =
    concluded selectors target h (recv_outcome grow end watches rounds hub)
