-- ===== src/Windows/Hub.antt =====
-- ipmb/src/platform/windows/mod.rs: `IoHub`, which listens on one pipe and reads from the others.
pub mod Laws
pub mod Passes
use ipmb.Prelude.{
  ℕ, zero, suc, ◌*◌, Bool, true, false, not, ◌&&◌, Option, none, some, List, [], ◌∷◌, ◌++◌, length,
  is_empty, get_elem?, ◌==◌, if◌then◌else◌,
}
use ipmb.Errors.{Error, Result, ok, err}
use ipmb.Message.{Bytes, EncodedMessage}
use ipmb.Linux.Hub.{TryRecv, message, empty, disconnected, swap_remove}
use ipmb.Windows.{
  NamedPipeStatus, free, readable, pending, ready, offline, NamedPipe, new_pipe, Connected, listen,
  ReadStarted, Read, read, written,
}

-- The hub without its completion port: whether the channel of the controller's own messages is there,
-- the waker's key, the pipes, and the pipe that listens.
pub record IoHub : Type 0 where
  pub bus_receiver : Bool
  pub waker : ℕ
  pub pipes : List NamedPipe
  pub listening_pipe : Option NamedPipe

-- `create_instance`, with the handle that the system gives
abbrev pub create_instance : ℕ → NamedPipe
create_instance handle = new_pipe handle free

-- How a part of the code ends: it panics, it needs more answers of the system than are given, or it
-- goes on.
pub data Step (A : Type 0) : Type 0 where
  panics unfinished : Step A
  continues : A → Step A

abbrev pub is_none : {A : Type 0} → Option A → Bool
is_none none = true
is_none (some a) = false

-- The answers of a turn of the loop in `listen`: of `ConnectNamedPipe`, and the handle of a new pipe.
abbrev pub Answer : Type 0
Answer = Connected × ℕ

-- What the match behind `listening_pipe.listen()` does, with `rest` for the next turn
abbrev pub after_listen :
    IoHub → ℕ → (IoHub → NamedPipe → Step IoHub) → Option NamedPipe → Step IoHub
after_listen hub handle rest none = panics
after_listen hub handle rest (some pipe) = elim pipe.status [
  | readable ↦ rest (record hub { pipes = hub.pipes ++ pipe ∷ [] }) (create_instance handle)
  | pending ↦ continues (record hub { listening_pipe = some pipe })
  | offline ↦ rest hub (create_instance handle)
  | free ↦ panics
  | ready ↦ panics
]

-- The loop of `IoHub::listen`
unfoldable pub listen_loop : List Answer → IoHub → NamedPipe → Step IoHub
unfolding listen
listen_loop [] hub pipe = unfinished
listen_loop ((answer, handle) ∷ answers) hub pipe =
    after_listen hub handle (λ hub' pipe'. listen_loop answers hub' pipe') (listen answer pipe)

-- `IoHub::listen`
unfoldable pub hub_listen : List Answer → IoHub → Step IoHub
unfolding listen_loop
hub_listen answers hub = elim hub.listening_pipe [
  | none ↦ continues hub
  | some pipe ↦ listen_loop answers hub pipe
]

-- The pipe at an index, changed.
abbrev pub set_at : ℕ → NamedPipe → List NamedPipe → List NamedPipe
set_at i p [] = []
set_at zero p (x ∷ xs) = p ∷ xs
set_at (suc i) p (x ∷ xs) = x ∷ set_at i p xs

-- What the match behind `pipe.read()` does, with `next` for the next turn
abbrev pub after_read :
    List NamedPipe
    → ℕ
    → (ℕ → List NamedPipe → Step (Option Read × List NamedPipe))
    → Option (Option Read × NamedPipe)
    → Step (Option Read × List NamedPipe)
after_read pipes i next none = panics
after_read pipes i next (some (some msg, pipe)) = continues (some msg, set_at i pipe pipes)
after_read pipes i next (some (none, pipe)) = elim pipe.status [
  | pending ↦ next (suc i) (set_at i pipe pipes)
  | offline ↦ next i (swap_remove i (set_at i pipe pipes))
  | free ↦ panics
  | readable ↦ panics
  | ready ↦ panics
]

-- The loop over the pipes, on fuel; `ReadFile` answers by the handle of the pipe, which a pass reads
-- from once
unfoldable pub read_pipes :
    ℕ → (ℕ → ReadStarted) → ℕ → List NamedPipe → Step (Option Read × List NamedPipe)
unfolding read
read_pipes zero answer i pipes = unfinished
read_pipes (suc fuel) answer i pipes = elim (get_elem? pipes i) [
  | none ↦ continues (none, pipes)
  | some pipe ↦
      after_read pipes i (λ i' pipes'. read_pipes fuel answer i' pipes')
        (read (answer pipe.handle) pipe)
]

-- What `GetQueuedCompletionStatus` and the error behind it say of a wait: a completion for a key with
-- the bytes that were written, the same with an error, a timeout, or a port that is closed.
pub data Failure : Type 0 where
  pipe_connected pipe_listening io_pending io_incomplete more_data other : Failure

pub data Waited : Type 0 where
  completed : ℕ → Bytes → Waited
  failed : ℕ → Failure → Bytes → Waited
  timed_out abandoned : Waited

-- The listening pipe is a connection now, and a new one listens.
abbrev pub accept : IoHub → NamedPipe → ℕ → IoHub
accept hub pipe handle = record hub {
  pipes = hub.pipes ++ record pipe { status = readable } ∷ [];
  listening_pipe = some (create_instance handle);
}

-- `pipes.iter_mut().find(..)`, with what is done to the pipe
abbrev pub update_pipe : ℕ → (NamedPipe → NamedPipe) → List NamedPipe → List NamedPipe
update_pipe key f [] = []
update_pipe key f (p ∷ ps) =
    let rest = p ∷ update_pipe key f ps in if p.handle == key then f p ∷ ps else rest

-- A read that completed.
abbrev pub complete : Bytes → NamedPipe → NamedPipe
complete bytes pipe = record (written pipe bytes) { status = ready }

-- A read that completed with an error; `grow` is what `Vec::reserve` leaves of the spare capacity.
abbrev pub fail_read : (Bytes → Bytes) → Failure → Bytes → NamedPipe → NamedPipe
fail_read grow more_data bytes pipe =
    let p = written pipe bytes in
    record p { buffer = grow p.buffer; capacity = p.capacity * 2; status = readable }
fail_read grow io_pending bytes pipe = pipe
fail_read grow io_incomplete bytes pipe = pipe
fail_read grow pipe_listening bytes pipe = record pipe { status = offline }
fail_read grow pipe_connected bytes pipe = record pipe { status = offline }
fail_read grow other bytes pipe = record pipe { status = offline }

-- The listening pipe, where its wait ended with an error
abbrev pub fail_listen : IoHub → NamedPipe → ℕ → Failure → IoHub
fail_listen hub pipe handle pipe_connected = accept hub pipe handle
fail_listen hub pipe handle pipe_listening = hub
fail_listen hub pipe handle io_pending = hub
fail_listen hub pipe handle io_incomplete = record hub {
  listening_pipe = some (create_instance handle);
}
fail_listen hub pipe handle more_data = record hub {
  listening_pipe = some (create_instance handle);
}
fail_listen hub pipe handle other = record hub { listening_pipe = some (create_instance handle) }

abbrev pub on_key : IoHub → ℕ → (NamedPipe → IoHub) → (NamedPipe → NamedPipe) → IoHub
on_key hub key on_listening on_pipe = if key == hub.waker then hub else elim hub.listening_pipe [
  | none ↦ record hub { pipes = update_pipe key on_pipe hub.pipes }
  | some pipe ↦
      if pipe.handle == key
      then on_listening pipe
      else record hub { pipes = update_pipe key on_pipe hub.pipes }
]

-- How `recv` ends: a message of the controller itself, what was read from a pipe, or an error.
pub data Outcome : Type 0 where
  from_bus : EncodedMessage → Outcome
  arrived : Read → Outcome
  fails : Error → Outcome

-- The wait, with the handle of a new pipe if one is made: the result, if it ends `recv`, and the hub
unfoldable pub after_wait : (Bytes → Bytes) → ℕ → Waited → IoHub → Option Outcome × IoHub
after_wait grow handle timed_out hub = (some (fails Error.timeout), hub)
after_wait grow handle abandoned hub = (none, hub)
after_wait grow handle (completed key bytes) hub =
    (none, on_key hub key (λ pipe. accept hub pipe handle) (complete bytes))
after_wait grow handle (failed key e bytes) hub =
    (none, on_key hub key (λ pipe. fail_listen hub pipe handle e) (fail_read grow e bytes))

-- A turn of the loop in `recv`: the answers to `listen`, that of the channel, those of the pipes, and
-- the wait with the handle of a new pipe.
pub record Round : Type 0 where
  pub answers : List Answer
  pub received : TryRecv
  pub reads : ℕ → ReadStarted
  pub waited : Waited
  pub fresh : ℕ

abbrev pub is_deserted : IoHub → Bool
is_deserted hub = not hub.bus_receiver && (is_none hub.listening_pipe && is_empty hub.pipes)

-- The end of the turn, behind the reads
abbrev pub after_reads :
    (Bytes → Bytes)
    → Round
    → IoHub
    → Step (Option Read × List NamedPipe)
    → Step (Option Outcome × IoHub)
after_reads grow r hub panics = panics
after_reads grow r hub unfinished = unfinished
after_reads grow r hub (continues (some msg, pipes)) =
    continues (some (arrived msg), record hub { pipes = pipes })
after_reads grow r hub (continues (none, pipes)) =
    let hub' : IoHub = record hub { pipes = pipes } in
    continues (
      if is_deserted hub'
      then (some (fails Error.disconnect), hub')
      else after_wait grow r.fresh r.waited hub')

abbrev pub read_all : (Bytes → Bytes) → Round → IoHub → Step (Option Outcome × IoHub)
read_all grow r hub =
    after_reads grow r hub (read_pipes (suc (length hub.pipes)) r.reads 0 hub.pipes)

abbrev pub after_channel : (Bytes → Bytes) → Round → Step IoHub → Step (Option Outcome × IoHub)
after_channel grow r panics = panics
after_channel grow r unfinished = unfinished
after_channel grow r (continues hub) =
    if hub.bus_receiver
    then (elim r.received [
      | message msg ↦ continues (some (from_bus msg), hub)
      | empty ↦ read_all grow r hub
      | disconnected ↦ read_all grow r (record hub { bus_receiver = false })
    ])
    else read_all grow r hub

-- The body of the loop in `IoHub::recv`
unfoldable pub turn : (Bytes → Bytes) → Round → IoHub → Step (Option Outcome × IoHub)
unfolding hub_listen read_pipes after_wait
turn grow r hub = after_channel grow r (hub_listen r.answers hub)

abbrev pub next_turn :
    Step (Option Outcome × IoHub) → (IoHub → Step (Outcome × IoHub)) → Step (Outcome × IoHub)
next_turn panics rest = panics
next_turn unfinished rest = unfinished
next_turn (continues (some outcome, hub)) rest = continues (outcome, hub)
next_turn (continues (none, hub)) rest = rest hub

-- `IoHub::recv`
unfoldable pub recv : (Bytes → Bytes) → List Round → IoHub → Step (Outcome × IoHub)
unfolding turn
recv grow [] hub = unfinished
recv grow (r ∷ rounds) hub = next_turn (turn grow r hub) (λ hub'. recv grow rounds hub')
