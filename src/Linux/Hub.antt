-- ===== src/Linux/Hub.antt =====
-- ipmb/src/platform/linux.rs: `IoHub::recv`, over the events that the kernel reports.
pub mod Laws
mod Examples
use ipmb.Prelude.{
  ℕ, zero, suc, Bool, true, false, Option, none, some, List, [], ◌∷◌, ◌++◌, is_empty, any, ◌==◌,
  if◌then◌else◌,
}
use ipmb.Errors.{Error, Result, ok, err}
use ipmb.Message.{EncodedMessage}
use ipmb.Linux.Receive.{pop}

-- What `try_recv` on the channel of the controller's own messages returns.
pub data TryRecv : Type 0 where
  message : EncodedMessage → TryRecv
  empty disconnected : TryRecv

-- An event: the descriptor that is ready, with what `accept` returns if it is the listener, and what
-- `from_local` returns if it is a connection.
pub record Event : Type 0 where
  pub raw : ℕ
  pub accepted : Option ℕ
  pub arrived : Result EncodedMessage Error

-- A round of the loop: the answer of the channel, and the events of a wait; none where the wait ends
-- without any.
pub record HubRound : Type 0 where
  pub from_bus : TryRecv
  pub events : List Event

-- `IoHub`: whether the channel is there, the descriptors of the connections and of the listener, and
-- the waker's.
pub record IoHub : Type 0 where
  pub bus_rx : Bool
  pub local_list : List ℕ
  pub listener : Option ℕ
  pub waker : ℕ

-- `position` of a descriptor, as `enumerate` and `find` give it
abbrev pub position : ℕ → List ℕ → Option ℕ
position raw [] = none
position raw (x ∷ xs) =
    let rest = position raw xs in
    if raw == x then some 0 else (elim rest [ some i ↦ some (suc i) | none ↦ none ])

abbrev pub last_first : {A : Type 0} → Option (A × List A) → List A
last_first none = []
last_first (some (last, init)) = last ∷ init

-- `Vec::swap_remove`: the last element takes the place of the removed one.
abbrev pub swap_remove : {A : Type 0} → ℕ → List A → List A
swap_remove i [] = []
swap_remove zero (x ∷ xs) = last_first (pop xs)
swap_remove (suc i) (x ∷ xs) = x ∷ swap_remove i xs

abbrev pub is_listener : Option ℕ → ℕ → Bool
is_listener none raw = false
is_listener (some fd) raw = raw == fd

abbrev pub accept : IoHub → Option ℕ → IoHub
accept hub none = hub
accept hub (some fd) = record hub { local_list = hub.local_list ++ fd ∷ [] }

abbrev pub forget : IoHub → ℕ → Result EncodedMessage Error → IoHub
forget hub i (ok msg) = hub
forget hub i (err e) = record hub { local_list = swap_remove i hub.local_list }

abbrev pub from_connection :
    IoHub → Option ℕ → Result EncodedMessage Error → Option (Result EncodedMessage Error) × IoHub
from_connection hub none r = (none, hub)
from_connection hub (some i) r = (some r, forget hub i r)

-- The body of the loop over the events.
unfoldable pub handle_event : IoHub → Event → Option (Result EncodedMessage Error) × IoHub
handle_event hub ev =
    if ev.raw == hub.waker
    then (none, hub)
    else if is_listener hub.listener ev.raw
    then (none, accept hub ev.accepted)
    else from_connection hub (position ev.raw hub.local_list) ev.arrived

-- `break 'ret` ends both loops.
abbrev pub or_next :
    Option (Result EncodedMessage Error) × IoHub
    → (IoHub → Option (Result EncodedMessage Error) × IoHub)
    → Option (Result EncodedMessage Error) × IoHub
or_next (some r, hub) next = (some r, hub)
or_next (none, hub) next = next hub

-- `for ev in self.in_buffer.drain(..)`
unfoldable pub handle_events : IoHub → List Event → Option (Result EncodedMessage Error) × IoHub
unfolding handle_event
handle_events hub [] = (none, hub)
handle_events hub (ev ∷ events) = or_next (handle_event hub ev) (λ hub'. handle_events hub' events)

abbrev pub wait_events : IoHub → List Event → Option (Result EncodedMessage Error) × IoHub
wait_events hub [] = (some (err Error.timeout), hub)
wait_events hub (ev ∷ events) = handle_events hub (ev ∷ events)

-- The channel first, then the wait.
abbrev pub hub_round : IoHub → HubRound → Option (Result EncodedMessage Error) × IoHub
hub_round hub r = elim hub.bus_rx [
  | false ↦ wait_events hub r.events
  | true ↦ elim r.from_bus [
    | message msg ↦ (some (ok msg), hub)
    | empty ↦ wait_events hub r.events
    | disconnected ↦ wait_events (record hub { bus_rx = false }) r.events
  ]
]

-- `IoHub::recv`; no result where the history ends within the loop
unfoldable pub hub_recv : IoHub → List HubRound → Option (Result EncodedMessage Error) × IoHub
unfolding handle_events
hub_recv hub [] = (none, hub)
hub_recv hub (r ∷ rounds) = or_next (hub_round hub r) (λ hub'. hub_recv hub' rounds)
