-- ===== src/Macos/Port.antt =====
-- ipmb/src/platform/macos/mod.rs: `MachPort`, which owns a send right of the process, and the receive
-- right where it made the port.
pub mod Laws
mod Examples
use ipmb.Prelude.{
  ℕ, Bool, true, false, not, ◌&&◌, Option, none, some, List, [], ◌∷◌, ◌>>=◌, get_elem?, remove_at,
  if◌then◌else◌,
}

pub record MachPort : Type 0 where
  pub port : ℕ
  pub receive_right : Bool

-- The calls of the kernel that move rights, by the name of the port: those that gave a right, and those
-- that were made to give one back.
pub data Call : Type 0 where
  allocated inserted added : ℕ → Call
  receive_released deallocated : ℕ → Call

-- A process: its values of `MachPort`, those that `into_raw` took apart, the names that came with a send
-- right in a message or from the bootstrap server, and the calls.
pub record Task : Type 0 where
  pub live : List MachPort
  pub forgotten : List MachPort
  pub adopted : List ℕ
  pub calls : List Call

-- `MachPort::with_receive_right`, over the name that the kernel allocates and whether the right and the
-- limits could be set. `none` for a panic
unfoldable pub with_receive_right : Option ℕ → Bool → Bool → Task → Option Task
with_receive_right none inserts limits task = none
with_receive_right (some local) inserts limits task =
    if inserts && limits
    then some (record task {
      live = record { port = local; receive_right = true } ∷ task.live;
      calls = inserted local ∷ allocated local ∷ task.calls;
    })
    else none

-- `MachPort::from_raw`
unfoldable pub from_raw : ℕ → Task → Task
from_raw port task = record task {
  live = record { port = port; receive_right = false } ∷ task.live;
  adopted = port ∷ task.adopted;
}

-- `MachPort::into_raw` of the value at an index
unfoldable pub into_raw : ℕ → MachPort → Task → Task
into_raw i p task = record task { live = remove_at task.live i; forgotten = p ∷ task.forgotten }

-- `MachPort::clone`, with whether it gave a value; the value does not own the receive right.
unfoldable pub clone : MachPort → Bool → Task → Bool × Task
clone p false task = (false, task)
clone p true task = (
  true,
  record task {
    live = record { port = p.port; receive_right = false } ∷ task.live;
    calls = added p.port ∷ task.calls;
  },
)

abbrev pub released : MachPort → List Call → List Call
released p calls =
    if p.receive_right
    then deallocated p.port ∷ receive_released p.port ∷ calls
    else deallocated p.port ∷ calls

-- The assertions of `drop`, which are there in a debug build
abbrev pub asserts : Bool → MachPort → Bool → Bool → Bool
asserts debug p receive_ok send_ok =
    if debug then (if p.receive_right then receive_ok && send_ok else send_ok) else true

-- `Drop for MachPort`, over what the kernel answers. `none` for a panic
unfoldable pub drop_port : Bool → ℕ → MachPort → Bool → Bool → Task → Option Task
drop_port debug i p receive_ok send_ok task =
    if asserts debug p receive_ok send_ok
    then some (record task { live = remove_at task.live i; calls = released p task.calls })
    else none

-- What a process does with ports, by their place among its values, with what the kernel answers.
pub data Action : Type 0 where
  create : Option ℕ → Bool → Bool → Action
  adopt : ℕ → Action
  take_apart : ℕ → Action
  copy : ℕ → Bool → Action
  discard : ℕ → Bool → Bool → Action

-- One action; `none` for a panic, and where there is no value at the place.
unfoldable pub act : Bool → Action → Task → Option Task
unfolding with_receive_right from_raw into_raw clone drop_port
act debug (create local inserts limits) task = with_receive_right local inserts limits task
act debug (adopt port) task = some (from_raw port task)
act debug (take_apart i) task = get_elem? task.live i >>= λ p. some (into_raw i p task)
act debug (copy i ok) task = get_elem? task.live i >>= λ p. some (clone p ok task).1
act debug (discard i receive_ok send_ok) task =
    get_elem? task.live i >>= λ p. drop_port debug i p receive_ok send_ok task

unfoldable pub acts : Bool → List Action → Task → Option Task
unfolding act
acts debug [] task = some task
acts debug (a ∷ rest) task = act debug a task >>= λ task'. acts debug rest task'

-- A process that starts.
abbrev pub fresh : Task
fresh = record { live = []; forgotten = []; adopted = []; calls = [] }
