-- ===== src/Endpoint/Join.antt =====
-- ipmb/src/lib.rs: the loop of `Rule::join`, over what the platform answers in each round.
pub mod Deadline
pub mod Laws
pub mod Outcome
use ipmb.Prelude.{
  ℕ, ◌+◌, ◌-◌, ◌*◌, Bool, true, false, not, Option, none, some, List, [], ◌∷◌, ltb, ◌==◌,
  if◌then◌else◌,
}
use ipmb.Version.{Version}
use ipmb.Errors.{Error, JoinError, Remote, Result, ok, err}
use ipmb.Message.{EndpointId}
use ipmb.Endpoint.{Options, Client, Server, Rule, client, server}

-- One round of the loop: what `look_up` returned, what `register` returns if it is called, and the
-- clock that `wait!` reads if it is reached.
pub record Round (Hub : Type 0) : Type 0 where
  pub looked_up : Result (Hub × Remote × EndpointId) Error
  pub registered : Result EndpointId Error
  pub clock : ℕ

-- The counters of the loop.
pub record Patience : Type 0 where
  pub timeout_count : ℕ
  pub permission_denied_count : ℕ

abbrev pub fresh : Patience
fresh = record { timeout_count = 0; permission_denied_count = 0 }

-- How the body of the loop ends: with a result, at `wait!`, or at once with the next round.
pub data Turn (Hub : Type 0) : Type 0 where
  returned : Result (Rule Hub) JoinError → Turn Hub
  waiting : Patience → Turn Hub
  again : Patience → Turn Hub

abbrev pub two_seconds : ℕ
two_seconds = 2000000000

-- `wait!`: how long to sleep; `none` is the return of a timeout.
unfoldable pub wait : Option ℕ → ℕ → Option ℕ
wait none now = some two_seconds
wait (some end) now =
    let remain = end - now in
    if remain == 0 then none else some (if ltb remain two_seconds then remain else two_seconds)

abbrev pub unversioned : Version
unversioned = record { major = 0; minor = 0; patch = 0 }

-- What became of the loop: its result, or `none` where the history ends within the loop, and when
-- and how long it slept.
pub record Joining (Hub : Type 0) : Type 0 where
  pub result : Option (Result (Rule Hub) JoinError)
  pub sleeps : List (ℕ × ℕ)

module _ {Hub : Type 0} where
  abbrev pub denied : Patience → Turn Hub
  denied p =
      if ltb 5 (p.permission_denied_count + 1)
      then returned (err JoinError.permission_denied)
      else waiting (record p { permission_denied_count = p.permission_denied_count + 1 })

  abbrev pub timed_out : Patience → Turn Hub
  timed_out p =
      if ltb 5 (p.timeout_count + 1)
      then returned (err (JoinError.version_mismatch unversioned))
      else waiting (record p { timeout_count = p.timeout_count + 1 })

  -- The match on what `register` returned. A controller that runs on a thread of its own takes the
  -- platform's hub and the other end of the channel.
  abbrev pub registering : Patience → Result EndpointId Error → Turn Hub
  registering p (ok endpoint_id) = returned (
      ok (
        server (record {
          endpoint_id = endpoint_id;
          bus_sender = record { queue = []; connected = true };
          receiver = some [];
        })))
  registering p (err Error.identifier_in_use) = again p
  registering p (err Error.permission_denied) = denied p
  registering p (err e) = waiting p

  -- The body of the loop.
  unfoldable pub turn : Options → ℕ → Patience → Round Hub → Turn Hub
  turn options epoch p r = elim r.looked_up [
    | ok (io_hub, remote, endpoint_id) ↦ returned (
        ok (
          client (record {
            endpoint_id = endpoint_id;
            options = options;
            remote = remote;
            io_hub = some io_hub;
            reader_closed = false;
            epoch = epoch;
          })))
    | err e ↦ elim e [
      | Error.identifier_not_in_use ↦
          if not options.controller_affinity then waiting p else registering p r.registered
      | Error.version_mismatch v _ ↦ returned (err (JoinError.version_mismatch v))
      | Error.token_mismatch ↦ returned (err JoinError.token_mismatch)
      | Error.permission_denied ↦ denied p
      | Error.timeout ↦ timed_out p
      | _ ↦ waiting p
    ]
  ]

  abbrev pub slept : ℕ → Option ℕ → Joining Hub → Joining Hub
  slept now none rest = record { result = some (err JoinError.timeout); sleeps = [] }
  slept now (some d) rest = record rest { sleeps = (now, d) ∷ rest.sleeps }

  -- What follows a turn, given the rest of the loop.
  abbrev pub follow : Option ℕ → ℕ → Turn Hub → (Patience → Joining Hub) → Joining Hub
  follow end now (returned result) rest = record { result = some result; sleeps = [] }
  follow end now (again p) rest = rest p
  follow end now (waiting p) rest = slept now (wait end now) (rest p)

  -- `Rule::join`, with the instant at which its time is over
  unfoldable pub join : Options → ℕ → Option ℕ → Patience → List (Round Hub) → Joining Hub
  unfolding turn wait
  join options epoch end p [] = record { result = none; sleeps = [] }
  join options epoch end p (r ∷ rounds) =
      follow end r.clock (turn options epoch p r) (λ p'. join options epoch end p' rounds)
