-- ===== src/Endpoint/Join/Outcome.antt =====
-- ipmb/src/lib.rs: what an endpoint is when `Rule::join` has succeeded.
use ipmb.Prelude.{ℕ, ◌≡◌, subst, true, false, Option, none, some, List, [], ◌∷◌, arith}
use ipmb.Errors.{JoinError, Result, ok, err}
use ipmb.Endpoint.{Options, Rule, client, server}
use ipmb.Endpoint.Join.{
  Round, Patience, fresh, Turn, returned, waiting, again, turn, Joining, follow, join,
}

module _ {Hub : Type 0} where
  -- A client keeps the options and the epoch and can read; only with controller affinity is the
  -- endpoint a server, and then it can send and read.
  abbrev pub IsJoined : Options → ℕ → Rule Hub → Type 0
  IsJoined options epoch (client c) =
      (c.options ≡ options)
      × (c.epoch ≡ epoch)
      × (c.reader_closed ≡ false)
      × ((hub : Hub) × (c.io_hub ≡ some hub))
  IsJoined options epoch (server s) =
      (options.controller_affinity ≡ true)
      × (s.bus_sender.connected ≡ true)
      × (s.receiver ≡ some [])

  abbrev IsOutcome : Options → ℕ → Option (Result (Rule Hub) JoinError) → Type 0
  IsOutcome options epoch none = Unit
  IsOutcome options epoch (some (ok rule)) = IsJoined options epoch rule
  IsOutcome options epoch (some (err e)) = Unit

  abbrev IsFinal : Options → ℕ → Turn Hub → Type 0
  IsFinal options epoch (returned result) = IsOutcome options epoch (some result)
  IsFinal options epoch (waiting p) = Unit
  IsFinal options epoch (again p) = Unit

  turn-IsFinal :
      (options : Options) (epoch : ℕ) (p : Patience) (r : Round Hub)
      → IsFinal options epoch (turn options epoch p r)
  unfolding turn
  turn-IsFinal options epoch p r = ground arith

  follow-IsOutcome :
      (options : Options) (epoch : ℕ) (end : Option ℕ) (now : ℕ) (t : Turn Hub)
      (rest : Patience → Joining Hub)
      → IsFinal options epoch t
      → ((p : Patience) → IsOutcome options epoch (rest p).result)
      → IsOutcome options epoch (follow end now t rest).result
  follow-IsOutcome options epoch end now (returned result) rest f h = f
  follow-IsOutcome options epoch end now (again p) rest f h = h p
  follow-IsOutcome options epoch end now (waiting p) rest f h = ground (arith, h p)

  join-IsOutcome :
      (options : Options) (epoch : ℕ) (end : Option ℕ) (p : Patience) (rounds : List (Round Hub))
      → IsOutcome options epoch (join options epoch end p rounds).result
  unfolding join
  join-IsOutcome options epoch end p [] = tt
  join-IsOutcome options epoch end p (r ∷ rounds) =
      follow-IsOutcome options epoch end r.clock (turn options epoch p r)
        (λ p'. join options epoch end p' rounds) (turn-IsFinal options epoch p r)
        (λ p'. join-IsOutcome options epoch end p' rounds)

  outcome-IsJoined :
      (options : Options) (epoch : ℕ) (o : Option (Result (Rule Hub) JoinError)) (rule : Rule Hub)
      → IsOutcome options epoch o
      → o ≡ some (ok rule)
      → IsJoined options epoch rule
  outcome-IsJoined options epoch none rule i e = absurd (ground arith)
  outcome-IsJoined options epoch (some (err f)) rule i e = absurd (ground arith)
  outcome-IsJoined options epoch (some (ok r)) rule i e =
      let q : r ≡ rule = ground arith in subst (IsJoined options epoch) q i

  -- An endpoint that a successful `join` gives is a client with these options and this epoch that can
  -- read, or a server, which only options with controller affinity allow.
  pub join-IsJoined :
      (options : Options) (epoch : ℕ) (end : Option ℕ) (rounds : List (Round Hub)) (rule : Rule Hub)
      → (join options epoch end fresh rounds).result ≡ some (ok rule)
      → IsJoined options epoch rule
  join-IsJoined options epoch end rounds rule e =
      outcome-IsJoined options epoch _ rule (join-IsOutcome options epoch end fresh rounds) e
