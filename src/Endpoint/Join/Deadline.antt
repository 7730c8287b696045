-- ===== src/Endpoint/Join/Deadline.antt =====
-- ipmb/src/lib.rs: `Rule::join` and the time that it was given.
use ipmb.Prelude.{
  ℕ, ◌+◌, ◌≤◌, ◌<◌, ◌≡◌, refl, Bool, true, false, not, ◌&&◌, ◌⊎◌, inl, inr, Option-cases, Option,
  none, some, List, [], ◌∷◌, any, All, arith, leb, Bool-cases,
}
use ipmb.Errors.{Error, JoinError, Result, ok, err}
use ipmb.Endpoint.{Options, Rule}
use ipmb.Endpoint.Join.{
  Round, Patience, fresh, Turn, returned, waiting, again, two_seconds, wait, turn, Joining, follow,
  join,
}

-- A sleep, from when and how long: not empty, at most two seconds, and over by the deadline.
abbrev pub IsTimely : ℕ → ℕ × ℕ → Type 0
IsTimely e s = (0 < s.1) × (s.1 ≤ two_seconds) × (s.0 + s.1 ≤ e)

module _ {Hub : Type 0} where
  -- A round that finds no controller, and then finds the identifier taken.
  abbrev pub races : Options → Round Hub → Bool
  races options r = elim r.looked_up [
    | ok _ ↦ false
    | err e ↦ elim e [
      | Error.identifier_not_in_use ↦ elim options.controller_affinity [
        | false ↦ false
        | true ↦ elim r.registered [
          | ok _ ↦ false
          | err f ↦ elim f [ Error.identifier_in_use ↦ true | _ ↦ false ]
        ]
      ]
      | _ ↦ false
    ]
  ]

  abbrev goes_again : Turn Hub → Bool
  goes_again (returned result) = false
  goes_again (waiting p) = false
  goes_again (again p) = true

  goes_again-turn :
      (options : Options) (epoch : ℕ) (p : Patience) (r : Round Hub)
      → goes_again (turn options epoch p r) ≡ races options r
  unfolding turn
  goes_again-turn options epoch p r = ground arith

  follow_late :
      (e now : ℕ) (t : Turn Hub) (rest : Patience → Joining Hub)
      → (((p : Patience) → (rest p).result ≡ none → ⊥) ⊎ ((goes_again t ≡ false) × (e ≤ now)))
      → (follow (some e) now t rest).result ≡ none
      → ⊥
  unfolding wait
  follow_late e now (returned result) rest h k = ground arith
  follow_late e now (waiting p) rest (inl h) k = h p (ground arith)
  follow_late e now (waiting p) rest (inr h) k = ground arith
  follow_late e now (again p) rest (inl h) k = h p k
  follow_late e now (again p) rest (inr h) k = ground arith

  -- A round at or past the end is the last one.
  abbrev pub is_late : Options → ℕ → Round Hub → Bool
  is_late options e r = not (races options r) && leb e r.clock

  join_late :
      (options : Options) (epoch e : ℕ) (p : Patience) (rounds : List (Round Hub))
      → any (is_late options e) rounds ≡ true
      → (join options epoch (some e) p rounds).result ≡ none
      → ⊥
  unfolding join
  join_late options epoch e p [] h k = ground arith
  join_late options epoch e p (r ∷ rounds) h k =
      follow_late e r.clock (turn options epoch p r) (λ p'. join options epoch (some e) p' rounds)
        (elim (Bool-cases (is_late options e r)) [
          | inl l ↦ inr (ground (arith, goes_again-turn options epoch p r))
          | inr l ↦ inl (λ p' n. join_late options epoch e p' rounds (ground arith) n)
        ])
        k

  -- A join with a deadline returns, at the latest in the first round that does not race and whose
  -- clock is at or past the deadline.
  pub join-deadline :
      (options : Options) (epoch e : ℕ) (rounds : List (Round Hub))
      → any (is_late options e) rounds ≡ true
      → (r : Result (Rule Hub) JoinError) × ((join options epoch (some e) fresh rounds).result
          ≡ some r)
  join-deadline options epoch e rounds h =
      elim (Option-cases (join options epoch (some e) fresh rounds).result) [
        | inl n ↦ absurd (join_late options epoch e fresh rounds h n)
        | inr s ↦ s
      ]

  follow-sleeps :
      (e now : ℕ) (t : Turn Hub) (rest : Patience → Joining Hub)
      → ((p : Patience) → All (IsTimely e) (rest p).sleeps)
      → All (IsTimely e) (follow (some e) now t rest).sleeps
  unfolding wait
  follow-sleeps e now (returned result) rest h = tt
  follow-sleeps e now (again p) rest h = h p
  follow-sleeps e now (waiting p) rest h = ground (arith, h p)

  join-IsTimely :
      (options : Options) (epoch e : ℕ) (p : Patience) (rounds : List (Round Hub))
      → All (IsTimely e) (join options epoch (some e) p rounds).sleeps
  unfolding join
  join-IsTimely options epoch e p [] = tt
  join-IsTimely options epoch e p (r ∷ rounds) =
      follow-sleeps e r.clock (turn options epoch p r) (λ p'. join options epoch (some e) p' rounds)
        (λ p'. join-IsTimely options epoch e p' rounds)

  -- Every sleep of a join with a deadline lasts at most two seconds, more than no time, and is over
  -- by the deadline.
  pub join-sleeps :
      (options : Options) (epoch e : ℕ) (rounds : List (Round Hub))
      → All (IsTimely e) (join options epoch (some e) fresh rounds).sleeps
  join-sleeps options epoch e rounds = join-IsTimely options epoch e fresh rounds

  turn-races :
      (options : Options) (epoch : ℕ) (p : Patience) (r : Round Hub)
      → races options r ≡ true
      → turn options epoch p r ≡ again p
  unfolding turn
  turn-races options epoch p r h = ground arith

  -- While every round races, a join neither returns nor sleeps, whatever its deadline is.
  pub join-races :
      (options : Options) (epoch : ℕ) (end : Option ℕ) (p : Patience) (rounds : List (Round Hub))
      → All (λ r. races options r ≡ true) rounds
      → ((join options epoch end p rounds).result ≡ none)
        × ((join options epoch end p rounds).sleeps ≡ [])
  unfolding join
  join-races options epoch end p [] h = (refl, refl)
  join-races options epoch end p (r ∷ rounds) h =
      rw (turn-races options epoch p r h.0) (join-races options epoch end p rounds h.1)
