-- ===== src/Endpoint/Join/Laws.antt =====
-- ipmb/src/lib.rs: when `Rule::join` returns, how long it sleeps, and what it can become.
use ipmb.Prelude.{
  ℕ, ◌+◌, ◌≤◌, ◌<◌, ◌≡◌, not, ◌⊎◌, inl, inr, Option, none, some, List, [], ◌∷◌, Option-cases, arith,
  if◌then◌else◌,
}
use ipmb.Errors.{Error, JoinError, Result, ok, err}
use ipmb.Endpoint.{Options, Rule}
use ipmb.Endpoint.Join.{
  Round, Patience, fresh, Turn, returned, waiting, again, turn, Joining, follow, join,
}

module _ {Hub : Type 0} where
  -- A round in which `look_up` ran into a timeout.
  abbrev pub times_out : Round Hub → ℕ
  times_out r = elim r.looked_up [ ok _ ↦ 0 | err e ↦ elim e [ Error.timeout ↦ 1 | _ ↦ 0 ] ]

  abbrev pub timeouts : List (Round Hub) → ℕ
  timeouts [] = 0
  timeouts (r ∷ rounds) = times_out r + timeouts rounds

  -- A turn that goes on does so with counters that satisfy a predicate.
  abbrev Continues : (Patience → Type 0) → Turn Hub → Type 0
  Continues Q (returned result) = Unit
  Continues Q (waiting p) = Q p
  Continues Q (again p) = Q p

  -- A loop that has not returned goes on from a turn that goes on.
  follow_running :
      (Q : Patience → Type 0) (end : Option ℕ) (now : ℕ) (t : Turn Hub)
      (rest : Patience → Joining Hub)
      → Continues Q t
      → (follow end now t rest).result ≡ none
      → (p : Patience) × Q p × ((rest p).result ≡ none)
  follow_running Q end now (returned result) rest c h = absurd (ground arith)
  follow_running Q end now (again p) rest c h = (p, c, h)
  follow_running Q end now (waiting p) rest c h = (p, c, ground arith)

  turn_patient :
      (options : Options) (epoch : ℕ) (p : Patience) (r : Round Hub)
      → p.timeout_count ≤ 5
      → Continues
          (λ p'. (p'.timeout_count ≡ p.timeout_count + times_out r) × (p'.timeout_count ≤ 5))
          (turn options epoch p r)
  unfolding turn
  turn_patient options epoch p r b = ground arith

  join_patient :
      (options : Options) (epoch : ℕ) (end : Option ℕ) (p : Patience) (rounds : List (Round Hub))
      → p.timeout_count ≤ 5
      → (join options epoch end p rounds).result ≡ none
      → p.timeout_count + timeouts rounds ≤ 5
  unfolding join
  join_patient options epoch end p [] b h = omega arith
  join_patient options epoch end p (r ∷ rounds) b h =
      let (p', c, k) =
        follow_running _ end r.clock (turn options epoch p r)
          (λ p'. join options epoch end p' rounds) (turn_patient options epoch p r b) h in
      omega (arith, c.0, join_patient options epoch end p' rounds c.1 k)

  -- Rounds in which the platform denies permission, to look up or, where it is asked, to register.
  abbrev pub denies : Options → Round Hub → ℕ
  denies options r = elim r.looked_up [
    | ok _ ↦ 0
    | err e ↦ elim e [
      | Error.permission_denied ↦ 1
      | Error.identifier_not_in_use ↦
          if not options.controller_affinity then 0 else elim r.registered [
            | ok _ ↦ 0
            | err f ↦ elim f [ Error.permission_denied ↦ 1 | _ ↦ 0 ]
          ]
      | _ ↦ 0
    ]
  ]

  abbrev pub denials : Options → List (Round Hub) → ℕ
  denials options [] = 0
  denials options (r ∷ rounds) = denies options r + denials options rounds

  turn_denied :
      (options : Options) (epoch : ℕ) (p : Patience) (r : Round Hub)
      → p.permission_denied_count ≤ 5
      → Continues
          (λ p'.
            (p'.permission_denied_count ≡ p.permission_denied_count + denies options r)
            × (p'.permission_denied_count ≤ 5))
          (turn options epoch p r)
  unfolding turn
  turn_denied options epoch p r b = ground arith

  join_denied :
      (options : Options) (epoch : ℕ) (end : Option ℕ) (p : Patience) (rounds : List (Round Hub))
      → p.permission_denied_count ≤ 5
      → (join options epoch end p rounds).result ≡ none
      → p.permission_denied_count + denials options rounds ≤ 5
  unfolding join
  join_denied options epoch end p [] b h = omega arith
  join_denied options epoch end p (r ∷ rounds) b h =
      let (p', c, k) =
        follow_running _ end r.clock (turn options epoch p r)
          (λ p'. join options epoch end p' rounds) (turn_denied options epoch p r b) h in
      omega (arith, c.0, join_denied options epoch end p' rounds c.1 k)

  -- Whatever the time that `join` has, it returns at the latest in the round of the sixth timeout of
  -- `look_up`, or of the sixth denial of a permission.
  pub join-gives_up :
      (options : Options) (epoch : ℕ) (end : Option ℕ) (rounds : List (Round Hub))
      → (5 < timeouts rounds) ⊎ (5 < denials options rounds)
      → (r : Result (Rule Hub) JoinError) × ((join options epoch end fresh rounds).result ≡ some r)
  join-gives_up options epoch end rounds h =
      elim (Option-cases (join options epoch end fresh rounds).result) [
        | inl n ↦ absurd (
            ground (
              arith,
              join_patient options epoch end fresh rounds,
              join_denied options epoch end fresh rounds,
            ))
        | inr s ↦ s
      ]
