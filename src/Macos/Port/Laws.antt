-- ===== src/Macos/Port/Laws.antt =====
-- ipmb/src/platform/macos/mod.rs: each right of a port is given back once.
use ipmb.Prelude.{
  ℕ, zero, suc, ◌+◌, ◌≡◌, inl, inr, refl, subst, arith, Bool, true, false, ◌&&◌, Option, none, some,
  List, [], ◌∷◌, get_elem?, remove_at, if◌then◌else◌, ◌==◌, Bool-cases, Option-cases,
}
use ipmb.Macos.Port.{
  MachPort, Call, allocated, inserted, added, receive_released, deallocated, Task,
  with_receive_right, from_raw, into_raw, clone, released, asserts, drop_port, Action, create,
  adopt, take_apart, copy, discard, act, acts, fresh,
}

abbrev pub total : {A : Type 0} → (A → ℕ) → List A → ℕ
total f [] = 0
total f (x ∷ xs) = f x + total f xs

abbrev pub named : ℕ → ℕ → ℕ
named u n = if n == u then 1 else 0

-- The send rights and the receive rights that a call gave, or was made to give back.
abbrev pub sends_given : ℕ → Call → ℕ
sends_given u (allocated n) = 0
sends_given u (inserted n) = named u n
sends_given u (added n) = named u n
sends_given u (receive_released n) = 0
sends_given u (deallocated n) = 0

abbrev pub sends_returned : ℕ → Call → ℕ
sends_returned u (allocated n) = 0
sends_returned u (inserted n) = 0
sends_returned u (added n) = 0
sends_returned u (receive_released n) = 0
sends_returned u (deallocated n) = named u n

abbrev pub receives_given : ℕ → Call → ℕ
receives_given u (allocated n) = named u n
receives_given u (inserted n) = 0
receives_given u (added n) = 0
receives_given u (receive_released n) = 0
receives_given u (deallocated n) = 0

abbrev pub receives_returned : ℕ → Call → ℕ
receives_returned u (allocated n) = 0
receives_returned u (inserted n) = 0
receives_returned u (added n) = 0
receives_returned u (receive_released n) = named u n
receives_returned u (deallocated n) = 0

-- The rights that a value owns.
abbrev pub sends_owned : ℕ → MachPort → ℕ
sends_owned u p = named u p.port

abbrev pub receives_owned : ℕ → MachPort → ℕ
receives_owned u p = if p.receive_right then named u p.port else 0

abbrev pub IsBalanced : ℕ → Task → Type 0
IsBalanced u task =
    (total (sends_given u) task.calls + total (named u) task.adopted
      ≡ total (sends_returned u) task.calls
        + (total (sends_owned u) task.live + total (sends_owned u) task.forgotten))
    × (total (receives_given u) task.calls
        ≡ total (receives_returned u) task.calls
          + (total (receives_owned u) task.live + total (receives_owned u) task.forgotten))

total-remove_at :
    {A : Type 0} (f : A → ℕ) (xs : List A) (i : ℕ) (x : A)
    → get_elem? xs i ≡ some x
    → total f (remove_at xs i) + f x ≡ total f xs
total-remove_at f [] i x h = absurd (ground arith)
total-remove_at f (y ∷ ys) zero x h = ground arith
total-remove_at f (y ∷ ys) (suc i) x h = omega (arith, total-remove_at f ys i x h)

module _ (u : ℕ) where
  carried : (t t' : Task) → IsBalanced u t → some t ≡ some t' → IsBalanced u t'
  carried t t' b h = subst (IsBalanced u) (inside h) b
    where
      inside : some t ≡ some t' → t ≡ t'
      inside e = cc

  nothing : (t : Task) → none ≡ some t → IsBalanced u t
  nothing t h = absurd (ground arith)

  created-IsBalanced :
      (local : Option ℕ) (inserts limits : Bool) (t t' : Task)
      → IsBalanced u t
      → with_receive_right local inserts limits t ≡ some t'
      → IsBalanced u t'
  unfolding with_receive_right
  created-IsBalanced none inserts limits t t' b h = nothing t' h
  created-IsBalanced (some local) inserts limits t t' b h = elim (Bool-cases (inserts && limits)) [
    | inl e ↦ carried _ t' (omega (arith, b.0), omega (arith, b.1)) (rw e at h)
    | inr e ↦ nothing t' (rw e at h)
  ]

  into_raw-IsBalanced :
      (i : ℕ) (p : MachPort) (t : Task)
      → get_elem? t.live i ≡ some p
      → IsBalanced u t
      → IsBalanced u (into_raw i p t)
  unfolding into_raw
  into_raw-IsBalanced i p t g b = (
    omega (arith, b.0, total-remove_at (sends_owned u) t.live i p g),
    omega (arith, b.1, total-remove_at (receives_owned u) t.live i p g),
  )

  clone-IsBalanced :
      (p : MachPort) (ok : Bool) (t : Task) → IsBalanced u t → IsBalanced u (clone p ok t).1
  unfolding clone
  clone-IsBalanced p false t b = b
  clone-IsBalanced p true t b = (omega (arith, b.0), omega (arith, b.1))

  dropped-IsBalanced :
      (i : ℕ) (p : MachPort) (t : Task)
      → get_elem? t.live i ≡ some p
      → IsBalanced u t
      → IsBalanced u (record t { live = remove_at t.live i; calls = released p t.calls })
  dropped-IsBalanced i p t g b = by_right p.port p.receive_right g
    where
      by_right :
          (n : ℕ) (right : Bool)
          → get_elem? t.live i ≡ some (record { port = n; receive_right = right })
          → IsBalanced u (record t {
            live = remove_at t.live i;
            calls = released (record { port = n; receive_right = right }) t.calls;
          })
      by_right n true e = (
        omega (arith, b.0, total-remove_at (sends_owned u) t.live i _ e),
        omega (arith, b.1, total-remove_at (receives_owned u) t.live i _ e),
      )
      by_right n false e = (
        omega (arith, b.0, total-remove_at (sends_owned u) t.live i _ e),
        omega (arith, b.1, total-remove_at (receives_owned u) t.live i _ e),
      )

  drop_port-IsBalanced :
      (debug : Bool) (i : ℕ) (p : MachPort) (receive_ok send_ok : Bool) (t t' : Task)
      → get_elem? t.live i ≡ some p
      → IsBalanced u t
      → drop_port debug i p receive_ok send_ok t ≡ some t'
      → IsBalanced u t'
  unfolding drop_port
  drop_port-IsBalanced debug i p receive_ok send_ok t t' g b h =
      elim (Bool-cases (asserts debug p receive_ok send_ok)) [
        | inl e ↦ carried _ t' (dropped-IsBalanced i p t g b) (rw e at h)
        | inr e ↦ nothing t' (rw e at h)
      ]

  act-IsBalanced :
      (debug : Bool) (a : Action) (t t' : Task)
      → IsBalanced u t
      → act debug a t ≡ some t'
      → IsBalanced u t'
  unfolding act from_raw
  act-IsBalanced debug (create local inserts limits) t t' b h =
      created-IsBalanced local inserts limits t t' b h
  act-IsBalanced debug (adopt port) t t' b h =
      carried _ t' (omega (arith, b.0), omega (arith, b.1)) h
  act-IsBalanced debug (take_apart i) t t' b h = elim (Option-cases (get_elem? t.live i)) [
    | inl g ↦ nothing t' (rw g at h)
    | inr (p, g) ↦ carried _ t' (into_raw-IsBalanced i p t g b) (rw g at h)
  ]
  act-IsBalanced debug (copy i ok) t t' b h = elim (Option-cases (get_elem? t.live i)) [
    | inl g ↦ nothing t' (rw g at h)
    | inr (p, g) ↦ carried _ t' (clone-IsBalanced p ok t b) (rw g at h)
  ]
  act-IsBalanced debug (discard i receive_ok send_ok) t t' b h =
      elim (Option-cases (get_elem? t.live i)) [
        | inl g ↦ nothing t' (rw g at h)
        | inr (p, g) ↦ drop_port-IsBalanced debug i p receive_ok send_ok t t' g b (rw g at h)
      ]

  acts-IsBalanced :
      (debug : Bool) (actions : List Action) (t t' : Task)
      → IsBalanced u t
      → acts debug actions t ≡ some t'
      → IsBalanced u t'
  unfolding acts
  acts-IsBalanced debug [] t t' b h = carried t t' b h
  acts-IsBalanced debug (a ∷ rest) t t' b h = elim (Option-cases (act debug a t)) [
    | inl e ↦ nothing t' (rw e at h)
    | inr (t'', e) ↦
        acts-IsBalanced debug rest t'' t' (act-IsBalanced debug a t t'' b e) (rw e at h)
  ]

-- In every history of a process that did not panic, for each name: the send rights that it got, from
-- calls or in what it received, are those that it was made to give back, with one for each value of
-- `MachPort` that is live or that `into_raw` took apart; and the receive rights that it allocated are
-- those that it gave back, with one for each such value that owns a receive right.
pub ports-IsBalanced :
    (u : ℕ) (debug : Bool) (actions : List Action) (t : Task)
    → acts debug actions fresh ≡ some t
    → IsBalanced u t
ports-IsBalanced u debug actions t h = acts-IsBalanced u debug actions fresh t (refl, refl) h
