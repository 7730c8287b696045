-- ===== src/Linux/Hub/Laws.antt =====
-- ipmb/src/platform/linux.rs: which connections a hub keeps.
use ipmb.Prelude.{
  ℕ, zero, suc, ◌+◌, ◌≡◌, refl, false, ◌⊎◌, inl, inr, some, List, [], ◌∷◌, ◌++◌, arith, ◌==◌,
  ==_iff, if◌then◌else◌,
}
use ipmb.Errors.{Error, ok, err, Result-cases}
use ipmb.Message.{EncodedMessage}
use ipmb.Linux.Receive.{pop}
use ipmb.Linux.Hub.{Event, IoHub, position, swap_remove, is_listener, handle_event}

-- How often a descriptor is listed.
abbrev pub count : ℕ → List ℕ → ℕ
count u [] = 0
count u (x ∷ xs) = if u == x then count u xs + 1 else count u xs

count-append : (u : ℕ) (xs ys : List ℕ) → count u (xs ++ ys) ≡ count u xs + count u ys
count-append u [] ys = omega arith
count-append u (x ∷ xs) ys = ground (arith, count-append u xs ys)

-- `pop` of a list that is not empty gives its last element and the rest.
count-pop :
    (x : ℕ) (xs : List ℕ)
    → (p : ℕ × List ℕ) × (pop (x ∷ xs) ≡ some p)
      × ((u : ℕ) → count u (p.0 ∷ p.1) ≡ count u (x ∷ xs))
count-pop x [] = ((x, []), refl, λ u. refl)
count-pop x (y ∷ xs) =
    let ((last, init), e, c) = count-pop y xs in
    ((last, x ∷ init), rw e refl, λ u. ground (arith, c u))

position-zero : (raw x : ℕ) (xs : List ℕ) → position raw (x ∷ xs) ≡ some 0 → raw ≡ x
position-zero raw x xs h = ground (arith, ==_iff raw x)

position-suc :
    (raw x i : ℕ) (xs : List ℕ) → position raw (x ∷ xs) ≡ some (suc i) → position raw xs ≡ some i
position-suc raw x i xs h = ground arith

-- Where a descriptor is found, `swap_remove` at its place takes it out once and keeps the others.
count-swap_remove :
    (u raw i : ℕ) (xs : List ℕ)
    → position raw xs ≡ some i
    → count u (swap_remove i xs) + (if u == raw then 1 else 0) ≡ count u xs
count-swap_remove u raw i [] h = absurd (ground arith)
count-swap_remove u raw zero (x ∷ []) h = ground (arith, position-zero raw x [] h)
count-swap_remove u raw zero (x ∷ y ∷ xs) h =
    let (p, e, c) = count-pop y xs in rw e (ground (arith, position-zero raw x (y ∷ xs) h, c u))
count-swap_remove u raw (suc i) (x ∷ xs) h =
    ground (arith, count-swap_remove u raw i xs (position-suc raw x i xs h))

-- A ready connection that is neither the waker nor the listener ends `recv` with what it gave. If that
-- is a message, the hub stays as it was; if it is an error, this connection is taken out of the list
-- once, and every other stays.
pub count-handle_event :
    (hub : IoHub) (ev : Event) (i u : ℕ)
    → (ev.raw == hub.waker) ≡ false
    → is_listener hub.listener ev.raw ≡ false
    → position ev.raw hub.local_list ≡ some i
    → ((handle_event hub ev).0 ≡ some ev.arrived)
      × (((m : EncodedMessage) × (ev.arrived ≡ ok m) × ((handle_event hub ev).1 ≡ hub))
          ⊎ ((e : Error) × (ev.arrived ≡ err e)
              × (count u (handle_event hub ev).1.local_list + (if u == ev.raw then 1 else 0)
                  ≡ count u hub.local_list)))
unfolding handle_event
count-handle_event hub ev i u w l p = elim (Result-cases ev.arrived) [
  | inl (m, a) ↦ rw (w, l, p, a) (refl, inl (m, refl, refl))
  | inr (e, a) ↦
      rw (w, l, p, a) (refl, inr (e, refl, count-swap_remove u ev.raw i hub.local_list p))
]
