-- ===== src/Registry/Pending.antt =====
-- ipmb/src/memory_registry.rs: the callbacks that wait, through a pass of maintenance.
use ipmb.Prelude.{
  ℕ, ◌+◌, ◌-◌, ◌≡◌, refl, Bool, true, false, Option, none, some, List, [], ◌∷◌, ◌++◌, arith, ltb,
  is_empty, ◌==◌, if◌then◌else◌,
}
use ipmb.Region.{Headers}
use ipmb.Registry.{Entry, Bucket, drop_guard, max_age}
use ipmb.Registry.Maintain.{settle_entry, maintain_entry, maintain_entries, maintain_buckets}

-- Whether a guard has a callback.
abbrev pub waits : ℕ → Option ℕ → ℕ
waits u none = 0
waits u (some free) = if free == u then 1 else 0

-- How often a callback waits in the entries, and how often it is listed.
abbrev pub pending : ℕ → List Entry → ℕ
pending u [] = 0
pending u (e ∷ es) = waits u e.guard + pending u es

abbrev pub pending_in : ℕ → List Bucket → ℕ
pending_in u [] = 0
pending_in u (b ∷ bs) = pending u b.1 + pending_in u bs

abbrev pub times : ℕ → List ℕ → ℕ
times u [] = 0
times u (free ∷ freed) = (if free == u then 1 else 0) + times u freed

times-append : (u : ℕ) (xs ys : List ℕ) → times u (xs ++ ys) ≡ times u xs + times u ys
times-append u [] ys = omega arith
times-append u (x ∷ xs) ys = omega (arith, times-append u xs ys)

module _ (u : ℕ) where
  pub pending-append : (xs ys : List Entry) → pending u (xs ++ ys) ≡ pending u xs + pending u ys
  pending-append [] ys = omega arith
  pending-append (x ∷ xs) ys = omega (arith, pending-append xs ys)

  pub times-drop_guard :
      (guard : Option ℕ) (freed : List ℕ)
      → times u (drop_guard guard freed) ≡ times u freed + waits u guard
  times-drop_guard none freed = omega arith
  times-drop_guard (some free) freed = omega (arith, times-append u freed (free ∷ []))

  pending-settle :
      (b : Bool) (h : Headers) (freed : List ℕ) (e : Entry)
      → pending u (settle_entry b h freed e).kept + times u (settle_entry b h freed e).freed
        ≡ times u freed + waits u e.guard
  pending-settle true h freed e = omega arith
  pending-settle false h freed e = omega (arith, times-drop_guard e.guard freed)

  pending-entry :
      (now : ℕ) (h : Headers) (freed : List ℕ) (e : Entry)
      → pending u (maintain_entry now h freed e).kept + times u (maintain_entry now h freed e).freed
        ≡ times u freed + waits u e.guard
  unfolding maintain_entry
  pending-entry now h freed e =
      let b = ltb (now - e.last_alloc) max_age in
      ground (
        arith,
        pending-settle b h freed e,
        pending-settle b h (drop_guard e.guard freed) (record e { guard = none }),
        times-drop_guard e.guard freed,
      )

  pending-entries :
      (now : ℕ) (h : Headers) (freed : List ℕ) (es : List Entry)
      → pending u (maintain_entries now h freed es).kept
          + times u (maintain_entries now h freed es).freed
        ≡ times u freed + pending u es
  unfolding maintain_entries
  pending-entries now h freed [] = omega arith
  pending-entries now h freed (e ∷ es) =
      let one = maintain_entry now h freed e in
      omega (
        arith,
        pending-entry now h freed e,
        pending-entries now one.headers one.freed es,
        pending-append one.kept (maintain_entries now one.headers one.freed es).kept,
      )

  pending-is_empty : (es : List Entry) → is_empty es ≡ true → pending u es ≡ 0
  pending-is_empty [] h = refl
  pending-is_empty (e ∷ es) h = absurd (ground arith)

  pub pending-buckets :
      (now : ℕ) (h : Headers) (freed : List ℕ) (bs : List Bucket)
      → pending_in u (maintain_buckets now h freed bs).kept
          + times u (maintain_buckets now h freed bs).freed
        ≡ times u freed + pending_in u bs
  unfolding maintain_buckets
  pending-buckets now h freed [] = omega arith
  pending-buckets now h freed ((size, es) ∷ bs) =
      let one = maintain_entries now h freed es in
      ground (
        arith,
        pending-entries now h freed es,
        pending-buckets now one.headers one.freed bs,
        pending-is_empty one.kept,
      )
