-- ===== src/Registry/Freshness.antt =====
-- ipmb/src/memory_registry.rs: what maintenance leaves.
use ipmb.Prelude.{ℕ, ◌-◌, ◌≡◌, true, false, List, [], ◌∷◌, ◌++◌, All, arith, ltb, is_empty}
use ipmb.Region.{Headers}
use ipmb.Registry.{Entry, Bucket, MemoryRegistry, max_age}
use ipmb.Registry.Maintain.{maintain_entry, maintain_entries, maintain_buckets, maintain_inner}

-- An entry that was allocated less than five seconds ago.
abbrev pub IsFresh : ℕ → Entry → Type 0
IsFresh now e = ltb (now - e.last_alloc) max_age ≡ true

abbrev pub IsKept : ℕ → Bucket → Type 0
IsKept now b = (is_empty b.1 ≡ false) × All (IsFresh now) b.1

All-append :
    (now : ℕ) (xs ys : List Entry)
    → All (IsFresh now) xs
    → All (IsFresh now) ys
    → All (IsFresh now) (xs ++ ys)
All-append now [] ys h k = k
All-append now (x ∷ xs) ys h k = (h.0, All-append now xs ys h.1 k)

maintain_entry-IsFresh :
    (now : ℕ) (h : Headers) (freed : List ℕ) (e : Entry)
    → All (IsFresh now) (maintain_entry now h freed e).kept
unfolding maintain_entry
maintain_entry-IsFresh now h freed e = ground arith

maintain_entries-IsFresh :
    (now : ℕ) (h : Headers) (freed : List ℕ) (es : List Entry)
    → All (IsFresh now) (maintain_entries now h freed es).kept
unfolding maintain_entries
maintain_entries-IsFresh now h freed [] = tt
maintain_entries-IsFresh now h freed (e ∷ es) =
    let one = maintain_entry now h freed e in
    All-append now one.kept _ (maintain_entry-IsFresh now h freed e)
      (maintain_entries-IsFresh now one.headers one.freed es)

maintain_buckets-IsKept :
    (now : ℕ) (h : Headers) (freed : List ℕ) (bs : List Bucket)
    → All (IsKept now) (maintain_buckets now h freed bs).kept
unfolding maintain_buckets
maintain_buckets-IsKept now h freed [] = tt
maintain_buckets-IsKept now h freed ((size, es) ∷ bs) =
    let one = maintain_entries now h freed es in
    ground (
      arith,
      maintain_entries-IsFresh now h freed es,
      maintain_buckets-IsKept now one.headers one.freed bs,
    )

-- Behind a maintenance every entry was allocated less than five seconds before, and no bucket is
-- empty.
pub maintain_inner-IsKept :
    (now : ℕ) (m : MemoryRegistry) → All (IsKept now) (maintain_inner now m).inner
unfolding maintain_inner
maintain_inner-IsKept now m = maintain_buckets-IsKept now m.headers m.freed m.inner
