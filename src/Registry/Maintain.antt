-- ===== src/Registry/Maintain.antt =====
-- ipmb/src/memory_registry.rs: `maintain_inner`.
use ipmb.Prelude.{
  ℕ, ◌-◌, Bool, true, false, none, List, [], ◌∷◌, ◌++◌, ltb, ◌==◌, if◌then◌else◌, is_empty,
}
use ipmb.Region.{Headers, drop_region, ref_count}
use ipmb.Registry.{Entry, Bucket, MemoryRegistry, drop_guard, max_age}

-- What a pass leaves of entries, with the headers and the callbacks called.
pub record Pass (A : Type 0) : Type 0 where
  pub kept : List A
  pub headers : Headers
  pub freed : List ℕ

-- An entry whose closure returned, kept or dropped: the region's reference, then the guard.
abbrev pub settle_entry : Bool → Headers → List ℕ → Entry → Pass Entry
settle_entry true h freed e = record { kept = e ∷ []; headers = h; freed = freed }
settle_entry false h freed e = record {
  kept = [];
  headers = drop_region h e.region;
  freed = drop_guard e.guard freed;
}

-- The inner closure of `maintain_inner`.
unfoldable pub maintain_entry : ℕ → Headers → List ℕ → Entry → Pass Entry
unfolding ref_count drop_region
maintain_entry now h freed e =
    let should_retain = ltb (now - e.last_alloc) max_age in
    if ref_count h e.region == 1
    then settle_entry should_retain h (drop_guard e.guard freed) (record e { guard = none })
    else settle_entry should_retain h freed e

-- `rs.retain_mut(..)`
unfoldable pub maintain_entries : ℕ → Headers → List ℕ → List Entry → Pass Entry
unfolding maintain_entry
maintain_entries now h freed [] = record { kept = []; headers = h; freed = freed }
maintain_entries now h freed (e ∷ es) =
    let one = maintain_entry now h freed e in
    let rest = maintain_entries now one.headers one.freed es in
    record rest { kept = one.kept ++ rest.kept }

-- `self.inner.retain(..)`
unfoldable pub maintain_buckets : ℕ → Headers → List ℕ → List Bucket → Pass Bucket
unfolding maintain_entries
maintain_buckets now h freed [] = record { kept = []; headers = h; freed = freed }
maintain_buckets now h freed ((size, es) ∷ bs) =
    let one = maintain_entries now h freed es in
    let rest = maintain_buckets now one.headers one.freed bs in
    record rest { kept = (if is_empty one.kept then rest.kept else (size, one.kept) ∷ rest.kept) }

-- `MemoryRegistry::maintain_inner`
unfoldable pub maintain_inner : ℕ → MemoryRegistry → MemoryRegistry
unfolding maintain_buckets
maintain_inner now m =
    let pass = maintain_buckets now m.headers m.freed m.inner in
    record { inner = pass.kept; headers = pass.headers; freed = pass.freed }
