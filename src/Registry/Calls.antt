-- ===== src/Registry/Calls.antt =====
-- ipmb/src/memory_registry.rs: an allocation calls only callbacks that waited, and keeps its own.
use ipmb.Prelude.{
  ℕ, String, ◌+◌, ◌*◌, ◌%◌, ◌^◌, ◌≤◌, ◌≡◌, ◌&&◌, inl, inr, Option, none, some, List, [], ◌∷◌, arith,
  ltb, leb, Bool-cases, subst,
}
use ipmb.Region.{MemoryRegion, Headers, clone}
use ipmb.Registry.{Entry, Bucket, MemoryRegistry, Kernel}
use ipmb.Registry.Alloc.{
  Reuse, reused, behind, is_free, find_entry, found_or, find_bucket, alloc_inner,
}
use ipmb.Registry.Pending.{waits, pending, pending_in, times, times-drop_guard}
use ipmb.Registry.Origin.{returned}
use ipmb.Registry.Callbacks.{callbacks, taken_over, callbacks-alloc_within}

module _ (u : ℕ) where
  -- A search that finds an entry calls only callbacks that wait in what it searches.
  abbrev pub CallsWaiting : List ℕ → ℕ → Option (List ℕ) → Type 0
  CallsWaiting freed n none = Unit
  CallsWaiting freed n (some freed') = times u freed' ≤ times u freed + n

  abbrev calls_entry : Option (Reuse Entry) → Option (List ℕ)
  calls_entry none = none
  calls_entry (some r) = some r.freed

  abbrev pub calls_bucket : Option (Reuse Bucket) → Option (List ℕ)
  calls_bucket none = none
  calls_bucket (some r) = some r.freed

  reused_calls :
      (now : ℕ) (free : Option ℕ) (h : Headers) (freed : List ℕ) (e : Entry) (es : List Entry)
      (o : Option (MemoryRegion × Headers))
      → CallsWaiting freed
          (pending u (e ∷ es))
          (calls_entry (some (reused now free h freed e es o)))
  reused_calls now free h freed e es none = omega arith
  reused_calls now free h freed e es (some (region, h')) =
      omega (arith, times-drop_guard u e.guard freed)

  behind_calls :
      (freed : List ℕ) (n : ℕ) (e : Entry) (o : Option (Reuse Entry))
      → CallsWaiting freed n (calls_entry o)
      → CallsWaiting freed (waits u e.guard + n) (calls_entry (behind e o))
  behind_calls freed n e none h = tt
  behind_calls freed n e (some r) h = omega arith

  find_entry_calls :
      (k : Kernel) (now : ℕ) (tag : Option String) (free : Option ℕ) (h : Headers) (freed : List ℕ)
      (es : List Entry)
      → CallsWaiting freed (pending u es) (calls_entry (find_entry k now tag free h freed es))
  unfolding find_entry
  find_entry_calls k now tag free h freed [] = tt
  find_entry_calls k now tag free h freed (e ∷ es) = elim (Bool-cases (is_free h tag e)) [
    | inl f ↦ rw f (reused_calls now free h freed e es (clone h (k.duplicate e.region.obj)))
    | inr n ↦ rw n (behind_calls freed _ e _ (find_entry_calls k now tag free h freed es))
  ]

  behind_bucket_calls :
      (freed : List ℕ) (n : ℕ) (b : Bucket) (o : Option (Reuse Bucket))
      → CallsWaiting freed n (calls_bucket o)
      → CallsWaiting freed (pending u b.1 + n) (calls_bucket (behind b o))
  behind_bucket_calls freed n b none h = tt
  behind_bucket_calls freed n b (some r) h = omega arith

  found_or_calls :
      (freed : List ℕ) (n m size : ℕ) (bs : List Bucket) (o : Option (Reuse Entry))
      (rest : Option (Reuse Bucket))
      → CallsWaiting freed n (calls_entry o)
      → CallsWaiting freed (n + m) (calls_bucket rest)
      → CallsWaiting freed (n + m) (calls_bucket (found_or size bs o rest))
  found_or_calls freed n m size bs none rest h k = k
  found_or_calls freed n m size bs (some r) rest h k = omega arith

  find_bucket_calls :
      (k : Kernel) (now min_size : ℕ) (tag : Option String) (free : Option ℕ) (h : Headers)
      (freed : List ℕ) (bs : List Bucket)
      → CallsWaiting freed
          (pending_in u bs)
          (calls_bucket (find_bucket k now min_size tag free h freed bs))
  unfolding find_bucket
  find_bucket_calls k now min_size tag free h freed [] = tt
  find_bucket_calls k now min_size tag free h freed ((size, es) ∷ bs) =
      let rest =
        behind_bucket_calls freed _ (size, es) _
          (find_bucket_calls k now min_size tag free h freed bs) in
      elim (Bool-cases (leb min_size size && ltb size (min_size * 2))) [
        | inl r ↦ rw r (
            found_or_calls freed (pending u es) (pending_in u bs) size bs _ _
              (find_entry_calls k now tag free h freed es) rest)
        | inr n ↦ rw n rest
      ]

  -- What an allocation makes of a callback.
  abbrev pub IsAccounted :
      Kernel
      → ℕ
      → ℕ
      → Option String
      → Option ℕ
      → MemoryRegistry
      → Option MemoryRegion × MemoryRegistry
      → Type 0
  IsAccounted k now min_size tag free m r =
      (callbacks u r.1 ≡ callbacks u m + taken_over u r.0 free)
      × CallsWaiting m.freed (pending_in u m.inner)
          (calls_bucket (find_bucket k now min_size tag free m.headers m.freed m.inner))

  -- An allocation that does not panic takes its callback over exactly where it returns a region: each
  -- callback, counted by itself, was called or waits as often behind it as before, and once more if it
  -- is the one that was taken over. Where an entry is used again, the reuse itself, before the
  -- maintenance behind it, calls only callbacks that waited in the registry.
  pub callbacks-alloc_inner :
      (k : Kernel) (now min_size : ℕ) (tag : Option String) (free : Option ℕ) (m : MemoryRegistry)
      (r : Option MemoryRegion × MemoryRegistry)
      → alloc_inner k now min_size tag free m ≡ some r
      → IsAccounted k now min_size tag free m r
  unfolding alloc_inner
  callbacks-alloc_inner k now min_size tag free m r e = (
    subst
        (λ (x : Option MemoryRegion × MemoryRegistry).
          callbacks u x.1 ≡ callbacks u m + taken_over u x.0 free)
        (returned (ltb (min_size * 2 % 2 ^ 64) min_size) _ r e)
        (callbacks-alloc_within u k now min_size tag free m),
    find_bucket_calls k now min_size tag free m.headers m.freed m.inner,
  )
