-- ===== src/Registry/Callbacks.antt =====
-- ipmb/src/memory_registry.rs: no callback is lost, and none is called twice.
use ipmb.Prelude.{
  ℕ, String, ◌+◌, ◌*◌, ◌≡◌, subst, refl, ◌&&◌, inl, inr, Option, none, some, List, [], ◌∷◌, arith,
  ltb, leb, Bool-cases,
}
use ipmb.Region.{Object, MemoryRegion, Headers, clone, new}
use ipmb.Registry.{Entry, Bucket, MemoryRegistry, Kernel}
use ipmb.Registry.Maintain.{maintain_inner}
use ipmb.Registry.Alloc.{
  Reuse, reused, behind, is_free, find_entry, found_or, found_or_new, find_bucket, push_entry,
  registered, create_region, hand_out, alloc_within,
}
use ipmb.Registry.Pending.{
  pending, pending_in, pending-append, pending-buckets, waits, times, times-drop_guard,
}

-- The callbacks of a registry: those that wait, and those that were called.
abbrev pub callbacks : ℕ → MemoryRegistry → ℕ
callbacks u m = pending_in u m.inner + times u m.freed

-- The callback that an allocation takes over, where it succeeds.
abbrev pub taken_over : ℕ → Option MemoryRegion → Option ℕ → ℕ
taken_over u none free = 0
taken_over u (some region) free = waits u free

module _ (u : ℕ) where
  -- Maintenance calls a callback or leaves it where it waits: none is lost, and none is called and kept.
  pub callbacks-maintain :
      (now : ℕ) (m : MemoryRegistry) → callbacks u (maintain_inner now m) ≡ callbacks u m
  unfolding maintain_inner
  callbacks-maintain now m = omega (arith, pending-buckets u now m.headers m.freed m.inner)

  abbrev EntryCounts : Option ℕ → ℕ → Option (Reuse Entry) → Type 0
  EntryCounts free n none = Unit
  EntryCounts free n (some r) = pending u r.left + times u r.freed ≡ n + taken_over u r.handed free

  abbrev BucketCounts : Option ℕ → ℕ → Option (Reuse Bucket) → Type 0
  BucketCounts free n none = Unit
  BucketCounts free n (some r) =
      pending_in u r.left + times u r.freed ≡ n + taken_over u r.handed free

  reused_counts :
      (now : ℕ) (free : Option ℕ) (h : Headers) (freed : List ℕ) (e : Entry) (es : List Entry)
      (o : Option (MemoryRegion × Headers))
      → EntryCounts free
          (pending u (e ∷ es) + times u freed)
          (some (reused now free h freed e es o))
  reused_counts now free h freed e es none = omega arith
  reused_counts now free h freed e es (some (region, h')) =
      omega (arith, times-drop_guard u e.guard freed)

  behind_counts :
      (free : Option ℕ) (n : ℕ) (e : Entry) (o : Option (Reuse Entry))
      → EntryCounts free n o
      → EntryCounts free (waits u e.guard + n) (behind e o)
  behind_counts free n e none h = tt
  behind_counts free n e (some r) h = omega arith

  find_entry_counts :
      (k : Kernel) (now : ℕ) (tag : Option String) (free : Option ℕ) (h : Headers) (freed : List ℕ)
      (es : List Entry)
      → EntryCounts free (pending u es + times u freed) (find_entry k now tag free h freed es)
  unfolding find_entry
  find_entry_counts k now tag free h freed [] = tt
  find_entry_counts k now tag free h freed (e ∷ es) = elim (Bool-cases (is_free h tag e)) [
    | inl f ↦ rw f (reused_counts now free h freed e es (clone h (k.duplicate e.region.obj)))
    | inr n ↦ rw n (
        subst (λ m. EntryCounts free m (behind e (find_entry k now tag free h freed es)))
          (omega arith) (behind_counts free _ e _ (find_entry_counts k now tag free h freed es)))
  ]

  behind-BucketCounts :
      (free : Option ℕ) (n : ℕ) (b : Bucket) (o : Option (Reuse Bucket))
      → BucketCounts free n o
      → BucketCounts free (pending u b.1 + n) (behind b o)
  behind-BucketCounts free n b none h = tt
  behind-BucketCounts free n b (some r) h = omega arith

  in-BucketCounts :
      (free : Option ℕ) (n size : ℕ) (bs : List Bucket) (o : Option (Reuse Entry))
      (rest : Option (Reuse Bucket))
      → EntryCounts free n o
      → BucketCounts free (n + pending_in u bs) rest
      → BucketCounts free (n + pending_in u bs) (found_or size bs o rest)
  in-BucketCounts free n size bs none rest h k = k
  in-BucketCounts free n size bs (some r) rest h k = omega arith

  find_bucket_counts :
      (k : Kernel) (now min_size : ℕ) (tag : Option String) (free : Option ℕ) (h : Headers)
      (freed : List ℕ) (bs : List Bucket)
      → BucketCounts free
          (pending_in u bs + times u freed)
          (find_bucket k now min_size tag free h freed bs)
  unfolding find_bucket
  find_bucket_counts k now min_size tag free h freed [] = tt
  find_bucket_counts k now min_size tag free h freed ((size, es) ∷ bs) =
      let rest = behind (size, es) (find_bucket k now min_size tag free h freed bs) in
      let counts : BucketCounts free (pending u es + times u freed + pending_in u bs) rest =
        subst (λ m. BucketCounts free m rest) (omega arith)
          (behind-BucketCounts free _ (size, es) _
            (find_bucket_counts k now min_size tag free h freed bs)) in
      let total : pending u es + times u freed + pending_in u bs
          ≡ pending u es + pending_in u bs + times u freed =
        omega arith in
      elim (Bool-cases (leb min_size size && ltb size (min_size * 2))) [
        | inl r ↦ rw r (
            subst
              (λ m.
                BucketCounts free m (found_or size bs (find_entry k now tag free h freed es) rest))
              total
              (in-BucketCounts free _ size bs (find_entry k now tag free h freed es) rest
                (find_entry_counts k now tag free h freed es) counts))
        | inr n ↦ rw n (subst (λ m. BucketCounts free m rest) total counts)
      ]

  pending-push_entry :
      (size : ℕ) (new_entries : List Entry) (bs : List Bucket)
      → pending_in u (push_entry size new_entries bs) ≡ pending_in u bs + pending u new_entries
  unfolding push_entry
  pending-push_entry size new_entries [] = omega arith
  pending-push_entry size new_entries ((n, es) ∷ bs) =
      ground (arith, pending-append u es new_entries, pending-push_entry size new_entries bs)

  registered_counts :
      (min_size now : ℕ) (tag : Option String) (free : Option ℕ) (m : MemoryRegistry)
      (r : MemoryRegion) (o : Option (MemoryRegion × Headers))
      → callbacks u (registered min_size now tag free m r o).1
        ≡ callbacks u m + taken_over u (registered min_size now tag free m r o).0 free
  registered_counts min_size now tag free m r none =
      omega (arith, pending-push_entry min_size [] m.inner)
  registered_counts min_size now tag free m r (some (region, h)) = omega (
    arith,
    pending-push_entry min_size
        (record { region = region; last_alloc = now; tag = tag; guard = free } ∷ []) m.inner,
  )

  create_counts :
      (k : Kernel) (min_size now : ℕ) (tag : Option String) (free : Option ℕ) (m : MemoryRegistry)
      (o : Option Object)
      → callbacks u (create_region k min_size now tag free m o).1
        ≡ callbacks u m + taken_over u (create_region k min_size now tag free m o).0 free
  create_counts k min_size now tag free m none = omega arith
  create_counts k min_size now tag free m (some obj) =
      let (r, h) = new m.headers obj min_size in
      registered_counts min_size now tag free (record m { headers = h }) r
        (clone h (k.duplicate r.obj))

  hand_out_counts :
      (now : ℕ) (free : Option ℕ) (m : MemoryRegistry) (o : Option MemoryRegion)
      → callbacks u (hand_out now m o).1 + taken_over u o free
        ≡ callbacks u m + taken_over u (hand_out now m o).0 free
  hand_out_counts now free m none = refl
  hand_out_counts now free m (some region) = omega (arith, callbacks-maintain now m)

  found_counts :
      (k : Kernel) (now min_size : ℕ) (tag : Option String) (free : Option ℕ) (m : MemoryRegistry)
      (o : Option (Reuse Bucket))
      → BucketCounts free (pending_in u m.inner + times u m.freed) o
      → callbacks u (found_or_new k now min_size tag free m o).1
        ≡ callbacks u m + taken_over u (found_or_new k now min_size tag free m o).0 free
  found_counts k now min_size tag free m none h = omega (
    arith,
    create_counts k min_size now tag free (maintain_inner now m) k.obj_new,
    callbacks-maintain now m,
  )
  found_counts k now min_size tag free m (some r) h = omega (
    arith,
    hand_out_counts now free (record { inner = r.left; headers = r.headers; freed = r.freed })
        r.handed,
  )

  pub callbacks-alloc_within :
      (k : Kernel) (now min_size : ℕ) (tag : Option String) (free : Option ℕ) (m : MemoryRegistry)
      → callbacks u (alloc_within k now min_size tag free m).1
        ≡ callbacks u m + taken_over u (alloc_within k now min_size tag free m).0 free
  unfolding alloc_within
  callbacks-alloc_within k now min_size tag free m =
      found_counts k now min_size tag free m _
        (find_bucket_counts k now min_size tag free m.headers m.freed m.inner)
