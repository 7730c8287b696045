-- ===== src/Registry/Origin.antt =====
-- ipmb/src/memory_registry.rs: which regions an allocation hands out.
use ipmb.Prelude.{
  ℕ, String, ◌*◌, ◌≤◌, ◌<◌, ◌≡◌, subst, refl, true, ◌&&◌, ◌⊎◌, inl, inr, Option, none, some, List,
  [], ◌∷◌, arith, ltb, leb, Bool-cases, ◌%◌, ◌^◌, ap, Bool, false, if◌then◌else◌,
}
use ipmb.Region.{Object, MemoryRegion, Headers, ref_count, ref_count_inner, from_object, clone, new}
use ipmb.Registry.{Entry, Bucket, MemoryRegistry, Kernel, tag_eq}
use ipmb.Registry.Maintain.{maintain_inner}
use ipmb.Registry.Alloc.{
  Reuse, reused, behind, is_free, find_entry, found_or, find_bucket, registered, create_region,
  hand_out, found_or_new, alloc_inner, alloc_within,
}

-- A region of the object of an entry that nobody else refers to and that has the tag.
abbrev pub IsReused : Headers → Option String → MemoryRegion → List Entry → Type 0
IsReused h tag region [] = ⊥
IsReused h tag region (e ∷ es) =
    ((h.refs e.region.obj.target ≡ 1)
      × (tag_eq tag e.tag ≡ true)
      × (region.obj.target ≡ e.region.obj.target)
      × (region.buffer_size ≡ h.sizes e.region.obj.target))
    ⊎ IsReused h tag region es

-- The same, in a bucket of at least the size and less than twice the size.
abbrev pub IsReusedIn : Headers → ℕ → Option String → MemoryRegion → List Bucket → Type 0
IsReusedIn h min_size tag region [] = ⊥
IsReusedIn h min_size tag region (b ∷ bs) =
    ((min_size ≤ b.0) × (b.0 < min_size * 2) × IsReused h tag region b.1)
    ⊎ IsReusedIn h min_size tag region bs

module _ (k : Kernel) (same : (o d : Object) → k.duplicate o ≡ some d → d.target ≡ o.target)
    (now : ℕ) (tag : Option String) (free : Option ℕ) (h : Headers) (freed : List ℕ) where
  abbrev EntryOrigin : List Entry → Option (Reuse Entry) → Type 0
  EntryOrigin es none = Unit
  EntryOrigin es (some r) = elim r.handed [ none ↦ Unit | some region ↦ IsReused h tag region es ]

  abbrev BucketOrigin : ℕ → List Bucket → Option (Reuse Bucket) → Type 0
  BucketOrigin min_size bs none = Unit
  BucketOrigin min_size bs (some r) = elim r.handed [
    | none ↦ Unit
    | some region ↦ IsReusedIn h min_size tag region bs
  ]

  reused_origin :
      (e : Entry) (es : List Entry) (d : Option Object)
      → k.duplicate e.region.obj ≡ d
      → is_free h tag e ≡ true
      → EntryOrigin (e ∷ es) (some (reused now free h freed e es (clone h d)))
  unfolding clone ref_count from_object ref_count_inner
  reused_origin e es none q f = tt
  reused_origin e es (some d) q f =
      let t = same e.region.obj d q in inl (ground (arith), ground arith, t, ground arith)

  behind_origin :
      (e : Entry) (es : List Entry) (o : Option (Reuse Entry))
      → EntryOrigin es o
      → EntryOrigin (e ∷ es) (behind e o)
  behind_origin e es none x = tt
  behind_origin e es (some r) x = ground arith

  find_entry_origin : (es : List Entry) → EntryOrigin es (find_entry k now tag free h freed es)
  unfolding find_entry
  find_entry_origin [] = tt
  find_entry_origin (e ∷ es) = elim (Bool-cases (is_free h tag e)) [
    | inl f ↦ rw f (reused_origin e es (k.duplicate e.region.obj) refl f)
    | inr n ↦ rw n (behind_origin e es _ (find_entry_origin es))
  ]

  behind-BucketOrigin :
      (min_size : ℕ) (b : Bucket) (bs : List Bucket) (o : Option (Reuse Bucket))
      → BucketOrigin min_size bs o
      → BucketOrigin min_size (b ∷ bs) (behind b o)
  behind-BucketOrigin min_size b bs none x = tt
  behind-BucketOrigin min_size b bs (some r) x = ground arith

  found_or_origin :
      (min_size size : ℕ) (es : List Entry) (bs : List Bucket) (o : Option (Reuse Entry))
      (rest : Option (Reuse Bucket))
      → (leb min_size size && ltb size (min_size * 2)) ≡ true
      → EntryOrigin es o
      → BucketOrigin min_size ((size, es) ∷ bs) rest
      → BucketOrigin min_size ((size, es) ∷ bs) (found_or size bs o rest)
  found_or_origin min_size size es bs none rest b x y = y
  found_or_origin min_size size es bs (some r) rest b x y = ground arith

  find_bucket_origin :
      (min_size : ℕ) (bs : List Bucket)
      → BucketOrigin min_size bs (find_bucket k now min_size tag free h freed bs)
  unfolding find_bucket
  find_bucket_origin min_size [] = tt
  find_bucket_origin min_size ((size, es) ∷ bs) =
      let rest = behind-BucketOrigin min_size (size, es) bs _ (find_bucket_origin min_size bs) in
      elim (Bool-cases (leb min_size size && ltb size (min_size * 2))) [
        | inl b ↦ rw b (found_or_origin min_size size es bs _ _ b (find_entry_origin es) rest)
        | inr n ↦ rw n rest
      ]

-- A region that was created for this allocation, with the size asked for.
abbrev pub IsCreated : Kernel → ℕ → MemoryRegion → Type 0
IsCreated k min_size region =
    (obj : Object) × (k.obj_new ≡ some obj) × (region.obj ≡ obj) × (region.buffer_size ≡ min_size)

registered_origin :
    (k : Kernel) (now min_size : ℕ) (tag : Option String) (free : Option ℕ) (m : MemoryRegistry)
    (r region : MemoryRegion) (o : Option (MemoryRegion × Headers))
    → (registered min_size now tag free m r o).0 ≡ some region
    → r ≡ region
registered_origin k now min_size tag free m r region none e = absurd (ground arith)
registered_origin k now min_size tag free m r region (some c) e = cc

create_origin :
    (k : Kernel) (now min_size : ℕ) (tag : Option String) (free : Option ℕ) (m : MemoryRegistry)
    (o : Option Object) (region : MemoryRegion)
    → k.obj_new ≡ o
    → (create_region k min_size now tag free m o).0 ≡ some region
    → IsCreated k min_size region
unfolding new
create_origin k now min_size tag free m none region q e = absurd (ground arith)
create_origin k now min_size tag free m (some obj) region q e =
    subst (IsCreated k min_size)
      (registered_origin k now min_size tag free _ _ region
        (clone (new m.headers obj min_size).1 (k.duplicate obj)) e)
      (obj, q, refl, refl)

hand_out_origin :
    (now : ℕ) (m : MemoryRegistry) (o : Option MemoryRegion) (region : MemoryRegion)
    → (hand_out now m o).0 ≡ some region
    → o ≡ some region
hand_out_origin now m none region e = e
hand_out_origin now m (some r) region e = e

pub alloc_within-origin :
    (k : Kernel) (now min_size : ℕ) (tag : Option String) (free : Option ℕ) (m : MemoryRegistry)
    (region : MemoryRegion)
    → ((o d : Object) → k.duplicate o ≡ some d → d.target ≡ o.target)
    → (alloc_within k now min_size tag free m).0 ≡ some region
    → IsReusedIn m.headers min_size tag region m.inner ⊎ IsCreated k min_size region
unfolding alloc_within
alloc_within-origin k now min_size tag free m region same e =
    found (find_bucket k now min_size tag free m.headers m.freed m.inner)
      (find_bucket_origin k same now tag free m.headers m.freed min_size m.inner) e
  where
    found :
        (o : Option (Reuse Bucket))
        → BucketOrigin k same now tag free m.headers m.freed min_size m.inner o
        → (found_or_new k now min_size tag free m o).0 ≡ some region
        → IsReusedIn m.headers min_size tag region m.inner ⊎ IsCreated k min_size region
    found none x e =
        inr (create_origin k now min_size tag free (maintain_inner now m) k.obj_new region refl e)
    found (some r) x e =
        let q : r.handed ≡ some region = hand_out_origin now _ r.handed region e in
        inl (
          subst (λ o. elim o [ none ↦ Unit | some c ↦ IsReusedIn m.headers min_size tag c m.inner ])
            q x)

pub returned :
    (b : Bool) (r r' : Option MemoryRegion × MemoryRegistry)
    → (if b then none else some r) ≡ some r'
    → r ≡ r'
returned true r r' e = absurd (ground arith)
returned false r r' e = cc

-- Where the system's duplicates refer to the object that they duplicate, a region that an allocation
-- returns is either created for it with the size asked for, or refers to the object of an entry that
-- had the right tag, that nobody but the registry referred to, and that stood under a size of at least
-- the size asked for and less than twice that.
pub alloc_inner-origin :
    (k : Kernel) (now min_size : ℕ) (tag : Option String) (free : Option ℕ) (m m' : MemoryRegistry)
    (region : MemoryRegion)
    → ((o d : Object) → k.duplicate o ≡ some d → d.target ≡ o.target)
    → alloc_inner k now min_size tag free m ≡ some (some region, m')
    → IsReusedIn m.headers min_size tag region m.inner ⊎ IsCreated k min_size region
unfolding alloc_inner
alloc_inner-origin k now min_size tag free m m' region same e =
    alloc_within-origin k now min_size tag free m region same (
      ap (λ (r : Option MemoryRegion × MemoryRegistry). r.0)
        (returned (ltb (min_size * 2 % 2 ^ 64) min_size) _ _ e))
