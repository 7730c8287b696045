-- ===== src/Registry/Alloc.antt =====
-- ipmb/src/memory_registry.rs: `alloc_inner`, with the search for an entry that can be used again.
use ipmb.Prelude.{
  ℕ, String, ◌*◌, Bool, ◌&&◌, Option, none, some, List, [], ◌∷◌, ◌++◌, ltb, leb, ◌==◌,
  if◌then◌else◌, ◌%◌, ◌^◌,
}
use ipmb.Region.{Object, MemoryRegion, Headers, new, drop_region, ref_count, clone}
use ipmb.Registry.{Entry, Bucket, MemoryRegistry, Kernel, tag_eq, drop_guard}
use ipmb.Registry.Maintain.{maintain_inner}

-- An entry that was found: the region handed out, or `none` where `clone` fails, and the entry.
pub record Reuse (A : Type 0) : Type 0 where
  pub handed : Option MemoryRegion
  pub left : List A
  pub headers : Headers
  pub freed : List ℕ

abbrev pub reused :
    ℕ
    → Option ℕ
    → Headers
    → List ℕ
    → Entry
    → List Entry
    → Option (MemoryRegion × Headers)
    → Reuse Entry
reused now free h freed e es none = record {
  handed = none;
  left = record e { last_alloc = now } ∷ es;
  headers = h;
  freed = freed;
}
reused now free h freed e es (some (region, h')) = record {
  handed = some region;
  left = record e { last_alloc = now; guard = free } ∷ es;
  headers = h';
  freed = drop_guard e.guard freed;
}

abbrev pub behind : {A : Type 0} → A → Option (Reuse A) → Option (Reuse A)
behind a none = none
behind a (some r) = some (record r { left = a ∷ r.left })

abbrev pub is_free : Headers → Option String → Entry → Bool
is_free h tag e = ref_count h e.region == 1 && tag_eq tag e.tag

-- `for r in rs { .. }`
unfoldable pub find_entry :
    Kernel → ℕ → Option String → Option ℕ → Headers → List ℕ → List Entry → Option (Reuse Entry)
unfolding ref_count clone
find_entry k now tag free h freed [] = none
find_entry k now tag free h freed (e ∷ es) =
    let rest = find_entry k now tag free h freed es in
    if is_free h tag e
    then some (reused now free h freed e es (clone h (k.duplicate e.region.obj)))
    else behind e rest

abbrev pub in_bucket : ℕ → List Bucket → Reuse Entry → Reuse Bucket
in_bucket size bs r = record {
  handed = r.handed;
  left = (size, r.left) ∷ bs;
  headers = r.headers;
  freed = r.freed;
}

abbrev pub found_or :
    ℕ → List Bucket → Option (Reuse Entry) → Option (Reuse Bucket) → Option (Reuse Bucket)
found_or size bs none rest = rest
found_or size bs (some r) rest = some (in_bucket size bs r)

-- `for (_, rs) in self.inner.range_mut(min_size..min_size * 2) { .. }`
unfoldable pub find_bucket :
    Kernel
    → ℕ
    → ℕ
    → Option String
    → Option ℕ
    → Headers
    → List ℕ
    → List Bucket
    → Option (Reuse Bucket)
unfolding find_entry
find_bucket k now min_size tag free h freed [] = none
find_bucket k now min_size tag free h freed ((size, es) ∷ bs) =
    let rest = behind (size, es) (find_bucket k now min_size tag free h freed bs) in
    if leb min_size size && ltb size (min_size * 2)
    then found_or size bs (find_entry k now tag free h freed es) rest
    else rest

-- `self.inner.entry(min_size).or_default()`, with what is pushed
unfoldable pub push_entry : ℕ → List Entry → List Bucket → List Bucket
push_entry min_size new_entries [] = (min_size, new_entries) ∷ []
push_entry min_size new_entries ((size, es) ∷ bs) =
    let rest = push_entry min_size new_entries bs in
    if size == min_size
    then (size, es ++ new_entries) ∷ bs
    else if ltb min_size size
    then (min_size, new_entries) ∷ (size, es) ∷ bs
    else (size, es) ∷ rest

-- The clone of a new region goes into the registry; where there is none, the new region is dropped.
abbrev pub registered :
    ℕ
    → ℕ
    → Option String
    → Option ℕ
    → MemoryRegistry
    → MemoryRegion
    → Option (MemoryRegion × Headers)
    → Option MemoryRegion × MemoryRegistry
registered min_size now tag free m r none =
    (none, record m { inner = push_entry min_size [] m.inner; headers = drop_region m.headers r })
registered min_size now tag free m r (some (region, h)) = (
  some r,
  record m {
    inner =
        push_entry min_size
          (record { region = region; last_alloc = now; tag = tag; guard = free } ∷ []) m.inner;
    headers = h;
  },
)

abbrev pub create_region :
    Kernel
    → ℕ
    → ℕ
    → Option String
    → Option ℕ
    → MemoryRegistry
    → Option Object
    → Option MemoryRegion × MemoryRegistry
create_region k min_size now tag free m none = (none, m)
create_region k min_size now tag free m (some obj) =
    let (r, h) = new m.headers obj min_size in
    registered min_size now tag free (record m { headers = h }) r (clone h (k.duplicate r.obj))

abbrev pub hand_out :
    ℕ → MemoryRegistry → Option MemoryRegion → Option MemoryRegion × MemoryRegistry
hand_out now m none = (none, m)
hand_out now m (some region) = (some region, maintain_inner now m)

abbrev pub found_or_new :
    Kernel
    → ℕ
    → ℕ
    → Option String
    → Option ℕ
    → MemoryRegistry
    → Option (Reuse Bucket)
    → Option MemoryRegion × MemoryRegistry
found_or_new k now min_size tag free m none =
    create_region k min_size now tag free (maintain_inner now m) k.obj_new
found_or_new k now min_size tag free m (some r) =
    hand_out now (record { inner = r.left; headers = r.headers; freed = r.freed }) r.handed

-- The body of `alloc_inner`, where `min_size * 2` does not overflow
unfoldable pub alloc_within :
    Kernel
    → ℕ
    → ℕ
    → Option String
    → Option ℕ
    → MemoryRegistry
    → Option MemoryRegion × MemoryRegistry
unfolding maintain_inner find_bucket push_entry new drop_region clone
alloc_within k now min_size tag free m =
    found_or_new k now min_size tag free m
      (find_bucket k now min_size tag free m.headers m.freed m.inner)

-- `MemoryRegistry::alloc_inner`. `min_size * 2` wraps or panics; where it wraps, the range ends before
-- it starts, and `range_mut` panics. `none` for a panic
unfoldable pub alloc_inner :
    Kernel
    → ℕ
    → ℕ
    → Option String
    → Option ℕ
    → MemoryRegistry
    → Option (Option MemoryRegion × MemoryRegistry)
unfolding alloc_within
alloc_inner k now min_size tag free m =
    if ltb (min_size * 2 % 2 ^ 64) min_size
    then none
    else some (alloc_within k now min_size tag free m)

-- `MemoryRegistry::alloc`
abbrev pub alloc :
    Kernel → ℕ → ℕ → Option String → MemoryRegistry → Option (Option MemoryRegion × MemoryRegistry)
alloc k now min_size tag m = alloc_inner k now min_size tag none m

-- `MemoryRegistry::alloc_with_free`
abbrev pub alloc_with_free :
    Kernel
    → ℕ
    → ℕ
    → Option String
    → ℕ
    → MemoryRegistry
    → Option (Option MemoryRegion × MemoryRegistry)
alloc_with_free k now min_size tag free m = alloc_inner k now min_size tag (some free) m
