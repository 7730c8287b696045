-- ===== src/Ffi/Regions.antt =====
-- ipmb-ffi/src/lib.rs: regions of the C interface: made, mapped, cloned, allocated.
use ipmb.Prelude.{ℕ, ◌+◌, String, Option, none, some, ◌>>=◌}
use ipmb.Errors.{Error, Result, ok, err}
use ipmb.Region.{ℤ, pos, negsuc, Object, MappedRegion, MemoryRegion, Headers, new, clone}
use ipmb.Region.Mapping.{System, map_range}
use ipmb.Util.{included, excluded, unbounded, usize}
use ipmb.Registry.{MemoryRegistry, Kernel}
use ipmb.Registry.Alloc.{alloc, alloc_with_free}
use ipmb.Ffi.{ErrorCode, error_code_success, error_code_unknown}
use ipmb.Ffi.Boxes.{Boxes, make_box}

-- A code, and the boxes of regions: one more on success.
abbrev pub written : ℕ → Boxes MemoryRegion → Option MemoryRegion → ErrorCode × Boxes MemoryRegion
written a bs none = (error_code_unknown, bs)
written a bs (some r) = (error_code_success, make_box a r bs)

-- `ipmb_memory_region`, given what `obj_new` returned
unfoldable pub make_region :
    ℕ
    → ℕ
    → Option Object
    → Headers
    → Boxes MemoryRegion
    → (ErrorCode × Boxes MemoryRegion) × Headers
unfolding new
make_region a size none h bs = (written a bs none, h)
make_region a size (some obj) h bs = let (r, h') = new h obj size in (written a bs (some r), h')

-- The pointer and the size that is written, where the mapping succeeds; `none` is a null pointer.
abbrev pub pointer_to : Result MappedRegion Error × MemoryRegion → Option (ℕ × ℕ) × MemoryRegion
pointer_to (ok slice, r) = (some (slice.ptr, slice.len), r)
pointer_to (err e, r) = (none, r)

-- `ipmb_memory_region_map`
unfoldable pub region_map : System → MemoryRegion → ℕ → ℤ → Option (ℕ × ℕ) × MemoryRegion
unfolding map_range
region_map sys r offset (negsuc size) = pointer_to (map_range sys r (included offset) unbounded)
region_map sys r offset (pos size) =
    pointer_to (map_range sys r (included offset) (excluded (usize (offset + size))))

-- `ipmb_memory_region_clone`, given what `Object::clone` returned
unfoldable pub region_clone :
    ℕ → Option Object → Headers → Boxes MemoryRegion → (ErrorCode × Boxes MemoryRegion) × Headers
unfolding clone
region_clone a dup h bs = elim (clone h dup) [
  | none ↦ (written a bs none, h)
  | some (r, h') ↦ (written a bs (some r), h')
]

-- `ipmb_memory_registry_alloc`; `none` for a panic
unfoldable pub registry_alloc :
    ℕ
    → Kernel
    → ℕ
    → ℕ
    → Option String
    → MemoryRegistry
    → Boxes MemoryRegion
    → Option ((ErrorCode × Boxes MemoryRegion) × MemoryRegistry)
registry_alloc a k now min_size tag m bs =
    alloc k now min_size tag m >>= λ (r : Option MemoryRegion × MemoryRegistry).
    some (written a bs r.0, r.1)

abbrev pub alloc_freed :
    Kernel
    → ℕ
    → ℕ
    → Option String
    → Option ℕ
    → MemoryRegistry
    → Option (Option MemoryRegion × MemoryRegistry)
alloc_freed k now min_size tag none m = alloc k now min_size tag m
alloc_freed k now min_size tag (some free) m = alloc_with_free k now min_size tag free m

-- `ipmb_memory_registry_alloc_with_free`, where a null `free` means none
unfoldable pub registry_alloc_with_free :
    ℕ
    → Kernel
    → ℕ
    → ℕ
    → Option String
    → Option ℕ
    → MemoryRegistry
    → Boxes MemoryRegion
    → Option ((ErrorCode × Boxes MemoryRegion) × MemoryRegistry)
registry_alloc_with_free a k now min_size tag free m bs =
    alloc_freed k now min_size tag free m >>= λ (r : Option MemoryRegion × MemoryRegistry).
    some (written a bs r.0, r.1)
