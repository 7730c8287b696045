-- ===== src/Region/Mapping.antt =====
-- ipmb/src/platform/mod.rs: mapping a range of a region, on whole pages of the system.
pub mod Laws
use ipmb.Prelude.{
  ℕ, ◌+◌, ◌-◌, ◌*◌, ◌/◌, ◌%◌, Bool, true, ◌||◌, not, Option, none, some, ◌==◌, if◌then◌else◌,
}
use ipmb.Errors.{Error, Result, ok, err}
use ipmb.Util.{Bound, range_to_offset_size, usize, usize_sub}
use ipmb.Region.{Object, MappedRegion, MemoryRegion, header_length}

-- The system's mapping of memory: pages of a fixed size, and an address for each part of an
-- object that it agrees to map, given from a page's start.
pub record System : Type 0 where
  pub page_size : ℕ
  pub map : Object → ℕ → ℕ → Result ℕ Error

-- `trunc_page`: `page_mask()` is `page_size - 1`, of a power of two.
unfoldable pub trunc_page : System → ℕ → ℕ
trunc_page sys size = size / sys.page_size * sys.page_size

abbrev pub mapped_at : ℕ → ℕ → ℕ → Result ℕ Error → Result MappedRegion Error
mapped_at offset adjustment size (ok addr) =
    ok (record { offset = offset; ptr = addr + adjustment; len = size })
mapped_at offset adjustment size (err e) = err e

-- `MappedRegion::from_object`
unfoldable pub map_object : System → Object → ℕ → ℕ → Result MappedRegion Error
unfolding trunc_page
map_object sys obj offset size =
    let aligned_offset = trunc_page sys offset in
    let adjustment = offset - aligned_offset in
    mapped_at offset adjustment size (sys.map obj aligned_offset (adjustment + size))

-- `Drop for MappedRegion`: the address and the length that are unmapped
unfoldable pub unmap_args : System → MappedRegion → ℕ × ℕ
unfolding trunc_page
unmap_args sys r =
    let adjustment = r.offset - trunc_page sys r.offset in (r.ptr - adjustment, adjustment + r.len)

abbrev pub or_rest : ℕ → Option ℕ → ℕ
or_rest rest none = rest
or_rest rest (some size) = size

abbrev pub need_remap : Option MappedRegion → ℕ → ℕ → Bool
need_remap none real_offset size = true
need_remap (some buffer) real_offset size =
    not (real_offset == buffer.offset) || not (size == buffer.len)

abbrev pub remapped :
    MemoryRegion → Result MappedRegion Error → Result MappedRegion Error × MemoryRegion
remapped r (ok buffer) = (ok buffer, record r { buffer = some buffer })
remapped r (err e) = (err e, r)

abbrev pub kept : MemoryRegion → Option MappedRegion → Result MappedRegion Error × MemoryRegion
kept r none = (err Error.unknown, r)
kept r (some buffer) = (ok buffer, r)

-- `MemoryRegion::map`: the slice, and the region with its buffer
unfoldable pub map_range :
    System → MemoryRegion → Bound → Bound → Result MappedRegion Error × MemoryRegion
unfolding range_to_offset_size
map_range sys r start end =
    let (offset, bound) = range_to_offset_size start end in
    let size = or_rest (usize_sub r.buffer_size offset) bound in
    let real_offset = usize (header_length + offset) in
    if need_remap r.buffer real_offset size
    then remapped r (map_object sys r.obj real_offset size)
    else kept r r.buffer
