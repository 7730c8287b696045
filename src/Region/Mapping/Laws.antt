-- ===== src/Region/Mapping/Laws.antt =====
-- ipmb/src/platform/mod.rs: a mapping covers the range asked for, and is undone exactly.
use native.Mathlib.Nat.{div-add-mod', mul-mod_left}
use ipmb.Prelude.{ℕ, ◌+◌, ◌-◌, ◌/◌, ◌%◌, ◌^◌, ◌≤◌, ◌<◌, ◌≡◌, refl, arith}
use ipmb.Errors.{ok}
use ipmb.Util.{included, excluded, unbounded}
use ipmb.Region.{Object, MappedRegion, MemoryRegion, header_length}
use ipmb.Region.Mapping.{System, trunc_page, map_object, unmap_args, map_range}

trunc_page-mod : (sys : System) (n : ℕ) → trunc_page sys n % sys.page_size ≡ 0
unfolding trunc_page
trunc_page-mod sys n = mul-mod_left (n / sys.page_size) sys.page_size

pub trunc_page-le : (sys : System) (n : ℕ) → trunc_page sys n ≤ n
unfolding trunc_page
trunc_page-le sys n = omega (arith, div-add-mod' n sys.page_size)

-- Where the system maps the pages around a range, `from_object` succeeds with a slice of the wanted
-- offset and length, the system was asked from a page's start, and dropping the slice unmaps exactly
-- what was mapped.
pub map_object_lem :
    (sys : System) (obj : Object) (offset size addr : ℕ)
    → sys.map obj (trunc_page sys offset) (offset - trunc_page sys offset + size) ≡ ok addr
    → (r : MappedRegion) × (map_object sys obj offset size ≡ ok r)
      × (r.len ≡ size)
      × (r.offset ≡ offset)
      × (trunc_page sys offset % sys.page_size ≡ 0)
      × (unmap_args sys r ≡ (addr, offset - trunc_page sys offset + size))
unfolding map_object unmap_args
map_object_lem sys obj offset size addr h = (
  record { offset = offset; ptr = addr + (offset - trunc_page sys offset); len = size },
  ground (arith),
  refl,
  refl,
  trunc_page-mod sys offset,
  ground (arith),
)

-- For a range inside the buffer whose end fits 64 bits behind the header, a slice that `map` returns
-- starts `start` bytes behind the header and ends `end` bytes behind it, whether the old mapping
-- serves or a new one is made, and the object stays.
pub map_range_covers :
    (sys : System) (r r' : MemoryRegion) (start end : ℕ) (buffer : MappedRegion)
    → start ≤ end
    → end ≤ r.buffer_size
    → r.buffer_size + header_length < 2 ^ 64
    → map_range sys r (included start) (excluded end) ≡ (ok buffer, r')
    → (buffer.offset ≡ header_length + start) × (buffer.len ≡ end - start) × (r'.obj ≡ r.obj)
unfolding map_range map_object
map_range_covers sys r r' start end buffer h k b e = ground (arith)

pub map_range_rest :
    (sys : System) (r r' : MemoryRegion) (start : ℕ) (buffer : MappedRegion)
    → start ≤ r.buffer_size
    → r.buffer_size + header_length < 2 ^ 64
    → map_range sys r (included start) unbounded ≡ (ok buffer, r')
    → (buffer.offset ≡ header_length + start) × (buffer.len ≡ r.buffer_size - start)
unfolding map_range map_object
map_range_rest sys r r' start buffer k b e = ground arith
