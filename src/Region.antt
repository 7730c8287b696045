-- ===== src/Region.antt =====
-- ipmb/src/platform/mod.rs: memory regions that processes share, with a count of references in
-- the first four bytes of the shared memory.
pub mod Counting
mod Examples
pub mod Mapping
use ipmb.Prelude.{
  ℕ, zero, suc, ◌+◌, ◌-◌, ◌%◌, ◌^◌, ◌*◌, ◌/◌, Bool, true, false, not, ◌||◌, Option, none, some,
  ◌==◌, if◌then◌else◌, List, [], ◌∷◌,
}
use ipmb.Errors.{Result, ok, err, Error}

-- A handle of the operating system: its raw value, and the kernel object that it refers to. A
-- duplicate has another raw value and the same target.
pub record Object : Type 0 where
  pub raw : ℕ
  pub target : ℕ

-- A part of an object that is mapped into memory: `buffer` is the slice of `len` bytes at `ptr`.
pub record MappedRegion : Type 0 where
  pub offset : ℕ
  pub ptr : ℕ
  pub len : ℕ

pub record MemoryRegion : Type 0 where
  pub buffer_size : ℕ
  pub buffer : Option MappedRegion
  pub obj : Object

-- The headers of the shared memories, by kernel object: the `AtomicU32` and the size behind it.
pub record Headers : Type 0 where
  pub refs : ℕ → ℕ
  pub sizes : ℕ → ℕ

abbrev pub update {ℓ} : {A : Type ℓ} → (ℕ → A) → ℕ → A → ℕ → A
update f t a u = if t == u then a else f u

-- An `i32`: `negsuc n` is -(n + 1).
pub data ℤ : Type 0 where
  pos : ℕ → ℤ
  negsuc : ℕ → ℤ

abbrev pub u32 : ℕ → ℕ
u32 n = n % 2 ^ 32

-- `MemoryRegion::ref_count_inner` on the header of a target: the value before, and the headers
-- after. `fetch_add` and `fetch_sub` wrap.
unfoldable pub ref_count_inner : Headers → ℕ → ℤ → ℕ × Headers
ref_count_inner h t (pos zero) = (h.refs t, h)
ref_count_inner h t (pos (suc n)) =
    (h.refs t, record h { refs = update h.refs t (u32 (h.refs t + suc n)) })
ref_count_inner h t (negsuc n) =
    (h.refs t, record h { refs = update h.refs t (u32 (h.refs t + 2 ^ 32 - u32 (suc n))) })

abbrev pub header_reference_count : ℕ
header_reference_count = 4

abbrev pub header_buffer_size : ℕ
header_buffer_size = 8

-- `MemoryRegion::header_length`
abbrev pub header_length : ℕ
header_length = header_reference_count + header_buffer_size

-- `MemoryRegion::new` behind a successful `obj_new`, which gave a zeroed object.
unfoldable pub new : Headers → Object → ℕ → MemoryRegion × Headers
new h obj size = (
  record { buffer_size = size; buffer = none; obj = obj },
  record { refs = update h.refs obj.target 1; sizes = update h.sizes obj.target size },
)

-- `MemoryRegion::from_object`
unfoldable pub from_object : Headers → Object → MemoryRegion × Headers
from_object h obj = (
  record { buffer_size = h.sizes obj.target; buffer = none; obj = obj },
  (ref_count_inner h obj.target (pos 1)).1,
)

-- `Drop for MemoryRegion`
unfoldable pub drop_region : Headers → MemoryRegion → Headers
drop_region h r = (ref_count_inner h r.obj.target (negsuc 0)).1

-- `MemoryRegion::ref_count`
unfoldable pub ref_count : Headers → MemoryRegion → ℕ
ref_count h r = (ref_count_inner h r.obj.target (pos 0)).0

-- `MemoryRegion::clone`, given what `Object::clone` (`dup`) returned
unfoldable pub clone : Headers → Option Object → Option (MemoryRegion × Headers)
clone h none = none
clone h (some obj) = some (from_object h obj)

-- `for r in memory_regions { r.ref_count_inner(1) }`, before a message is written
unfoldable pub add_refs : Headers → List MemoryRegion → Headers
unfolding ref_count_inner
add_refs h [] = h
add_refs h (r ∷ rs) = add_refs (ref_count_inner h r.obj.target (pos 1)).1 rs

-- `for r in memory_regions { r.ref_count_inner(-1) }`, where the write failed
unfoldable pub sub_refs : Headers → List MemoryRegion → Headers
unfolding ref_count_inner
sub_refs h [] = h
sub_refs h (r ∷ rs) = sub_refs (ref_count_inner h r.obj.target (negsuc 0)).1 rs

-- One region of a received message: `from_object`, then `ref_count_inner(-1)`.
unfoldable pub receive_region : Headers → Object → MemoryRegion × Headers
unfolding from_object ref_count_inner
receive_region h obj =
    let (r, h') = from_object h obj in (r, (ref_count_inner h' obj.target (negsuc 0)).1)

-- The regions of a received message, in order.
unfoldable pub receive_regions : Headers → List Object → List MemoryRegion × Headers
unfolding receive_region
receive_regions h [] = ([], h)
receive_regions h (obj ∷ objs) =
    let (r, h') = receive_region h obj in let (rs, h'') = receive_regions h' objs in (r ∷ rs, h'')
