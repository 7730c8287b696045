-- ===== src/Util.antt =====
-- ipmb/src/util/mod.rs and `alloc_buffer` of ipmb/src/platform/linux.rs.
mod Examples
pub mod Laws
use ipmb.Prelude.{
  ℕ, zero, suc, ◌+◌, ◌-◌, ◌*◌, ◌/◌, ◌%◌, ◌^◌, Bool, Option, none, some, List, [], ◌∷◌, ◌++◌, ◌==◌,
  length, if◌then◌else◌, not,
}

-- `Align4::align4` at a width of `w` bits: `self & 0x3` is `x % 4`, `self & !0x3` is `x / 4 * 4`.
unfoldable pub align4 : ℕ → ℕ → ℕ
align4 w x = if not (x % 4 == 0) then (x / 4 * 4 + 4) % 2 ^ w else x

-- `alloc_buffer::<T>`: the length of the buffer, for a `T` of `unit` bytes.
unfoldable pub alloc_buffer : ℕ → ℕ → ℕ
alloc_buffer unit size =
    let buffer_t_size : ℕ = (if not (size % unit == 0) then size / unit + 1 else size / unit) in
    buffer_t_size * unit

pub data Bound : Type 0 where
  included excluded : ℕ → Bound
  unbounded : Bound

abbrev pub usize : ℕ → ℕ
usize n = n % 2 ^ 64

-- `a - b` on `usize`, as it wraps
abbrev pub usize_sub : ℕ → ℕ → ℕ
usize_sub a b = usize (a + 2 ^ 64 - b)

abbrev pub start_offset : Bound → ℕ
start_offset (included bound) = bound
start_offset (excluded bound) = usize (bound + 1)
start_offset unbounded = 0

abbrev pub end_size : Bound → ℕ → Option ℕ
end_size (included bound) offset = some (usize_sub (usize (bound + 1)) offset)
end_size (excluded bound) offset = some (usize_sub bound offset)
end_size unbounded offset = none

-- `range_to_offset_size`
unfoldable pub range_to_offset_size : Bound → Bound → ℕ × Option ℕ
range_to_offset_size start end = (start_offset start, end_size end (start_offset start))
