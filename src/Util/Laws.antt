-- ===== src/Util/Laws.antt =====
-- ipmb/src/util/mod.rs: sizes, and the ranges that they stand for.
use native.Mathlib.Nat.{mod-eq_of_lt, div-add-mod, mod-lt}
use ipmb.Prelude.{ℕ, ◌+◌, ◌*◌, ◌/◌, ◌%◌, ◌^◌, ◌≤◌, ◌<◌, ◌≡◌, arith}
use ipmb.Util.{align4, alloc_buffer}

-- Where the argument and four more fit the width, `align4` gives the least multiple of four that is
-- not below its argument.
pub align4_lem :
    (w x : ℕ) → x + 4 ≤ 2 ^ w → (align4 w x % 4 ≡ 0) × (x ≤ align4 w x) × (align4 w x < x + 4)
unfolding align4
align4_lem w x h = ground (arith, mod-eq_of_lt {n = x / 4 * 4 + 4} {m = 2 ^ w})

-- For a unit above zero, the buffer is the least number of whole units that hold the size.
pub alloc_buffer_lem :
    (unit size : ℕ)
    → 0 < unit
    → (alloc_buffer unit size % unit ≡ 0)
      × (size ≤ alloc_buffer unit size)
      × (alloc_buffer unit size < size + unit)
unfolding alloc_buffer
alloc_buffer_lem unit size h = grind (arith, div-add-mod, mod-lt)
