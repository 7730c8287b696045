-- ===== src/Linux/Buffer.antt =====
-- Reads and writes through pointers into a byte buffer, as `encode_inner` of
-- ipmb/src/platform/linux.rs and `from_local` of linux/encoded_message.rs make them.
pub mod Laws
use ipmb.Prelude.{
  ℕ, zero, suc, ◌+◌, ◌-◌, ◌*◌, ◌/◌, ◌%◌, ◌^◌, Option, none, some, List, [], ◌∷◌, length, take, drop,
  leb, if◌then◌else◌, ◌>>=◌,
}
use ipmb.Message.{Bytes}

-- A buffer of a size whose bytes nobody has written.
unfoldable pub uninitialized : (ℕ → ℕ) → ℕ → Bytes
uninitialized junk zero = []
uninitialized junk (suc n) = junk n ∷ uninitialized junk n

-- `ptr::copy_nonoverlapping` to an offset
unfoldable pub write : Bytes → ℕ → Bytes → Bytes
write [] off bytes = []
write (x ∷ xs) zero [] = x ∷ xs
write (x ∷ xs) zero (b ∷ bytes) = b ∷ write xs zero bytes
write (x ∷ xs) (suc off) bytes = x ∷ write xs off bytes

-- `slice::from_raw_parts`; `none` where the slice leaves the buffer
unfoldable pub slice? : Bytes → ℕ → ℕ → Option Bytes
slice? buf off n = if leb (off + n) (length buf) then some (take n (drop off buf)) else none

-- A `u32` in memory, least byte first.
abbrev pub u32_bytes : ℕ → Bytes
u32_bytes n = n % 256 ∷ n / 256 % 256 ∷ n / 65536 % 256 ∷ n / 16777216 % 256 ∷ []

abbrev pub u32_value : Bytes → Option ℕ
u32_value (a ∷ b ∷ c ∷ d ∷ []) = some (a + 256 * b + 65536 * c + 16777216 * d)
u32_value _ = none

-- The read of a `u32` through a pointer.
unfoldable pub read_u32 : Bytes → ℕ → Option ℕ
unfolding slice?
read_u32 buf off = do bytes ← slice? buf off 4; u32_value bytes
