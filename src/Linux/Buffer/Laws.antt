-- ===== src/Linux/Buffer/Laws.antt =====
-- A slice of what was just written is what was written, and other slices stay.
use ipmb.Prelude.{
  ℕ, zero, suc, ◌+◌, ◌%◌, ◌^◌, ◌∙◌, ◌≤◌, ◌<◌, ◌≡◌, refl, ap, ◌⊎◌, inl, inr, some, [], ◌∷◌, arith,
  length, take, drop,
}
use ipmb.Message.{Bytes}
use ipmb.Linux.Buffer.{uninitialized, write, slice?, u32_bytes, u32_value, read_u32}

pub length-uninitialized : (junk : ℕ → ℕ) (n : ℕ) → length (uninitialized junk n) ≡ n
unfolding uninitialized
length-uninitialized junk zero = refl
length-uninitialized junk (suc n) = ap suc (length-uninitialized junk n)

pub length-write :
    (buf : Bytes) (off : ℕ) (bytes : Bytes) → length (write buf off bytes) ≡ length buf
unfolding write
length-write [] off bytes = refl
length-write (x ∷ xs) zero [] = refl
length-write (x ∷ xs) zero (b ∷ bytes) = ap suc (length-write xs zero bytes)
length-write (x ∷ xs) (suc off) bytes = ap suc (length-write xs off bytes)

take-write :
    (buf : Bytes) (off : ℕ) (bytes : Bytes)
    → off + length bytes ≤ length buf
    → take (length bytes) (drop off (write buf off bytes)) ≡ bytes
unfolding write
take-write [] zero [] h = refl
take-write [] zero (b ∷ bytes) h = absurd (omega arith)
take-write [] (suc off) bytes h = absurd (omega arith)
take-write (x ∷ xs) zero [] h = refl
take-write (x ∷ xs) zero (b ∷ bytes) h = ap (◌∷◌ b) (take-write xs zero bytes (omega arith))
take-write (x ∷ xs) (suc off) bytes h = take-write xs off bytes (omega arith)

take-write_before :
    (buf : Bytes) (off : ℕ) (bytes : Bytes) (i n : ℕ)
    → i + n ≤ off
    → take n (drop i (write buf off bytes)) ≡ take n (drop i buf)
unfolding write
take-write_before [] off bytes i n h = refl
take-write_before (x ∷ xs) zero [] i n h = refl
take-write_before (x ∷ xs) zero (b ∷ bytes) zero zero h = refl
take-write_before (x ∷ xs) zero (b ∷ bytes) zero (suc n) h = absurd (omega arith)
take-write_before (x ∷ xs) zero (b ∷ bytes) (suc i) n h = absurd (omega arith)
take-write_before (x ∷ xs) (suc off) bytes zero zero h = refl
take-write_before (x ∷ xs) (suc off) bytes zero (suc n) h =
    ap (◌∷◌ x) (take-write_before xs off bytes zero n (omega arith))
take-write_before (x ∷ xs) (suc off) bytes (suc i) n h =
    take-write_before xs off bytes i n (omega arith)

drop-write :
    (buf : Bytes) (off : ℕ) (bytes : Bytes) (i : ℕ)
    → off + length bytes ≤ i
    → drop i (write buf off bytes) ≡ drop i buf
unfolding write
drop-write [] off bytes i h = refl
drop-write (x ∷ xs) zero [] i h = refl
drop-write (x ∷ xs) zero (b ∷ bytes) zero h = absurd (omega arith)
drop-write (x ∷ xs) zero (b ∷ bytes) (suc i) h = drop-write xs zero bytes i (omega arith)
drop-write (x ∷ xs) (suc off) bytes zero h = absurd (omega arith)
drop-write (x ∷ xs) (suc off) bytes (suc i) h = drop-write xs off bytes i (omega arith)

-- What was written is read back.
pub slice?-write :
    (buf : Bytes) (off : ℕ) (bytes : Bytes)
    → off + length bytes ≤ length buf
    → slice? (write buf off bytes) off (length bytes) ≡ some bytes
unfolding slice?
slice?-write buf off bytes h =
    ground (arith, length-write buf off bytes, take-write buf off bytes h)

-- A write leaves every slice beside it alone.
pub slice?-write_beside :
    (buf : Bytes) (off : ℕ) (bytes : Bytes) (i n : ℕ)
    → (i + n ≤ off) ⊎ (off + length bytes ≤ i)
    → slice? (write buf off bytes) i n ≡ slice? buf i n
unfolding slice?
slice?-write_beside buf off bytes i n (inl h) =
    rw (length-write buf off bytes, take-write_before buf off bytes i n h)
slice?-write_beside buf off bytes i n (inr h) =
    rw (length-write buf off bytes, drop-write buf off bytes i h)

pub u32_value-u32_bytes : (n : ℕ) → n < 2 ^ 32 → u32_value (u32_bytes n) ≡ some n
u32_value-u32_bytes n h = ap some (omega arith)

-- A `u32` is read back from its bytes.
pub read_u32_lem :
    (buf : Bytes) (off n : ℕ)
    → n < 2 ^ 32
    → slice? buf off 4 ≡ some (u32_bytes (n % 2 ^ 32))
    → read_u32 buf off ≡ some n
read_u32_lem buf off n h e =
    unfold read_u32 in rw e (u32_value-u32_bytes (n % 2 ^ 32) (omega arith) ∙ ap some (omega arith))
