-- ===== src/Linux/Layout.antt =====
-- ipmb/src/platform/linux.rs: where the parts of an encoded message lie in its buffer.
use ipmb.Prelude.{
  ℕ, ◌+◌, ◌*◌, ◌/◌, ◌^◌, ◌≤◌, ◌≡◌, refl, subst, inl, some, [], ◌∷◌, arith, length, ◌∙◌,
}
use native.Mathlib.Nat.{mod-eq_of_lt}
use ipmb.Version.{version}
use ipmb.Util.{align4, alloc_buffer}
use ipmb.Util.Laws.{align4_lem, alloc_buffer_lem}
use ipmb.Message.{Bytes}
use ipmb.Linux.Buffer.{uninitialized, write, slice?, u32_bytes, read_u32}
use ipmb.Linux.Buffer.Laws.{
  length-uninitialized, length-write, slice?-write, slice?-write_beside, read_u32_lem,
}
use ipmb.Linux.Encode.{iov_size, iov_bytes}

-- Five writes at rising offsets, as `encode_inner` makes them, with room for `a` bytes between the
-- two lengths.
module _ (buf word sel pay : Bytes) (a n m : ℕ) (word_fits : length word ≡ 4)
    (sel_fits : length sel ≤ a) (room : 12 + a + length pay ≤ length buf) where
  abbrev buf1 : Bytes
  buf1 = write buf 0 word

  abbrev buf2 : Bytes
  buf2 = write buf1 4 (u32_bytes n)

  abbrev buf3 : Bytes
  buf3 = write buf2 8 sel

  abbrev buf4 : Bytes
  buf4 = write buf3 (8 + a) (u32_bytes m)

  abbrev five : Bytes
  five = write buf4 (8 + a + 4) pay

  length-buf4 : length buf4 ≡ length buf
  length-buf4 =
      length-write buf3 (8 + a) (u32_bytes m)
      ∙ length-write buf2 8 sel
      ∙ length-write buf1 4 (u32_bytes n)
      ∙ length-write buf 0 word

  length-buf3 : length buf3 ≡ length buf
  length-buf3 =
      length-write buf2 8 sel ∙ length-write buf1 4 (u32_bytes n) ∙ length-write buf 0 word

  length-buf2 : length buf2 ≡ length buf
  length-buf2 = length-write buf1 4 (u32_bytes n) ∙ length-write buf 0 word

  length-five : length five ≡ length buf
  length-five = length-write buf4 (8 + a + 4) pay ∙ length-buf4

  five-payload : slice? five (8 + a + 4) (length pay) ≡ some pay
  five-payload = slice?-write buf4 (8 + a + 4) pay (omega (arith, length-buf4))

  below_payload : (i k : ℕ) → i + k ≤ 8 + a + 4 → slice? five i k ≡ slice? buf4 i k
  below_payload i k h = slice?-write_beside buf4 (8 + a + 4) pay i k (inl h)

  below_length : (i k : ℕ) → i + k ≤ 8 + a → slice? five i k ≡ slice? buf3 i k
  below_length i k h =
      below_payload i k (omega arith) ∙ slice?-write_beside buf3 (8 + a) (u32_bytes m) i k (inl h)

  below_selector : (i k : ℕ) → i + k ≤ 8 → slice? five i k ≡ slice? buf2 i k
  below_selector i k h = below_length i k (omega arith) ∙ slice?-write_beside buf2 8 sel i k (inl h)

  five-payload_size : slice? five (8 + a) 4 ≡ some (u32_bytes m)
  five-payload_size =
      below_payload (8 + a) 4 (omega arith)
      ∙ slice?-write buf3 (8 + a) (u32_bytes m) (omega (arith, length-buf3))

  five-selector : slice? five 8 (length sel) ≡ some sel
  five-selector =
      below_length 8 (length sel) (omega arith)
      ∙ slice?-write buf2 8 sel (omega (arith, length-buf2))

  five-selector_size : slice? five 4 4 ≡ some (u32_bytes n)
  five-selector_size =
      below_selector 4 4 (omega arith)
      ∙ slice?-write buf1 4 (u32_bytes n) (omega (arith, length-write buf 0 word))

  five-word : slice? five 0 4 ≡ some word
  five-word =
      below_selector 0 4 (omega arith)
      ∙ slice?-write_beside buf1 4 (u32_bytes n) 0 4 (inl (omega arith))
      ∙ subst (λ k. slice? buf1 0 k ≡ some word) word_fits (slice?-write buf 0 word (omega arith))

pub align4-32 : (n : ℕ) → n + 4 ≤ 2 ^ 32 → align4 32 n ≡ align4 64 n
unfolding align4
align4-32 n h = ground (
  arith,
  mod-eq_of_lt {n = n / 4 * 4 + 4} {m = 2 ^ 32},
  mod-eq_of_lt {n = n / 4 * 4 + 4} {m = 2 ^ 64},
)

module _ (junk : ℕ → ℕ) (sel pay : Bytes) (sel_small : length sel + 4 ≤ 2 ^ 32)
    (pay_small : length pay + 4 ≤ 2 ^ 32) where
  buffer_room :
      12 + align4 64 (length sel) + length pay
      ≤ length (uninitialized junk (alloc_buffer 4 (iov_size sel pay)))
  buffer_room = rw length-uninitialized (
      omega (
        arith,
        (alloc_buffer_lem 4 (iov_size sel pay) (omega arith)).1,
        (align4_lem 64 (length pay) (omega arith)).1,
      ))

  sel_fits : length sel ≤ align4 64 (length sel)
  sel_fits = (align4_lem 64 (length sel) (omega arith)).1

  pub iov-word :
      slice? (iov_bytes junk sel pay) 0 4
      ≡ some (0xff ∷ version.major ∷ version.minor ∷ version.patch ∷ [])
  unfolding iov_bytes
  iov-word = five-word _ _ sel pay _ _ _ refl sel_fits buffer_room

  pub iov-selector_size : read_u32 (iov_bytes junk sel pay) 4 ≡ some (length sel)
  unfolding iov_bytes
  iov-selector_size =
      read_u32_lem _ 4 (length sel) (omega arith)
        (five-selector_size _ _ sel pay _ _ _ refl sel_fits buffer_room)

  pub iov-selector : slice? (iov_bytes junk sel pay) 8 (length sel) ≡ some sel
  unfolding iov_bytes
  iov-selector = five-selector _ _ sel pay _ _ _ refl sel_fits buffer_room

  pub iov-payload_size :
      read_u32 (iov_bytes junk sel pay) (8 + align4 32 (length sel)) ≡ some (length pay)
  unfolding iov_bytes
  iov-payload_size = rw (align4-32 (length sel) sel_small) (
      read_u32_lem _ (8 + align4 64 (length sel)) (length pay) (omega arith)
        (five-payload_size _ _ sel pay _ _ _ refl sel_fits buffer_room))

  pub iov-payload :
      slice? (iov_bytes junk sel pay) (8 + align4 32 (length sel) + 4) (length pay) ≡ some pay
  unfolding iov_bytes
  iov-payload =
      rw (align4-32 (length sel) sel_small)
        (five-payload _ _ sel pay _ _ _ refl sel_fits buffer_room)
