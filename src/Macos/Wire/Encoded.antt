-- ===== src/Macos/Wire/Encoded.antt =====
-- ipmb/src/platform/macos/mod.rs: what `encode_inner` writes is a message that the kernel takes, and
-- that carries the selector and the payload.
mod Descriptors
use ipmb.Prelude.{
  ℕ, ◌+◌, ◌*◌, ◌%◌, ◌^◌, ◌≤◌, ◌<◌, ◌≡◌, inl, ◌∙◌, arith, some, List, [], ◌∷◌, length, All,
}
use ipmb.Version.{version}
use ipmb.Util.{align4}
use ipmb.Util.Laws.{align4_lem}
use ipmb.Message.{Bytes}
use ipmb.Linux.Buffer.{uninitialized, slice?, u32_bytes, read_u32}
use ipmb.Linux.Buffer.Laws.{length-uninitialized, read_u32_lem}
use ipmb.Windows.Wire.{writes}
use ipmb.Windows.Wire.Layout.{length-writes, slice?-writes_mid}
use ipmb.Macos.Wire.{
  base_size, descriptor_size, complex_bits, msg_size, header_writes, descriptor_writes,
  content_writes, mach_message,
}
use ipmb.Macos.Wire.Layout.{
  read_u32-slice?, HasPorts-same, HasCopies-same, Carries, IsSendable, slice?-writes_from,
  descriptors-IsFrom, content-IsFrom,
}
use Descriptors.{described-HasPorts, described-HasCopies}

pub align4-fits : (n : ℕ) → n + 4 ≤ 2 ^ 32 → n ≤ align4 64 n
align4-fits n h = (align4_lem 64 n (omega arith)).1

module _ (junk : ℕ → ℕ) (names : List ℕ) (sel pay : Bytes) (sel_small : length sel + 4 ≤ 2 ^ 32)
    (pay_small : length pay + 4 ≤ 2 ^ 32) where
  abbrev n : ℕ
  n = length names

  abbrev size : ℕ
  size = msg_size n sel pay

  abbrev memory : Bytes
  memory = uninitialized junk size

  abbrev headed : Bytes
  headed = writes memory (header_writes size n)

  abbrev described : Bytes
  described = writes headed (descriptor_writes base_size names)

  abbrev at : ℕ
  at = base_size + n * descriptor_size

  abbrev full : Bytes
  full = writes described (content_writes at sel pay)

  length-memory : length memory ≡ size
  length-memory = length-uninitialized junk size

  length-headed : length headed ≡ size
  length-headed = length-writes memory (header_writes size n) ∙ length-memory

  length-described : length described ≡ size
  length-described = length-writes headed (descriptor_writes base_size names) ∙ length-headed

  length-full : length full ≡ size
  length-full = length-writes described (content_writes at sel pay) ∙ length-described

  -- What stands below the descriptors stays as it was written first.
  in_header : (i : ℕ) → i + 4 ≤ base_size → slice? full i 4 ≡ slice? headed i 4
  in_header i b =
      slice?-writes_from described (content_writes at sel pay) at i 4 (omega arith)
        (content-IsFrom at sel pay)
      ∙ slice?-writes_from headed (descriptor_writes base_size names) base_size i 4 b
          (descriptors-IsFrom base_size base_size names (omega arith))

  full-bits : read_u32 full 0 ≡ some complex_bits
  full-bits = read_u32_lem full 0 complex_bits (omega arith) (
      in_header 0 (omega arith)
      ∙ slice?-writes_mid memory [] 0 (u32_bytes complex_bits)
          ((4, u32_bytes (size % 2 ^ 32))
            ∷ (8, u32_bytes 0)
            ∷ (12, u32_bytes 0)
            ∷ (16, u32_bytes 0)
            ∷ (20, u32_bytes 0)
            ∷ (24, u32_bytes (n % 2 ^ 32))
            ∷ [])
          (omega (arith, length-memory))
          (
            inl (omega arith),
            (
              inl (omega arith),
              (
                inl (omega arith),
                (inl (omega arith), (inl (omega arith), (inl (omega arith), tt))),
              ),
            ),
          ))

  full-size : size < 2 ^ 32 → read_u32 full 4 ≡ some size
  full-size few = read_u32_lem full 4 size few (
      in_header 4 (omega arith)
      ∙ slice?-writes_mid memory ((0, u32_bytes complex_bits) ∷ []) 4 (u32_bytes (size % 2 ^ 32))
          ((8, u32_bytes 0)
            ∷ (12, u32_bytes 0)
            ∷ (16, u32_bytes 0)
            ∷ (20, u32_bytes 0)
            ∷ (24, u32_bytes (n % 2 ^ 32))
            ∷ [])
          (omega (arith, length-memory))
          (
            inl (omega arith),
            (inl (omega arith), (inl (omega arith), (inl (omega arith), (inl (omega arith), tt)))),
          ))

  full-count : size < 2 ^ 32 → read_u32 full 24 ≡ some n
  full-count few = read_u32_lem full 24 n (omega arith) (
      in_header 24 (omega arith)
      ∙ slice?-writes_mid memory
          ((0, u32_bytes complex_bits)
            ∷ (4, u32_bytes (size % 2 ^ 32))
            ∷ (8, u32_bytes 0)
            ∷ (12, u32_bytes 0)
            ∷ (16, u32_bytes 0)
            ∷ (20, u32_bytes 0)
            ∷ [])
          24 (u32_bytes (n % 2 ^ 32)) [] (omega (arith, length-memory)) tt)

  -- The descriptors lie below the content.
  from_described : (i k : ℕ) → i + k ≤ at → slice? full i k ≡ slice? described i k
  from_described i k b =
      slice?-writes_from described (content_writes at sel pay) at i k b (content-IsFrom at sel pay)

  -- The message of `encode_inner` is one that the kernel takes, where its size and its names fit 32 bits.
  pub mach_message-IsSendable :
      size < 2 ^ 32
      → All (λ name. name < 2 ^ 32) names
      → IsSendable names size (mach_message junk names sel pay)
  unfolding mach_message
  mach_message-IsSendable few fit = record {
    bits = full-bits;
    sized = full-size few;
    count = full-count few;
    ports =
        HasPorts-same base_size names described full (λ i k a b. from_described i k b)
          (described-HasPorts headed base_size names (omega (arith, length-headed)) fit);
    copies =
        HasCopies-same base_size n described full (λ i k a b. from_described i k b)
          (described-HasCopies headed base_size names (omega (arith, length-headed)));
  }

  abbrev word : Bytes
  word = 0xff ∷ version.major ∷ version.minor ∷ version.patch ∷ []

  abbrev pay_at : ℕ
  pay_at = at + 8 + align4 64 (length sel)

  full-word : slice? full at 4 ≡ some word
  full-word =
      slice?-writes_mid described [] at word
        ((at + 4, u32_bytes (length sel % 2 ^ 32))
          ∷ (at + 8, sel)
          ∷ (pay_at, u32_bytes (length pay % 2 ^ 32))
          ∷ (pay_at + 4, pay)
          ∷ [])
        (omega (arith, length-described))
        (inl (omega arith), (inl (omega arith), (inl (omega arith), (inl (omega arith), tt))))

  full-sel_size : read_u32 full (at + 4) ≡ some (length sel)
  full-sel_size = read_u32_lem full (at + 4) (length sel) (omega arith) (
      slice?-writes_mid described ((at, word) ∷ []) (at + 4) (u32_bytes (length sel % 2 ^ 32))
        ((at + 8, sel) ∷ (pay_at, u32_bytes (length pay % 2 ^ 32)) ∷ (pay_at + 4, pay) ∷ [])
        (omega (arith, length-described))
        (inl (omega arith), (inl (omega arith), (inl (omega arith), tt))))

  full-sel : slice? full (at + 8) (length sel) ≡ some sel
  full-sel =
      slice?-writes_mid described ((at, word) ∷ (at + 4, u32_bytes (length sel % 2 ^ 32)) ∷ [])
        (at + 8) sel ((pay_at, u32_bytes (length pay % 2 ^ 32)) ∷ (pay_at + 4, pay) ∷ [])
        (omega (arith, length-described, align4-fits (length sel) sel_small))
        (
          inl (omega (arith, align4-fits (length sel) sel_small)),
          (inl (omega (arith, align4-fits (length sel) sel_small)), tt),
        )

  full-pay_size : read_u32 full pay_at ≡ some (length pay)
  full-pay_size = read_u32_lem full pay_at (length pay) (omega arith) (
      slice?-writes_mid described
        ((at, word) ∷ (at + 4, u32_bytes (length sel % 2 ^ 32)) ∷ (at + 8, sel) ∷ []) pay_at
        (u32_bytes (length pay % 2 ^ 32)) ((pay_at + 4, pay) ∷ []) (omega (arith, length-described))
        (inl (omega arith), tt))

  full-pay : slice? full (pay_at + 4) (length pay) ≡ some pay
  full-pay =
      slice?-writes_mid described
        ((at, word)
          ∷ (at + 4, u32_bytes (length sel % 2 ^ 32))
          ∷ (at + 8, sel)
          ∷ (pay_at, u32_bytes (length pay % 2 ^ 32))
          ∷ [])
        (pay_at + 4) pay [] (omega (arith, length-described, align4-fits (length pay) pay_small)) tt

  -- It carries the selector and the payload.
  pub mach_message-Carries :
      size < 2 ^ 32 → Carries (length names) sel pay (mach_message junk names sel pay)
  unfolding mach_message
  mach_message-Carries few = record {
    count = full-count few;
    word = full-word;
    sel_size = full-sel_size;
    sel_data = full-sel;
    pay_size = full-pay_size;
    pay_data = full-pay;
  }
