-- ===== src/Macos/Wire/Encoded/Descriptors.antt =====
-- ipmb/src/platform/macos/mod.rs: the descriptors that `encode_inner` writes are found in the message.
use ipmb.Prelude.{
  ℕ, ◌+◌, ◌*◌, ◌%◌, ◌^◌, ◌≤◌, ◌<◌, ◌≡◌, inl, refl, subst, arith, some, List, [], ◌∷◌, length, All,
}
use ipmb.Message.{Bytes}
use ipmb.Linux.Buffer.{u32_bytes, read_u32}
use ipmb.Linux.Buffer.Laws.{read_u32_lem}
use ipmb.Windows.Wire.{writes}
use ipmb.Windows.Wire.Layout.{IsBeside, length-writes, slice?-writes_mid}
use ipmb.Macos.Wire.{descriptor_size, copy_send, port_descriptor, descriptor_writes, read_u8}
use ipmb.Macos.Wire.Layout.{read_u8_lem, HasPorts, HasCopies, descriptors-IsFrom, From-Beside}

-- The fields of a descriptor, before others are written.
module _ (buf : Bytes) (off name : ℕ) (names : List ℕ)
    (room : off + descriptor_size ≤ length buf) where
  abbrev after : List (ℕ × Bytes)
  after = descriptor_writes (off + descriptor_size) names

  after-IsBeside : (i k : ℕ) → i + k ≤ off + descriptor_size → All (IsBeside i k) after
  after-IsBeside i k b =
      From-Beside (off + descriptor_size) i k after b
        (descriptors-IsFrom (off + descriptor_size) (off + descriptor_size) names (omega arith))

  field_name :
      name < 2 ^ 32 → read_u32 (writes buf (descriptor_writes off (name ∷ names))) off ≡ some name
  field_name f = read_u32_lem _ off name f (
      slice?-writes_mid buf [] off (u32_bytes (name % 2 ^ 32))
        ((off + 4, u32_bytes 0)
          ∷ (off + 8, 0 ∷ 0 ∷ [])
          ∷ (off + 10, copy_send ∷ [])
          ∷ (off + 11, port_descriptor ∷ [])
          ∷ after)
        (omega (arith, room))
        (
          inl (omega arith),
          (
            inl (omega arith),
            (inl (omega arith), (inl (omega arith), after-IsBeside off 4 (omega arith))),
          ),
        ))

  field_disposition :
      read_u8 (writes buf (descriptor_writes off (name ∷ names))) (off + 10) ≡ some copy_send
  field_disposition = read_u8_lem _ (off + 10) copy_send (
      slice?-writes_mid buf
        ((off, u32_bytes (name % 2 ^ 32)) ∷ (off + 4, u32_bytes 0) ∷ (off + 8, 0 ∷ 0 ∷ []) ∷ [])
        (off + 10) (copy_send ∷ []) ((off + 11, port_descriptor ∷ []) ∷ after) (omega (arith, room))
        (inl (omega arith), after-IsBeside (off + 10) 1 (omega arith)))

  field_type :
      read_u8 (writes buf (descriptor_writes off (name ∷ names))) (off + 11) ≡ some port_descriptor
  field_type = read_u8_lem _ (off + 11) port_descriptor (
      slice?-writes_mid buf
        ((off, u32_bytes (name % 2 ^ 32))
          ∷ (off + 4, u32_bytes 0)
          ∷ (off + 8, 0 ∷ 0 ∷ [])
          ∷ (off + 10, copy_send ∷ [])
          ∷ [])
        (off + 11) (port_descriptor ∷ []) after (omega (arith, room))
        (after-IsBeside (off + 11) 1 (omega arith)))

abbrev one_descriptor : ℕ → ℕ → List (ℕ × Bytes)
one_descriptor off name =
    (off, u32_bytes (name % 2 ^ 32))
    ∷ (off + 4, u32_bytes 0)
    ∷ (off + 8, 0 ∷ 0 ∷ [])
    ∷ (off + 10, copy_send ∷ [])
    ∷ (off + 11, port_descriptor ∷ [])
    ∷ []

writes_after :
    (buf : Bytes) (off name : ℕ) (names : List ℕ)
    → writes
        (writes buf (one_descriptor off name))
        (descriptor_writes (off + descriptor_size) names)
      ≡ writes buf (descriptor_writes off (name ∷ names))
unfolding writes
writes_after buf off name names = refl

-- Where the names fit 32 bits, the ports that were written are there.
pub described-HasPorts :
    (buf : Bytes) (off : ℕ) (names : List ℕ)
    → off + length names * descriptor_size ≤ length buf
    → All (λ name. name < 2 ^ 32) names
    → HasPorts off names (writes buf (descriptor_writes off names))
described-HasPorts buf off [] b f = tt
described-HasPorts buf off (name ∷ names) b f = (
  field_name buf off name names (omega arith) f.0,
  field_type buf off name names (omega arith),
  subst (HasPorts (off + descriptor_size) names) (writes_after buf off name names) (
      described-HasPorts (writes buf (one_descriptor off name)) (off + descriptor_size) names
        (omega (arith, length-writes buf (one_descriptor off name))) f.1),
)

pub described-HasCopies :
    (buf : Bytes) (off : ℕ) (names : List ℕ)
    → off + length names * descriptor_size ≤ length buf
    → HasCopies off (length names) (writes buf (descriptor_writes off names))
described-HasCopies buf off [] b = tt
described-HasCopies buf off (name ∷ names) b = (
  field_disposition buf off name names (omega arith),
  subst (HasCopies (off + descriptor_size) (length names)) (writes_after buf off name names) (
      described-HasCopies (writes buf (one_descriptor off name)) (off + descriptor_size) names
        (omega (arith, length-writes buf (one_descriptor off name)))),
)
