-- ===== src/Macos/Wire/Arrival/Copies.antt =====
-- ipmb/src/platform/macos/mod.rs: the loop over the descriptors in `EncodedMessage::new`, which makes
-- the message one that can be sent on.
use ipmb.Prelude.{
  ℕ, zero, suc, ◌+◌, ◌*◌, ◌≤◌, ◌≡◌, inr, refl, ◌∙◌, arith, some, List, [], ◌∷◌, length, All,
}
use ipmb.Message.{Bytes}
use ipmb.Linux.Buffer.{write}
use ipmb.Linux.Buffer.Laws.{length-write, slice?-write_beside}
use ipmb.Windows.Wire.{writes}
use ipmb.Windows.Wire.Layout.{slice?-writes_beside, slice?-writes}
use ipmb.Macos.Wire.{base_size, descriptor_size, copy_send, read_descriptors}
use ipmb.Macos.Wire.Layout.{
  read_u8_lem, read_u32-slice?, read_u8-slice?, HasPorts, HasCopies, HasPorts-same, IsFrom, IsQuiet,
  From-Beside,
}

-- The writes of the loop.
abbrev pub copy_writes : ℕ → ℕ → List (ℕ × Bytes)
copy_writes off zero = []
copy_writes off (suc n) = (off + 10, copy_send ∷ []) ∷ copy_writes (off + descriptor_size) n

pub copies-IsQuiet :
    (n off m : ℕ)
    → base_size ≤ off
    → off + m * descriptor_size ≤ base_size + n * descriptor_size
    → All (IsQuiet n) (copy_writes off m)
copies-IsQuiet n off zero a b = tt
copies-IsQuiet n off (suc m) a b = (
  inr (omega arith, omega arith),
  copies-IsQuiet n (off + descriptor_size) m (omega arith) (omega arith),
)

copies-IsFrom : (low off n : ℕ) → low ≤ off + 10 → All (IsFrom low) (copy_writes off n)
copies-IsFrom low off zero b = tt
copies-IsFrom low off (suc n) b = (b, copies-IsFrom low (off + descriptor_size) n (omega arith))

-- One write of the loop leaves the later descriptors alone.
later_HasPorts :
    (off : ℕ) (names : List ℕ) (buf : Bytes)
    → HasPorts (off + descriptor_size) names buf
    → HasPorts (off + descriptor_size) names (write buf (off + 10) (copy_send ∷ []))
later_HasPorts off names buf h =
    HasPorts-same (off + descriptor_size) names buf (write buf (off + 10) (copy_send ∷ []))
      (λ i k a b. slice?-write_beside buf (off + 10) (copy_send ∷ []) i k (inr (omega arith))) h

-- The loop finds the names of the ports.
pub read_descriptors-HasPorts :
    (off : ℕ) (names : List ℕ) (buf : Bytes)
    → HasPorts off names buf
    → read_descriptors off (length names) buf
      ≡ some (names, writes buf (copy_writes off (length names)))
unfolding read_descriptors writes
read_descriptors-HasPorts off [] buf h = refl
read_descriptors-HasPorts off (name ∷ names) buf h =
    rw
      (
        read_descriptors,
        h.1,
        h.0,
        read_descriptors-HasPorts (off + descriptor_size) names
            (write buf (off + 10) (copy_send ∷ [])) (later_HasPorts off names buf h.2),
      )
      refl

pub copied-HasPorts :
    (off : ℕ) (names : List ℕ) (buf : Bytes)
    → HasPorts off names buf
    → HasPorts off names (writes buf (copy_writes off (length names)))
unfolding writes
copied-HasPorts off [] buf h = tt
copied-HasPorts off (name ∷ names) buf h =
    let n = length names in
    let ws = copy_writes off (suc n) in
    let later = copies-IsFrom (off + descriptor_size) (off + descriptor_size) n (omega arith) in
    (
      read_u32-slice? (writes buf ws) buf off (
            slice?-writes_beside buf ws off 4 (
              From-Beside (off + 10) off 4 ws (omega arith)
                (copies-IsFrom (off + 10) off (suc n) (omega arith))))
          ∙ h.0,
      read_u8-slice? (writes buf ws) buf (off + 11) (
            slice?-writes_beside buf ws (off + 11) 1 (
              inr (omega arith),
              From-Beside (off + descriptor_size) (off + 11) 1 _ (omega arith) later,
            ))
          ∙ h.1,
      copied-HasPorts (off + descriptor_size) names (write buf (off + 10) (copy_send ∷ []))
          (later_HasPorts off names buf h.2),
    )

pub copied-HasCopies :
    (off n : ℕ) (buf : Bytes)
    → off + n * descriptor_size ≤ length buf
    → HasCopies off n (writes buf (copy_writes off n))
unfolding writes
copied-HasCopies off zero buf b = tt
copied-HasCopies off (suc n) buf b = (
  read_u8_lem _ (off + 10) copy_send (
      slice?-writes buf (off + 10) (copy_send ∷ []) (copy_writes (off + descriptor_size) n)
        (omega arith)
        (From-Beside (off + descriptor_size) (off + 10) 1 _ (omega arith)
          (copies-IsFrom (off + descriptor_size) (off + descriptor_size) n (omega arith)))),
  copied-HasCopies (off + descriptor_size) n (write buf (off + 10) (copy_send ∷ []))
      (omega (arith, length-write buf (off + 10) (copy_send ∷ []))),
)
