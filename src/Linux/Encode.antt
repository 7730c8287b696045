-- ===== src/Linux/Encode.antt =====
-- ipmb/src/platform/linux.rs: `encode_inner` and `into_encoded`.
use ipmb.Prelude.{ℕ, ◌+◌, ◌%◌, ◌^◌, Option, none, some, List, [], ◌∷◌, ◌++◌, map, length, ◌>>=◌}
use ipmb.Errors.{Error, Result, ok, err}
use ipmb.Version.{version}
use ipmb.Region.{Object, MemoryRegion}
use ipmb.Util.{align4, alloc_buffer}
use ipmb.Message.{Bytes, Selector, Codec, MessageBox, Message, EncodedMessage}
use ipmb.Linux.Buffer.{uninitialized, write, u32_bytes}

-- `unwrap`: `none` is a panic.
abbrev pub unwrap {ℓ} : {A : Type ℓ} → Result A Error → Option A
unwrap (ok a) = some a
unwrap (err e) = none

-- The size of the buffer before it is allocated.
abbrev pub iov_size : Bytes → Bytes → ℕ
iov_size selector_data payload_bytes =
    4 + 4 + 4 + align4 64 (length selector_data) + align4 64 (length payload_bytes)

-- The bytes of a message, over memory that holds `junk`. A cast to `u32` wraps.
unfoldable pub iov_bytes : (ℕ → ℕ) → Bytes → Bytes → Bytes
unfolding uninitialized write alloc_buffer align4
iov_bytes junk selector_data payload_bytes =
    let buf = uninitialized junk (alloc_buffer 4 (iov_size selector_data payload_bytes)) in
    let buf1 = write buf 0 (0xff ∷ version.major ∷ version.minor ∷ version.patch ∷ []) in
    let buf2 = write buf1 4 (u32_bytes (length selector_data % 2 ^ 32)) in
    let buf3 = write buf2 8 selector_data in
    let payload_at = 8 + align4 64 (length selector_data) in
    let buf4 = write buf3 payload_at (u32_bytes (length payload_bytes % 2 ^ 32)) in
    write buf4 (payload_at + 4) payload_bytes

-- The raw handles of the control message: the objects, then those of the memory regions.
abbrev pub control_handles : List Object → List MemoryRegion → List ℕ
control_handles objects regions = map (λ o. o.raw) (objects ++ map (λ r. r.obj) regions)

-- `Message::encode_inner` and `Message::into_encoded`
unfoldable pub into_encoded :
    {T : Type 0} → (ℕ → ℕ) → Codec Selector → MessageBox T → Message T → Option EncodedMessage
unfolding iov_bytes
into_encoded junk selectors box msg = do
  selector_data ← selectors.encode_to_vec msg.selector
  payload_bytes ← unwrap (box.encode_box msg.payload)
  some (record {
    selector = msg.selector;
    payload_data = payload_bytes;
    iov_data = iov_bytes junk selector_data payload_bytes;
    control_data = control_handles msg.objects msg.memory_regions;
    objects = msg.objects;
    memory_regions = msg.memory_regions;
  })
