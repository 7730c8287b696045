-- ===== src/Macos/Wire.antt =====
-- ipmb/src/platform/macos/mod.rs: Mach messages: `encode_inner`, `EncodedMessage::send` and
-- `EncodedMessage::new`. Ports travel as descriptors, in which the kernel puts the names that they have
-- in the receiving process.
pub mod Layout
pub mod Encoded
pub mod Arrival
pub mod Hops
pub mod Sending
mod Examples
use ipmb.Prelude.{
  ℕ, zero, suc, ◌+◌, ◌*◌, ◌/◌, ◌%◌, ◌^◌, Bool, true, false, not, Option, none, some, List, [], ◌∷◌,
  ◌++◌, map, length, ◌==◌, if◌then◌else◌, ◌>>=◌,
}
use ipmb.Errors.{Error, Result, ok, err}
use ipmb.Version.{Version, version, compatible}
use ipmb.Region.{Object, MemoryRegion, Headers, receive_regions, add_refs, sub_refs}
use ipmb.Util.{align4}
use ipmb.Message.{Bytes, Selector, Codec, MessageBox, Message, decode}
use ipmb.Linux.Buffer.{uninitialized, write, slice?, u32_bytes, read_u32}
use ipmb.Linux.Receive.{no_version, version_word, drain_last, pop}
use ipmb.Linux.Encode.{unwrap}
use ipmb.Windows.Wire.{writes, received_objects}

-- The sizes of the kernel's structures: a header, the count behind it, and a descriptor of a port.
abbrev pub header_size : ℕ
header_size = 24

abbrev pub base_size : ℕ
base_size = 28

abbrev pub descriptor_size : ℕ
descriptor_size = 12

abbrev pub copy_send : ℕ
copy_send = 19

abbrev pub port_descriptor : ℕ
port_descriptor = 0

-- `mach_msgh_bits_set(COPY_SEND, 0, 0, COMPLEX)`: the bits of the parts do not overlap.
abbrev pub complex_bits : ℕ
complex_bits = copy_send + 0 * 2 ^ 8 + 0 * 2 ^ 16 + 0x80000000

-- `size` in `encode_inner`, for `n` ports
abbrev pub msg_size : ℕ → Bytes → Bytes → ℕ
msg_size n selector_data payload_bytes =
    base_size
    + n * descriptor_size
    + 4
    + 4
    + align4 64 (length selector_data)
    + 4
    + align4 64 (length payload_bytes)

-- The fields of the header, and the count.
abbrev pub header_writes : ℕ → ℕ → List (ℕ × Bytes)
header_writes size n =
    (0, u32_bytes complex_bits)
    ∷ (4, u32_bytes (size % 2 ^ 32))
    ∷ (8, u32_bytes 0)
    ∷ (12, u32_bytes 0)
    ∷ (16, u32_bytes 0)
    ∷ (20, u32_bytes 0)
    ∷ (24, u32_bytes (n % 2 ^ 32))
    ∷ []

-- The fields of the descriptors: name, two of padding, disposition and type.
abbrev pub descriptor_writes : ℕ → List ℕ → List (ℕ × Bytes)
descriptor_writes off [] = []
descriptor_writes off (name ∷ names) =
    (off, u32_bytes (name % 2 ^ 32))
    ∷ (off + 4, u32_bytes 0)
    ∷ (off + 8, 0 ∷ 0 ∷ [])
    ∷ (off + 10, copy_send ∷ [])
    ∷ (off + 11, port_descriptor ∷ [])
    ∷ descriptor_writes (off + descriptor_size) names

-- What follows the descriptors, from an offset.
abbrev pub content_writes : ℕ → Bytes → Bytes → List (ℕ × Bytes)
content_writes off selector_data payload_bytes =
    let payload_len_at = off + 8 + align4 64 (length selector_data) in
    (off, 0xff ∷ version.major ∷ version.minor ∷ version.patch ∷ [])
    ∷ (off + 4, u32_bytes (length selector_data % 2 ^ 32))
    ∷ (off + 8, selector_data)
    ∷ (payload_len_at, u32_bytes (length payload_bytes % 2 ^ 32))
    ∷ (payload_len_at + 4, payload_bytes)
    ∷ []

-- The message of `Message::encode_inner`, over memory that holds `junk`
unfoldable pub mach_message : (ℕ → ℕ) → List ℕ → Bytes → Bytes → Bytes
unfolding uninitialized writes align4
mach_message junk names selector_data payload_bytes =
    let n = length names in
    let size = msg_size n selector_data payload_bytes in
    let headed = writes (uninitialized junk size) (header_writes size n) in
    let described = writes headed (descriptor_writes base_size names) in
    writes described (content_writes (base_size + n * descriptor_size) selector_data payload_bytes)

-- `EncodedMessage`
pub record EncodedMessage : Type 0 where
  pub selector : Selector
  pub payload_data : Bytes
  pub mach_msg : Bytes
  pub objects : List Object
  pub memory_regions : List MemoryRegion

-- The names in the descriptors: those of the objects, then those of the memory regions.
abbrev pub port_names : List Object → List MemoryRegion → List ℕ
port_names objects regions = map (λ o. o.raw) (objects ++ map (λ r. r.obj) regions)

-- `Message::encode_inner` and `Message::into_encoded`
unfoldable pub into_encoded :
    {T : Type 0} → (ℕ → ℕ) → Codec Selector → MessageBox T → Message T → Option EncodedMessage
unfolding mach_message
into_encoded junk selectors box msg = do
  selector_data ← selectors.encode_to_vec msg.selector
  payload_bytes ← unwrap (box.encode_box msg.payload)
  some (record {
    selector = msg.selector;
    payload_data = payload_bytes;
    mach_msg =
        mach_message junk (port_names msg.objects msg.memory_regions) selector_data payload_bytes;
    objects = msg.objects;
    memory_regions = msg.memory_regions;
  })

-- What `mach_msg_send` returns, as far as it is told apart.
pub data SendReturn : Type 0 where
  success no_buffer other : SendReturn

-- What a send comes to: its result, the counts, and the message that the kernel took.
pub record Sent : Type 0 where
  pub result : Result (Unit {0}) Error
  pub headers : Headers
  pub taken : Option Bytes

-- The loop in `send`, over what the kernel returns; `none` where it is still to try again
unfoldable pub send_loop :
    Bool → Headers → List MemoryRegion → Bytes → List SendReturn → Option Sent
unfolding sub_refs
send_loop dead h regions mach_msg [] = none
send_loop dead h regions mach_msg (success ∷ rs) =
    some (record { result = ok tt; headers = h; taken = some mach_msg })
send_loop dead h regions mach_msg (no_buffer ∷ rs) = send_loop dead h regions mach_msg rs
send_loop dead h regions mach_msg (other ∷ rs) = some (record {
  result = if dead then err Error.disconnect else ok tt;
  headers = sub_refs h regions;
  taken = none;
})

-- A message with the port that it goes to.
abbrev pub addressed : ℕ → Bytes → Bytes
addressed remote mach_msg = write mach_msg 8 (u32_bytes (remote % 2 ^ 32))

-- `EncodedMessage::send`, where `dead` is what `is_dead` says of the remote after a failure
unfoldable pub send : ℕ → Bool → Headers → EncodedMessage → List SendReturn → Option Sent
unfolding send_loop add_refs write
send remote dead h msg returns =
    send_loop dead (add_refs h msg.memory_regions) msg.memory_regions
      (addressed remote msg.mach_msg) returns

abbrev pub u8_value : Bytes → Option ℕ
u8_value (a ∷ []) = some a
u8_value _ = none

unfoldable pub read_u8 : Bytes → ℕ → Option ℕ
unfolding slice?
read_u8 buf off = do bytes ← slice? buf off 1; u8_value bytes

-- `assert_eq!`, which panics
abbrev pub assert : Bool → Option (Unit {0})
assert true = some tt
assert false = none

-- The loop over the descriptors in `new`: the names, and the buffer, where each port is to be copied
-- when the message is sent on.
unfoldable pub read_descriptors : ℕ → ℕ → Bytes → Option (List ℕ × Bytes)
unfolding read_u8 read_u32 write
read_descriptors off zero buf = some ([], buf)
read_descriptors off (suc n) buf = do
  type_ ← read_u8 buf (off + 11)
  _ ← assert (type_ == port_descriptor)
  name ← read_u32 buf off
  (names, buf') ← read_descriptors (off + descriptor_size) n (write buf (off + 10) (copy_send ∷ []))
  some (name ∷ names, buf')

-- `none`: the program panics, or reads outside the buffer.
abbrev pub Parsed : Type 0
Parsed = Option (Result EncodedMessage Error × Headers)

-- The size of a message that was received, in `u32` arithmetic
unfoldable pub routed_size : ℕ → ℕ → ℕ → ℕ
routed_size n selector_size payload_size =
    (base_size + n * descriptor_size + 4 + 4 + align4 32 selector_size + 4 + align4 32 payload_size)
    % 2 ^ 32

-- The fields of the header that are set again, "used for route"
abbrev pub route_writes : ℕ → List (ℕ × Bytes)
route_writes size = (0, u32_bytes complex_bits) ∷ (4, u32_bytes size) ∷ (12, u32_bytes 0) ∷ []

unfoldable pub read_rest : Headers → Bytes → ℕ → List Object → ℕ → Result Selector Error → Parsed
unfolding slice? read_u32 align4 receive_regions writes
read_rest h buf n objects selector_size (err e) = some (err e, h)
read_rest h buf n objects selector_size (ok selector) = do
  (rest, region_objects) ← drain_last selector.memory_region_count objects
  let payload_size_at = base_size + n * descriptor_size + 8 + align4 32 selector_size
  payload_size ← read_u32 buf payload_size_at
  payload_data ← slice? buf (payload_size_at + 4) payload_size
  let got = receive_regions h region_objects
  some (
    ok (record {
      selector = selector;
      payload_data = payload_data;
      mach_msg = writes buf (route_writes (routed_size n selector_size payload_size));
      objects = rest;
      memory_regions = got.0;
    }),
    got.1,
  )

unfoldable pub read_selector : Codec Selector → Headers → Bytes → ℕ → List Object → Parsed
unfolding slice? read_u32 read_rest decode
read_selector selectors h buf n objects = do
  selector_size ← read_u32 buf (base_size + n * descriptor_size + 4)
  selector_bytes ← slice? buf (base_size + n * descriptor_size + 8) selector_size
  read_rest h buf n objects selector_size (decode selectors selector_bytes)

abbrev pub check_version : Codec Selector → Headers → Bytes → ℕ → List Object → ℕ → Version → Parsed
check_version selectors h buf n objects magic remote_version =
    if not (magic == 0xff)
    then some (err (Error.version_mismatch no_version none), h)
    else if not (compatible version remote_version)
    then some (err (Error.version_mismatch remote_version none), h)
    else read_selector selectors h buf n objects

-- `EncodedMessage::new`, where `target` tells the kernel objects by their names
unfoldable pub new_encoded : Codec Selector → (ℕ → ℕ) → Headers → Bytes → Parsed
unfolding read_u32 read_descriptors slice? read_selector compatible
new_encoded selectors target h mach_msg = do
  n ← read_u32 mach_msg 24
  (names, buf) ← read_descriptors base_size n mach_msg
  word ← slice? buf (base_size + n * descriptor_size) 4
  (magic, remote_version) ← version_word word
  check_version selectors h buf n (received_objects target names) magic remote_version

-- `EncodedMessage::extract_remote`
unfoldable pub extract_remote : EncodedMessage → Option (Object × EncodedMessage)
extract_remote msg = do
  (reply, objects) ← pop msg.objects
  some (reply, record msg { objects = objects })
