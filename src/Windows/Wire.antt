-- ===== src/Windows/Wire.antt =====
-- ipmb/src/platform/windows/mod.rs: messages on a pipe: `encode_inner`, `send_helper`, and
-- `EncodedMessage::new`. Handles travel as handles of the receiving process.
pub mod Layout
pub mod Parts
pub mod RoundTrip
pub mod Sending
mod Examples
use ipmb.Prelude.{
  ℕ, zero, suc, ◌+◌, ◌*◌, ◌/◌, ◌%◌, ◌^◌, Bool, true, false, not, Option, none, some, List, [], ◌∷◌,
  ◌++◌, map, length, ◌==◌, if◌then◌else◌, ◌>>=◌,
}
use ipmb.Errors.{Error, Result, ok, err}
use ipmb.Version.{Version, version, compatible}
use ipmb.Region.{Object, MemoryRegion, Headers, receive_regions, add_refs, sub_refs}
use ipmb.Util.{align4}
use ipmb.Message.{Bytes, Selector, Codec, MessageBox, Message, decode}
use ipmb.Linux.Buffer.{uninitialized, write, slice?, u32_bytes, read_u32}
use ipmb.Linux.Receive.{no_version, version_word, drain_last, pop}
use ipmb.Linux.Encode.{unwrap}

-- `msg_size`, for `n` handles
abbrev pub msg_size : ℕ → Bytes → Bytes → ℕ
msg_size n selector_bytes payload_bytes =
    4 + 4 + n * 8 + 4 + align4 64 (length selector_bytes) + 4 + align4 64 (length payload_bytes)

-- Writes at offsets, in order.
unfoldable pub writes : Bytes → List (ℕ × Bytes) → Bytes
unfolding write
writes buf [] = buf
writes buf ((off, bytes) ∷ ws) = writes (write buf off bytes) ws

-- Where `encode_inner` writes what; the handles are skipped.
abbrev pub parts : ℕ → Bytes → Bytes → List (ℕ × Bytes)
parts n selector_bytes payload_bytes =
    let selector_size_at = 8 + n * 8 in
    let payload_size_at = selector_size_at + 4 + align4 64 (length selector_bytes) in
    (0, 0xff ∷ version.major ∷ version.minor ∷ version.patch ∷ [])
    ∷ (4, u32_bytes (n % 2 ^ 32))
    ∷ (selector_size_at, u32_bytes (length selector_bytes % 2 ^ 32))
    ∷ (selector_size_at + 4, selector_bytes)
    ∷ (payload_size_at, u32_bytes (length payload_bytes % 2 ^ 32))
    ∷ (payload_size_at + 4, payload_bytes)
    ∷ []

-- The buffer of `Message::encode_inner`, over memory that holds `junk`
unfoldable pub pipe_msg : (ℕ → ℕ) → ℕ → Bytes → Bytes → Bytes
unfolding uninitialized writes align4
pipe_msg junk n selector_bytes payload_bytes =
    writes (uninitialized junk (msg_size n selector_bytes payload_bytes))
      (parts n selector_bytes payload_bytes)

-- `EncodedMessage`, of a message that is to be sent
pub record Encoded : Type 0 where
  pub selector : Selector
  pub payload_data : Bytes
  pub buffer : Bytes
  pub size : ℕ
  pub objects : List Object
  pub memory_regions : List MemoryRegion

-- `Message::encode_inner` and `Message::into_encoded`
unfoldable pub into_encoded :
    {T : Type 0} → (ℕ → ℕ) → Codec Selector → MessageBox T → Message T → Option Encoded
unfolding pipe_msg align4
into_encoded junk selectors box msg = do
  selector_bytes ← selectors.encode_to_vec msg.selector
  payload_bytes ← unwrap (box.encode_box msg.payload)
  let n = length msg.objects + length msg.memory_regions
  some (record {
    selector = msg.selector;
    payload_data = payload_bytes;
    buffer = pipe_msg junk n selector_bytes payload_bytes;
    size = msg_size n selector_bytes payload_bytes;
    objects = msg.objects;
    memory_regions = msg.memory_regions;
  })

-- A `u64` in memory: the lower `u32`, then the upper one.
abbrev pub u64_parts : ℕ → ℕ → List (ℕ × Bytes)
u64_parts off h = (off, u32_bytes (h % 2 ^ 32)) ∷ (off + 4, u32_bytes (h / 2 ^ 32 % 2 ^ 32)) ∷ []

unfoldable pub read_u64 : Bytes → ℕ → Option ℕ
unfolding read_u32
read_u64 buf off = do
  low ← read_u32 buf off
  high ← read_u32 buf (off + 4)
  some (low + 2 ^ 32 * high)

-- What the loop over the handles leaves: whether every `to_remote` succeeded, the buffer, and the
-- handles that were made in the remote process.
pub record Duplicated : Type 0 where
  pub complete : Bool
  pub buffer : Bytes
  pub made : List ℕ

-- The loop in `send_helper`, where `to_remote` gives the remote handle of an object, if it does
unfoldable pub duplicate_all : (Object → Option ℕ) → ℕ → List Object → Bytes → List ℕ → Duplicated
unfolding writes
duplicate_all to_remote off [] buf made = record { complete = true; buffer = buf; made = made }
duplicate_all to_remote off (o ∷ os) buf made = elim (to_remote o) [
  | none ↦ record { complete = false; buffer = buf; made = made }
  | some h ↦ duplicate_all to_remote (off + 8) os (writes buf (u64_parts off h)) (made ++ h ∷ [])
]

-- What a send comes to: its result, the counts, the message that went into the pipe, and the remote
-- handles that dropping a `RemoteHandle` closes.
pub record Sent : Type 0 where
  pub result : Result (Unit {0}) Error
  pub headers : Headers
  pub delivered : Option Bytes
  pub closed : List ℕ

-- The write, with what `WriteFile` says: how much it wrote, if it succeeded; `none` for the panic of
-- the `assert_eq!`
abbrev pub written_out : Headers → List MemoryRegion → Duplicated → ℕ → Option ℕ → Option Sent
written_out h regions d size none = some (record {
  result = err Error.disconnect;
  headers = sub_refs (add_refs h regions) regions;
  delivered = none;
  closed = d.made;
})
written_out h regions d size (some n) =
    if n == size
    then some (record {
      result = ok tt;
      headers = add_refs h regions;
      delivered = some d.buffer;
      closed = [];
    })
    else none

abbrev pub sent_by : Headers → List MemoryRegion → Duplicated → ℕ → Option ℕ → Option Sent
sent_by h regions d size wrote =
    if d.complete
    then written_out h regions d size wrote
    else some
        (record { result = err Error.disconnect; headers = h; delivered = none; closed = d.made })

-- `send_helper`
unfoldable pub send_helper :
    (Object → Option ℕ)
    → Headers
    → Bytes
    → ℕ
    → List Object
    → List MemoryRegion
    → Option ℕ
    → Option Sent
unfolding duplicate_all add_refs sub_refs
send_helper to_remote h buf size objects regions wrote =
    sent_by h regions (duplicate_all to_remote 8 (objects ++ map (λ r. r.obj) regions) buf []) size
      wrote

-- `EncodedMessage::send`
abbrev pub send_encoded : (Object → Option ℕ) → Headers → Encoded → Option ℕ → Option Sent
send_encoded to_remote h msg wrote =
    send_helper to_remote h msg.buffer msg.size msg.objects msg.memory_regions wrote

-- `object_count` handles from an offset
unfoldable pub read_handles : Bytes → ℕ → ℕ → Option (List ℕ)
unfolding read_u64
read_handles buf off zero = some []
read_handles buf off (suc n) = do
  h ← read_u64 buf off
  hs ← read_handles buf (off + 8) n
  some (h ∷ hs)

-- `EncodedMessage`, as it is received
pub record Arrived : Type 0 where
  pub selector : Selector
  pub payload_data : Bytes
  pub objects : List Object
  pub memory_regions : List MemoryRegion

-- `none`: the program panics, or reads outside the buffer.
abbrev pub Parsed : Type 0
Parsed = Option (Result Arrived Error × Headers)

unfoldable pub read_rest : Headers → Bytes → ℕ → List Object → ℕ → Result Selector Error → Parsed
unfolding slice? read_u32 align4 receive_regions
read_rest h buf selector_at objects selector_size (err e) = some (err e, h)
read_rest h buf selector_at objects selector_size (ok selector) = do
  (rest, region_objects) ← drain_last selector.memory_region_count objects
  let payload_size_at = selector_at + align4 32 selector_size
  payload_size ← read_u32 buf payload_size_at
  payload_data ← slice? buf (payload_size_at + 4) payload_size
  let got = receive_regions h region_objects
  some (
    ok (record {
      selector = selector;
      payload_data = payload_data;
      objects = rest;
      memory_regions = got.0;
    }),
    got.1,
  )

unfoldable pub read_selector : Codec Selector → Headers → Bytes → ℕ → List Object → Parsed
unfolding slice? read_u32 read_rest decode
read_selector selectors h buf selector_size_at objects = do
  selector_size ← read_u32 buf selector_size_at
  selector_bytes ← slice? buf (selector_size_at + 4) selector_size
  read_rest h buf (selector_size_at + 4) objects selector_size (decode selectors selector_bytes)

abbrev pub if_compatible : Headers → Version → Parsed → Parsed
if_compatible h remote_version rest =
    if not (compatible version remote_version)
    then some (err (Error.version_mismatch remote_version none), h)
    else rest

-- What a handle refers to is what the receiving process finds under it.
abbrev pub received_objects : (ℕ → ℕ) → List ℕ → List Object
received_objects target = map (λ raw. record { raw = raw; target = target raw })

unfoldable pub read_objects : Codec Selector → (ℕ → ℕ) → Headers → Bytes → Version → Parsed
unfolding read_u32 read_handles read_selector compatible
read_objects selectors target h buf remote_version = do
  object_count ← read_u32 buf 4
  handles ← read_handles buf 8 object_count
  if_compatible h remote_version
      (read_selector selectors h buf (8 + object_count * 8) (received_objects target handles))

abbrev pub if_magic : Headers → ℕ → Parsed → Parsed
if_magic h magic rest =
    if not (magic == 0xff) then some (err (Error.version_mismatch no_version none), h) else rest

-- `EncodedMessage::new`
unfoldable pub new_encoded : Codec Selector → (ℕ → ℕ) → Headers → Bytes → Parsed
unfolding slice? read_objects
new_encoded selectors target h buf = do
  word ← slice? buf 0 4
  (magic, remote_version) ← version_word word
  if_magic h magic (read_objects selectors target h buf remote_version)

-- `EncodedMessage::extract_remote`: the pipe, then the process
unfoldable pub take_remote : Arrived → Option ((Object × Object) × Arrived)
take_remote msg = do
  (pipe, objects) ← pop msg.objects
  (process, rest) ← pop objects
  some ((pipe, process), record msg { objects = rest })
