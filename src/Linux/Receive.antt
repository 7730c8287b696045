-- ===== src/Linux/Receive.antt =====
-- ipmb/src/platform/linux/encoded_message.rs: `from_local`, `extract_remote` and `send`.
pub mod Laws
use ipmb.Prelude.{
  ℕ, ◌+◌, ◌-◌, Bool, true, false, not, ◌||◌, Option, none, some, List, [], ◌∷◌, ◌++◌, map, length,
  take, drop, leb, ◌==◌, if◌then◌else◌, ◌>>=◌,
}
use mathlib.Core.List.{reverse}
use ipmb.Errors.{Error, Remote, Result, ok, err}
use ipmb.Version.{Version, version, compatible}
use ipmb.Region.{Object, MemoryRegion, Headers, receive_regions, add_refs, sub_refs}
use ipmb.Util.{align4}
use ipmb.Message.{Bytes, Selector, Codec, decode, EncodedMessage}
use ipmb.Linux.Buffer.{slice?, read_u32}

-- What the second `recvmsg` left: its result (0 for an error too), the flags `MSG_TRUNC` and
-- `MSG_CTRUNC`, the buffer, and the handles that came with the message.
pub record Received : Type 0 where
  pub len : ℕ
  pub truncated : Bool
  pub control_truncated : Bool
  pub iov_data : Bytes
  pub objects : List Object

abbrev pub no_version : Version
no_version = record { major = 0; minor = 0; patch = 0 }

abbrev pub version_word : Bytes → Option (ℕ × Version)
version_word (magic ∷ major ∷ minor ∷ patch ∷ []) =
    some (magic, record { major = major; minor = minor; patch = patch })
version_word _ = none

-- `objects.drain((objects.len() - count)..)`: what stays and what is drained; `none` is the panic
-- of a count that is too large
abbrev pub drain_last {ℓ} : {A : Type ℓ} → ℕ → List A → Option (List A × List A)
drain_last count xs =
    if leb count (length xs)
    then some (take (length xs - count) xs, drop (length xs - count) xs)
    else none

-- `none`: the program panics, or reads outside the buffer.
abbrev pub Parsed : Type 0
Parsed = Option (Result EncodedMessage Error × Headers)

unfoldable pub read_payload : Headers → Bytes → List Object → ℕ → Result Selector Error → Parsed
unfolding slice? read_u32 align4 receive_regions
read_payload h iov_data objects selector_size (err e) = some (err e, h)
read_payload h iov_data objects selector_size (ok selector) = do
  (rest, region_objects) ← drain_last selector.memory_region_count objects
  let payload_size_at = 8 + align4 32 selector_size
  payload_size ← read_u32 iov_data payload_size_at
  payload_data ← slice? iov_data (payload_size_at + 4) payload_size
  let got = receive_regions h region_objects
  some (
    ok (record {
      selector = selector;
      payload_data = payload_data;
      iov_data = iov_data;
      control_data = map (λ o. o.raw) objects;
      objects = rest;
      memory_regions = got.0;
    }),
    got.1,
  )

unfoldable pub read_selector : Codec Selector → Headers → Bytes → List Object → Parsed
unfolding slice? read_u32 read_payload decode
read_selector selectors h iov_data objects = do
  selector_size ← read_u32 iov_data 4
  selector_bytes ← slice? iov_data 8 selector_size
  read_payload h iov_data objects selector_size (decode selectors selector_bytes)

abbrev pub check_version : Codec Selector → Headers → Bytes → List Object → ℕ → Version → Parsed
check_version selectors h iov_data objects magic remote_version =
    if not (magic == 0xff)
    then some (err (Error.version_mismatch no_version none), h)
    else if not (compatible version remote_version)
    then some (err (Error.version_mismatch remote_version none), h)
    else read_selector selectors h iov_data objects

unfoldable pub read_version : Codec Selector → Headers → Bytes → List Object → Parsed
unfolding slice? read_selector compatible
read_version selectors h iov_data objects = do
  word ← slice? iov_data 0 4
  (magic, remote_version) ← version_word word
  check_version selectors h iov_data objects magic remote_version

-- `EncodedMessage::from_local`: `peeked` is the result of the first `recvmsg`.
unfoldable pub from_local : Codec Selector → Headers → ℕ → Received → Parsed
unfolding read_version
from_local selectors h peeked got =
    if peeked == 0
    then some (err Error.disconnect, h)
    else if got.len == 0 || got.truncated || got.control_truncated
    then some (err Error.disconnect, h)
    else read_version selectors h got.iov_data got.objects

-- `Vec::pop`
abbrev pub pop {ℓ} : {A : Type ℓ} → List A → Option (A × List A)
pop [] = none
pop (x ∷ []) = some (x, [])
pop (x ∷ y ∷ xs) = pop (y ∷ xs) >>= λ p. some (p.0, x ∷ p.1)

-- `EncodedMessage::extract_remote`
unfoldable pub extract_remote : EncodedMessage → Option (Remote × EncodedMessage)
extract_remote msg = do
  (reply, objects) ← pop msg.objects
  some (record { v = reply.raw }, record msg { objects = objects })

-- `EncodedMessage::send`, given whether `sendmsg` took the message
unfoldable pub send : Headers → EncodedMessage → Bool → Result (Unit {0}) Error × Headers
unfolding add_refs sub_refs
send h msg taken =
    let counted = add_refs h msg.memory_regions in
    if taken then (ok tt, counted) else (err Error.disconnect, sub_refs counted msg.memory_regions)
