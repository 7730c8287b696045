-- ===== src/Message.antt =====
-- ipmb/src/message.rs, and from ipmb/src/lib.rs `Selector`, `encode` and `decode`: messages, and how
-- their payloads are turned into bytes and back.
mod Examples
pub mod Derive
pub mod Laws
use ipmb.Prelude.{
  ℕ, ◌+◌, ◌%◌, ◌^◌, ◌<◌, ◌≡◌, String, Option, none, some, List, [], ◌∷◌, ◌++◌, length, ◌==◌,
  if◌then◌else◌,
}
use ipmb.Label.{Label, LabelOp}
use ipmb.Version.{Version}
use ipmb.Errors.{Error, Result, ok, err}
use ipmb.Region.{Object, MemoryRegion}

abbrev pub Bytes : Type 0
Bytes = List ℕ

-- The sixteen bytes of a type's identifier, as one number.
abbrev pub Uuid : Type 0
Uuid = ℕ

pub data SelectorMode : Type 0 where
  unicast multicast : SelectorMode

-- `ttl` is a `Duration`, in nanoseconds.
pub record Selector : Type 0 where
  pub label_op : LabelOp
  pub mode : SelectorMode
  pub uuid : Uuid
  pub memory_region_count : ℕ
  pub ttl : ℕ

-- `Selector::unicast`
abbrev pub unicast_to : LabelOp → Selector
unicast_to op = record { label_op = op; mode = unicast; uuid = 0; memory_region_count = 0; ttl = 0 }

-- `Selector::multicast`
abbrev pub multicast_to : LabelOp → Selector
multicast_to op = record {
  label_op = op;
  mode = multicast;
  uuid = 0;
  memory_region_count = 0;
  ttl = 0;
}

-- bincode at one type: a value is read from the front of a slice, with the number of bytes read.
pub record Codec (A : Type 0) : Type 0 where
  pub encode_to_vec : A → Option Bytes
  pub decode_from_slice : Bytes → Option (A × ℕ)
  pub round_trip :
      (a : A) (bytes rest : Bytes)
      → encode_to_vec a ≡ some bytes
      → decode_from_slice (bytes ++ rest) ≡ some (a, length bytes)

abbrev pub encoded : Option Bytes → Result Bytes Error
encoded none = err Error.encode
encoded (some bytes) = ok bytes

module _ {A : Type 0} where
  abbrev pub decoded : Option (A × ℕ) → Result A Error
  decoded none = err Error.decode
  decoded (some (d, n)) = ok d

  -- `ipmb::decode`
  unfoldable pub decode : Codec A → Bytes → Result A Error
  decode c bytes = decoded (c.decode_from_slice bytes)

-- `ipmb::encode`
unfoldable pub encode : {A : Type 0} → Codec A → A → Result Bytes Error
encode c a = encoded (c.encode_to_vec a)

-- The trait `MessageBox`.
pub record MessageBox (T : Type 0) : Type 0 where
  pub decode_box : Uuid → Bytes → Result T Error
  pub encode_box : T → Result Bytes Error
  pub uuid_of : T → Uuid

-- `MessageBox` for a serializable type with an identifier
unfoldable pub typed_box : {T : Type 0} → Uuid → Codec T → MessageBox T
unfolding encode decode
typed_box type_uuid c = record {
  decode_box =
      λ uuid bytes. if uuid == type_uuid then decode c bytes else err Error.type_uuid_not_found;
  encode_box = λ t. encode c t;
  uuid_of = λ t. type_uuid;
}

pub record Message (T : Type 0) : Type 0 where
  pub selector : Selector
  pub payload : T
  pub objects : List Object
  pub memory_regions : List MemoryRegion

-- `Message::new`
unfoldable pub new_message : {T : Type 0} → MessageBox T → Selector → T → Message T
new_message box selector payload = record {
  selector = record selector { uuid = box.uuid_of payload };
  payload = payload;
  objects = [];
  memory_regions = [];
}

pub record BytesMessage : Type 0 where
  pub format : ℕ
  pub bytes : Bytes

abbrev pub EndpointId : Type 0
EndpointId = ℕ

pub record ConnectMessage : Type 0 where
  pub version : Version
  pub token : String
  pub label : Label

pub data ConnectMessageAck : Type 0 where
  accepted : EndpointId → ConnectMessageAck
  err_version : Version → ConnectMessageAck
  err_token : ConnectMessageAck

abbrev pub connect_uuid : Uuid
connect_uuid = 0xb2c1deb330914a74a99cc8e8d710d4b2

abbrev pub ack_uuid : Uuid
ack_uuid = 0xc3de9eb4c3104c149747093d62c09998

-- `EncodedMessage` (linux/encoded_message.rs), with the control data as the raw handles in it.
pub record EncodedMessage : Type 0 where
  pub selector : Selector
  pub payload_data : Bytes
  pub iov_data : Bytes
  pub control_data : List ℕ
  pub objects : List Object
  pub memory_regions : List MemoryRegion
