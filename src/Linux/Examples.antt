-- ===== src/Linux/Examples.antt =====
-- A message with one region, whose selector and payload take a few bytes each.
use ipmb.Prelude.{ℕ, ◌≡◌, refl, true, false, Option, none, some, [], ◌∷◌, ◌++◌, length, arith}
use ipmb.Label.{LabelOp, always}
use ipmb.Errors.{Error, ok, err}
use ipmb.Region.{Object, Headers, receive_regions}
use ipmb.Message.{
  Bytes, SelectorMode, unicast, multicast, Selector, Codec, Message, EncodedMessage, typed_box,
  encode, unicast_to,
}
use ipmb.Message.Laws.{typed_box-IsFaithful}
use ipmb.Linux.Encode.{iov_bytes, into_encoded}
use ipmb.Bus.{Platform, BusController}
use ipmb.Bus.Admission.{ack_for}
use ipmb.Version.{version, compatible}
use ipmb.Linux.Connect.{connection_refused, Formats, Calls, request, look_up}
use ipmb.Message.{ConnectMessage, connect_uuid, ack_uuid, accepted, new_message}
use ipmb.Prelude.{◌+◌}
use ipmb.Linux.Receive.{from_local}
use ipmb.Linux.Descriptors.{epoll_timeout}
use ipmb.Region.{negsuc}
use ipmb.Prelude.{◌-◌, ◌*◌, ◌^◌}
use ipmb.Linux.RoundTrip.{delivered, encoded-received}

-- Selectors for everyone are written as their identifier, their count and their time to live.
abbrev sel_encode : LabelOp → SelectorMode → ℕ → ℕ → ℕ → Option Bytes
sel_encode always unicast uuid count ttl = some (uuid ∷ count ∷ ttl ∷ [])
sel_encode _ _ uuid count ttl = none

abbrev sel_decode : Bytes → Option (Selector × ℕ)
sel_decode (uuid ∷ count ∷ ttl ∷ bytes) = some (
  record { label_op = always; mode = unicast; uuid = uuid; memory_region_count = count; ttl = ttl },
  3,
)
sel_decode _ = none

pub sel_round_trip :
    (op : LabelOp) (mode : SelectorMode) (uuid count ttl : ℕ) (bytes rest : Bytes)
    → sel_encode op mode uuid count ttl ≡ some bytes
    → sel_decode (bytes ++ rest)
      ≡ some (
        record { label_op = op; mode = mode; uuid = uuid; memory_region_count = count; ttl = ttl },
        length bytes,
      )
sel_round_trip always unicast uuid count ttl bytes rest h = cc
sel_round_trip always multicast uuid count ttl bytes rest h = cc
sel_round_trip LabelOp.never mode uuid count ttl bytes rest h = cc
sel_round_trip (LabelOp.leaf v) mode uuid count ttl bytes rest h = cc
sel_round_trip (LabelOp.negate a) mode uuid count ttl bytes rest h = cc
sel_round_trip (LabelOp.both a b) mode uuid count ttl bytes rest h = cc
sel_round_trip (LabelOp.either a b) mode uuid count ttl bytes rest h = cc

abbrev pub selectors : Codec Selector
selectors = record {
  encode_to_vec = λ s. sel_encode s.label_op s.mode s.uuid s.memory_region_count s.ttl;
  decode_from_slice = sel_decode;
  round_trip = λ s. sel_round_trip s.label_op s.mode s.uuid s.memory_region_count s.ttl;
}

abbrev byte_of : Bytes → Option (ℕ × ℕ)
byte_of [] = none
byte_of (b ∷ bytes) = some (b, 1)

pub byte_round_trip :
    (a : ℕ) (bytes rest : Bytes)
    → some (a ∷ []) ≡ some bytes
    → byte_of (bytes ++ rest) ≡ some (a, length bytes)
byte_round_trip a bytes rest h = cc

abbrev pub byte : Codec ℕ
byte = record {
  encode_to_vec = λ n. some (n ∷ []);
  decode_from_slice = byte_of;
  round_trip = byte_round_trip;
}

abbrev pub obj : ℕ → Object
obj n = record { raw = n; target = n }

abbrev pub msg : Message ℕ
msg = record {
  selector = record (unicast_to always) { uuid = 7; memory_region_count = 1 };
  payload = 42;
  objects = obj 3 ∷ [];
  memory_regions = record { buffer_size = 64; buffer = none; obj = obj 4 } ∷ [];
}

abbrev pub headers : Headers
headers = record { refs = λ u. 2; sizes = λ u. 64 }

byte_encodes : encode byte 42 ≡ ok (42 ∷ [])
unfolding encode
byte_encodes = refl

pub box_encodes : (typed_box 7 byte).encode_box 42 ≡ ok (42 ∷ [])
unfolding typed_box
box_encodes = byte_encodes

box_names : 7 ≡ (typed_box 7 byte).uuid_of 42
unfolding typed_box
box_names = refl

encoded-received_example :
    (e : EncodedMessage) × (into_encoded (λ i. 0) selectors (typed_box 7 byte) msg ≡ some e)
    × (from_local selectors headers 1 (delivered 24 e.iov_data (obj 3 ∷ obj 4 ∷ []))
        ≡ some (
          ok (record e {
            control_data = 3 ∷ 4 ∷ [];
            objects = obj 3 ∷ [];
            memory_regions = (receive_regions headers (obj 4 ∷ [])).0;
          }),
          (receive_regions headers (obj 4 ∷ [])).1,
        ))
    × (e.selector ≡ msg.selector)
    × ((typed_box 7 byte).decode_box e.selector.uuid e.payload_data ≡ ok 42)
encoded-received_example =
    encoded-received (λ i. 0) selectors (typed_box 7 byte) msg headers (7 ∷ 1 ∷ 0 ∷ []) (42 ∷ [])
      (obj 3 ∷ []) (obj 4 ∷ []) 1 24 (typed_box-IsFaithful 7 byte) box_names refl box_encodes
      (omega arith) (omega arith) refl (omega arith) (omega arith)

abbrev on_the_wire : EncodedMessage
on_the_wire = record {
  selector = msg.selector;
  payload_data = 42 ∷ [];
  iov_data = [];
  control_data = 3 ∷ 4 ∷ [];
  objects = msg.objects;
  memory_regions = msg.memory_regions;
}

-- A controller that gives out the identifier 7, and an endpoint that asks it.
abbrev pub platform : Platform
platform = record {
  World = ℕ;
  encode_ack = λ m. on_the_wire;
  decode_connect = λ bytes. err Error.decode;
  send = λ w m r. (ok tt, w);
  extract_remote = λ m. none;
  is_dead = λ w r. false;
  new_id = λ w. (w, w + 1);
  latest = 2 ^ 63 * 10 ^ 9;
}

abbrev pub controller : BusController ℕ
controller = record {
  label = record { names = [] };
  token = "key";
  endpoint_id = 1;
  sender = record { queue = []; connected = true };
  endpoints = [];
  message_buffer = [];
  message_buffer_swap = [];
  link = record { world = 7; attempts = [] };
  last_detect_reachable = 0;
}

abbrev pub payload : ConnectMessage
payload = record { version = version; token = "key"; label = record { names = [] } }

abbrev pub formats : Formats
formats = record {
  junk = λ i. 0;
  selectors = selectors;
  connect_box = record {
    decode_box = λ uuid bytes. err Error.decode;
    encode_box = λ m. ok [];
    uuid_of = λ m. connect_uuid;
  };
  ack_box = record {
    decode_box = λ uuid bytes. ok (accepted 7);
    encode_box = λ m. ok [];
    uuid_of = λ m. ack_uuid;
  };
}

abbrev calls : Calls
calls = record {
  os_error = 0;
  socket = some (obj 5);
  connect = none;
  socketpair = some (obj 6, obj 8);
  taken = true;
  reply = ok on_the_wire;
}

abbrev request_encoded : EncodedMessage
request_encoded = record {
  selector = record (unicast_to always) { uuid = connect_uuid };
  payload_data = [];
  iov_data = iov_bytes (λ i. 0) (connect_uuid ∷ 0 ∷ 0 ∷ []) [];
  control_data = 8 ∷ [];
  objects = obj 8 ∷ [];
  memory_regions = [];
}

request_encodes :
    into_encoded formats.junk formats.selectors formats.connect_box
      (request formats.connect_box payload.label payload.token (obj 8))
    ≡ some request_encoded
unfolding into_encoded new_message
request_encodes = refl

pub acknowledgement : accepted 7 ≡ ack_for platform controller (ok payload)
unfolding compatible
acknowledgement = refl

abbrev alone : Calls
alone = record calls { connect = some connection_refused }

alone_runs :
    look_up formats headers payload.label payload.token alone
    ≡ some (err Error.identifier_not_in_use)
unfolding look_up
alone_runs = refl

-- One of 2 ^ 32 - 2 milliseconds is -2, which waits for ever.
long_timeout_is_negative : epoll_timeout (some ((2 ^ 32 - 2) * 10 ^ 6)) ≡ negsuc 1
unfolding epoll_timeout
long_timeout_is_negative = refl
