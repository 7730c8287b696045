-- ===== src/Macos/Connect/Examples.antt =====
-- An endpoint that connects over launchd: its request is taken, and an acknowledgement comes back.
use ipmb.Prelude.{
  ℕ, ◌+◌, ◌^◌, ◌<◌, ◌≡◌, refl, arith, false, Option, none, some, [], ◌∷◌, ◌++◌, length, ◌==◌,
  if◌then◌else◌,
}
use ipmb.Label.{always}
use ipmb.Errors.{ok}
use ipmb.Util.{align4}
use ipmb.Message.{
  Bytes, Codec, Message, ConnectMessageAck, accepted, err_version, err_token, ack_uuid,
  connect_uuid, typed_box, encode, unicast_to, new_message,
}
use ipmb.Message.Laws.{typed_box-IsFaithful}
use ipmb.Linux.Buffer.{slice?, read_u32}
use ipmb.Linux.Connect.{request}
use ipmb.Linux.Examples.{obj, headers, payload, formats, platform, controller, acknowledgement}
use ipmb.Windows.Hub.{continues}
use ipmb.Windows.Wire.{writes}
use ipmb.Macos.Wire.{
  EncodedMessage, mach_message, into_encoded, addressed, success, Sent, send, msg_size,
}
use ipmb.Macos.Wire.Hops.{Delivered, direct}
use ipmb.Macos.Hub.{Pipe, readable, empty, Round, read}
use ipmb.Macos.Hub.Reading.{offers}
use ipmb.Macos.Connect.{Bootstrap, Calls, Context, look_up, climb}
use ipmb.Macos.Connect.Laws.{verdict, look_up-verdict}

-- Identifiers are written as themselves.
abbrev ack_encode : ConnectMessageAck → Option Bytes
ack_encode (accepted id) = some (id ∷ [])
ack_encode (err_version v) = none
ack_encode err_token = none

abbrev ack_decode : Bytes → Option (ConnectMessageAck × ℕ)
ack_decode [] = none
ack_decode (id ∷ bytes) = some (accepted id, 1)

ack_round_trip :
    (a : ConnectMessageAck) (bytes rest : Bytes)
    → ack_encode a ≡ some bytes
    → ack_decode (bytes ++ rest) ≡ some (a, length bytes)
ack_round_trip (accepted id) bytes rest h = cc
ack_round_trip (err_version v) bytes rest h = cc
ack_round_trip err_token bytes rest h = cc

abbrev acks : Codec ConnectMessageAck
acks = record {
  encode_to_vec = ack_encode;
  decode_from_slice = ack_decode;
  round_trip = ack_round_trip;
}

abbrev context : Context
context = record {
  formats = record formats { ack_box = typed_box ack_uuid acks };
  grow = λ capacity additional. capacity + additional;
  target = λ name. name;
}

abbrev ack_msg : Message ConnectMessageAck
ack_msg = record {
  selector = record (unicast_to always) { uuid = ack_uuid };
  payload = accepted 7;
  objects = [];
  memory_regions = [];
}

abbrev ack_encoded : EncodedMessage
ack_encoded = record {
  selector = ack_msg.selector;
  payload_data = 7 ∷ [];
  mach_msg = mach_message (λ i. 0) [] (ack_uuid ∷ 0 ∷ 0 ∷ []) (7 ∷ []);
  objects = [];
  memory_regions = [];
}

abbrev got : Bytes
got = addressed 6 ack_encoded.mach_msg

pay_encodes : context.formats.ack_box.encode_box ack_msg.payload ≡ ok (7 ∷ [])
unfolding typed_box encode
pay_encodes = refl

ack_named : ack_msg.selector.uuid ≡ context.formats.ack_box.uuid_of ack_msg.payload
unfolding typed_box
ack_named = refl

ack_encodes :
    into_encoded (λ i. 0) formats.selectors context.formats.ack_box ack_msg ≡ some ack_encoded
unfolding into_encoded typed_box encode
ack_encodes = refl

ack_Delivered : Delivered [] (addressed 6 ack_encoded.mach_msg) got
unfolding mach_message writes slice? read_u32
ack_Delivered = record {
  size = 48;
  sized = refl;
  agrees = (refl, λ i k a b. refl);
  ports = tt;
  room = omega arith;
}

small : msg_size 0 (ack_uuid ∷ 0 ∷ 0 ∷ []) (7 ∷ []) < 2 ^ 32
unfolding align4
small = omega arith

abbrev first : Round
first = record { received = empty; answers = offers got ∷ []; dead = false; events = []; now = 0 }

abbrev calls : Calls
calls = record {
  code = Bootstrap.success;
  remote = 5;
  local = 6;
  clone = some (obj 6);
  os_error = 0;
  returns = success ∷ [];
  dead = false;
  now = 0;
  rounds = first ∷ [];
}

abbrev request_encoded : EncodedMessage
request_encoded = record {
  selector = record (unicast_to always) { uuid = connect_uuid };
  payload_data = [];
  mach_msg = mach_message (λ i. 0) (6 ∷ []) (connect_uuid ∷ 0 ∷ 0 ∷ []) [];
  objects = obj 6 ∷ [];
  memory_regions = [];
}

request_encodes :
    into_encoded
      (λ i. 0)
      formats.selectors
      formats.connect_box
      (request formats.connect_box payload.label payload.token (obj 6))
    ≡ some request_encoded
unfolding into_encoded new_message
request_encodes = refl

abbrev was_sent : Sent
was_sent = record {
  result = ok tt;
  headers = headers;
  taken = some (addressed 5 request_encoded.mach_msg);
}

sends : send 5 false headers request_encoded (success ∷ []) ≡ some was_sent
unfolding send
sends = refl

abbrev port : Pipe
port = record { port = 6; status = readable }

reads : read context.grow (offers got ∷ []) port ≡ some (some got, port)
unfolding read mach_message writes
reads = refl

look_up-verdict_example :
    look_up context headers payload.label payload.token calls
    ≡ continues (
        verdict platform controller payload
          (record { local = some port; bus_receiver = false })
          (record { v = 5 }))
look_up-verdict_example =
    look_up-verdict context headers payload calls (obj 6) request_encoded was_sent first [] port got
      refl (omega arith) refl request_encodes sends refl refl reads platform controller ack_msg
      ack_encoded (ack_uuid ∷ 0 ∷ 0 ∷ []) (7 ∷ []) [] [] (typed_box-IsFaithful ack_uuid acks)
      acknowledgement ack_named refl pay_encodes (omega arith) (omega arith) small tt refl
      ack_encodes (direct 6 refl refl ack_Delivered)

abbrev parent : ℕ → Option ℕ
parent port = if port == 3 then some 2 else some 1

climbs : climb 3 parent 3 ≡ some 1
unfolding climb
climbs = refl
