-- ===== src/Macos/Wire/Examples.antt =====
-- A message with an object and a region, to the controller and on to an endpoint. In each process the
-- names are greater by 100.
use ipmb.Prelude.{
  ℕ, ◌+◌, ◌^◌, ◌<◌, ◌≡◌, inr, refl, arith, true, some, List, [], ◌∷◌, ◌++◌, replicate,
}
use ipmb.Errors.{ok}
use ipmb.Region.{receive_regions}
use ipmb.Util.{align4}
use ipmb.Message.{Bytes, typed_box}
use ipmb.Linux.Buffer.{slice?, u32_bytes, read_u32}
use ipmb.Linux.Examples.{selectors, byte, msg, headers, box_encodes}
use ipmb.Windows.Wire.{writes, received_objects}
use ipmb.Macos.Wire.{
  base_size, descriptor_size, msg_size, EncodedMessage, mach_message, into_encoded, addressed,
  read_descriptors, new_encoded, route_writes, routed_size, Sent, no_buffer, other, send,
}
use ipmb.Macos.Wire.Layout.{Agrees-writes, IsSendable}
use ipmb.Macos.Wire.Arrival.Copies.{copy_writes}
use ipmb.Macos.Wire.Hops.{Delivered, Process, Way, direct, via, IsRead, routed-received}
use ipmb.Macos.Wire.Sending.{IsSettled, send-IsSettled}

abbrev encoded_msg : EncodedMessage
encoded_msg = record {
  selector = msg.selector;
  payload_data = 42 ∷ [];
  mach_msg = mach_message (λ i. 0) (3 ∷ 4 ∷ []) (7 ∷ 1 ∷ 0 ∷ []) (42 ∷ []);
  objects = msg.objects;
  memory_regions = msg.memory_regions;
}

encodes : into_encoded (λ i. 0) selectors (typed_box 7 byte) msg ≡ some encoded_msg
unfolding into_encoded typed_box
encodes = refl

abbrev name_writes : ℕ → List ℕ → List (ℕ × Bytes)
name_writes off [] = []
name_writes off (name ∷ names) = (off, u32_bytes name) ∷ name_writes (off + descriptor_size) names

-- A kernel that gives the ports other names.
abbrev renamed : List ℕ → Bytes → Bytes
renamed names buf = writes buf (name_writes base_size names)

abbrev first : Bytes
first = renamed (103 ∷ 104 ∷ []) (addressed 9 encoded_msg.mach_msg)

first-Delivered : Delivered (103 ∷ 104 ∷ []) (addressed 9 encoded_msg.mach_msg) first
unfolding mach_message writes slice? read_u32 read_descriptors
first-Delivered = record {
  size = 72;
  sized = refl;
  agrees =
      Agrees-writes 2 72 (addressed 9 encoded_msg.mach_msg) (name_writes base_size (103 ∷ 104 ∷ []))
        (inr (omega arith, omega arith), (inr (omega arith, omega arith), tt));
  ports = (refl, refl, (refl, refl, tt));
  room = omega arith;
}

abbrev controller : Process
controller = record { headers = headers; target = λ name. name }

abbrev in_controller : EncodedMessage
in_controller = record {
  selector = msg.selector;
  payload_data = 42 ∷ [];
  mach_msg = writes (writes first (copy_writes base_size 2)) (route_writes 72);
  objects = received_objects controller.target (103 ∷ []);
  memory_regions = (receive_regions headers (received_objects controller.target (104 ∷ []))).0;
}

first_read :
    new_encoded selectors controller.target headers first
    ≡ some (
      ok in_controller,
      (receive_regions headers (received_objects controller.target (104 ∷ []))).1,
    )
unfolding new_encoded mach_message writes routed_size
first_read = refl

abbrev second : Bytes
second = renamed (203 ∷ 204 ∷ []) (addressed 8 in_controller.mach_msg)

second-Delivered : Delivered (203 ∷ 204 ∷ []) (addressed 8 in_controller.mach_msg) second
unfolding mach_message writes slice? read_u32 read_descriptors
second-Delivered = record {
  size = 72;
  sized = refl;
  agrees =
      Agrees-writes 2 72 (addressed 8 in_controller.mach_msg)
        (name_writes base_size (203 ∷ 204 ∷ []))
        (inr (omega arith, omega arith), (inr (omega arith, omega arith), tt));
  ports = (refl, refl, (refl, refl, tt));
  room = omega arith;
}

abbrev over_controller : Way selectors 1 1 second (203 ∷ []) (204 ∷ []) encoded_msg.mach_msg
over_controller =
    via 9 first (103 ∷ []) (104 ∷ []) controller in_controller _ refl refl first-Delivered
      first_read (direct 8 refl refl second-Delivered)

small : msg_size 2 (7 ∷ 1 ∷ 0 ∷ []) (42 ∷ []) < 2 ^ 32
unfolding align4
small = omega arith

routed-received_example :
    IsSendable (3 ∷ 4 ∷ []) (msg_size 2 (7 ∷ 1 ∷ 0 ∷ []) (42 ∷ [])) encoded_msg.mach_msg
    × ((a : EncodedMessage) × (new_encoded selectors controller.target controller.headers second
          ≡ some (
            ok a,
            (receive_regions controller.headers (received_objects controller.target (204 ∷ []))).1,
          ))
        × IsRead msg.selector
            (42 ∷ [])
            (203 ∷ [])
            (204 ∷ [])
            (msg_size 2 (7 ∷ 1 ∷ 0 ∷ []) (42 ∷ []))
            controller
            a)
routed-received_example =
    routed-received (λ i. 0) selectors (typed_box 7 byte) msg encoded_msg (7 ∷ 1 ∷ 0 ∷ []) (42 ∷ [])
      second (203 ∷ []) (204 ∷ []) controller refl box_encodes (omega arith) (omega arith) small
      (omega arith, (omega arith, tt)) refl encodes over_controller

-- Twice the kernel has no buffer, then the port is dead.
send-IsSettled_example :
    (s : Sent) × (send 9 true headers encoded_msg (replicate 2 no_buffer ++ other ∷ []) ≡ some s)
    × IsSettled 9 true headers 4 encoded_msg s
send-IsSettled_example =
    send-IsSettled 9 true headers 4 encoded_msg 2 other [] (omega arith) (ground arith)
