-- ===== src/Bus.antt =====
-- ipmb/src/bus_controller.rs: the state of the bus controller, and what it needs of the platform.
pub mod Route
pub mod Connect
pub mod Run
pub mod Routing
pub mod Admission
pub mod Buffering
pub mod Peers
mod Examples
use ipmb.Prelude.{
  ℕ, String, Bool, true, false, ◌&&◌, Option, none, some, List, [], ◌∷◌, ◌++◌, str_eq, ◌==◌,
  if◌then◌else◌,
}
use ipmb.Label.{Label}
use ipmb.Errors.{Error, Remote, Result, ok, err}
use ipmb.Message.{
  Bytes, SelectorMode, unicast, multicast, EndpointId, Message, ConnectMessage, ConnectMessageAck,
  EncodedMessage,
}

-- What the controller calls: `into_encoded` of an acknowledgement, `decode` of a request to
-- connect, `EncodedMessage::send`, `extract_remote`, `Remote::is_dead` and `EndpointID::new`. The
-- world holds the kernel's side of the calls. `latest` is the last instant that the clock represents.
pub record Platform : Type 1 where
  pub World : Type 0
  pub encode_ack : Message ConnectMessageAck → EncodedMessage
  pub decode_connect : Bytes → Result ConnectMessage Error
  pub send : World → EncodedMessage → Remote → Result (Unit {0}) Error × World
  pub extract_remote : EncodedMessage → Option (Remote × EncodedMessage)
  pub is_dead : World → Remote → Bool
  pub new_id : World → EndpointId × World
  pub latest : ℕ

-- A call of `send`, and what it returned.
pub record Attempt : Type 0 where
  pub remote : Remote
  pub message : EncodedMessage
  pub result : Result (Unit {0}) Error

-- The world, and the calls of `send` that were made so far, oldest first.
pub record Link (W : Type 0) : Type 0 where
  pub world : W
  pub attempts : List Attempt

-- The sending half of a channel of the standard library, whose receiver may be gone.
pub record Channel : Type 0 where
  pub queue : List EncodedMessage
  pub connected : Bool

-- `Sender::send`: the message comes back where the receiver is gone.
unfoldable pub channel_send : Channel → EncodedMessage → Option EncodedMessage × Channel
channel_send ch msg =
    if ch.connected then (none, record ch { queue = ch.queue ++ msg ∷ [] }) else (some msg, ch)

pub record Endpoint : Type 0 where
  pub id : EndpointId
  pub label : Label
  pub remote : Remote

-- `BusController`, with the link in the place of `io_hub`. Instants are in nanoseconds.
pub record BusController (W : Type 0) : Type 0 where
  pub label : Label
  pub token : String
  pub endpoint_id : EndpointId
  pub sender : Channel
  pub endpoints : List Endpoint
  pub message_buffer : List (ℕ × EncodedMessage)
  pub message_buffer_swap : List (ℕ × EncodedMessage)
  pub link : Link W
  pub last_detect_reachable : ℕ

-- `BusController::new`
abbrev pub new_controller :
    {W : Type 0} → EndpointId → Label → String → Channel → Link W → ℕ → BusController W
new_controller endpoint_id label token sender link now = record {
  label = label;
  token = token;
  endpoint_id = endpoint_id;
  sender = sender;
  endpoints = [];
  message_buffer = [];
  message_buffer_swap = [];
  link = link;
  last_detect_reachable = now;
}

abbrev pub is_unicast : SelectorMode → Bool
is_unicast unicast = true
is_unicast multicast = false

-- `PartialEq` of the labels' vectors
abbrev pub names_eq : List String → List String → Bool
names_eq [] [] = true
names_eq (x ∷ xs) (y ∷ ys) = str_eq x y && names_eq xs ys
names_eq _ _ = false

-- `ep.label == pair.label && ep.remote == pair.remote`
abbrev pub same_peer : Endpoint → Endpoint → Bool
same_peer ep pair = names_eq ep.label.names pair.label.names && ep.remote.v == pair.remote.v

module _ (p : Platform) where
  -- `msg.send(remote)`, recorded
  unfoldable pub send_to :
      Link p.World → EncodedMessage → Remote → Result (Unit {0}) Error × Link p.World
  send_to k msg remote =
      let (r, world) = p.send k.world msg remote in
      (
        r,
        record {
          world = world;
          attempts = k.attempts ++ record { remote = remote; message = msg; result = r } ∷ [];
        },
      )
