-- ===== src/Endpoint.antt =====
-- ipmb/src/lib.rs and ipmb/src/options.rs: what an endpoint keeps of its place on the bus.
pub mod Join
pub mod Session
mod Examples
use ipmb.Prelude.{ℕ, String, Bool, true, false, Option, none, some, List, []}
use ipmb.Label.{Label}
use ipmb.Errors.{Remote}
use ipmb.Message.{EndpointId, EncodedMessage}
use ipmb.Bus.{Channel}

pub record Options : Type 0 where
  pub identifier : String
  pub label : Label
  pub token : String
  pub controller_affinity : Bool

-- `Options::new`
abbrev pub new_options : String → Label → String → Options
new_options identifier label token = record {
  identifier = identifier;
  label = label;
  token = token;
  controller_affinity = true;
}

-- `Rule::Client`, with the platform's `IoHub` as a parameter. `epoch` is a `u32`.
pub record Client (Hub : Type 0) : Type 0 where
  pub endpoint_id : EndpointId
  pub options : Options
  pub remote : Remote
  pub io_hub : Option Hub
  pub reader_closed : Bool
  pub epoch : ℕ

-- `Rule::Server`: the channel to the controller, and what the controller's channel holds for it.
pub record Server : Type 0 where
  pub endpoint_id : EndpointId
  pub bus_sender : Channel
  pub receiver : Option (List EncodedMessage)

pub data Rule (Hub : Type 0) : Type 0 where
  client : Client Hub → Rule Hub
  server : Server → Rule Hub

-- `Rule::reader_close`
unfoldable pub reader_close : {Hub : Type 0} → Rule Hub → Rule Hub
reader_close (client c) = client (record c { io_hub = none; reader_closed = true })
reader_close (server s) = server (record s { receiver = none })
