-- ===== src/Bus/Connect.antt =====
-- ipmb/src/bus_controller.rs: `endpoint_connect`.
use ipmb.Prelude.{
  Bool, true, false, not, Option, none, some, [], ◌∷◌, ◌++◌, any, str_eq, if◌then◌else◌,
}
use ipmb.Version.{version, compatible}
use ipmb.Errors.{Error, Remote, Result, ok, err}
use ipmb.Message.{
  Selector, ConnectMessage, ConnectMessageAck, accepted, err_version, err_token, ack_uuid,
  EncodedMessage, Message,
}
use ipmb.Bus.{Platform, Link, Endpoint, BusController, same_peer, send_to}

-- `Message::new(selector, ack)`
abbrev pub ack_message : Selector → ConnectMessageAck → Message ConnectMessageAck
ack_message selector ack = record {
  selector = record selector { uuid = ack_uuid };
  payload = ack;
  objects = [];
  memory_regions = [];
}

module _ (p : Platform) where
  open p use {World, encode_ack}

  -- `let _ = Message::new(..).into_encoded().send(&remote); return false;`
  abbrev pub refuse :
      BusController World → Selector → ConnectMessageAck → Remote → Bool × BusController World
  refuse c selector ack remote = (
    false,
    record c { link = (send_to p c.link (encode_ack (ack_message selector ack)) remote).1 },
  )

  -- The new endpoint enters the list, unless it is there.
  abbrev pub push_endpoint : BusController World → Endpoint → Bool × BusController World
  push_endpoint c pair =
      if any (λ ep. same_peer ep pair) c.endpoints
      then (false, c)
      else (true, record c { endpoints = c.endpoints ++ pair ∷ [] })

  abbrev pub acknowledged :
      BusController World
      → Endpoint
      → Result (Unit {0}) Error × Link World
      → Bool × BusController World
  acknowledged c pair (ok _, k) = push_endpoint (record c { link = k }) pair
  acknowledged c pair (err e, k) = (false, record c { link = k })

  abbrev pub accept :
      BusController World → Selector → ConnectMessage → Remote → Bool × BusController World
  accept c selector payload remote =
      let (id, world) = p.new_id c.link.world in
      let k = record c.link { world = world } in
      acknowledged c (record { id = id; label = payload.label; remote = remote })
        (send_to p k (encode_ack (ack_message selector (accepted id))) remote)

  abbrev pub check_request :
      BusController World
      → Selector
      → Remote
      → Result ConnectMessage Error
      → Bool × BusController World
  check_request c selector remote (err e) = refuse c selector (err_version version) remote
  check_request c selector remote (ok payload) =
      if not (compatible payload.version version)
      then refuse c selector (err_version version) remote
      else if not (str_eq payload.token c.token)
      then refuse c selector err_token remote
      else accept c selector payload remote

  abbrev pub with_remote :
      BusController World → Option (Remote × EncodedMessage) → Bool × BusController World
  with_remote c none = (false, c)
  with_remote c (some (remote, msg)) =
      check_request c msg.selector remote (p.decode_connect msg.payload_data)

  -- `BusController::endpoint_connect`
  unfoldable pub endpoint_connect :
      BusController World → EncodedMessage → Bool × BusController World
  endpoint_connect c encoded_msg = with_remote c (p.extract_remote encoded_msg)
