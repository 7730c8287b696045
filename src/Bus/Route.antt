-- ===== src/Bus/Route.antt =====
-- ipmb/src/bus_controller.rs: `handle_message`.
use ipmb.Prelude.{
  Bool, true, false, not, ◌&&◌, ◌||◌, Option, none, some, List, [], ◌∷◌, ◌==◌, if◌then◌else◌,
}
use ipmb.Label.{validate}
use ipmb.Errors.{Error, Result, ok, err}
use ipmb.Message.{EncodedMessage, connect_uuid}
use ipmb.Bus.{Platform, Link, Endpoint, BusController, channel_send, is_unicast, send_to}
use ipmb.Bus.Connect.{endpoint_connect}

-- The variables of the closure that `retain` calls, and its result.
pub record Visit (W : Type 0) : Type 0 where
  pub online : Bool
  pub routed : Bool
  pub link : Link W

pub record Routed (W : Type 0) : Type 0 where
  pub endpoints : List Endpoint
  pub routed : Bool
  pub link : Link W

pub record Handled (W : Type 0) : Type 0 where
  pub remain : Option EncodedMessage
  pub endpoint_connected : Bool
  pub controller : BusController W

module _ (p : Platform) where
  open p use {World}

  abbrev pub sent : Bool → Result (Unit {0}) Error × Link World → Visit World
  sent routed (ok _, k) = record { online = true; routed = true; link = k }
  sent routed (err Error.disconnect, k) = record { online = false; routed = routed; link = k }
  sent routed (err _, k) = record { online = true; routed = routed; link = k }

  -- The closure, at one endpoint.
  unfoldable pub visit : Link World → EncodedMessage → Bool → Endpoint → Visit World
  visit k msg routed ep =
      if routed && is_unicast msg.selector.mode
      then record { online = true; routed = routed; link = k }
      else if validate msg.selector.label_op ep.label
      then sent routed (send_to p k msg ep.remote)
      else record { online = true; routed = routed; link = k }

  -- `self.endpoints.retain(..)`
  unfoldable pub route : Link World → EncodedMessage → Bool → List Endpoint → Routed World
  route k msg routed [] = record { endpoints = []; routed = routed; link = k }
  route k msg routed (ep ∷ eps) =
      let v = visit k msg routed ep in
      let rest = route v.link msg v.routed eps in
      record rest { endpoints = (if v.online then ep ∷ rest.endpoints else rest.endpoints) }

  abbrev pub remain_of : Bool → Option EncodedMessage → Option EncodedMessage
  remain_of routed returned = if not routed then returned else none

  -- The message for the controller's own endpoint, behind the loop.
  unfoldable pub deliver_local :
      BusController World → EncodedMessage → Bool → Option EncodedMessage × BusController World
  unfolding channel_send
  deliver_local c msg routed =
      if (not routed || not (is_unicast msg.selector.mode))
        && validate msg.selector.label_op c.label
      then (let (returned, sender) = channel_send c.sender msg in
          (remain_of routed returned, record c { sender = sender }))
      else (remain_of routed (some msg), c)

  unfoldable pub route_message : BusController World → EncodedMessage → Handled World
  unfolding route deliver_local
  route_message c msg =
      let r = route c.link msg false c.endpoints in
      let (remain, c') =
        deliver_local (record c { endpoints = r.endpoints; link = r.link }) msg r.routed in
      record { remain = remain; endpoint_connected = false; controller = c' }

  -- `BusController::handle_message`, off Windows
  unfoldable pub handle_message : BusController World → EncodedMessage → Handled World
  unfolding route_message endpoint_connect
  handle_message c msg =
      if msg.selector.uuid == connect_uuid
      then (let (connected, c') = endpoint_connect p c msg in
          record { remain = none; endpoint_connected = connected; controller = c' })
      else route_message c msg
