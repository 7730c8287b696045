-- ===== src/Bus/Buffering/Frame.antt =====
-- ipmb/src/bus_controller.rs: `handle_message` leaves the buffers alone.
use ipmb.Prelude.{◌≡◌, Option, none, some, arith}
use ipmb.Errors.{Error, Remote, Result, ok, err}
use ipmb.Message.{Selector, ConnectMessage, EncodedMessage}
use ipmb.Bus.{Platform, BusController}
use ipmb.Bus.Connect.{check_request, with_remote, endpoint_connect}
use ipmb.Bus.Route.{handle_message}

module _ (p : Platform) where
  open p use {World}

  -- The fields that a message does not change.
  pub record SameBuffers (c d : BusController World) : Type 0 where
    pub buffer : d.message_buffer ≡ c.message_buffer
    pub swap : d.message_buffer_swap ≡ c.message_buffer_swap
    pub label : d.label ≡ c.label
    pub token : d.token ≡ c.token

  check_request-SameBuffers :
      (c : BusController World) (selector : Selector) (remote : Remote)
      (r : Result ConnectMessage Error)
      → SameBuffers c (check_request p c selector remote r).1
  check_request-SameBuffers c selector remote (err e) = ground arith
  check_request-SameBuffers c selector remote (ok payload) = ground arith

  with_remote-SameBuffers :
      (c : BusController World) (o : Option (Remote × EncodedMessage))
      → SameBuffers c (with_remote p c o).1
  with_remote-SameBuffers c none = ground arith
  with_remote-SameBuffers c (some (remote, msg)) =
      check_request-SameBuffers c msg.selector remote (p.decode_connect msg.payload_data)

  endpoint_connect-SameBuffers :
      (c : BusController World) (msg : EncodedMessage) → SameBuffers c (endpoint_connect p c msg).1
  unfolding endpoint_connect
  endpoint_connect-SameBuffers c msg = with_remote-SameBuffers c (p.extract_remote msg)

  pub handle_message-buffers :
      (c : BusController World) (msg : EncodedMessage)
      → SameBuffers c (handle_message p c msg).controller
  unfolding handle_message
  handle_message-buffers c msg = ground (arith, endpoint_connect-SameBuffers c msg)
