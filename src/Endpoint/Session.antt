-- ===== src/Endpoint/Session.antt =====
-- ipmb/src/lib.rs: the bodies of the loops in `EndpointSender::send` and `EndpointReceiver::recv`, and
-- the step under the write lock that they share.
pub mod Reconnect
pub mod Receive
pub mod Loops
use ipmb.Prelude.{
  ℕ, ◌+◌, ◌%◌, ◌^◌, Bool, true, false, not, ◌&&◌, Option, none, some, List, [], ◌∷◌, length, ◌==◌,
  if◌then◌else◌, is_empty,
}
use ipmb.Label.{validate}
use ipmb.Errors.{Error, JoinError, SendError, RecvError, Result, ok, err, send_error, recv_error}
use ipmb.Message.{EncodedMessage, Message, MessageBox, new_message}
use ipmb.Bus.{Channel, channel_send}
use ipmb.Endpoint.{Options, Client, Server, Rule, client, server, reader_close}
use ipmb.Endpoint.Join.{Round, fresh, Joining, join}

-- `epoch.overflowing_add(1).0`
abbrev pub next_epoch : ℕ → ℕ
next_epoch epoch = (epoch + 1) % 2 ^ 32

-- `msg.selector.memory_region_count = msg.memory_regions.len() as _`, a `u16`
unfoldable pub count_regions : {T : Type 0} → Message T → Message T
count_regions msg = record msg {
  selector = record msg.selector { memory_region_count = length msg.memory_regions % 2 ^ 16 };
}

module _ {Hub : Type 0} where
  abbrev pub reclosed : Bool → Rule Hub → Rule Hub
  reclosed reader_closed rule = if reader_closed then reader_close rule else rule

  -- The rule behind `*rule = Rule::join(..)?`, where the hub was taken out first.
  abbrev pub rejoined :
      Client Hub
      → Option (Result (Rule Hub) JoinError)
      → Option (Result (Unit {0}) JoinError × Rule Hub)
  rejoined c none = none
  rejoined c (some (ok rule)) = some (ok tt, reclosed c.reader_closed rule)
  rejoined c (some (err e)) = some (err e, client (record c { io_hub = none }))

  -- The step under the write lock, for a thread that lost the connection of an epoch; `none` where
  -- the history of the join ends within its loop.
  unfoldable pub reconnect :
      Option ℕ → List (Round Hub) → ℕ → Rule Hub → Option (Result (Unit {0}) JoinError × Rule Hub)
  unfolding reader_close join
  reconnect end rounds epoch (server s) = some (ok tt, server s)
  reconnect end rounds epoch (client c) =
      if epoch == c.epoch
      then rejoined c (join c.options (next_epoch epoch) end fresh rounds).result
      else some (ok tt, client c)

-- How a round of `send` ends. The step under the write lock follows `broken`.
pub data SendTurn : Type 0 where
  sent : SendTurn
  broken : ℕ → SendTurn
  panics : SendTurn

module _ {Hub : Type 0} where
  -- One round of `send`, given what `msg.send(remote)` returned, for a client
  unfoldable pub send_turn :
      Rule Hub → EncodedMessage → Result (Unit {0}) Error → SendTurn × Rule Hub
  unfolding channel_send
  send_turn (client c) msg (ok _) = (sent, client c)
  send_turn (client c) msg (err Error.disconnect) = (broken c.epoch, client c)
  send_turn (client c) msg (err e) = (panics, client c)
  send_turn (server s) msg r =
      let (returned, bus_sender) = channel_send s.bus_sender msg in
      (
        elim returned [ none ↦ sent | some back ↦ panics ],
        server (record s { bus_sender = bus_sender }),
      )

-- How a round of `recv` ends.
pub data RecvTurn (R : Type 0) : Type 0 where
  received : Result (Message R) RecvError → RecvTurn R
  skipped : RecvTurn R
  lost : ℕ → RecvTurn R
  panics : RecvTurn R

module _ {R : Type 0} (box : MessageBox R) where
  abbrev pub opened : EncodedMessage → Result R Error → RecvTurn R
  opened msg (ok payload) = received (
      ok (record (new_message box msg.selector payload) {
        objects = msg.objects;
        memory_regions = msg.memory_regions;
      }))
  opened msg (err Error.type_uuid_not_found) = skipped
  opened msg (err Error.decode) = received (err RecvError.decode)
  opened msg (err e) = RecvTurn.panics

  -- The message is for the box to decode.
  abbrev pub unpack : EncodedMessage → RecvTurn R
  unpack msg = opened msg (box.decode_box msg.selector.uuid msg.payload_data)

  abbrev pub client_received :
      {Hub : Type 0} → Client Hub → Result EncodedMessage Error → RecvTurn R
  client_received c (ok msg) =
      if validate msg.selector.label_op c.options.label then unpack msg else skipped
  client_received c (err Error.disconnect) = lost c.epoch
  client_received c (err Error.timeout) = received (err RecvError.timeout)
  client_received c (err e) = RecvTurn.panics

  abbrev pub server_received : Result EncodedMessage Error → RecvTurn R
  server_received (ok msg) = unpack msg
  server_received (err Error.timeout) = received (err RecvError.timeout)
  server_received (err e) = RecvTurn.panics

  abbrev pub client_turn :
      {Hub : Type 0} → Client Hub → Option Hub → Result EncodedMessage Error → RecvTurn R
  client_turn c none r = if not c.reader_closed then lost c.epoch else RecvTurn.panics
  client_turn c (some hub) r = client_received c r

  abbrev pub server_turn : Option (List EncodedMessage) → Result EncodedMessage Error → RecvTurn R
  server_turn none r = RecvTurn.panics
  server_turn (some queue) r = server_received r

  -- One round of `recv`, given what the hub or the channel returned
  unfoldable pub recv_turn : {Hub : Type 0} → Rule Hub → Result EncodedMessage Error → RecvTurn R
  unfolding new_message
  recv_turn (client c) r = client_turn c c.io_hub r
  recv_turn (server s) r = server_turn s.receiver r
