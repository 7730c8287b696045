-- ===== src/Bus/Run.antt =====
-- ipmb/src/bus_controller.rs: one round of the loop in `run`, `detect_reachable` and `maintain`.
use ipmb.Prelude.{
  ℕ, ◌+◌, ◌-◌, ◌*◌, Bool, not, ◌&&◌, Option, none, some, List, [], ◌∷◌, ◌++◌, retain, is_empty, ltb,
  leb, ◌==◌, ◌>>=◌, if◌then◌else◌,
}
use ipmb.Label.{LabelOp}
use ipmb.Version.{version}
use ipmb.Errors.{Error, Result, ok, err}
use ipmb.Message.{EncodedMessage, unicast_to, err_version}
use ipmb.Bus.{Platform, BusController, send_to}
use ipmb.Bus.Connect.{ack_message}
use ipmb.Bus.Route.{Handled, handle_message}

abbrev pub seconds : ℕ → ℕ
seconds n = n * 1000000000

module _ (p : Platform) where
  open p use {World, encode_ack}

  -- `detect_reachable`
  unfoldable pub detect_reachable : BusController World → ℕ → BusController World
  detect_reachable c now =
      if ltb (seconds 30) (now - c.last_detect_reachable)
      then record c {
        endpoints = retain (λ ep. not (p.is_dead c.link.world ep.remote)) c.endpoints;
        last_detect_reachable = now;
      }
      else c

  -- `maintain`
  unfoldable pub maintain : BusController World → ℕ → BusController World
  maintain c now = record c { message_buffer = retain (λ e. ltb now e.0) c.message_buffer }

  -- What is left of a message goes to the other buffer, unless it has expired.
  abbrev pub keep_unexpired :
      ℕ → ℕ → Option EncodedMessage → BusController World → BusController World
  keep_unexpired now expire none c = c
  keep_unexpired now expire (some remain) c =
      if ltb now expire
      then record c { message_buffer_swap = c.message_buffer_swap ++ (expire, remain) ∷ [] }
      else c

  -- The loop over the drained buffer.
  unfoldable pub retry : BusController World → ℕ → List (ℕ × EncodedMessage) → BusController World
  unfolding handle_message
  retry c now [] = c
  retry c now ((expire, msg) ∷ rest) =
      let r = handle_message p c msg in
      retry (keep_unexpired now expire r.remain r.controller) now rest

  -- `mem::take`, the loop, and `mem::swap` of the two buffers
  unfoldable pub retry_buffer : BusController World → ℕ → BusController World
  unfolding retry
  retry_buffer c now =
      let c' = retry (record c { message_buffer = [] }) now c.message_buffer in
      record c' { message_buffer = c'.message_buffer_swap; message_buffer_swap = [] }

  -- `Instant + Duration`; `none` for the panic where no instant is so late
  abbrev pub add_instant : ℕ → ℕ → Option ℕ
  add_instant now ttl = if leb (now + ttl) p.latest then some (now + ttl) else none

  -- A message that nobody took enters the buffer with the instant at which it expires.
  abbrev pub push_expiring :
      BusController World → EncodedMessage → Option ℕ → Option (BusController World)
  push_expiring c remain none = none
  push_expiring c remain (some expire) =
      some (record c { message_buffer = c.message_buffer ++ (expire, remain) ∷ [] })

  -- What follows `handle_message` in the loop, by what is left of the message; `none` for a panic.
  abbrev pub settled :
      ℕ → Bool → BusController World → Option EncodedMessage → Option (BusController World)
  settled now endpoint_connected c none =
      if endpoint_connected && not (is_empty c.message_buffer)
      then some (retry_buffer c now)
      else some c
  settled now endpoint_connected c (some remain) =
      if not (remain.selector.ttl == 0)
      then push_expiring c remain (add_instant now remain.selector.ttl)
      else some c

  unfoldable pub settle : ℕ → Handled World → Option (BusController World)
  unfolding retry_buffer
  settle now r = settled now r.endpoint_connected r.controller r.remain

  -- The end of a round
  abbrev pub tidy : ℕ → Option (BusController World) → Option (BusController World)
  tidy now none = none
  tidy now (some c) = some (maintain (detect_reachable c now) now)

  -- One round, from what `io_hub.recv` returned and the clock behind it; `none` for a panic.
  unfoldable pub round :
      BusController World → Result EncodedMessage Error → ℕ → Option (BusController World)
  unfolding settle detect_reachable maintain handle_message
  round c (ok msg) now = tidy now (settle now (handle_message p c msg))
  round c (err (Error.version_mismatch v (some remote))) now =
      let ack = ack_message (unicast_to LabelOp.always) (err_version version) in
      some (record c { link = (send_to p c.link (encode_ack ack) remote).1 })
  round c (err e) now = some c

  -- The rounds of a history; `none` where one of them panics.
  unfoldable pub run :
      BusController World → List (Result EncodedMessage Error × ℕ) → Option (BusController World)
  unfolding round
  run c [] = some c
  run c ((received, now) ∷ rest) = round c received now >>= λ c'. run c' rest
