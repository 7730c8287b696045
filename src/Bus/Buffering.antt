-- ===== src/Bus/Buffering.antt =====
-- ipmb/src/bus_controller.rs: what happens to a message that nobody took, over the rounds.
mod Frame
use ipmb.Prelude.{
  ap, ◌∙◌, ℕ, ◌+◌, ◌≤◌, ◌<◌, ◌≡◌, one_if_some, refl, Bool, true, false, ◌⊎◌, inl, inr, Option, none,
  some, List, [], ◌∷◌, ◌++◌, length, length-append, retain, retain-append, retain-All, All, arith,
  ltb, leb, ◌==◌, Option-cases, Bool-cases, ◌&&◌, not, is_empty, if◌then◌else◌,
}
use ipmb.Errors.{Error, Result, ok, err}
use ipmb.Message.{EncodedMessage, unicast, connect_uuid}
use ipmb.Bus.{Platform, BusController}
use ipmb.Bus.Route.{Handled, handle_message}
use ipmb.Bus.Run.{
  detect_reachable, maintain, keep_unexpired, retry, retry_buffer, settle, round, add_instant,
  push_expiring, settled, tidy,
}
use ipmb.Bus.Routing.Counts.{consumed, handle_message-once}
use Frame.{handle_message-buffers}

module _ (p : Platform) where
  open p use {World}

  detect_reachable-buffer :
      (c : BusController World) (now : ℕ)
      → ((detect_reachable p c now).message_buffer ≡ c.message_buffer)
        × ((detect_reachable p c now).message_buffer_swap ≡ c.message_buffer_swap)
  unfolding detect_reachable
  detect_reachable-buffer c now = ground arith

  -- The buffer of a controller that goes on.
  abbrev pub buffer_of : Option (BusController World) → Option (List (ℕ × EncodedMessage))
  buffer_of none = none
  buffer_of (some c) = some c.message_buffer

  -- A buffer without what has expired, and a message at its end that expires at an instant, if that
  -- can be represented.
  abbrev pub with_expiring :
      ℕ → List (ℕ × EncodedMessage) → EncodedMessage → Option ℕ → Option (List (ℕ × EncodedMessage))
  with_expiring now buffer remain none = none
  with_expiring now buffer remain (some expire) =
      some (retain (λ e. ltb now e.0) buffer ++ (expire, remain) ∷ [])

  tidy-buffer :
      (c : BusController World) (now : ℕ)
      → buffer_of (tidy p now (some c)) ≡ some (retain (λ e. ltb now e.0) c.message_buffer)
  unfolding maintain
  tidy-buffer c now = rw (detect_reachable-buffer c now).0 refl

  pushed-buffer :
      (c d : BusController World) (remain : EncodedMessage) (now ttl : ℕ)
      → d.message_buffer ≡ c.message_buffer
      → (ttl == 0) ≡ false
      → (o : Option ℕ) → add_instant p now ttl ≡ o
      → buffer_of (tidy p now (push_expiring p d remain o))
        ≡ with_expiring now c.message_buffer remain o
  pushed-buffer c d remain now ttl q z none e = refl
  pushed-buffer c d remain now ttl q z (some expire) e =
      let late : ltb now expire ≡ true = ground arith in
      tidy-buffer (record d { message_buffer = d.message_buffer ++ (expire, remain) ∷ [] }) now
      ∙ ap some (
          retain-append (λ x. ltb now x.0) d.message_buffer ((expire, remain) ∷ [])
          ∙ rw (late, q) refl)

  unrouted :
      (c d : BusController World) (remain : EncodedMessage) (now : ℕ) (connected : Bool)
      → d.message_buffer ≡ c.message_buffer
      → buffer_of (tidy p now (settled p now connected d (some remain)))
        ≡ (elim (remain.selector.ttl == 0) [
          | true ↦ some (retain (λ e. ltb now e.0) c.message_buffer)
          | false ↦
              with_expiring now c.message_buffer remain (add_instant p now remain.selector.ttl)
        ])
  unrouted c d remain now connected q = elim (Bool-cases (remain.selector.ttl == 0)) [
    | inl z ↦ rw z (tidy-buffer d now ∙ ap (λ b. some (retain (λ e. ltb now e.0) b)) q)
    | inr z ↦ rw z (
        pushed-buffer c d remain now remain.selector.ttl q z (add_instant p now remain.selector.ttl)
          refl)
  ]

  -- In a round whose message nobody took: a message without a time to live is dropped; else it enters
  -- at the end of the buffer, to expire when its time to live is over, or the controller panics, where
  -- the clock cannot represent that instant. Of what waited before, that which has not expired stays.
  pub round-unrouted :
      (c : BusController World) (msg remain : EncodedMessage) (now : ℕ)
      → (handle_message p c msg).remain ≡ some remain
      → buffer_of (round p c (ok msg) now) ≡ (elim (remain.selector.ttl == 0) [
        | true ↦ some (retain (λ e. ltb now e.0) c.message_buffer)
        | false ↦ with_expiring now c.message_buffer remain (add_instant p now remain.selector.ttl)
      ])
  unfolding round settle
  round-unrouted c msg remain now h =
      let r = handle_message p c msg in
      ap (λ o. buffer_of (tidy p now (settled p now r.endpoint_connected r.controller o))) h
      ∙ unrouted c r.controller remain now r.endpoint_connected
          (handle_message-buffers p c msg).buffer

  -- A message on its way through a retry.
  pub record IsWaiting (now : ℕ) (e : ℕ × EncodedMessage) : Type 0 where
    pub unexpired : ltb now e.0 ≡ true
    pub ordinary : (e.1.selector.uuid == connect_uuid) ≡ false
    pub single : e.1.selector.mode ≡ unicast

  keep_unexpired-counts :
      (now expire : ℕ) (remain : Option EncodedMessage) (c : BusController World)
      → ltb now expire ≡ true
      → consumed (keep_unexpired p now expire remain c)
          + length (keep_unexpired p now expire remain c).message_buffer_swap
        ≡ consumed c + length c.message_buffer_swap + one_if_some remain
  keep_unexpired-counts now expire none c h = omega arith
  keep_unexpired-counts now expire (some remain) c h =
      rw h (omega (arith, length-append c.message_buffer_swap ((expire, remain) ∷ [])))

  -- Over a retry of waiting messages, each is consumed once or kept: none is lost, none doubled.
  pub retry-once :
      (c : BusController World) (now : ℕ) (waiting : List (ℕ × EncodedMessage))
      → All (IsWaiting now) waiting
      → consumed (retry p c now waiting) + length (retry p c now waiting).message_buffer_swap
        ≡ consumed c + length c.message_buffer_swap + length waiting
  unfolding retry
  retry-once c now [] w = omega arith
  retry-once c now ((expire, msg) ∷ rest) w =
      let r = handle_message p c msg in
      omega (
        arith,
        retry-once (keep_unexpired p now expire r.remain r.controller) now rest w.1,
        keep_unexpired-counts now expire r.remain r.controller w.0.unexpired,
        handle_message-once p msg c w.0.ordinary w.0.single,
        ap length (handle_message-buffers p c msg).swap,
      )

  -- What holds of the controller, if it goes on.
  abbrev Holds : (BusController World → Type 0) → Option (BusController World) → Type 0
  Holds P none = Unit
  Holds P (some c) = P c

  push_expiring-swap :
      (c : BusController World) (remain : EncodedMessage) (o : Option ℕ)
      → c.message_buffer_swap ≡ []
      → Holds (λ d. d.message_buffer_swap ≡ []) (push_expiring p c remain o)
  push_expiring-swap c remain none e = tt
  push_expiring-swap c remain (some expire) e = e

  settled-swap :
      (now : ℕ) (connected : Bool) (c : BusController World) (o : Option EncodedMessage)
      → c.message_buffer_swap ≡ []
      → Holds (λ d. d.message_buffer_swap ≡ []) (settled p now connected c o)
  unfolding retry_buffer
  settled-swap now connected c none e =
      elim (Bool-cases (connected && not (is_empty c.message_buffer))) [
        | inl b ↦ rw b refl
        | inr b ↦ rw b e
      ]
  settled-swap now connected c (some remain) e = elim (Bool-cases (remain.selector.ttl == 0)) [
    | inl z ↦ rw z e
    | inr z ↦ rw z (push_expiring-swap c remain (add_instant p now remain.selector.ttl) e)
  ]

  tidy-buffers :
      (now : ℕ) (o : Option (BusController World))
      → Holds (λ d. d.message_buffer_swap ≡ []) o
      → Holds
          (λ d. (d.message_buffer_swap ≡ []) × All (λ e. ltb now e.0 ≡ true) d.message_buffer)
          (tidy p now o)
  unfolding maintain
  tidy-buffers now none h = tt
  tidy-buffers now (some c) h =
      ((detect_reachable-buffer c now).1 ∙ h, retain-All (λ e. ltb now e.0) _)

  -- If the second buffer is empty before a round that receives a message, it is empty behind it, and
  -- no message in the first has expired.
  pub round-buffers :
      (c : BusController World) (msg : EncodedMessage) (now : ℕ)
      → c.message_buffer_swap ≡ []
      → Holds
          (λ d. (d.message_buffer_swap ≡ []) × All (λ e. ltb now e.0 ≡ true) d.message_buffer)
          (round p c (ok msg) now)
  unfolding round settle
  round-buffers c msg now e =
      let r = handle_message p c msg in
      tidy-buffers now (settle p now r) (
        settled-swap now r.endpoint_connected r.controller r.remain
          ((handle_message-buffers p c msg).swap ∙ e))
