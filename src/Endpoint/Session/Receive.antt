-- ===== src/Endpoint/Session/Receive.antt =====
-- ipmb/src/lib.rs: what `EndpointReceiver::recv` hands out, and when its rounds do not panic.
use ipmb.Prelude.{
  ℕ, ◌≡◌, ◌≢◌, subst, refl, Bool, true, false, inl, inr, Option, none, some, List, [], ◌∷◌, arith,
  ◌==◌, Bool-cases, Option-cases,
}
use ipmb.Label.{validate}
use ipmb.Errors.{Error, Result, ok, err}
use ipmb.Message.{EncodedMessage, Message, MessageBox, Uuid, Bytes, decode, decoded, new_message}
use ipmb.Message.Derive.{Variant, Enum, derive_decode, derive_box, map_ok}
use ipmb.Endpoint.{Client, Server, Rule, client, server}
use ipmb.Endpoint.Session.{
  RecvTurn, received, opened, unpack, client_received, server_received, client_turn, server_turn,
  recv_turn,
}
use ipmb.Endpoint.Session.Reconnect.{IsOpen}

-- The errors that a box may give.
abbrev pub IsDecoding {ℓ} : {A : Type ℓ} → Result A Error → Type 0
IsDecoding (ok a) = Unit
IsDecoding (err Error.decode) = Unit
IsDecoding (err Error.type_uuid_not_found) = Unit
IsDecoding (err e) = ⊥

decoded-IsDecoding : {A : Type 0} (o : Option (A × ℕ)) → IsDecoding (decoded o)
decoded-IsDecoding none = tt
decoded-IsDecoding (some (a, n)) = tt

map_ok-IsDecoding :
    {A : Type 0} {B : Type 0} (f : A → B) (r : Result A Error)
    → IsDecoding r
    → IsDecoding (map_ok f r)
map_ok-IsDecoding f (ok a) h = tt
map_ok-IsDecoding f (err e) h = ground arith

derive_decode-IsDecoding :
    (vs : List Variant) (uuid : Uuid) (bytes : Bytes) → IsDecoding (derive_decode vs uuid bytes)
unfolding derive_decode decode
derive_decode-IsDecoding [] uuid bytes = tt
derive_decode-IsDecoding (v ∷ vs) uuid bytes = elim (Bool-cases (uuid == v.uuid)) [
  | inl e ↦ rw e (
      map_ok-IsDecoding inl (decode v.codec bytes)
        (decoded-IsDecoding (v.codec.decode_from_slice bytes)))
  | inr n ↦ rw n (map_ok-IsDecoding inr _ (derive_decode-IsDecoding vs uuid bytes))
]

-- The answers for which `recv` has an arm: of the hub of a client, and of the channel of a server.
abbrev pub IsExpected : {Hub : Type 0} → Rule Hub → Result EncodedMessage Error → Type 0
IsExpected rule (ok msg) = Unit
IsExpected rule (err Error.timeout) = Unit
IsExpected (client c) (err Error.disconnect) = Unit
IsExpected (server s) (err Error.disconnect) = ⊥
IsExpected rule (err e) = ⊥

-- A client looks at the label of a message again; a server relies on the controller.
abbrev pub accepts : {Hub : Type 0} → Rule Hub → EncodedMessage → Bool
accepts (client c) msg = validate msg.selector.label_op c.options.label
accepts (server s) msg = true

module _ (vs : List Variant) where
  opened_safe :
      (msg : EncodedMessage) (r : Result (Enum vs) Error)
      → IsDecoding r
      → opened (derive_box vs) msg r ≡ RecvTurn.panics
      → ⊥
  opened_safe msg (ok payload) d h = ground arith
  opened_safe msg (err e) d h = ground arith

  unpack_safe : (msg : EncodedMessage) → unpack (derive_box vs) msg ≡ RecvTurn.panics → ⊥
  unfolding derive_box
  unpack_safe msg h =
      opened_safe msg (derive_decode vs msg.selector.uuid msg.payload_data)
        (derive_decode-IsDecoding vs msg.selector.uuid msg.payload_data) h

  client_received_safe :
      {Hub : Type 0} (c : Client Hub) (r : Result EncodedMessage Error)
      → IsExpected (client c) r
      → client_received (derive_box vs) c r ≡ RecvTurn.panics
      → ⊥
  client_received_safe c (ok msg) x h = ground (arith, unpack_safe msg)
  client_received_safe c (err e) x h = ground arith

  server_received_safe :
      (Hub : Type 0) (s : Server) (r : Result EncodedMessage Error)
      → IsExpected {Hub = Hub} (server s) r
      → server_received (derive_box vs) r ≡ RecvTurn.panics
      → ⊥
  server_received_safe Hub s (ok msg) x h = unpack_safe msg h
  server_received_safe Hub s (err e) x h = ground arith

  client_turn_safe :
      {Hub : Type 0} (c : Client Hub) (hub : Option Hub) (r : Result EncodedMessage Error)
      → c.reader_closed ≡ false
      → IsExpected (client c) r
      → client_turn (derive_box vs) c hub r ≡ RecvTurn.panics
      → ⊥
  client_turn_safe c none r o x h = ground arith
  client_turn_safe c (some hub) r o x h = client_received_safe c r x h

  -- Where the reader is open, and the hub or the channel gives a message, a timeout or, to a client, a
  -- disconnect, a round of `recv` into a derived enum reaches neither `unreachable!()` nor the
  -- expectation that the reader is open.
  pub recv_turn-safe :
      {Hub : Type 0} (rule : Rule Hub) (r : Result EncodedMessage Error)
      → IsOpen rule
      → IsExpected rule r
      → recv_turn (derive_box vs) rule r ≢ RecvTurn.panics
  unfolding recv_turn
  recv_turn-safe (client c) r o x h = client_turn_safe c c.io_hub r o x h
  recv_turn-safe {Hub} (server s) r (q, o) x h =
      server_received_safe Hub s r x
        (subst (λ k. server_turn (derive_box vs) k r ≡ RecvTurn.panics) o h)

-- What a message that was handed out comes from.
abbrev pub IsFrom :
    {Hub : Type 0} {R : Type 0}
    → MessageBox R
    → Rule Hub
    → Result EncodedMessage Error
    → Message R
    → Type 0
IsFrom box rule r m =
    (msg : EncodedMessage) × (r ≡ ok msg)
    × (accepts rule msg ≡ true)
    × (box.decode_box msg.selector.uuid msg.payload_data ≡ ok m.payload)
    × (m.objects ≡ msg.objects)
    × (m.memory_regions ≡ msg.memory_regions)
    × (m.selector.label_op ≡ msg.selector.label_op)

module _ {R : Type 0} (box : MessageBox R) {Hub : Type 0} where
  opened_delivers :
      (rule : Rule Hub) (msg : EncodedMessage) (p : Result R Error) (m : Message R)
      → accepts rule msg ≡ true
      → box.decode_box msg.selector.uuid msg.payload_data ≡ p
      → opened box msg p ≡ received (ok m)
      → IsFrom box rule (ok msg) m
  unfolding new_message
  opened_delivers rule msg (ok payload) m a d h =
      let q = opened_message msg payload m h in
      subst (IsFrom box rule (ok msg)) q (msg, refl, a, d, refl, refl, refl)
    where
      opened_message :
          (msg : EncodedMessage) (payload : R) (m : Message R)
          → opened box msg (ok payload) ≡ received (ok m)
          → record (new_message box msg.selector payload) {
            objects = msg.objects;
            memory_regions = msg.memory_regions;
          }
            ≡ m
      opened_message msg payload m h = cc
  opened_delivers rule msg (err e) m a d h = absurd (ground arith)

  client_turn_delivers :
      (c : Client Hub) (hub : Option Hub) (r : Result EncodedMessage Error) (m : Message R)
      → client_turn box c hub r ≡ received (ok m)
      → IsFrom box (client c) r m
  client_turn_delivers c none r m h = absurd (ground arith)
  client_turn_delivers c (some hub) (err e) m h = absurd (ground arith)
  client_turn_delivers c (some hub) (ok msg) m h =
      elim (Bool-cases (validate msg.selector.label_op c.options.label)) [
        | inl v ↦ opened_delivers (client c) msg _ m v refl (ground arith)
        | inr v ↦ absurd (ground arith)
      ]

  server_received_delivers :
      (rule : Rule Hub) (r : Result EncodedMessage Error) (m : Message R)
      → ((msg : EncodedMessage) → accepts rule msg ≡ true)
      → server_received box r ≡ received (ok m)
      → IsFrom box rule r m
  server_received_delivers rule (err e) m a h = absurd (ground arith)
  server_received_delivers rule (ok msg) m a h = opened_delivers rule msg _ m (a msg) refl h

  -- A message that a round of `recv` hands out is one that the hub or the channel gave, whose label
  -- operation a client's own label satisfies, with its payload decoded and all its objects and
  -- regions.
  pub recv_turn-delivers :
      (rule : Rule Hub) (r : Result EncodedMessage Error) (m : Message R)
      → recv_turn box rule r ≡ received (ok m)
      → IsFrom box rule r m
  unfolding recv_turn
  recv_turn-delivers (client c) r m h = client_turn_delivers c c.io_hub r m h
  recv_turn-delivers (server s) r m h = elim (Option-cases s.receiver) [
    | inl n ↦ absurd (ground arith)
    | inr (q, e) ↦
        server_received_delivers (server s) r m (λ msg. refl)
          (subst (λ k. server_turn box k r ≡ received (ok m)) e h)
  ]
