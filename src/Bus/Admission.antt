-- ===== src/Bus/Admission.antt =====
-- ipmb/src/bus_controller.rs: which endpoints `endpoint_connect` lets in.
use ipmb.Prelude.{
  ◌≡◌, refl, Bool, true, false, ◌⊎◌, inl, inr, Bool-cases, Option, none, some, [], ◌∷◌, ◌++◌, any,
  arith, str_eq,
}
use mathlib.Core.Bool.{false≢true}
use ipmb.Version.{version, compatible}
use ipmb.Errors.{Error, Remote, Result, ok, err}
use ipmb.Message.{
  Selector, ConnectMessage, ConnectMessageAck, accepted, err_version, err_token, EncodedMessage,
}
use ipmb.Bus.{Platform, Endpoint, BusController, same_peer}
use ipmb.Bus.Routing.Offers.{offers, offers-send_to}
use ipmb.Bus.Connect.{ack_message, accept, check_request, with_remote, endpoint_connect}

module _ (p : Platform) where
  open p use {World}

  -- A request that may enter: its version and token are right, and its endpoint is new.
  pub record IsEntitled (c : BusController World) (payload : ConnectMessage) (remote : Remote)
      : Type 0 where
    pub version_right : compatible payload.version version ≡ true
    pub token_right : str_eq payload.token c.token ≡ true
    pub is_new :
        any
          (λ ep.
            same_peer ep
              (record { id = (p.new_id c.link.world).0; label = payload.label; remote = remote }))
          c.endpoints
        ≡ false

  abbrev pub newcomer : BusController World → ConnectMessage → Remote → Endpoint
  newcomer c payload remote = record {
    id = (p.new_id c.link.world).0;
    label = payload.label;
    remote = remote;
  }

  -- The endpoints after a request: with the newcomer, or as they were.
  abbrev Settled :
      BusController World → ConnectMessage → Remote → Bool × BusController World → Type 0
  Settled c payload remote r =
      ((r.0 ≡ true)
        × IsEntitled c payload remote
        × (r.1.endpoints ≡ c.endpoints ++ newcomer c payload remote ∷ []))
      ⊎ ((r.0 ≡ false) × (r.1.endpoints ≡ c.endpoints))

  accept-Settled :
      (c : BusController World) (selector : Selector) (payload : ConnectMessage) (remote : Remote)
      → compatible payload.version version ≡ true
      → str_eq payload.token c.token ≡ true
      → Settled c payload remote (accept p c selector payload remote)
  accept-Settled c selector payload remote v t = ground arith

  check_request-Settled :
      (c : BusController World) (selector : Selector) (payload : ConnectMessage) (remote : Remote)
      → Settled c payload remote (check_request p c selector remote (ok payload))
  check_request-Settled c selector payload remote =
      ground (arith, accept-Settled c selector payload remote)

  check_request-admits :
      (c : BusController World) (selector : Selector) (remote : Remote)
      (r : Result ConnectMessage Error)
      → (check_request p c selector remote r).0 ≡ true
      → (payload : ConnectMessage) × (r ≡ ok payload)
        × IsEntitled c payload remote
        × ((check_request p c selector remote r).1.endpoints
            ≡ c.endpoints ++ newcomer c payload remote ∷ [])
  check_request-admits c selector remote (err e) h = absurd (false≢true h)
  check_request-admits c selector remote (ok payload) h = (
    payload,
    refl,
    ground (arith, check_request-Settled c selector payload remote),
    ground (arith, check_request-Settled c selector payload remote),
  )

  with_remote-admits :
      (c : BusController World) (o : Option (Remote × EncodedMessage))
      → (with_remote p c o).0 ≡ true
      → (remote : Remote) × (msg' : EncodedMessage) × (payload : ConnectMessage) × (o
          ≡ some (remote, msg'))
        × (p.decode_connect msg'.payload_data ≡ ok payload)
        × IsEntitled c payload remote
        × ((with_remote p c o).1.endpoints ≡ c.endpoints ++ newcomer c payload remote ∷ [])
  with_remote-admits c none h = absurd (false≢true h)
  with_remote-admits c (some (remote, msg')) h =
      let (payload, d, e, l) =
        check_request-admits c msg'.selector remote (p.decode_connect msg'.payload_data) h in
      (remote, msg', payload, refl, d, e, l)

  endpoint_connect-IsEntitled :
      (c : BusController World) (msg : EncodedMessage)
      → (endpoint_connect p c msg).0 ≡ true
      → (remote : Remote) × (msg' : EncodedMessage) × (payload : ConnectMessage) × (p.extract_remote
            msg
          ≡ some (remote, msg'))
        × (p.decode_connect msg'.payload_data ≡ ok payload)
        × IsEntitled c payload remote
        × ((endpoint_connect p c msg).1.endpoints ≡ c.endpoints ++ newcomer c payload remote ∷ [])
  unfolding endpoint_connect
  endpoint_connect-IsEntitled c msg = with_remote-admits c (p.extract_remote msg)

  -- The acknowledgement that a request deserves.
  abbrev pub ack_for : BusController World → Result ConnectMessage Error → ConnectMessageAck
  ack_for c (err e) = err_version version
  ack_for c (ok payload) = elim (compatible payload.version version) [
    | false ↦ err_version version
    | true ↦ elim (str_eq payload.token c.token) [
      | false ↦ err_token
      | true ↦ accepted (p.new_id c.link.world).0
    ]
  ]

  check_request-offers :
      (c : BusController World) (selector : Selector) (remote : Remote)
      (r : Result ConnectMessage Error)
      → offers (check_request p c selector remote r).1.link.attempts
        ≡ offers c.link.attempts ++ (remote, p.encode_ack (ack_message selector (ack_for c r))) ∷ []
  check_request-offers c selector remote (err e) =
      offers-send_to p (p.encode_ack (ack_message selector (err_version version))) c.link remote
  check_request-offers c selector remote (ok payload) =
      let k = record c.link { world = (p.new_id c.link.world).1 } in
      let id = (p.new_id c.link.world).0 in
      ground (
        arith,
        offers-send_to p (p.encode_ack (ack_message selector (err_version version))) c.link remote,
        offers-send_to p (p.encode_ack (ack_message selector err_token)) c.link remote,
        offers-send_to p (p.encode_ack (ack_message selector (accepted id))) k remote,
      )

  -- A request that names where to answer is answered once, there: with the version of the
  -- controller where it cannot be read or its version is incompatible, else with a token error
  -- where the token is wrong, else with the new endpoint's identifier.
  pub endpoint_connect-answers :
      (c : BusController World) (msg msg' : EncodedMessage) (remote : Remote)
      → p.extract_remote msg ≡ some (remote, msg')
      → offers (endpoint_connect p c msg).1.link.attempts
        ≡ offers c.link.attempts
          ++ (
            remote,
            p.encode_ack
                (ack_message msg'.selector (ack_for c (p.decode_connect msg'.payload_data))),
          )
            ∷ []
  unfolding endpoint_connect
  endpoint_connect-answers c msg msg' remote e =
      rw e (check_request-offers c msg'.selector remote (p.decode_connect msg'.payload_data))

  -- A request that is not let in leaves the list alone.
  check_request-refuses :
      (c : BusController World) (selector : Selector) (remote : Remote)
      (r : Result ConnectMessage Error)
      → (check_request p c selector remote r).0 ≡ false
      → (check_request p c selector remote r).1.endpoints ≡ c.endpoints
  check_request-refuses c selector remote (err e) h = refl
  check_request-refuses c selector remote (ok payload) h =
      ground (arith, check_request-Settled c selector payload remote)

  with_remote-refuses :
      (c : BusController World) (o : Option (Remote × EncodedMessage))
      → (with_remote p c o).0 ≡ false
      → (with_remote p c o).1.endpoints ≡ c.endpoints
  with_remote-refuses c none h = refl
  with_remote-refuses c (some (remote, msg')) h =
      check_request-refuses c msg'.selector remote (p.decode_connect msg'.payload_data) h

  endpoint_connect-refuses :
      (c : BusController World) (msg : EncodedMessage)
      → (endpoint_connect p c msg).0 ≡ false
      → (endpoint_connect p c msg).1.endpoints ≡ c.endpoints
  unfolding endpoint_connect
  endpoint_connect-refuses c msg = with_remote-refuses c (p.extract_remote msg)

  -- What a request makes of the list: it grows by one endpoint, or stays.
  abbrev pub Decided : BusController World → EncodedMessage → Bool × BusController World → Type 0
  Decided c msg r =
      ((r.0 ≡ true)
        × ((remote : Remote) × (msg' : EncodedMessage) × (payload : ConnectMessage)
            × (p.extract_remote msg ≡ some (remote, msg'))
            × (p.decode_connect msg'.payload_data ≡ ok payload)
            × IsEntitled c payload remote
            × (r.1.endpoints ≡ c.endpoints ++ newcomer c payload remote ∷ [])))
      ⊎ ((r.0 ≡ false) × (r.1.endpoints ≡ c.endpoints))

  -- Of any request that `endpoint_connect` handles: either it answers true, the request could be read,
  -- with a compatible version and the right token, no endpoint in the list has its label and remote,
  -- and its endpoint comes last in the list; or it answers false, and the list is as it was.
  pub endpoint_connect-admits :
      (c : BusController World) (msg : EncodedMessage) → Decided c msg (endpoint_connect p c msg)
  endpoint_connect-admits c msg = elim (Bool-cases (endpoint_connect p c msg).0) [
    | inl e ↦ inl (e, endpoint_connect-IsEntitled c msg e)
    | inr e ↦ inr (e, endpoint_connect-refuses c msg e)
  ]
