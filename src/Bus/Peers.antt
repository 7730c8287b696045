-- ===== src/Bus/Peers.antt =====
-- ipmb/src/bus_controller.rs: over any history no endpoint is listed twice.
use ipmb.Prelude.{
  ℕ, ◌≡◌, refl, Bool, false, not, inl, inr, Option, none, some, List, [], ◌∷◌, ◌++◌, any,
  any-append, any-retain-false, retain, arith, sym, subst, Bool-cases, ◌>>=◌, ◌&&◌, ◌==◌, is_empty,
}
use ipmb.Errors.{Error, Result, ok, err}
use ipmb.Message.{EncodedMessage}
use ipmb.Bus.{Platform, Link, Endpoint, BusController, same_peer}
use ipmb.Bus.Connect.{endpoint_connect}
use ipmb.Bus.Route.{visit, route, handle_message}
use ipmb.Bus.Run.{
  detect_reachable, maintain, keep_unexpired, retry, retry_buffer, settle, round, run, add_instant,
  push_expiring, settled, tidy,
}
use ipmb.Bus.Admission.{endpoint_connect-admits}

-- No later endpoint has the label and the remote of an earlier one.
abbrev pub NoTwins : List Endpoint → Type 0
NoTwins [] = Unit
NoTwins (ep ∷ eps) = (any (λ e. same_peer ep e) eps ≡ false) × NoTwins eps

NoTwins-append :
    (eps : List Endpoint) (pair : Endpoint)
    → any (λ ep. same_peer ep pair) eps ≡ false
    → NoTwins eps
    → NoTwins (eps ++ pair ∷ [])
NoTwins-append [] pair h n = (refl, tt)
NoTwins-append (ep ∷ eps) pair h n =
    ground (arith, any-append (λ e. same_peer ep e) eps (pair ∷ []), NoTwins-append eps pair)

NoTwins-retain : (f : Endpoint → Bool) (eps : List Endpoint) → NoTwins eps → NoTwins (retain f eps)
NoTwins-retain f [] n = tt
NoTwins-retain f (ep ∷ eps) n =
    ground (arith, any-retain-false (λ e. same_peer ep e) f eps, NoTwins-retain f eps n.1)

module _ (p : Platform) where
  open p use {World}

  any-route :
      (f : Endpoint → Bool) (k : Link World) (msg : EncodedMessage) (routed : Bool)
      (eps : List Endpoint)
      → any f eps ≡ false
      → any f (route p k msg routed eps).endpoints ≡ false
  unfolding route
  any-route f k msg routed [] h = refl
  any-route f k msg routed (ep ∷ eps) h =
      let v = visit p k msg routed ep in ground (arith, any-route f v.link msg v.routed eps)

  NoTwins-route :
      (k : Link World) (msg : EncodedMessage) (routed : Bool) (eps : List Endpoint)
      → NoTwins eps
      → NoTwins (route p k msg routed eps).endpoints
  unfolding route
  NoTwins-route k msg routed [] n = tt
  NoTwins-route k msg routed (ep ∷ eps) n =
      let v = visit p k msg routed ep in
      ground (
        arith,
        any-route (λ e. same_peer ep e) v.link msg v.routed eps,
        NoTwins-route v.link msg v.routed eps n.1,
      )

  NoTwins-connect :
      (c : BusController World) (msg : EncodedMessage)
      → NoTwins c.endpoints
      → NoTwins (endpoint_connect p c msg).1.endpoints
  NoTwins-connect c msg n = elim (endpoint_connect-admits p c msg) [
    | inl (e, (remote, msg', payload, x, d, entitled, l)) ↦
        subst NoTwins (sym l) (NoTwins-append c.endpoints _ entitled.is_new n)
    | inr (e, l) ↦ subst NoTwins (sym l) n
  ]

  NoTwins-handle :
      (c : BusController World) (msg : EncodedMessage)
      → NoTwins c.endpoints
      → NoTwins (handle_message p c msg).controller.endpoints
  unfolding handle_message
  NoTwins-handle c msg n =
      ground (arith, NoTwins-connect c msg n, NoTwins-route c.link msg false c.endpoints n)

  NoTwins-keep :
      (now expire : ℕ) (o : Option EncodedMessage) (c : BusController World)
      → NoTwins c.endpoints
      → NoTwins (keep_unexpired p now expire o c).endpoints
  NoTwins-keep now expire none c n = n
  NoTwins-keep now expire (some remain) c n = ground arith

  NoTwins-retry :
      (c : BusController World) (now : ℕ) (waiting : List (ℕ × EncodedMessage))
      → NoTwins c.endpoints
      → NoTwins (retry p c now waiting).endpoints
  unfolding retry
  NoTwins-retry c now [] n = n
  NoTwins-retry c now ((expire, msg) ∷ rest) n =
      let r = handle_message p c msg in
      NoTwins-retry (keep_unexpired p now expire r.remain r.controller) now rest
        (NoTwins-keep now expire r.remain r.controller (NoTwins-handle c msg n))

  -- A controller that goes on has no twins.
  abbrev KeepsApart : Option (BusController World) → Type 0
  KeepsApart none = Unit
  KeepsApart (some c) = NoTwins c.endpoints

  push_expiring-KeepsApart :
      (c : BusController World) (remain : EncodedMessage) (o : Option ℕ)
      → NoTwins c.endpoints
      → KeepsApart (push_expiring p c remain o)
  push_expiring-KeepsApart c remain none n = tt
  push_expiring-KeepsApart c remain (some expire) n = n

  settled-KeepsApart :
      (now : ℕ) (connected : Bool) (c : BusController World) (o : Option EncodedMessage)
      → NoTwins c.endpoints
      → KeepsApart (settled p now connected c o)
  unfolding retry_buffer
  settled-KeepsApart now connected c none n =
      elim (Bool-cases (connected && not (is_empty c.message_buffer))) [
        | inl b ↦ rw b (NoTwins-retry (record c { message_buffer = [] }) now c.message_buffer n)
        | inr b ↦ rw b n
      ]
  settled-KeepsApart now connected c (some remain) n =
      elim (Bool-cases (remain.selector.ttl == 0)) [
        | inl z ↦ rw z n
        | inr z ↦ rw z (push_expiring-KeepsApart c remain (add_instant p now remain.selector.ttl) n)
      ]

  NoTwins-detect :
      (c : BusController World) (now : ℕ)
      → NoTwins c.endpoints
      → NoTwins (detect_reachable p c now).endpoints
  unfolding detect_reachable
  NoTwins-detect c now n =
      ground (arith, NoTwins-retain (λ ep. not (p.is_dead c.link.world ep.remote)) c.endpoints n)

  tidy-KeepsApart :
      (now : ℕ) (o : Option (BusController World)) → KeepsApart o → KeepsApart (tidy p now o)
  unfolding maintain
  tidy-KeepsApart now none n = tt
  tidy-KeepsApart now (some c) n = NoTwins-detect c now n

  round-KeepsApart :
      (c : BusController World) (received : Result EncodedMessage Error) (now : ℕ)
      → NoTwins c.endpoints
      → KeepsApart (round p c received now)
  unfolding round settle
  round-KeepsApart c (ok msg) now n =
      let r = handle_message p c msg in
      tidy-KeepsApart now (settle p now r)
        (settled-KeepsApart now r.endpoint_connected r.controller r.remain (NoTwins-handle c msg n))
  round-KeepsApart c (err e) now n = ground arith

  bind-NoTwins :
      (o : Option (BusController World)) (rest : BusController World → Option (BusController World))
      (c' : BusController World)
      → KeepsApart o
      → ((d : BusController World) → NoTwins d.endpoints → rest d ≡ some c' → NoTwins c'.endpoints)
      → (o >>= rest) ≡ some c'
      → NoTwins c'.endpoints
  bind-NoTwins none rest c' n k e = absurd (ground arith)
  bind-NoTwins (some d) rest c' n k e = k d n e

  -- From a list without two endpoints of one label and remote, no history of received messages,
  -- errors and clock readings, in which the controller does not panic, leads to a list with two.
  pub run-NoTwins :
      (c c' : BusController World) (history : List (Result EncodedMessage Error × ℕ))
      → NoTwins c.endpoints
      → run p c history ≡ some c'
      → NoTwins c'.endpoints
  unfolding run
  run-NoTwins c c' [] n e = subst KeepsApart e n
  run-NoTwins c c' ((received, now) ∷ rest) n e =
      bind-NoTwins (round p c received now) (λ d. run p d rest) c'
        (round-KeepsApart c received now n) (λ d m. run-NoTwins d c' rest m) e
