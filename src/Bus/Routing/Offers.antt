-- ===== src/Bus/Routing/Offers.antt =====
-- ipmb/src/bus_controller.rs: which endpoints a message is offered to, and which ones leave.
use ipmb.Prelude.{
  ℕ, suc, ◌+◌, ◌≡◌, refl, sym, Bool, false, ◌&&◌, List, [], ◌∷◌, ◌++◌, map, arith, length, retain,
  append-nil, append_assoc, ◌∙◌, ap, ◌==◌, if◌then◌else◌,
}
use mathlib.Core.List.{map-append}
use ipmb.Label.{validate}
use ipmb.Errors.{Error, Remote, Result, ok, err}
use ipmb.Message.{EncodedMessage, multicast, connect_uuid}
use ipmb.Bus.{Platform, Attempt, Link, Endpoint, BusController, send_to}
use ipmb.Bus.Routing.Counts.{one_if}
use ipmb.Bus.Route.{visit, sent, route, handle_message}

-- What was sent to whom.
abbrev pub Offer : Type 0
Offer = Remote × EncodedMessage

abbrev pub offers : List Attempt → List Offer
offers = map (λ a. (a.remote, a.message))

abbrev pub disconnects : List Attempt → ℕ
disconnects [] = 0
disconnects (a ∷ rest) = elim a.result [
  | ok _ ↦ disconnects rest
  | err e ↦ elim e [ Error.disconnect ↦ suc (disconnects rest) | _ ↦ disconnects rest ]
]

-- The endpoints whose label the message is for, as offers.
abbrev pub offers_to : EncodedMessage → List Endpoint → List Offer
offers_to msg eps =
    map (λ ep. (ep.remote, msg)) (retain (λ ep. validate msg.selector.label_op ep.label) eps)

abbrev is_disconnect : Result (Unit {0}) Error → ℕ
is_disconnect (ok _) = 0
is_disconnect (err Error.disconnect) = 1
is_disconnect (err _) = 0

disconnects-snoc :
    (xs : List Attempt) (a : Attempt)
    → disconnects (xs ++ a ∷ []) ≡ disconnects xs + is_disconnect a.result
disconnects-snoc [] a = ground arith
disconnects-snoc (x ∷ xs) a = ground (arith, disconnects-snoc xs a)

module _ (p : Platform) (msg : EncodedMessage) where
  open p use {World}

  pub offers-send_to :
      (k : Link World) (r : Remote)
      → offers (send_to p k msg r).1.attempts ≡ offers k.attempts ++ (r, msg) ∷ []
  unfolding send_to
  offers-send_to k r = map-append _ k.attempts _

  disconnects-send_to :
      (k : Link World) (r : Remote)
      → disconnects (send_to p k msg r).1.attempts
        ≡ disconnects k.attempts + is_disconnect (send_to p k msg r).0
  unfolding send_to
  disconnects-send_to k r = disconnects-snoc k.attempts _

  offers_to-cons :
      (ep : Endpoint) (eps : List Endpoint)
      → offers_to msg (ep ∷ eps) ≡ offers_to msg (ep ∷ []) ++ offers_to msg eps
  offers_to-cons ep eps = ground arith

  link-sent :
      (routed : Bool) (r : Result (Unit {0}) Error) (k : Link World)
      → (sent p routed (r, k)).link ≡ k
  link-sent routed (ok _) k = refl
  link-sent routed (err e) k = ground arith

  module _ (everyone : msg.selector.mode ≡ multicast) where
    offers-visit :
        (k : Link World) (routed : Bool) (ep : Endpoint)
        → offers (visit p k msg routed ep).link.attempts
          ≡ offers k.attempts ++ offers_to msg (ep ∷ [])
    unfolding visit
    offers-visit k routed ep =
        ground (arith, offers-send_to k ep.remote, append-nil (offers k.attempts))

    offers-route :
        (k : Link World) (routed : Bool) (eps : List Endpoint)
        → offers (route p k msg routed eps).link.attempts ≡ offers k.attempts ++ offers_to msg eps
    unfolding route
    offers-route k routed [] = sym (append-nil (offers k.attempts))
    offers-route k routed (ep ∷ eps) =
        let v = visit p k msg routed ep in
        offers-route v.link v.routed eps
        ∙ ap (λ o. o ++ offers_to msg eps) (offers-visit k routed ep)
        ∙ append_assoc (offers k.attempts) (offers_to msg (ep ∷ [])) (offers_to msg eps)
        ∙ ap (◌++◌ (offers k.attempts)) (sym (offers_to-cons ep eps))

  visit_leaves :
      (k : Link World) (routed : Bool) (ep : Endpoint)
      → disconnects (visit p k msg routed ep).link.attempts
          + one_if (visit p k msg routed ep).online
        ≡ disconnects k.attempts + 1
  unfolding visit
  visit_leaves k routed ep = ground (arith, disconnects-send_to k ep.remote)

  -- An endpoint leaves the list exactly when a send to it ends in a disconnect.
  pub route_leaves :
      (k : Link World) (routed : Bool) (eps : List Endpoint)
      → disconnects (route p k msg routed eps).link.attempts
          + length (route p k msg routed eps).endpoints
        ≡ disconnects k.attempts + length eps
  unfolding route
  route_leaves k routed [] = refl
  route_leaves k routed (ep ∷ eps) =
      let v = visit p k msg routed ep in
      ground (arith, visit_leaves k routed ep, route_leaves v.link v.routed eps)

  -- A multicast message that is no request to connect is offered to each endpoint whose label
  -- matches, once, in their order, and put into the controller's own queue if its label matches and
  -- its receiver is there.
  pub handle_message-multicast :
      (c : BusController World)
      → (msg.selector.uuid == connect_uuid) ≡ false
      → msg.selector.mode ≡ multicast
      → (offers (handle_message p c msg).controller.link.attempts
          ≡ offers c.link.attempts ++ offers_to msg c.endpoints)
        × ((handle_message p c msg).controller.sender.queue ≡ (
            if validate msg.selector.label_op c.label && c.sender.connected
            then c.sender.queue ++ msg ∷ []
            else c.sender.queue))
  unfolding handle_message
  handle_message-multicast c ordinary everyone =
      ground (arith, offers-route everyone c.link false c.endpoints)

  -- Whatever the mode of a message that is no request to connect, as many endpoints leave the list as
  -- sends of it end in a disconnect.
  pub handle_message-leaves :
      (c : BusController World)
      → (msg.selector.uuid == connect_uuid) ≡ false
      → disconnects (handle_message p c msg).controller.link.attempts
          + length (handle_message p c msg).controller.endpoints
        ≡ disconnects c.link.attempts + length c.endpoints
  unfolding handle_message
  handle_message-leaves c ordinary = ground (arith, route_leaves c.link false c.endpoints)
