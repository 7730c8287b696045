-- ===== src/Bus/Routing/Counts.antt =====
-- ipmb/src/bus_controller.rs: who gets a message that is no request to connect.
use ipmb.Prelude.{
  ℕ, suc, ◌+◌, ◌<◌, ◌≤◌, ◌≡◌, one_if_some, refl, Bool, true, false, ◌⊎◌, none, some, List, [], ◌∷◌,
  ◌++◌, arith, length, length-append, ◌==◌,
}
use ipmb.Errors.{Error, Remote, Result, ok, err}
use ipmb.Message.{EncodedMessage, unicast, connect_uuid}
use ipmb.Bus.{Platform, Attempt, Link, Endpoint, BusController, send_to}
use ipmb.Bus.Route.{visit, route, handle_message}

-- How many of the sends were taken, and how many ended in a disconnect.
abbrev pub taken : List Attempt → ℕ
taken [] = 0
taken (a ∷ rest) = elim a.result [ ok _ ↦ suc (taken rest) | err _ ↦ taken rest ]

abbrev pub one_if : Bool → ℕ
one_if true = 1
one_if false = 0

abbrev pub taken_by : Result (Unit {0}) Error → ℕ
taken_by (ok _) = 1
taken_by (err _) = 0

taken-snoc : (xs : List Attempt) (a : Attempt) → taken (xs ++ a ∷ []) ≡ taken xs + taken_by a.result
taken-snoc [] a = ground arith
taken-snoc (x ∷ xs) a = ground (arith, taken-snoc xs a)

-- How often messages were consumed: sends that were taken, and the controller's own queue.
abbrev pub consumed : {W : Type 0} → BusController W → ℕ
consumed c = taken c.link.attempts + length c.sender.queue

module _ (p : Platform) (msg : EncodedMessage) where
  open p use {World}

  taken-send_to :
      (k : Link World) (r : Remote)
      → taken (send_to p k msg r).1.attempts ≡ taken k.attempts + taken_by (send_to p k msg r).0
  unfolding send_to
  taken-send_to k r = taken-snoc k.attempts _

  -- One endpoint is offered the message, and `routed` is set as it takes it.
  visit_counts :
      (k : Link World) (routed : Bool) (ep : Endpoint)
      → (taken k.attempts + one_if (visit p k msg routed ep).routed
          ≤ taken (visit p k msg routed ep).link.attempts + one_if routed)
        × ((visit p k msg routed ep).routed ≡ false
            → (taken (visit p k msg routed ep).link.attempts ≡ taken k.attempts) × (routed ≡ false))
  unfolding visit
  visit_counts k routed ep = ground (arith, taken-send_to k ep.remote)

  route_counts :
      (k : Link World) (routed : Bool) (eps : List Endpoint)
      → (taken k.attempts + one_if (route p k msg routed eps).routed
          ≤ taken (route p k msg routed eps).link.attempts + one_if routed)
        × ((route p k msg routed eps).routed ≡ false
            → (taken (route p k msg routed eps).link.attempts ≡ taken k.attempts)
              × (routed ≡ false))
  unfolding route
  route_counts k routed [] = ground arith
  route_counts k routed (ep ∷ eps) =
      let v = visit p k msg routed ep in
      ground (arith, visit_counts k routed ep, route_counts v.link v.routed eps)

  module _ (single : msg.selector.mode ≡ unicast) where
    visit_single :
        (k : Link World) (routed : Bool) (ep : Endpoint)
        → taken (visit p k msg routed ep).link.attempts + one_if routed
          ≡ taken k.attempts + one_if (visit p k msg routed ep).routed
    unfolding visit
    visit_single k routed ep = ground (arith, taken-send_to k ep.remote)

    route_single :
        (k : Link World) (routed : Bool) (eps : List Endpoint)
        → taken (route p k msg routed eps).link.attempts + one_if routed
          ≡ taken k.attempts + one_if (route p k msg routed eps).routed
    unfolding route
    route_single k routed [] = refl
    route_single k routed (ep ∷ eps) =
        let v = visit p k msg routed ep in
        omega (arith, visit_single k routed ep, route_single v.link v.routed eps)

  -- A unicast message that is no request to connect is consumed exactly once, or handed back: the
  -- sends that were taken and the messages in the controller's own queue grow by one, or the message
  -- remains.
  pub handle_message-once :
      (c : BusController World)
      → (msg.selector.uuid == connect_uuid) ≡ false
      → msg.selector.mode ≡ unicast
      → consumed (handle_message p c msg).controller + one_if_some (handle_message p c msg).remain
        ≡ consumed c + 1
  unfolding handle_message
  handle_message-once c ordinary single =
      ground (
        arith,
        route_single single c.link false c.endpoints,
        length-append c.sender.queue (msg ∷ []),
      )

  -- Whatever its mode, a message that is no request to connect comes back unchanged where nobody took
  -- it, and does not come back where somebody did.
  pub handle_message-remain :
      (c : BusController World)
      → (msg.selector.uuid == connect_uuid) ≡ false
      → (((handle_message p c msg).remain ≡ some msg)
          × (consumed (handle_message p c msg).controller ≡ consumed c))
        ⊎ (((handle_message p c msg).remain ≡ none)
            × (consumed c < consumed (handle_message p c msg).controller))
  unfolding handle_message
  handle_message-remain c ordinary =
      ground (arith, route_counts c.link false c.endpoints, length-append c.sender.queue (msg ∷ []))
