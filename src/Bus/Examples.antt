-- ===== src/Bus/Examples.antt =====
-- A controller with two endpoints on a platform whose connections are given by a list of those
-- that are gone.
use ipmb.Prelude.{
  ℕ, ◌+◌, ◌≡◌, one_if_some, refl, true, some, [], ◌∷◌, ◌==◌, if◌then◌else◌, none, ◌++◌, ◌*◌, ◌^◌,
}
use ipmb.Label.{LabelOp, leaf, validate}
use ipmb.Version.{version, compatible}
use ipmb.Errors.{Error, ok, err}
use ipmb.Message.{Selector, unicast_to, multicast_to, accepted, EncodedMessage, connect_uuid}
use ipmb.Bus.{Platform, Attempt, Endpoint, BusController, send_to}
use ipmb.Bus.Connect.{ack_message, endpoint_connect}
use ipmb.Bus.Route.{visit, handle_message}
use ipmb.Bus.Run.{retry_buffer, settle, detect_reachable, maintain, round, run}
use ipmb.Bus.Routing.Counts.{consumed, handle_message-once}
use ipmb.Bus.Routing.Offers.{offers, handle_message-multicast}
use ipmb.Bus.Admission.{Decided, endpoint_connect-admits, endpoint_connect-answers}
use ipmb.Bus.Buffering.{buffer_of, round-unrouted}
use ipmb.Bus.Peers.{NoTwins, run-NoTwins}

abbrev plain : Selector → EncodedMessage
plain selector = record {
  selector = selector;
  payload_data = [];
  iov_data = [];
  control_data = [];
  objects = [];
  memory_regions = [];
}

-- The world counts the identifiers that were given out. Connection 9 is gone, and a request to
-- connect comes from connection 5, with the token "key" and the label "new".
abbrev sample : Platform
sample = record {
  World = ℕ;
  encode_ack = λ m. plain m.selector;
  decode_connect = λ bytes.
      ok (record { version = version; token = "key"; label = record { names = "new" ∷ [] } });
  send = λ w msg r. (if r.v == 9 then err Error.disconnect else ok tt, w);
  extract_remote = λ msg. some (record { v = 5 }, msg);
  is_dead = λ w r. r.v == 9;
  new_id = λ w. (w, w + 1);
  latest = 2 ^ 63 * 10 ^ 9;
}

abbrev endpoint : ℕ → Endpoint
endpoint n = record { id = n; label = record { names = "moon" ∷ [] }; remote = record { v = n } }

abbrev controller : BusController ℕ
controller = record {
  label = record { names = "sun" ∷ [] };
  token = "key";
  endpoint_id = 1;
  sender = record { queue = []; connected = true };
  endpoints = endpoint 9 ∷ endpoint 3 ∷ endpoint 4 ∷ [];
  message_buffer = [];
  message_buffer_swap = [];
  link = record { world = 7; attempts = [] };
  last_detect_reachable = 0;
}

abbrev to_moon : EncodedMessage
to_moon = plain (unicast_to (leaf "moon"))

abbrev to_moons : EncodedMessage
to_moons = plain (multicast_to (leaf "moon"))

abbrev to_mars : EncodedMessage
to_mars = plain (record (unicast_to (leaf "mars")) { ttl = 50 })

abbrev request : EncodedMessage
request = plain (record (unicast_to LabelOp.always) { uuid = connect_uuid })

-- The first endpoint is gone, so the second gets the message, and the third does not.
to_moon_runs :
    (consumed (handle_message sample controller to_moon).controller ≡ 1)
    × ((handle_message sample controller to_moon).controller.endpoints
        ≡ endpoint 3 ∷ endpoint 4 ∷ [])
unfolding handle_message send_to visit validate
to_moon_runs = (refl, refl)

to_mars_remains : (handle_message sample controller to_mars).remain ≡ some to_mars
unfolding handle_message send_to visit validate
to_mars_remains = refl

request_connects : (endpoint_connect sample controller request).0 ≡ true
unfolding endpoint_connect send_to compatible
request_connects = refl

handle_message-once_example :
    consumed (handle_message sample controller to_moon).controller
      + one_if_some (handle_message sample controller to_moon).remain
    ≡ 1
handle_message-once_example = handle_message-once sample to_moon controller refl refl

handle_message-multicast_example :
    (offers (handle_message sample controller to_moons).controller.link.attempts
      ≡ (record { v = 9 }, to_moons)
        ∷ (record { v = 3 }, to_moons)
        ∷ (record { v = 4 }, to_moons)
        ∷ [])
    × ((handle_message sample controller to_moons).controller.sender.queue ≡ [])
unfolding validate
handle_message-multicast_example = handle_message-multicast sample to_moons controller refl refl

endpoint_connect-admits_example :
    Decided sample controller request (endpoint_connect sample controller request)
endpoint_connect-admits_example = endpoint_connect-admits sample controller request

endpoint_connect-answers_example :
    offers (endpoint_connect sample controller request).1.link.attempts
    ≡ (record { v = 5 }, plain (ack_message request.selector (accepted 7)).selector) ∷ []
unfolding compatible
endpoint_connect-answers_example =
    endpoint_connect-answers sample controller request request (record { v = 5 }) refl

round-unrouted_example :
    buffer_of sample (round sample controller (ok to_mars) 100) ≡ some ((150, to_mars) ∷ [])
round-unrouted_example = round-unrouted sample controller to_mars to_mars 100 to_mars_remains

-- A sender with a time to live that no clock can add ends the controller.
abbrev for_ages : EncodedMessage
for_ages = plain (record (unicast_to (leaf "mars")) { ttl = 2 ^ 64 * 10 ^ 9 })

ages_panic : round sample controller (ok for_ages) 100 ≡ none
unfolding round settle handle_message send_to visit validate
ages_panic = refl

abbrev waiting : BusController ℕ
waiting = record controller { message_buffer = (150, to_mars) ∷ (160, to_moon) ∷ [] }

-- A waiting message whose time is over is sent all the same, where an endpoint enters first.
expired_is_sent :
    offers
      (retry_buffer sample
        (record waiting { message_buffer = (90, to_moon) ∷ [] })
        100).link.attempts
    ≡ (record { v = 9 }, to_moon) ∷ (record { v = 3 }, to_moon) ∷ []
unfolding retry_buffer validate visit send_to
expired_is_sent = refl

abbrev acked : Attempt
acked = record {
  remote = record { v = 5 };
  message = plain (ack_message request.selector (accepted 7)).selector;
  result = ok tt;
}

-- The second request of connection 5 leaves the list alone.
abbrev asked_twice : BusController ℕ
asked_twice = record controller {
  endpoints =
      controller.endpoints
      ++ record { id = 7; label = record { names = "new" ∷ [] }; remote = record { v = 5 } } ∷ [];
  link = record { world = 9; attempts = acked ∷ acked ∷ [] };
}

twice_run : run sample controller ((ok request, 100) ∷ (ok request, 200) ∷ []) ≡ some asked_twice
unfolding run round settle detect_reachable maintain handle_message endpoint_connect compatible
    send_to
twice_run = refl

run-NoTwins_example : NoTwins asked_twice.endpoints
run-NoTwins_example =
    run-NoTwins sample controller asked_twice ((ok request, 100) ∷ (ok request, 200) ∷ [])
      (refl, (refl, (refl, tt))) twice_run
