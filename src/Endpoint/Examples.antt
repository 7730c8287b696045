-- ===== src/Endpoint/Examples.antt =====
-- Joins on short histories of rounds, and an endpoint that loses its connection.
use ipmb.Prelude.{
  ℕ, ◌≡◌, ◌⊎◌, refl, true, false, inl, Option, none, some, List, [], ◌∷◌, arith, ◌++◌, length, any,
}
use ipmb.Label.{leaf, validate}
use ipmb.Version.{version}
use ipmb.Errors.{Error, JoinError, Result, ok, err}
use ipmb.Message.{Bytes, decode, EncodedMessage, Message, unicast_to, new_message}
use ipmb.Message.Derive.{Variant, Enum, derive_decode, derive_uuid, derive_box}
use ipmb.Endpoint.{Options, new_options, Client, Rule, client, reader_close}
use ipmb.Endpoint.Join.{Round, fresh, wait, turn, join}
use ipmb.Endpoint.Join.Laws.{join-gives_up}
use ipmb.Endpoint.Join.Deadline.{join-deadline}
use ipmb.Endpoint.Session.{received, reconnect, send_turn, recv_turn}
use ipmb.Endpoint.Session.Reconnect.{reconnect-once}
use ipmb.Endpoint.Session.Loops.{finished, timed_out, SendRound, RecvRound, send}
use ipmb.Endpoint.Session.Loops.Delivery.{is_taken, IsQueued, send-delivers}

abbrev options : Options
options = new_options "com.solar" (record { names = "earth" ∷ [] }) "key"

-- Hubs are numbers here.
abbrev at : ℕ → Error → Round ℕ
at clock e = record { looked_up = err e; registered = err Error.identifier_in_use; clock = clock }

abbrev found : Round ℕ
found = record {
  looked_up = ok (7, record { v = 3 }, 5);
  registered = err Error.identifier_in_use;
  clock = 0;
}

abbrev slow : List (Round ℕ)
slow =
    at 1 Error.timeout
    ∷ at 2 Error.timeout
    ∷ at 3 Error.timeout
    ∷ at 4 Error.timeout
    ∷ at 5 Error.timeout
    ∷ at 6 Error.timeout
    ∷ []

join-gives_up_example :
    (r : Result (Rule ℕ) JoinError) × ((join options 0 none fresh slow).result ≡ some r)
join-gives_up_example = join-gives_up options 0 none slow (inl (omega arith))

abbrev hurried : List (Round ℕ)
hurried = at 50 Error.identifier_not_in_use ∷ at 90 Error.timeout ∷ at 120 Error.timeout ∷ []

join-deadline_example :
    (r : Result (Rule ℕ) JoinError) × ((join options 0 (some 100) fresh hurried).result ≡ some r)
join-deadline_example = join-deadline options 0 100 hurried refl

abbrev racing : List (Round ℕ)
racing = at 50 Error.identifier_not_in_use ∷ at 200 Error.identifier_not_in_use ∷ []

abbrev joined : ℕ → Client ℕ
joined epoch = record {
  endpoint_id = 5;
  options = options;
  remote = record { v = 3 };
  io_hub = some 7;
  reader_closed = false;
  epoch = epoch;
}

join_runs :
    (join options 1 none fresh (at 1 Error.timeout ∷ found ∷ [])).result
    ≡ some (ok (client (joined 1)))
unfolding join turn wait
join_runs = refl

reconnect_runs : reconnect none (found ∷ []) 0 (client (joined 0)) ≡ some (ok tt, client (joined 1))
unfolding reconnect join turn
reconnect_runs = refl

reconnect-once_example :
    reconnect (some 9) [] 0 (client (joined 1)) ≡ some (ok tt, client (joined 1))
reconnect-once_example =
    reconnect-once none (some 9) (found ∷ []) [] 0 (client (joined 0)) (client (joined 1))
      (omega arith) reconnect_runs

abbrev closed : ℕ → Client ℕ
closed epoch = record (joined epoch) { io_hub = none; reader_closed = true }

reconnect-closed :
    reconnect none (found ∷ []) 0 (client (closed 0)) ≡ some (ok tt, client (closed 1))
unfolding reconnect join turn reader_close
reconnect-closed = refl

abbrev byte_of : Bytes → Option (ℕ × ℕ)
byte_of [] = none
byte_of (b ∷ bytes) = some (b, 1)

byte_law :
    (a : ℕ) (bytes rest : Bytes)
    → some (a ∷ []) ≡ some bytes
    → byte_of (bytes ++ rest) ≡ some (a, length bytes)
byte_law a bytes rest h = cc

abbrev variants : List Variant
variants =
    record {
      Payload = ℕ;
      uuid = 7;
      codec = record {
        encode_to_vec = λ n. some (n ∷ []);
        decode_from_slice = byte_of;
        round_trip = byte_law;
      };
    }
    ∷ []

abbrev to_earth : EncodedMessage
to_earth = record {
  selector = record (unicast_to (leaf "earth")) { uuid = 7 };
  payload_data = 42 ∷ [];
  iov_data = [];
  control_data = [];
  objects = record { raw = 4; target = 4 } ∷ [];
  memory_regions = [];
}

abbrev handed_out : Message (Enum variants)
handed_out = record {
  selector = to_earth.selector;
  payload = inl 42;
  objects = to_earth.objects;
  memory_regions = [];
}

recv_turn_runs :
    recv_turn (derive_box variants) (client (joined 0)) (ok to_earth) ≡ received (ok handed_out)
unfolding recv_turn derive_box derive_decode derive_uuid decode validate new_message
recv_turn_runs = refl

-- The first write ends in a disconnect, and the endpoint joins again.
abbrev send_rounds : List (SendRound ℕ)
send_rounds =
    record { taken = err Error.disconnect; joins = found ∷ [] }
    ∷ record { taken = ok tt; joins = [] }
    ∷ []

send_runs : send (client (joined 0)) to_earth send_rounds ≡ (finished (ok tt), client (joined 1))
unfolding send send_turn reconnect join turn
send_runs = refl

send-delivers_example : (any is_taken send_rounds ≡ true) ⊎ IsQueued to_earth (client (joined 1))
send-delivers_example =
    send-delivers (client (joined 0)) (client (joined 1)) to_earth send_rounds send_runs

-- The hub gives a disconnect, and then a message of another version.
abbrev recv_rounds : List (RecvRound ℕ)
recv_rounds =
    record {
      from_hub = err Error.disconnect;
      from_channel = timed_out;
      end = none;
      joins = found ∷ [];
    }
    ∷ record {
      from_hub = err (Error.version_mismatch version none);
      from_channel = timed_out;
      end = none;
      joins = [];
    }
    ∷ []
