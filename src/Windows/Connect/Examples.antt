-- ===== src/Windows/Connect/Examples.antt =====
-- An endpoint that connects: its request is taken, and an acknowledgement comes back.
use ipmb.Prelude.{◌+◌, ◌≡◌, refl, some, none, [], ◌∷◌}
use ipmb.Errors.{ok}
use ipmb.Message.{Bytes, new_message}
use ipmb.Region.{receive_regions, add_refs}
use ipmb.Linux.Buffer.{write, slice?, read_u32, uninitialized}
use ipmb.Linux.Hub.{empty}
use ipmb.Linux.Examples.{obj, headers, payload, formats}
use ipmb.Version.{compatible}
use ipmb.Message.{decode}
use ipmb.Util.{align4}
use ipmb.Windows.{new_pipe, readable, free, ReadStarted, read}
use ipmb.Windows.Hub.{
  IoHub, continues, Waited, Round, hub_listen, read_pipes, after_wait, turn, recv,
}
use ipmb.Windows.Wire.{
  pipe_msg, writes, into_encoded, duplicate_all, send_helper, read_u64, read_handles, read_rest,
  read_selector, read_objects, new_encoded,
}
use ipmb.Windows.Connect.{Calls, look_up, register, for_endpoint, for_bus_controller}

abbrev same_bytes : Bytes → Bytes
same_bytes bs = bs

-- The acknowledgement on the pipe, with a selector of three bytes and nothing behind it.
abbrev answer : Bytes
answer = 255 ∷ 0 ∷ 8 ∷ 5 ∷ 0 ∷ 0 ∷ 0 ∷ 0 ∷ 3 ∷ 0 ∷ 0 ∷ 0 ∷ 1 ∷ 0 ∷ 0 ∷ 0 ∷ 0 ∷ 0 ∷ 0 ∷ 0 ∷ []

abbrev round_of : Waited → Round
round_of waited = record {
  answers = [];
  received = empty;
  reads = λ h. ReadStarted.pending;
  waited = waited;
  fresh = 11;
}

abbrev calls : Calls
calls = record {
  create_file = ok (obj 5);
  server_process_id = none;
  open_process = ok (obj 4);
  fetch_remote_process_handle = ok (obj 4);
  anon_pipe = ok (obj 6, obj 8);
  current_process = obj 3;
  to_remote = λ o. some (o.raw + 100);
  wrote = some 36;
  rounds = round_of (Waited.completed 6 answer) ∷ round_of Waited.timed_out ∷ [];
}

abbrev found : IoHub
found = for_endpoint 0 (new_pipe 6 readable)

look_up_runs :
    look_up formats same_bytes (λ raw. raw) 0 headers "bus" payload.label payload.token calls
    ≡ continues (ok (found, record { pipe = obj 5; process = obj 4 }, 7))
unfolding look_up new_message into_encoded pipe_msg writes write uninitialized send_helper
    duplicate_all recv turn hub_listen read_pipes read after_wait new_encoded read_objects
    read_handles read_u64 read_selector read_rest read_u32 slice? decode compatible align4
    receive_regions add_refs
look_up_runs = refl

register_runs : register 0 (ok (obj 9)) 1 ≡ ok (for_bus_controller 0 (new_pipe 9 free), 1)
unfolding register
register_runs = refl
