-- ===== src/Windows/Process/Examples.antt =====
-- A client that asks for a handle of the controller's process, and gets 0x1_0000_0104.
use ipmb.Prelude.{ℕ, ◌≡◌, refl, arith, some, none, Option, [], ◌∷◌, ◌++◌, length}
use ipmb.Label.{always}
use ipmb.Errors.{Error, ok, err}
use ipmb.Message.{Bytes, Codec, MessageBox, new_message, unicast_to, decode}
use ipmb.Linux.Examples.{selectors, headers}
use ipmb.Windows.Wire.{Encoded, into_encoded, pipe_msg, msg_size}
use ipmb.Windows.Process.{FetchProcessHandle, signalled, under_way, FetchCalls, ReplyCalls, reply}
use ipmb.Windows.Process.Laws.{IsExchanged, made, fetch-reply}

abbrev box : MessageBox FetchProcessHandle
box = record {
  decode_box = λ uuid bytes. err Error.decode;
  encode_box = λ m. ok (m.pid ∷ []);
  uuid_of = λ m. 9;
}

abbrev handle : ℕ
handle = 0x100000104

abbrev request : Encoded
request = record {
  selector = record (unicast_to always) { uuid = 9 };
  payload_data = 77 ∷ [];
  buffer = pipe_msg (λ i. 0) 0 (9 ∷ 0 ∷ 0 ∷ []) (77 ∷ []);
  size = msg_size 0 (9 ∷ 0 ∷ 0 ∷ []) (77 ∷ []);
  objects = [];
  memory_regions = [];
}

request_encodes :
    into_encoded
      (λ i. 0)
      selectors
      box
      (new_message box (unicast_to always) (record { pid = 77; reply_pipe = "pipe" }))
    ≡ some request
unfolding into_encoded new_message
request_encodes = refl

abbrev calls : FetchCalls
calls = record {
  pipe = ok "pipe";
  wrote = some request.size;
  event = none;
  connection = under_way;
  connected = signalled;
  reset = none;
  reading = under_way;
  arrived = signalled;
  buf = [];
}

abbrev pid_of : Bytes → Option (FetchProcessHandle × ℕ)
pid_of [] = none
pid_of (pid ∷ bytes) = some (record { pid = pid; reply_pipe = "pipe" }, 1)

-- No request is encoded.
nothing_encoded :
    (m : FetchProcessHandle) (bytes rest : Bytes)
    → none ≡ some bytes
    → pid_of (bytes ++ rest) ≡ some (m, length bytes)
nothing_encoded m bytes rest e = absurd (ground arith)

abbrev codec : Codec FetchProcessHandle
codec = record {
  encode_to_vec = λ m. none;
  decode_from_slice = pid_of;
  round_trip = nothing_encoded;
}

abbrev replies : ReplyCalls
replies = record { client = none; pipe = none; remote = ok handle; write = none }

fetch-reply_example :
    IsExchanged
      (λ i. 0)
      selectors
      box
      headers
      77
      calls
      "pipe"
      request
      refl
      request_encodes
      refl
      refl
      refl
      refl
      refl
      refl
      refl
      (made (decode codec (77 ∷ [])) replies)
      (reply codec (77 ∷ []) replies)
fetch-reply_example =
    fetch-reply (λ i. 0) selectors box headers 77 calls "pipe" request refl request_encodes refl
      refl refl refl refl refl refl codec (77 ∷ []) replies (λ h e. ground arith)
