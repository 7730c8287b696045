-- ===== src/Windows/Connect.antt =====
-- ipmb/src/platform/windows/mod.rs: `look_up` and `register`, over what the system calls return.
pub mod Laws
mod Examples
use ipmb.Prelude.{
  ℕ, String, Bool, true, false, Option, none, some, List, [], ◌∷◌, if◌then◌else◌, str_eq, ◌>>=◌,
}
use ipmb.Label.{Label, LabelOp}
use ipmb.Errors.{Error, Result, ok, err}
use ipmb.Version.{version}
use ipmb.Region.{Object, Headers}
use ipmb.Message.{
  Bytes, EndpointId, MessageBox, Message, unicast_to, new_message, ConnectMessage,
  ConnectMessageAck, accepted, err_version, err_token,
}
use ipmb.Linux.Connect.{Formats}
use ipmb.Windows.{NamedPipe, new_pipe, free, readable}
use ipmb.Windows.Hub.{
  IoHub, Step, panics, unfinished, continues, Outcome, arrived, from_bus, fails, Round, recv,
}
use ipmb.Windows.Wire.{Encoded, Sent, Arrived, into_encoded, send_helper, send_encoded, new_encoded}

-- `Remote`
pub record Peer : Type 0 where
  pub pipe : Object
  pub process : Object

-- `IoHub::for_bus_controller`, `IoHub::for_endpoint`
abbrev pub for_bus_controller : ℕ → NamedPipe → IoHub
for_bus_controller waker listening_pipe = record {
  bus_receiver = true;
  waker = waker;
  pipes = [];
  listening_pipe = some listening_pipe;
}

abbrev pub for_endpoint : ℕ → NamedPipe → IoHub
for_endpoint waker pipe = record {
  bus_receiver = false;
  waker = waker;
  pipes = pipe ∷ [];
  listening_pipe = none;
}

-- The errors of the system, as far as they are told apart; the others by their number
pub data WinError : Type 0 where
  pipe_busy file_not_found access_denied already_exists : WinError
  other : ℕ → WinError

-- The number of an error.
abbrev pub code_of : WinError → ℕ
code_of pipe_busy = 231
code_of file_not_found = 2
code_of access_denied = 5
code_of already_exists = 183
code_of (other n) = n

abbrev pub open_error : WinError → Error
open_error file_not_found = Error.identifier_not_in_use
open_error access_denied = Error.permission_denied
open_error e = Error.win_error (code_of e)

-- What the calls of `look_up` return, in their order: the pipe of the server, the failure to get its
-- process id, the process, the process by the other way that is tried where access is denied, the ends
-- of a pipe for the answers, the handle of this process, what the write of the request does, and the
-- turns of the hub that waits for the answer.
pub record Calls : Type 0 where
  pub create_file : Result Object WinError
  pub server_process_id : Option WinError
  pub open_process : Result Object WinError
  pub fetch_remote_process_handle : Result Object Error
  pub anon_pipe : Result (Object × Object) Error
  pub current_process : Object
  pub to_remote : Object → Option ℕ
  pub wrote : Option ℕ
  pub rounds : List Round

abbrev pub Found : Type 0
Found = Result (IoHub × Peer × EndpointId) Error

abbrev pub server_process : Calls → Result Object WinError → Result Object Error
server_process calls (ok process) = ok process
server_process calls (err access_denied) = calls.fetch_remote_process_handle
server_process calls (err e) = err (Error.win_error (code_of e))

-- The request, with the handle of this process and then the writing end.
abbrev pub request :
    MessageBox ConnectMessage → Label → String → Object → Object → Message ConnectMessage
request box label token process write_pipe =
    record (new_message box (unicast_to LabelOp.always)
      (record { version = version; token = token; label = label })) {
        objects = process ∷ write_pipe ∷ [];
      }

abbrev pub acknowledged : IoHub → Peer → Result ConnectMessageAck Error → Found
acknowledged io_hub remote (ok (accepted endpoint_id)) = ok (io_hub, remote, endpoint_id)
acknowledged io_hub remote (ok (err_version v)) = err (Error.version_mismatch v none)
acknowledged io_hub remote (ok err_token) = err Error.token_mismatch
acknowledged io_hub remote (err e) = err e

abbrev pub parsed :
    MessageBox ConnectMessageAck
    → IoHub
    → Peer
    → Option (Result Arrived Error × Headers)
    → Step Found
parsed box io_hub remote none = panics
parsed box io_hub remote (some (err e, h)) = continues (err e)
parsed box io_hub remote (some (ok msg, h)) =
    continues (acknowledged io_hub remote (box.decode_box msg.selector.uuid msg.payload_data))

-- What the hub received. The hub of an endpoint has no channel to receive from.
abbrev pub answered : Formats → (ℕ → ℕ) → Headers → Peer → Step (Outcome × IoHub) → Step Found
answered f target h remote panics = panics
answered f target h remote unfinished = unfinished
answered f target h remote (continues (fails e, io_hub)) = continues (err e)
answered f target h remote (continues (arrived (bytes, size), io_hub)) =
    parsed f.ack_box io_hub remote (new_encoded f.selectors target h bytes)
answered f target h remote (continues (from_bus msg, io_hub)) =
    continues (acknowledged io_hub remote (f.ack_box.decode_box msg.selector.uuid msg.payload_data))

abbrev pub requested :
    Formats → (Bytes → Bytes) → (ℕ → ℕ) → ℕ → List Round → Peer → Object → Option Sent → Step Found
requested f grow target waker rounds remote read_pipe none = panics
requested f grow target waker rounds remote read_pipe (some s) = elim s.result [
  | err e ↦ continues (err e)
  | ok x ↦
      answered f target s.headers remote
        (recv grow rounds (for_endpoint waker (new_pipe read_pipe.raw readable)))
]

-- The request is encoded, which panics where that fails, and sent.
abbrev pub sent_request : Calls → Headers → Option Encoded → Option Sent
sent_request calls h encoded = encoded >>= λ e. send_encoded calls.to_remote h e calls.wrote

-- `look_up`, for the target of a handle in this process
unfoldable pub look_up :
    Formats → (Bytes → Bytes) → (ℕ → ℕ) → ℕ → Headers → String → Label → String → Calls → Step Found
unfolding into_encoded send_helper new_message recv new_encoded
look_up f grow target waker h identifier label token calls =
    if str_eq identifier ""
    then continues (err Error.permission_denied)
    else (elim calls.create_file [
      | err e ↦ continues (err (open_error e))
      | ok pipe ↦ elim calls.server_process_id [
        | some e ↦ continues (err (Error.win_error (code_of e)))
        | none ↦ elim (server_process calls calls.open_process) [
          | err e ↦ continues (err e)
          | ok process ↦ elim calls.anon_pipe [
            | err e ↦ continues (err e)
            | ok (read_pipe, write_pipe) ↦
                requested f grow target waker calls.rounds
                  (record { pipe = pipe; process = process }) read_pipe
                  (sent_request calls h (
                    into_encoded f.junk f.selectors f.connect_box
                      (request f.connect_box label token calls.current_process write_pipe)))
          ]
        ]
      ]
    ])

abbrev pub register_error : WinError → Error
register_error already_exists = Error.identifier_in_use
register_error access_denied = Error.permission_denied
register_error e = Error.win_error (code_of e)

-- `register`, given the pipe that `CreateNamedPipeW` makes and a new identifier
unfoldable pub register :
    ℕ → Result Object WinError → EndpointId → Result (IoHub × EndpointId) Error
register waker (err e) id = err (register_error e)
register waker (ok pipe) id = ok (for_bus_controller waker (new_pipe pipe.raw free), id)
