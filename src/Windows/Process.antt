-- ===== src/Windows/Process.antt =====
-- ipmb/src/platform/windows/util.rs: how a process gets a handle of the controller's process that it
-- may not open: it asks for one, and the controller makes it and writes it to a pipe.
pub mod Laws
mod Examples
use ipmb.Prelude.{
  ℕ, ◌/◌, ◌%◌, ◌+◌, ◌*◌, ◌^◌, String, Bool, true, false, Option, none, some, List, [], ◌∷◌, ◌++◌,
  ◌>>=◌,
}
use ipmb.Label.{LabelOp}
use ipmb.Errors.{Error, Result, ok, err}
use ipmb.Region.{Object, Headers}
use ipmb.Message.{Bytes, Selector, Codec, MessageBox, Message, new_message, unicast_to, decode}
use ipmb.Linux.Buffer.{u32_bytes}
use ipmb.Windows.Wire.{Encoded, Sent, into_encoded, send_encoded, read_u64}

-- `FetchProcessHandleMessage`
pub record FetchProcessHandle : Type 0 where
  pub pid : ℕ
  pub reply_pipe : String

-- What `WaitForSingleObject` returns.
pub data Wait : Type 0 where
  signalled timed_out : Wait
  failed : ℕ → Wait

-- What an overlapped operation says at first: it is under way or done, or it failed.
pub data Started : Type 0 where
  under_way : Started
  refused : ℕ → Started

-- What the system answers `fetch_remote_process_handle`, in the order of the calls: the pipe with its
-- name, how much of the request was written, the event, the connection and the wait for it, whether the
-- event could be reset, the read and the wait for it, and the bytes that were read.
pub record FetchCalls : Type 0 where
  pub pipe : Result String Error
  pub wrote : Option ℕ
  pub event : Option ℕ
  pub connection : Started
  pub connected : Wait
  pub reset : Option ℕ
  pub reading : Started
  pub arrived : Wait
  pub buf : Bytes

-- The handle, and whether an operation was cancelled.
pub record Fetched : Type 0 where
  pub result : Result ℕ Error
  pub cancelled : Bool

abbrev pub fails : Error → Option Fetched
fails e = some (record { result = err e; cancelled = false })

-- The macro `wait!`, with what follows a signal
abbrev pub waits : Wait → Option Fetched → Option Fetched
waits signalled rest = rest
waits timed_out rest = some (record { result = err Error.timeout; cancelled = true })
waits (failed e) rest = some (record { result = err (Error.win_error e); cancelled = true })

abbrev pub starts : Started → Option Fetched → Option Fetched
starts under_way rest = rest
starts (refused e) rest = fails (Error.win_error e)

-- A call that may fail with an error of the system
abbrev pub succeeds : Option ℕ → Option Fetched → Option Fetched
succeeds none rest = rest
succeeds (some e) rest = fails (Error.win_error e)

abbrev pub handle_read : Option ℕ → Option Fetched
handle_read none = none
handle_read (some h) = some (record { result = ok h; cancelled = false })

-- The wait for the answer
unfoldable pub await_handle : FetchCalls → Option Fetched
unfolding read_u64
await_handle calls = succeeds calls.event (
    starts calls.connection (
      waits calls.connected (
        succeeds calls.reset
          (starts calls.reading (waits calls.arrived (handle_read (read_u64 calls.buf 0)))))))

abbrev pub after_send : FetchCalls → Option Sent → Option Fetched
after_send calls none = none
after_send calls (some s) = elim s.result [ err e ↦ fails e | ok _ ↦ await_handle calls ]

-- `fetch_remote_process_handle`; the remote has no process yet, so no handle can be duplicated into it.
-- `none` for a panic
unfoldable pub fetch :
    (ℕ → ℕ)
    → Codec Selector
    → MessageBox FetchProcessHandle
    → Headers
    → ℕ
    → FetchCalls
    → Option Fetched
unfolding new_message into_encoded await_handle
fetch junk selectors box h pid calls = elim calls.pipe [
  | err e ↦ fails e
  | ok name ↦ do
    encoded ←
        into_encoded junk selectors box
          (new_message box (unicast_to LabelOp.always) (record { pid = pid; reply_pipe = name }))
    after_send calls (send_encoded (λ o. none) h encoded calls.wrote)
]

-- What the system answers `reply_current_process_handle`: to `OpenProcess` and `CreateFileW`, the handle
-- that is made in the client's process, and the write.
pub record ReplyCalls : Type 0 where
  pub client : Option ℕ
  pub pipe : Option ℕ
  pub remote : Result ℕ Error
  pub write : Option ℕ

-- The result, the bytes that were written, and the remote handles that were closed again.
pub record Replied : Type 0 where
  pub result : Result (Unit {0}) Error
  pub written : Option Bytes
  pub closed : List ℕ

abbrev pub gives_up : Error → Replied
gives_up e = record { result = err e; written = none; closed = [] }

-- The eight bytes of a handle, least first
abbrev pub handle_bytes : ℕ → Bytes
handle_bytes h = u32_bytes (h % 2 ^ 32) ++ u32_bytes (h / 2 ^ 32 % 2 ^ 32)

-- The write, and `drain` behind it
abbrev pub answer_with : ℕ → Option ℕ → Replied
answer_with h none = record { result = ok tt; written = some (handle_bytes h); closed = [] }
answer_with h (some e) = record {
  result = err (Error.win_error e);
  written = none;
  closed = h ∷ [];
}

abbrev pub duplicated : Result ℕ Error → Option ℕ → Replied
duplicated (err e) write = gives_up e
duplicated (ok h) write = answer_with h write

abbrev pub opened : Option ℕ → Replied → Replied
opened none rest = rest
opened (some e) rest = gives_up (Error.win_error e)

abbrev pub replied : Result FetchProcessHandle Error → ReplyCalls → Replied
replied (err e) calls = gives_up e
replied (ok msg) calls =
    opened calls.client (opened calls.pipe (duplicated calls.remote calls.write))

-- `reply_current_process_handle`, for the payload of a message
unfoldable pub reply : Codec FetchProcessHandle → Bytes → ReplyCalls → Replied
unfolding decode
reply codec payload_data calls = replied (decode codec payload_data) calls
