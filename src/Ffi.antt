-- ===== src/Ffi.antt =====
-- ipmb-ffi/src/lib.rs: the C interface. Here its error codes and the values that it converts; the
-- children model the boxes behind its handles, and the messages and regions in them.
pub mod Boxes
pub mod Labels
pub mod Messages
pub mod Regions
pub mod Laws
mod Examples
use ipmb.Prelude.{
  ℕ, ◌+◌, ◌-◌, ◌*◌, ◌^◌, String, Bool, true, false, Option, none, some, ◌==◌, if◌then◌else◌,
}
use ipmb.Errors.{Result, ok, err, JoinError, SendError, RecvError}
use ipmb.Label.{Label, LabelOp, always, never, leaf, and, or, negation, insert, default}
use ipmb.Message.{SelectorMode, Selector, unicast, multicast, unicast_to, multicast_to}
use ipmb.Region.{ℤ, pos, negsuc}
use ipmb.Version.{Version, version}

abbrev pub ErrorCode : Type 0
ErrorCode = ℤ

-- The constants `ERROR_CODE_..`; `negsuc n` is -(n + 1).
abbrev pub error_code_success : ErrorCode
error_code_success = pos 0

abbrev pub error_code_unknown : ErrorCode
error_code_unknown = negsuc 0

abbrev pub error_code_timeout : ErrorCode
error_code_timeout = negsuc 1

abbrev pub error_code_decode : ErrorCode
error_code_decode = negsuc 2

abbrev pub error_code_version_mismatch : ErrorCode
error_code_version_mismatch = negsuc 3

abbrev pub error_code_token_mismatch : ErrorCode
error_code_token_mismatch = negsuc 4

abbrev pub error_code_permission_denied : ErrorCode
error_code_permission_denied = negsuc 5

abbrev pub timeout_infinite : ℕ
timeout_infinite = 2 ^ 32 - 1

-- The timeout of `ipmb_join` and `ipmb_recv`: milliseconds to nanoseconds
unfoldable pub timeout_of : ℕ → Option ℕ
timeout_of timeout = if timeout == timeout_infinite then none else some (timeout * 10 ^ 6)

abbrev pub join_error_code : JoinError → ErrorCode
join_error_code (JoinError.version_mismatch v) = error_code_version_mismatch
join_error_code JoinError.token_mismatch = error_code_token_mismatch
join_error_code JoinError.permission_denied = error_code_permission_denied
join_error_code JoinError.timeout = error_code_timeout

module _ {ℓ} {A : Type ℓ} where
  -- The code of `ipmb_join`, for an identifier and a token that are or are not UTF-8
  unfoldable pub join_code :
      Option String → Option String → (String → String → Result A JoinError) → ErrorCode
  join_code none token join = error_code_unknown
  join_code (some identifier) none join = error_code_unknown
  join_code (some identifier) (some token) join = elim (join identifier token) [
    | ok endpoints ↦ error_code_success
    | err e ↦ join_error_code e
  ]

  -- The code of `ipmb_send`
  unfoldable pub send_code : Result A SendError → ErrorCode
  send_code (ok x) = error_code_success
  send_code (err SendError.timeout) = error_code_timeout
  send_code (err (SendError.version_mismatch v)) = error_code_version_mismatch
  send_code (err SendError.token_mismatch) = error_code_token_mismatch
  send_code (err SendError.permission_denied) = error_code_permission_denied

  -- The code of `ipmb_recv`
  unfoldable pub recv_code : Result A RecvError → ErrorCode
  recv_code (ok message) = error_code_success
  recv_code (err RecvError.timeout) = error_code_timeout
  recv_code (err RecvError.decode) = error_code_decode
  recv_code (err (RecvError.version_mismatch v)) = error_code_version_mismatch
  recv_code (err RecvError.token_mismatch) = error_code_token_mismatch
  recv_code (err RecvError.permission_denied) = error_code_permission_denied

-- `ipmb_label_op_bool`, `ipmb_label_op_leaf`
abbrev pub label_op_bool : Bool → LabelOp
label_op_bool v = if v then always else never

abbrev pub label_op_leaf : String → LabelOp
label_op_leaf s = leaf s

-- `ttl` is in milliseconds, a `u32`.
pub record CSelector : Type 0 where
  pub label_op : LabelOp
  pub mode : SelectorMode
  pub ttl : ℕ

abbrev pub with_mode : SelectorMode → LabelOp → Selector
with_mode unicast op = unicast_to op
with_mode multicast op = multicast_to op

-- `From<Selector> for ipmb::Selector`
unfoldable pub rust_selector : CSelector → Selector
rust_selector s = record (with_mode s.mode s.label_op) { ttl = s.ttl * 10 ^ 6 }
