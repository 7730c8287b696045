-- ===== src/Linux/Connect.antt =====
-- ipmb/src/platform/linux.rs: `look_up` and `register`, over what the system calls return.
pub mod Laws
use ipmb.Prelude.{ℕ, String, Bool, true, false, Option, none, some, List, [], ◌∷◌, ◌>>=◌}
use ipmb.Label.{Label, LabelOp}
use ipmb.Version.{version}
use ipmb.Errors.{Error, Remote, Result, ok, err}
use ipmb.Region.{Object, Headers}
use ipmb.Message.{
  EndpointId, Selector, unicast_to, Codec, MessageBox, Message, new_message, ConnectMessage,
  ConnectMessageAck, accepted, err_version, err_token, EncodedMessage,
}
use ipmb.Linux.Encode.{into_encoded}
use ipmb.Linux.Receive.{send}

-- `io::ErrorKind`, as far as it is told apart
pub data ErrorKind : Type 0 where
  connection_refused not_found permission_denied addr_in_use other : ErrorKind

-- `IoHub::for_endpoint` of the reading end of a pair of sockets
pub record Hub : Type 0 where
  pub local : ℕ

-- What the system calls of `look_up` return, in their order: sockets or `none` for -1, the error of
-- `connect`, whether the request is taken, and what the hub receives within two seconds.
pub record Calls : Type 0 where
  pub os_error : ℕ
  pub socket : Option Object
  pub connect : Option ErrorKind
  pub socketpair : Option (Object × Object)
  pub taken : Bool
  pub reply : Result EncodedMessage Error

abbrev pub Found : Type 0
Found = Result (Hub × Remote × EndpointId) Error

abbrev pub connect_error : ErrorKind → ℕ → Error
connect_error connection_refused n = Error.identifier_not_in_use
connect_error not_found n = Error.identifier_not_in_use
connect_error permission_denied n = Error.permission_denied
connect_error _ n = Error.io_error n

-- The request: an endpoint's version, token and label, with the writing end for the answers.
abbrev pub request : MessageBox ConnectMessage → Label → String → Object → Message ConnectMessage
request box label token write_fd =
    record (new_message box (unicast_to LabelOp.always)
      (record { version = version; token = token; label = label })) { objects = write_fd ∷ [] }

abbrev pub acknowledged : Hub → Remote → Result ConnectMessageAck Error → Found
acknowledged io_hub remote (ok (accepted endpoint_id)) = ok (io_hub, remote, endpoint_id)
acknowledged io_hub remote (ok (err_version v)) = err (Error.version_mismatch v none)
acknowledged io_hub remote (ok err_token) = err Error.token_mismatch
acknowledged io_hub remote (err e) = err e

abbrev pub answered :
    MessageBox ConnectMessageAck → Hub → Remote → Result EncodedMessage Error → Found
answered box io_hub remote (ok msg) =
    acknowledged io_hub remote (box.decode_box msg.selector.uuid msg.payload_data)
answered box io_hub remote (err e) = err e

abbrev pub awaited :
    MessageBox ConnectMessageAck
    → Hub
    → Remote
    → Result EncodedMessage Error
    → Result (Unit {0}) Error
    → Found
awaited box io_hub remote reply (ok _) = answered box io_hub remote reply
awaited box io_hub remote reply (err e) = err e

-- How a message is encoded: junk in fresh buffers, and the serializations of the types.
pub record Formats : Type 0 where
  pub junk : ℕ → ℕ
  pub selectors : Codec Selector
  pub connect_box : MessageBox ConnectMessage
  pub ack_box : MessageBox ConnectMessageAck

-- `look_up`; `none` is the panic of a request that does not encode.
unfoldable pub look_up : Formats → Headers → Label → String → Calls → Option Found
unfolding new_message into_encoded send
look_up f h label token calls = elim calls.socket [
  | none ↦ some (err (Error.io_error calls.os_error))
  | some fd ↦ elim calls.connect [
    | some kind ↦ some (err (connect_error kind calls.os_error))
    | none ↦ elim calls.socketpair [
      | none ↦ some (err (Error.io_error calls.os_error))
      | some (read_fd, write_fd) ↦
          into_encoded f.junk f.selectors f.connect_box (request f.connect_box label token write_fd)
          >>= λ encoded. some (
              awaited f.ack_box (record { local = read_fd.raw }) (record { v = fd.raw }) calls.reply
                (send h encoded calls.taken).0)
    ]
  ]
]

abbrev pub bind_error : ErrorKind → ℕ → Error
bind_error addr_in_use n = Error.identifier_in_use
bind_error permission_denied n = Error.permission_denied
bind_error _ n = Error.io_error n

-- `register`: the listening socket and the new identifier. `bind` gives its error, `listen` whether
-- it succeeds.
unfoldable pub register :
    Option Object → Option ErrorKind → Bool → ℕ → EndpointId → Result (Object × EndpointId) Error
register none bind listen os_error id = err (Error.io_error os_error)
register (some fd) (some kind) listen os_error id = err (bind_error kind os_error)
register (some fd) none listen os_error id = elim listen [
  | true ↦ ok (fd, id)
  | false ↦ err (Error.io_error os_error)
]
