-- ===== src/Macos/Connect.antt =====
-- ipmb/src/platform/macos/mod.rs: `look_up`, `register`, and the search for the root bootstrap port,
-- over what the kernel and launchd return.
pub mod Laws
mod Examples
use ipmb.Prelude.{
  ℕ, zero, suc, ◌+◌, ◌*◌, ◌^◌, String, Bool, true, false, Option, none, some, List, ltb, ◌==◌,
  if◌then◌else◌,
}
use ipmb.Label.{Label}
use ipmb.Errors.{Error, Remote, Result, ok, err}
use ipmb.Region.{Object, Headers}
use ipmb.Message.{EndpointId, MessageBox, ConnectMessageAck, accepted, err_version, err_token}
use ipmb.Linux.Connect.{Formats, request}
use ipmb.Windows.Hub.{Step, panics, unfinished, continues}
use ipmb.Macos.Wire.{EncodedMessage, into_encoded, SendReturn, Sent, send, Parsed, new_encoded}
use ipmb.Macos.Hub.{IoHub, for_endpoint, for_bus_controller, Round, Returned, recv}

-- What the calls to launchd return.
pub data Bootstrap : Type 0 where
  success unknown_service name_in_use not_privileged other : Bootstrap

-- What the calls of `look_up` return, in their order: the port of the identifier, the port for the
-- answers and the clone of its right, the returns of the sends and whether the remote is dead after a
-- failure, the instant, and the rounds of `recv`.
pub record Calls : Type 0 where
  pub code : Bootstrap
  pub remote : ℕ
  pub local : ℕ
  pub clone : Option Object
  pub os_error : ℕ
  pub returns : List SendReturn
  pub dead : Bool
  pub now : ℕ
  pub rounds : List Round

abbrev pub Found : Type 0
Found = Result (IoHub × Remote × EndpointId) Error

abbrev pub acknowledged : IoHub → Remote → Result ConnectMessageAck Error → Found
acknowledged io_hub remote (ok (accepted endpoint_id)) = ok (io_hub, remote, endpoint_id)
acknowledged io_hub remote (ok (err_version v)) = err (Error.version_mismatch v none)
acknowledged io_hub remote (ok err_token) = err Error.token_mismatch
acknowledged io_hub remote (err e) = err e

abbrev pub answered : MessageBox ConnectMessageAck → IoHub → Remote → EncodedMessage → Found
answered box io_hub remote msg =
    acknowledged io_hub remote (box.decode_box msg.selector.uuid msg.payload_data)

-- What a process knows: how messages are encoded, its regions, and the kernel objects behind its names.
pub record Context : Type 0 where
  pub formats : Formats
  pub grow : ℕ → ℕ → ℕ
  pub target : ℕ → ℕ

module _ (c : Context) (remote : Remote) where
  abbrev pub received : Step Returned → Step Found
  received panics = panics
  received unfinished = unfinished
  received (continues (ok msg, h, io_hub)) =
      continues (answered c.formats.ack_box io_hub remote msg)
  received (continues (err e, h, io_hub)) = continues (err e)

  -- The wait for the answer, of two seconds, where the request was sent
  abbrev pub awaited : Calls → Option Sent → Step Found
  awaited calls none = unfinished
  awaited calls (some s) = elim s.result [
    | err e ↦ continues (err e)
    | ok _ ↦ received (
        recv c.formats.selectors c.target s.headers c.grow (some (calls.now + 2 * 10 ^ 9)) true
          calls.rounds (for_endpoint calls.local))
  ]

-- `encoded_msg.send(&remote)?`, and what follows; `none` is the panic of a request that does not encode
abbrev pub requested : Context → Headers → Calls → Option EncodedMessage → Step Found
requested c h calls none = panics
requested c h calls (some encoded_msg) =
    awaited c (record { v = calls.remote }) calls
      (send calls.remote calls.dead h encoded_msg calls.returns)

-- The arm of `look_up` for a port that was found
unfoldable pub connect : Context → Headers → Label → String → Calls → Step Found
unfolding into_encoded send recv
connect c h label token calls = elim calls.clone [
  | none ↦ continues (err (Error.io_error calls.os_error))
  | some reply ↦ requested c h calls (
      into_encoded c.formats.junk c.formats.selectors c.formats.connect_box
        (request c.formats.connect_box label token reply))
]

-- `look_up`
unfoldable pub look_up : Context → Headers → Label → String → Calls → Step Found
unfolding connect
look_up c h label token calls = elim calls.code [
  | success ↦
      if ltb 0 calls.remote then connect c h label token calls else continues (err Error.unknown)
  | unknown_service ↦ continues (err Error.identifier_not_in_use)
  | not_privileged ↦ continues (err Error.permission_denied)
  | name_in_use ↦ continues (err Error.unknown)
  | other ↦ continues (err Error.unknown)
]

-- `register`: the hub, and the new identifier.
unfoldable pub register : Bootstrap → ℕ → EndpointId → Result (IoHub × EndpointId) Error
register success local id = ok (for_bus_controller local, id)
register name_in_use local id = err Error.identifier_in_use
register not_privileged local id = err Error.permission_denied
register unknown_service local id = err Error.unknown
register other local id = err Error.unknown

-- The loop in `init`, on fuel, from a bootstrap port to the root: `parent` is what `bootstrap_parent`
-- gives, if it succeeds. `none` where the fuel ends first.
unfoldable pub climb : ℕ → (ℕ → Option ℕ) → ℕ → Option ℕ
climb zero parent root = none
climb (suc fuel) parent root = elim (parent root) [
  | none ↦ some root
  | some up ↦ elim (root == up) [ true ↦ some root | false ↦ climb fuel parent up ]
]
