-- ===== src/Linux/Connect/Laws.antt =====
-- ipmb/src/platform/linux.rs: what an endpoint learns from `look_up`.
use ipmb.Prelude.{String, ◌≡◌, Bool, true, false, ◌⊎◌, inl, inr, some, arith, Option-cases}
use ipmb.Label.{Label}
use ipmb.Errors.{Error, Remote, Result, ok, err}
use ipmb.Region.{Object, Headers}
use ipmb.Message.{ConnectMessageAck, EncodedMessage, MessageBox, Uuid, Bytes}
use ipmb.Linux.Encode.{into_encoded}
use ipmb.Linux.Receive.{send}
use ipmb.Linux.Connect.{ErrorKind, Hub, Calls, request, acknowledged, awaited, Formats, look_up}

-- An answer that is not itself the error that nobody uses the identifier.
abbrev pub IsOther {ℓ} : {A : Type ℓ} → Result A Error → Type 0
IsOther (ok a) = Unit
IsOther (err Error.identifier_not_in_use) = ⊥
IsOther (err e) = Unit

-- `connect` found nobody who listens.
abbrev pub FoundNobody : Calls → Type 0
FoundNobody calls =
    (fd : Object) × (calls.socket ≡ some fd)
    × ((calls.connect ≡ some ErrorKind.connection_refused)
        ⊎ (calls.connect ≡ some ErrorKind.not_found))

acknowledged-IsOther :
    (io_hub : Hub) (remote : Remote) (r : Result ConnectMessageAck Error)
    → IsOther r
    → IsOther (acknowledged io_hub remote r)
acknowledged-IsOther io_hub remote (ok a) o = ground arith
acknowledged-IsOther io_hub remote (err e) o = ground arith

awaited-IsOther :
    (box : MessageBox ConnectMessageAck) (io_hub : Hub) (remote : Remote)
    (reply : Result EncodedMessage Error) (r : Result (Unit {0}) Error)
    → ((uuid : Uuid) (bytes : Bytes) → IsOther (box.decode_box uuid bytes))
    → IsOther reply
    → IsOther r
    → IsOther (awaited box io_hub remote reply r)
awaited-IsOther box io_hub remote (ok msg) (ok _) d o p =
    acknowledged-IsOther io_hub remote _ (d msg.selector.uuid msg.payload_data)
awaited-IsOther box io_hub remote (err e) (ok _) d o p = ground arith
awaited-IsOther box io_hub remote reply (err e) d o p = ground arith

send-IsOther : (h : Headers) (msg : EncodedMessage) (taken : Bool) → IsOther (send h msg taken).0
unfolding send
send-IsOther h msg true = tt
send-IsOther h msg false = tt

IsOther-unused :
    {A : Type 0} (r : Result A Error) → IsOther r → r ≡ err Error.identifier_not_in_use → ⊥
IsOther-unused (ok a) o e = ground arith
IsOther-unused (err f) o e = ground arith

-- `look_up` answers that the identifier is not in use only where `connect` was refused or found
-- nothing, if neither the hub's answer nor a decoding is itself that error.
pub look_up-FoundNobody :
    (f : Formats) (h : Headers) (label : Label) (token : String) (calls : Calls)
    → ((uuid : Uuid) (bytes : Bytes) → IsOther (f.ack_box.decode_box uuid bytes))
    → IsOther calls.reply
    → look_up f h label token calls ≡ some (err Error.identifier_not_in_use)
    → FoundNobody calls
unfolding look_up
look_up-FoundNobody f h label token calls d o e = elim (Option-cases calls.socket) [
  | inl s ↦ absurd (ground arith)
  | inr (fd, s) ↦ elim (Option-cases calls.connect) [
    | inr (kind, k) ↦ (fd, s, refused fd kind s k)
    | inl k ↦ elim (Option-cases calls.socketpair) [
      | inl q ↦ absurd (ground arith)
      | inr ((read_fd, write_fd), q) ↦
          elim (Option-cases (
            into_encoded f.junk f.selectors f.connect_box
              (request f.connect_box label token write_fd))) [
                | inl n ↦ absurd (ground arith)
                | inr (encoded, n) ↦ absurd (
                    IsOther-unused _
                      (awaited-IsOther f.ack_box (record { local = read_fd.raw })
                        (record { v = fd.raw }) calls.reply (send h encoded calls.taken).0 d o
                        (send-IsOther h encoded calls.taken))
                      (ground arith))
              ]
    ]
  ]
]
  where
    refused :
        (fd : Object) (kind : ErrorKind)
        → calls.socket ≡ some fd
        → calls.connect ≡ some kind
        → (calls.connect ≡ some ErrorKind.connection_refused)
          ⊎ (calls.connect ≡ some ErrorKind.not_found)
    refused fd kind s k = ground arith
