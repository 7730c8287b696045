-- ===== src/Errors.antt =====
-- ipmb/src/errors.rs: the errors, with the payloads that the program reads.
use ipmb.Prelude.{ℕ, Option, ◌≡◌, refl, ◌⊎◌, inl, inr}
use ipmb.Version.{Version}

-- A peer to write to. Two remotes are equal when their raw handles are (`PartialEq for Remote`).
pub record Remote : Type 0 where
  pub v : ℕ

pub data Error : Type 0 where
  encode decode type_uuid_not_found timeout disconnect : Error
  version_mismatch : Version → Option Remote → Error
  token_mismatch identifier_in_use identifier_not_in_use : Error
  win_error io_error : ℕ → Error
  memory_region_mapping permission_denied unknown : Error

pub data JoinError : Type 0 where
  version_mismatch : Version → JoinError
  token_mismatch timeout permission_denied : JoinError

pub data SendError : Type 0 where
  timeout : SendError
  version_mismatch : Version → SendError
  token_mismatch permission_denied : SendError

pub data RecvError : Type 0 where
  decode timeout : RecvError
  version_mismatch : Version → RecvError
  token_mismatch permission_denied : RecvError

-- `From<JoinError> for SendError`
unfoldable pub send_error : JoinError → SendError
send_error (JoinError.version_mismatch v) = SendError.version_mismatch v
send_error JoinError.token_mismatch = SendError.token_mismatch
send_error JoinError.timeout = SendError.timeout
send_error JoinError.permission_denied = SendError.permission_denied

-- `From<JoinError> for RecvError`
unfoldable pub recv_error : JoinError → RecvError
recv_error (JoinError.version_mismatch v) = RecvError.version_mismatch v
recv_error JoinError.token_mismatch = RecvError.token_mismatch
recv_error JoinError.timeout = RecvError.timeout
recv_error JoinError.permission_denied = RecvError.permission_denied

pub data Result {ℓ κ} (A : Type ℓ) (E : Type κ) : Type (ℓ ⊔ κ) where
  ok : A → Result A E
  err : E → Result A E

pub Result-cases {ℓ κ} :
    {A : Type ℓ} {E : Type κ} (r : Result A E) → ((a : A) × (r ≡ ok a)) ⊎ ((e : E) × (r ≡ err e))
Result-cases (ok a) = inl (a, refl)
Result-cases (err e) = inr (e, refl)
