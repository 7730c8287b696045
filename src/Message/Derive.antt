-- ===== src/Message/Derive.antt =====
-- ipmb-derive/src/lib.rs: the `MessageBox` that the macro derives for an enum whose variants hold
-- one field each.
use ipmb.Prelude.{◌⊎◌, inl, inr, List, [], ◌∷◌, ◌==◌, if◌then◌else◌}
use ipmb.Errors.{Error, Result, ok, err}
use ipmb.Message.{Bytes, Uuid, Codec, encode, decode, MessageBox}

-- A variant: the type of its field, that type's identifier, and its serialization.
pub record Variant : Type 1 where
  pub Payload : Type 0
  pub uuid : Uuid
  pub codec : Codec Payload

-- The enum, as the sum of its variants in order.
abbrev pub Enum : List Variant → Type 0
Enum [] = ⊥
Enum (v ∷ vs) = v.Payload ⊎ Enum vs

abbrev pub map_ok {ℓ κ} : {A : Type ℓ} {B : Type κ} → (A → B) → Result A Error → Result B Error
map_ok f (ok a) = ok (f a)
map_ok f (err e) = err e

-- `decode`: the first arm whose identifier matches
unfoldable pub derive_decode : (vs : List Variant) → Uuid → Bytes → Result (Enum vs) Error
unfolding decode
derive_decode [] uuid bytes = err Error.type_uuid_not_found
derive_decode (v ∷ vs) uuid bytes =
    if uuid == v.uuid
    then map_ok inl (decode v.codec bytes)
    else map_ok inr (derive_decode vs uuid bytes)

-- `encode`
unfoldable pub derive_encode : (vs : List Variant) → Enum vs → Result Bytes Error
unfolding encode
derive_encode [] t = absurd t
derive_encode (v ∷ vs) (inl t) = encode v.codec t
derive_encode (v ∷ vs) (inr t) = derive_encode vs t

-- `uuid`
unfoldable pub derive_uuid : (vs : List Variant) → Enum vs → Uuid
derive_uuid [] t = absurd t
derive_uuid (v ∷ vs) (inl t) = v.uuid
derive_uuid (v ∷ vs) (inr t) = derive_uuid vs t

unfoldable pub derive_box : (vs : List Variant) → MessageBox (Enum vs)
unfolding derive_decode derive_encode derive_uuid
derive_box vs = record {
  decode_box = derive_decode vs;
  encode_box = derive_encode vs;
  uuid_of = derive_uuid vs;
}
