-- ===== src/Message/Laws.antt =====
-- ipmb/src/message.rs and ipmb-derive/src/lib.rs: a box reads back what it wrote, and refuses types
-- that it does not hold.
use mathlib.Core.Bool.{false≢true}
use ipmb.Prelude.{
  ◌≡◌, refl, Bool, true, false, inl, inr, List, [], ◌∷◌, ◌++◌, arith, ◌==◌, ==_iff, Bool-cases,
  if◌then◌else◌, ◌↔◌,
}
use ipmb.Errors.{Error, ok, err}
use ipmb.Message.{Bytes, Uuid, Codec, encode, decode, MessageBox, typed_box}
use ipmb.Message.Derive.{Variant, Enum, derive_decode, derive_encode, derive_uuid, derive_box}

-- What a receiver needs of a box: a value sent under its identifier is read back, whatever bytes
-- follow it.
pub record IsFaithful {T : Type 0} (box : MessageBox T) : Type 0 where
  pub reads_back :
      (t : T) (bytes rest : Bytes)
      → box.encode_box t ≡ ok bytes
      → box.decode_box (box.uuid_of t) (bytes ++ rest) ≡ ok t

pub decode-encode :
    {A : Type 0} (c : Codec A) (a : A) (bytes rest : Bytes)
    → encode c a ≡ ok bytes
    → decode c (bytes ++ rest) ≡ ok a
unfolding encode decode
decode-encode c a bytes rest h = ground (arith, c.round_trip a bytes rest)

pub typed_box-IsFaithful :
    {T : Type 0} (type_uuid : Uuid) (c : Codec T) → IsFaithful (typed_box type_uuid c)
unfolding typed_box
typed_box-IsFaithful type_uuid c = record {
  reads_back = λ t bytes rest h. ground (arith, decode-encode c t bytes rest);
}

abbrev pub has_uuid : List Variant → Uuid → Bool
has_uuid [] uuid = false
has_uuid (v ∷ vs) uuid = if uuid == v.uuid then true else has_uuid vs uuid

-- The variants have different identifiers.
abbrev pub AreDistinct : List Variant → Type 0
AreDistinct [] = Unit
AreDistinct (v ∷ vs) = (has_uuid vs v.uuid ≡ false) × AreDistinct vs

has_uuid-derive_uuid : (vs : List Variant) (t : Enum vs) → has_uuid vs (derive_uuid vs t) ≡ true
unfolding derive_uuid
has_uuid-derive_uuid [] t = absurd t
has_uuid-derive_uuid (v ∷ vs) (inl t) = ground arith
has_uuid-derive_uuid (v ∷ vs) (inr t) = ground (arith, has_uuid-derive_uuid vs t)

-- A value of an enum whose variants have different identifiers is read back from what was written
-- of it, under the identifier that it is sent with, whatever bytes follow.
pub derive_decode-derive_encode :
    (vs : List Variant) (t : Enum vs) (bytes rest : Bytes)
    → AreDistinct vs
    → derive_encode vs t ≡ ok bytes
    → derive_decode vs (derive_uuid vs t) (bytes ++ rest) ≡ ok t
unfolding derive_decode derive_encode derive_uuid
derive_decode-derive_encode [] t bytes rest d h = absurd t
derive_decode-derive_encode (v ∷ vs) (inl t) bytes rest d h =
    rw ((==_iff v.uuid v.uuid).1 refl, decode-encode v.codec t bytes rest h)
derive_decode-derive_encode (v ∷ vs) (inr t) bytes rest d h =
    elim (Bool-cases (derive_uuid vs t == v.uuid)) [
      | inl e ↦
          absurd (
            false≢true
              (cc ((==_iff (derive_uuid vs t) v.uuid).0 e, has_uuid-derive_uuid vs t, d.0)))
      | inr n ↦ rw (n, derive_decode-derive_encode vs t bytes rest d.1 h)
    ]

pub derive_box-IsFaithful : (vs : List Variant) → AreDistinct vs → IsFaithful (derive_box vs)
unfolding derive_box
derive_box-IsFaithful vs d = record {
  reads_back = λ t bytes rest h. derive_decode-derive_encode vs t bytes rest d h;
}

-- The decoder of an enum answers that the type is unknown exactly where no variant has the
-- identifier.
pub derive_decode_unknown_iff :
    (vs : List Variant) (uuid : Uuid) (bytes : Bytes)
    → (derive_decode vs uuid bytes ≡ err Error.type_uuid_not_found) ↔ (has_uuid vs uuid ≡ false)
unfolding derive_decode decode
derive_decode_unknown_iff [] uuid bytes = (λ h. refl, λ h. refl)
derive_decode_unknown_iff (v ∷ vs) uuid bytes =
    let ih = derive_decode_unknown_iff vs uuid bytes in
    (λ h. ground (arith, ih.0), λ h. ground (arith, ih.1))
