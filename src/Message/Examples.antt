-- ===== src/Message/Examples.antt =====
-- An enum of two variants, of one and of two bytes.
use ipmb.Prelude.{ℕ, ◌≡◌, refl, Option, none, some, List, [], ◌∷◌, ◌++◌, length, inl, inr}
use ipmb.Errors.{ok}
use ipmb.Message.{Bytes, Codec, decode, encode}
use ipmb.Message.Derive.{Variant, derive_decode, derive_encode, derive_uuid}
use ipmb.Message.Laws.{derive_decode-derive_encode}

abbrev one_of : Bytes → Option (ℕ × ℕ)
one_of [] = none
one_of (b ∷ bytes) = some (b, 1)

one_round_trip :
    (a : ℕ) (bytes rest : Bytes)
    → some (a ∷ []) ≡ some bytes
    → one_of (bytes ++ rest) ≡ some (a, length bytes)
one_round_trip a bytes rest h = cc

abbrev one : Codec ℕ
one = record {
  encode_to_vec = λ n. some (n ∷ []);
  decode_from_slice = one_of;
  round_trip = one_round_trip;
}

abbrev two_of : Bytes → Option ((ℕ × ℕ) × ℕ)
two_of (a ∷ b ∷ bytes) = some ((a, b), 2)
two_of _ = none

two_round_trip :
    (a : ℕ × ℕ) (bytes rest : Bytes)
    → some (a.0 ∷ a.1 ∷ []) ≡ some bytes
    → two_of (bytes ++ rest) ≡ some (a, length bytes)
two_round_trip a bytes rest h = cc

abbrev two : Codec (ℕ × ℕ)
two = record {
  encode_to_vec = λ p. some (p.0 ∷ p.1 ∷ []);
  decode_from_slice = two_of;
  round_trip = two_round_trip;
}

abbrev variants : List Variant
variants =
    record { Payload = ℕ; uuid = 7; codec = one }
    ∷ record { Payload = ℕ × ℕ; uuid = 8; codec = two }
    ∷ []

derive_decode_runs : derive_decode variants 8 (1 ∷ 2 ∷ []) ≡ ok (inr (inl (1, 2)))
unfolding derive_decode decode
derive_decode_runs = refl

written : derive_encode variants (inr (inl (5, 6))) ≡ ok (5 ∷ 6 ∷ [])
unfolding derive_encode encode
written = refl

derive_decode-derive_encode_example :
    derive_decode variants (derive_uuid variants (inr (inl (5, 6)))) ((5 ∷ 6 ∷ []) ++ 9 ∷ [])
    ≡ ok (inr (inl (5, 6)))
derive_decode-derive_encode_example =
    derive_decode-derive_encode variants (inr (inl (5, 6))) (5 ∷ 6 ∷ []) (9 ∷ []) (refl, (refl, tt))
      written
