-- ===== src/Macos/Hub/Examples.antt =====
-- A port with a message that is longer than the first buffer, and one that dies.
use ipmb.Prelude.{ℕ, ◌+◌, ◌≡◌, inl, inr, refl, arith, true, false, none, some, [], ◌∷◌, replicate}
use ipmb.Message.{Bytes}
use ipmb.Linux.Examples.{selectors, headers}
use ipmb.Macos.Hub.{readable, timed_out, message, empty, for_endpoint, Round, read, recv}
use ipmb.Macos.Hub.Reading.{offers, read-offers}
use ipmb.Macos.Hub.Ending.{Settles, recv-ends}

abbrev grow : ℕ → ℕ → ℕ
grow capacity additional = capacity + additional

abbrev long : Bytes
long = replicate 200 7

read-offers_example :
    read grow (offers long ∷ offers long ∷ []) (record { port = 5; status = readable })
    ≡ some (some long, record { port = 5; status = readable })
read-offers_example = read-offers grow long [] 5 (omega arith) (omega arith)

-- Nothing comes.
abbrev quiet : Round
quiet = record {
  received = empty;
  answers = (λ capacity. timed_out) ∷ [];
  dead = false;
  events = [];
  now = 10;
}

-- An endpoint without a timeout, whose controller dies in the second round.
recv-ends_example :
    Settles selectors
      (λ name. name)
      headers
      none
      (quiet ∷ record quiet { dead = true } ∷ [])
      (recv selectors
        (λ name. name)
        headers
        grow
        none
        true
        (quiet ∷ record quiet { dead = true } ∷ [])
        (for_endpoint 5))
recv-ends_example =
    recv-ends selectors (λ name. name) headers grow none true (quiet ∷ [])
      (record quiet { dead = true }) (for_endpoint 5) (inl (λ capacity. tt), tt)
      (inl (λ capacity. tt)) (inr (refl, refl, refl))

-- With a message that is too short for `EncodedMessage::new`.
abbrev short : Round
short = record quiet { answers = (λ capacity. message (1 ∷ [])) ∷ [] }
