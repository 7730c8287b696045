-- ===== src/Endpoint/Session/Loops/Panics.antt =====
-- ipmb/src/lib.rs: where `EndpointReceiver::recv` panics.
use ipmb.Prelude.{ℕ, ◌≡◌, Bool, true, false, some, List, ◌∷◌}
use ipmb.Errors.{Error, Result, ok, err}
use ipmb.Message.{EncodedMessage}
use ipmb.Message.Derive.{Variant, derive_box}
use ipmb.Endpoint.{Rule, client, server}
use ipmb.Endpoint.Session.{skipped, lost, reconnect, recv_turn}
use ipmb.Endpoint.Session.Reconnect.{IsOpen}
use ipmb.Endpoint.Session.Loops.{
  panicked, FromChannel, gave, timed_out, disconnected, RecvRound, answer, recv,
}

-- An answer of a hub that `recv` has no arm for, and a channel whose controller is gone.
abbrev pub is_unexpected : Result EncodedMessage Error → Bool
is_unexpected (ok msg) = false
is_unexpected (err Error.disconnect) = false
is_unexpected (err Error.timeout) = false
is_unexpected (err e) = true

abbrev pub is_gone : FromChannel → Bool
is_gone (gave msg) = false
is_gone timed_out = false
is_gone disconnected = true

module _ {Hub : Type 0} where
  abbrev pub goes_wrong : Rule Hub → RecvRound Hub → Bool
  goes_wrong (client c) r = is_unexpected r.from_hub
  goes_wrong (server s) r = is_gone r.from_channel

module _ {Hub : Type 0} (vs : List Variant) where
  -- A call of `recv` comes, by skipped messages and reconnections, to a round with a rule.
  pub data Reaches (rule' : Rule Hub) (r' : RecvRound Hub)
      : Rule Hub → List (RecvRound Hub) → Type 0 where
    here : {rounds : List (RecvRound Hub)} → Reaches rule' r' rule' (r' ∷ rounds)
    skipping :
        {rule : Rule Hub} {r : RecvRound Hub} {rounds : List (RecvRound Hub)}
        → recv_turn (derive_box vs) rule (answer rule r) ≡ skipped
        → Reaches rule' r' rule rounds
        → Reaches rule' r' rule (r ∷ rounds)
    rejoining :
        {rule next : Rule Hub} {r : RecvRound Hub} {rounds : List (RecvRound Hub)} {epoch : ℕ}
        → recv_turn (derive_box vs) rule (answer rule r) ≡ lost epoch
        → reconnect r.end r.joins epoch rule ≡ some (ok tt, next)
        → Reaches rule' r' next rounds
        → Reaches rule' r' rule (r ∷ rounds)

  abbrev pub Stumbles : Rule Hub → List (RecvRound Hub) → Type 0
  Stumbles rule rounds =
      (rule' : Rule Hub) × (r' : RecvRound Hub) × Reaches rule' r' rule rounds
      × (goes_wrong rule' r' ≡ true)

  abbrev Continues : List (RecvRound Hub) → Type 0
  Continues rounds =
      (next : Rule Hub)
      → IsOpen next
      → (recv (derive_box vs) next rounds).0 ≡ panicked
      → Stumbles next rounds
