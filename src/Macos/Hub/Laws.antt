-- ===== src/Macos/Hub/Laws.antt =====
-- ipmb/src/platform/macos/mod.rs: what `IoHub::recv` may return.
use ipmb.Prelude.{ℕ, ◌≡◌, ◌⊎◌, inl, inr, refl, Bool, Option, none, some, List}
use ipmb.Errors.{ok, err}
use ipmb.Region.{Headers}
use ipmb.Message.{Bytes, Selector, Codec}
use ipmb.Windows.Hub.{Step, panics, unfinished, continues}
use ipmb.Windows.Hub.Passes.{Safe}
use ipmb.Macos.Wire.{Parsed, new_encoded}
use ipmb.Macos.Hub.{
  IoHub, queued, Round, Outcome, from_bus, arrived, fails, recv_outcome, recv, Returned, with_new,
  concluded,
}
use ipmb.Macos.Hub.Outcomes.{Exists, Gave, Explained, recv_outcome-IsExplained}

-- A message of the port, in one of the rounds, of which `EncodedMessage::new` makes this.
abbrev pub Made : Codec Selector → (ℕ → ℕ) → Headers → List Round → Parsed → Type 0
Made selectors target h rounds parsed =
    (m : Bytes) × Exists (λ (r : Round). Gave m r.answers) rounds
    × (new_encoded selectors target h m ≡ parsed)

-- Why what `recv` returns is right: a message came from the channel, or is what `EncodedMessage::new`
-- makes of one of the port; an error is what it makes of one, or a disconnect where channel and port
-- are gone, or a timeout that was over behind a wait without events. A panic is one of it.
abbrev pub Justified :
    Codec Selector → (ℕ → ℕ) → Headers → Option ℕ → List Round → Returned → Type 0
Justified selectors target h end rounds (ok msg, h', hub) =
    Exists (λ (r : Round). r.received ≡ queued msg) rounds
    ⊎ Made selectors target h rounds (some (ok msg, h'))
Justified selectors target h end rounds (err e, h', hub) =
    Explained end rounds (fails e) hub ⊎ Made selectors target h rounds (some (err e, h'))

module _ (selectors : Codec Selector) (target : ℕ → ℕ) (h : Headers) (end : Option ℕ)
    (rounds : List Round) where
  -- What a call comes to.
  abbrev pub IsJustified : Step Returned → Type 0
  IsJustified panics = Made selectors target h rounds none
  IsJustified unfinished = Unit
  IsJustified (continues r) = Justified selectors target h end rounds r

  with_new-IsJustified :
      (m : Bytes) (hub : IoHub) (parsed : Parsed)
      → Exists (λ (r : Round). Gave m r.answers) rounds
      → new_encoded selectors target h m ≡ parsed
      → IsJustified (with_new hub parsed)
  with_new-IsJustified m hub none g e = (m, g, e)
  with_new-IsJustified m hub (some (ok msg, h')) g e = inr (m, g, e)
  with_new-IsJustified m hub (some (err x, h')) g e = inr (m, g, e)

  concluded-IsJustified :
      (x : Step (Outcome × IoHub))
      → Safe (λ (o : Outcome × IoHub). Explained end rounds o.0 o.1) x
      → IsJustified (concluded selectors target h x)
  concluded-IsJustified panics s = absurd s
  concluded-IsJustified unfinished s = tt
  concluded-IsJustified (continues (from_bus msg, hub)) s = inl s
  concluded-IsJustified (continues (arrived m, hub)) s =
      with_new-IsJustified m hub (new_encoded selectors target h m) s refl
  concluded-IsJustified (continues (fails e, hub)) s = inl s

  pub recv-IsExplained :
      (grow : ℕ → ℕ → ℕ) (watches : Bool) (hub : IoHub)
      → IsJustified (recv selectors target h grow end watches rounds hub)
  unfolding recv
  recv-IsExplained grow watches hub =
      concluded-IsJustified (recv_outcome grow end watches rounds hub)
        (recv_outcome-IsExplained grow end watches rounds hub)
