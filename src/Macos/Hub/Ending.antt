-- ===== src/Macos/Hub/Ending.antt =====
-- ipmb/src/platform/macos/mod.rs: when `IoHub::recv` returns.
use ipmb.Prelude.{ℕ, Bool, Option, none, some, List, [], ◌∷◌, ◌++◌, All}
use ipmb.Region.{Headers}
use ipmb.Message.{Selector, Codec}
use ipmb.Windows.Hub.{Step, panics, unfinished, continues}
use ipmb.Windows.Hub.Passes.{Ends}
use ipmb.Macos.Wire.{Parsed, new_encoded}
use ipmb.Macos.Hub.{
  IoHub, Round, Outcome, recv_outcome, recv, Returned, with_new, concluded, from_bus, arrived,
  fails,
}
use ipmb.Macos.Hub.Laws.{Made, Justified, IsJustified, recv-IsExplained}
use ipmb.Macos.Hub.Returning.{Answered, IsLast, recv_outcome-Returns}

-- A call that returns, or panics in `EncodedMessage::new`, and why.
abbrev pub Settles :
    Codec Selector → (ℕ → ℕ) → Headers → Option ℕ → List Round → Step Returned → Type 0
Settles selectors target h end rounds panics = Made selectors target h rounds none
Settles selectors target h end rounds unfinished = ⊥
Settles selectors target h end rounds (continues r) = Justified selectors target h end rounds r

module _ (selectors : Codec Selector) (target : ℕ → ℕ) (h : Headers) (end : Option ℕ)
    (rounds : List Round) where
  with_new-Settles :
      (hub : IoHub) (parsed : Parsed)
      → IsJustified selectors target h end rounds (with_new hub parsed)
      → Settles selectors target h end rounds (with_new hub parsed)
  with_new-Settles hub none j = j
  with_new-Settles hub (some (r, h')) j = j

  concluded-Settles :
      (x : Step (Outcome × IoHub))
      → Ends (λ (o : Outcome × IoHub). Unit {0}) x
      → IsJustified selectors target h end rounds (concluded selectors target h x)
      → Settles selectors target h end rounds (concluded selectors target h x)
  concluded-Settles panics e j = absurd e
  concluded-Settles unfinished e j = absurd e
  concluded-Settles (continues (from_bus msg, hub)) e j = j
  concluded-Settles (continues (arrived m, hub)) e j =
      with_new-Settles hub (new_encoded selectors target h m) j
  concluded-Settles (continues (fails x, hub)) e j = j

-- Where the kernel answers each read with something else than that the message is too large, in the
-- end: `recv` does not go on behind the first round whose timeout is over behind a wait without events,
-- or in which the remote that an endpoint watches is dead. It returns what the channel gave, what
-- `EncodedMessage::new` makes of a message of the port, be it a message or an error, a justified
-- disconnect or a justified timeout; or `EncodedMessage::new` panics on a message of the port.
pub recv-ends :
    (selectors : Codec Selector) (target : ℕ → ℕ) (h : Headers) (grow : ℕ → ℕ → ℕ) (end : Option ℕ)
    (watches : Bool) (before : List Round) (r : Round) (hub : IoHub)
    → All (λ (x : Round). Answered x.answers) before
    → Answered r.answers
    → IsLast end watches hub.bus_receiver r
    → Settles selectors target h end
        (before ++ r ∷ [])
        (recv selectors target h grow end watches (before ++ r ∷ []) hub)
unfolding recv
recv-ends selectors target h grow end watches before r hub answered a l =
    concluded-Settles selectors target h end (before ++ r ∷ [])
      (recv_outcome grow end watches (before ++ r ∷ []) hub)
      (recv_outcome-Returns grow end watches before r [] hub answered a l)
      (recv-IsExplained selectors target h end (before ++ r ∷ []) grow watches hub)
