-- ===== src/Macos/Hub/Returning.antt =====
-- ipmb/src/platform/macos/mod.rs: when the loop of `IoHub::recv` ends.
use ipmb.Prelude.{
  ℕ, ◌+◌, ◌%◌, ◌^◌, ◌<◌, ◌≡◌, ◌⊎◌, inl, inr, refl, arith, Bool, true, false, not, ◌&&◌, Option,
  none, some, List, [], ◌∷◌, ◌++◌, All, ltb, if◌then◌else◌, Bool-cases,
}
use ipmb.Message.{Bytes}
use ipmb.Windows.Hub.{Step, panics, unfinished, continues, is_none}
use ipmb.Windows.Hub.Passes.{Ends}
use ipmb.Macos.Hub.{
  PipeStatus, readable, pending, offline, Pipe, Received, too_large, message, timed_out, port_died,
  other, Answer, trailer_size, first_capacity, after_answer, read_loop, read, IoHub, TryRecv,
  queued, empty, disconnected, Round, Outcome, after_wait, after_local, after_nothing, after_read,
  read_local, after_channel, turn, next_turn, recv_outcome, is_overdue,
}
use ipmb.Macos.Hub.Outcomes.{IsUnreadable, ReadOk, read-ReadOk}

-- One of the answers is not that the message is too large, whatever the capacity.
abbrev pub IsAnswer : Received → Type 0
IsAnswer (too_large size) = ⊥
IsAnswer _ = Unit

abbrev pub Answered : List Answer → Type 0
Answered [] = ⊥
Answered (answer ∷ answers) = ((capacity : ℕ) → IsAnswer (answer capacity)) ⊎ Answered answers

abbrev IsThere : Option (Option Bytes × Pipe) → Type 0
IsThere none = ⊥
IsThere (some x) = Unit

after_answer-IsThere :
    (pipe : Pipe) (again : ℕ → Option (Option Bytes × Pipe)) (x : Received)
    → IsAnswer x ⊎ ((size : ℕ) → IsThere (again size))
    → IsThere (after_answer pipe again x)
after_answer-IsThere pipe again (too_large size) (inl h) = absurd h
after_answer-IsThere pipe again (too_large size) (inr h) = h size
after_answer-IsThere pipe again (message m) h = tt
after_answer-IsThere pipe again timed_out h = tt
after_answer-IsThere pipe again port_died h = tt
after_answer-IsThere pipe again other h = tt

module _ (grow : ℕ → ℕ → ℕ) where
  read_loop-IsThere :
      (capacity : ℕ) (answers : List Answer) (pipe : Pipe)
      → Answered answers
      → IsThere (read_loop grow capacity answers pipe)
  unfolding read_loop
  read_loop-IsThere capacity [] pipe h = h
  read_loop-IsThere capacity (answer ∷ answers) pipe (inl h) =
      after_answer-IsThere pipe _ (answer (capacity % 2 ^ 32)) (inl (h (capacity % 2 ^ 32)))
  read_loop-IsThere capacity (answer ∷ answers) pipe (inr h) =
      after_answer-IsThere pipe _ (answer (capacity % 2 ^ 32))
        (inr (λ size. read_loop-IsThere (grow capacity (size + trailer_size)) answers pipe h))

  read-IsThere :
      (answers : List Answer) (port : ℕ) (status : PipeStatus)
      → Answered answers
      → IsThere (read grow answers (record { port = port; status = status }))
  unfolding read
  read-IsThere answers port readable h = read_loop-IsThere first_capacity answers _ h
  read-IsThere answers port pending h = tt
  read-IsThere answers port offline h = tt

-- A turn ends with a predicate, if a result has it, and if what follows the read has it: there the port
-- is gone where a remote that is watched is dead.
module _ (end : Option ℕ) (watches : Bool) (r : Round) (Q : Option Outcome × IoHub → Type 0)
    (of_result : (o : Outcome) (hub : IoHub) → Q (some o, hub)) where
  abbrev hub_of : Option Pipe → Bool → IoHub
  hub_of local b = record { local = local; bus_receiver = b }

  -- What follows the read, with the channel there or not.
  abbrev Follows : Bool → Type 0
  Follows b =
      (local : Option Pipe)
      → ((watches && r.dead) ≡ true → local ≡ none)
      → Q (after_local end r (hub_of local b))

  after_nothing-Ends :
      (local : Option Pipe) (b : Bool) (pipe : Pipe) (status : PipeStatus)
      → IsUnreadable status
      → Follows b
      → Ends Q (after_nothing end watches r (hub_of local b) pipe status)
  after_nothing-Ends local b pipe readable u f = u
  after_nothing-Ends local b pipe pending u f =
      f (if watches && r.dead then none else some pipe) (λ e. rw e)
  after_nothing-Ends local b pipe offline u f = f none (λ e. refl)

  after_read-Ends :
      (local : Option Pipe) (b : Bool) (x : Option (Option Bytes × Pipe))
      → IsThere x
      → ReadOk r.answers x
      → Follows b
      → Ends Q (after_read end watches r (hub_of local b) x)
  after_read-Ends local b none t u f = t
  after_read-Ends local b (some (some m, pipe)) t u f = of_result _ _
  after_read-Ends local b (some (none, pipe)) t u f =
      after_nothing-Ends local b pipe pipe.status u f

  module _ (grow : ℕ → ℕ → ℕ) (answered : Answered r.answers) where
    read_local-Ends :
        (local : Option Pipe) (b : Bool)
        → Follows b
        → Ends Q (read_local grow end watches r (hub_of local b))
    unfolding read_local
    read_local-Ends none b f = f none (λ e. refl)
    read_local-Ends (some pipe) b f =
        after_read-Ends (some pipe) b (read grow r.answers pipe)
          (read-IsThere grow r.answers pipe.port pipe.status answered)
          (read-ReadOk grow r.answers pipe.port pipe.status) f

    after_channel-Ends :
        (hub : IoHub) (go_on : Bool → Step (Option Outcome × IoHub)) (x : TryRecv)
        → ((b : Bool) → Ends Q (go_on b))
        → Ends Q (after_channel hub go_on x)
    after_channel-Ends hub go_on (queued msg) h = of_result _ _
    after_channel-Ends hub go_on empty h = h true
    after_channel-Ends hub go_on disconnected h = h false

    turn-Ends :
        (local : Option Pipe) (b : Bool)
        → ((b' : Bool) → (b ≡ false → b' ≡ false) → Follows b')
        → Ends Q (turn grow end watches r (hub_of local b))
    unfolding turn
    turn-Ends local true f =
        after_channel-Ends _ _ r.received (λ b'. read_local-Ends local b' (f b' (λ e. cc)))
    turn-Ends local false f = read_local-Ends local false (f false (λ e. refl))

-- The last round of a `recv`: its timeout is over behind a wait without events, or the remote that an
-- endpoint watches is dead.
abbrev pub IsLast : Option ℕ → Bool → Bool → Round → Type 0
IsLast end watches bus_receiver r =
    ((t : ℕ) × (end ≡ some t) × (t < r.now) × (r.events ≡ []))
    ⊎ ((bus_receiver ≡ false) × (watches ≡ true) × (r.dead ≡ true))

abbrev IsOver : Option Outcome × IoHub → Type 0
IsOver (some o, hub) = Unit
IsOver (none, hub) = ⊥

after_wait-IsOver :
    (end : Option ℕ) (r : Round) (t : ℕ) (hub : IoHub)
    → end ≡ some t
    → t < r.now
    → r.events ≡ []
    → IsOver (after_wait end r hub r.events)
after_wait-IsOver end r t hub e late quiet =
    let over : ltb t r.now ≡ true = ground arith in rw (quiet, e, over) tt

after_local-IsOver :
    (end : Option ℕ) (watches : Bool) (r : Round) (b b' : Bool)
    → IsLast end watches b r
    → (b ≡ false → b' ≡ false)
    → (local : Option Pipe) → ((watches && r.dead) ≡ true → local ≡ none)
    → IsOver (after_local end r (record { local = local; bus_receiver = b' }))
after_local-IsOver end watches r b b' (inl (t, e, late, quiet)) k local g =
    elim (Bool-cases (not b' && is_none local)) [
      | inl q ↦ rw q tt
      | inr q ↦ rw q (after_wait-IsOver end r t _ e late quiet)
    ]
after_local-IsOver end watches r b b' (inr (gone, w, d)) k local g =
    rw (k gone, g (rw (w, d) refl)) tt

-- A turn that gives no result does not bring the channel back.
abbrev StaysGone : Bool → Option Outcome × IoHub → Type 0
StaysGone b (some o, hub) = Unit
StaysGone b (none, hub) = b ≡ false → hub.bus_receiver ≡ false

overdue-StaysGone :
    (b : Bool) (q : Bool) (o : Outcome) (hub : IoHub)
    → (b ≡ false → hub.bus_receiver ≡ false)
    → StaysGone b (if q then some o else none, hub)
overdue-StaysGone b true o hub k = tt
overdue-StaysGone b false o hub k = k

after_wait-StaysGone :
    (end : Option ℕ) (r : Round) (b : Bool) (hub : IoHub) (events : List ℕ)
    → (b ≡ false → hub.bus_receiver ≡ false)
    → StaysGone b (after_wait end r hub events)
after_wait-StaysGone end r b hub [] k = overdue-StaysGone b (is_overdue end r.now) _ hub k
after_wait-StaysGone end r b hub (event ∷ events) k = k

after_local-StaysGone :
    (end : Option ℕ) (r : Round) (b b' : Bool) (local : Option Pipe)
    → (b ≡ false → b' ≡ false)
    → StaysGone b (after_local end r (record { local = local; bus_receiver = b' }))
after_local-StaysGone end r b b' local k = elim (Bool-cases (not b' && is_none local)) [
  | inl q ↦ rw q tt
  | inr q ↦ rw q (after_wait-StaysGone end r b _ r.events k)
]

module _ (grow : ℕ → ℕ → ℕ) (end : Option ℕ) (watches : Bool) where
  -- What the loop comes to: a result.
  abbrev Returns : Step (Outcome × IoHub) → Type 0
  Returns = Ends (λ (o : Outcome × IoHub). Unit {0})

  last_turn :
      (r : Round) (x : Step (Option Outcome × IoHub)) (rest : IoHub → Step (Outcome × IoHub))
      → Ends IsOver x
      → Returns (next_turn x rest)
  last_turn r panics rest h = h
  last_turn r unfinished rest h = h
  last_turn r (continues (some o, hub)) rest h = tt
  last_turn r (continues (none, hub)) rest h = absurd h

  early_turn :
      (b : Bool) (x : Step (Option Outcome × IoHub)) (rest : IoHub → Step (Outcome × IoHub))
      → Ends (StaysGone b) x
      → ((hub : IoHub) → (b ≡ false → hub.bus_receiver ≡ false) → Returns (rest hub))
      → Returns (next_turn x rest)
  early_turn b panics rest h k = h
  early_turn b unfinished rest h k = h
  early_turn b (continues (some o, hub)) rest h k = tt
  early_turn b (continues (none, hub)) rest h k = k hub h

  IsLast-later :
      (r : Round) (b b' : Bool)
      → (b ≡ false → b' ≡ false)
      → IsLast end watches b r
      → IsLast end watches b' r
  IsLast-later r b b' k (inl h) = inl h
  IsLast-later r b b' k (inr (gone, w, d)) = inr (k gone, w, d)

  pub recv_outcome-Returns :
      (before : List Round) (r : Round) (after : List Round) (hub : IoHub)
      → All (λ (x : Round). Answered x.answers) before
      → Answered r.answers
      → IsLast end watches hub.bus_receiver r
      → Returns (recv_outcome grow end watches (before ++ r ∷ after) hub)
  unfolding recv_outcome
  recv_outcome-Returns [] r after hub answered a l = last_turn r (turn grow end watches r hub) _ (
      turn-Ends end watches r IsOver (λ o h. tt) grow a hub.local hub.bus_receiver
        (λ b' k. after_local-IsOver end watches r hub.bus_receiver b' l k))
  recv_outcome-Returns (x ∷ before) r after hub answered a l =
      early_turn hub.bus_receiver (turn grow end watches x hub) _
        (turn-Ends end watches x (StaysGone hub.bus_receiver) (λ o h. tt) grow answered.0 hub.local
          hub.bus_receiver
          (λ b' k local g. after_local-StaysGone end x hub.bus_receiver b' local k))
        (λ hub' k.
          recv_outcome-Returns before r after hub' answered.1 a
            (IsLast-later r hub.bus_receiver hub'.bus_receiver k l))
