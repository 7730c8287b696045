-- ===== src/Macos/Hub/Outcomes.antt =====
-- ipmb/src/platform/macos/mod.rs: how the loop of `IoHub::recv` may end.
use ipmb.Prelude.{
  ℕ, ◌+◌, ◌%◌, ◌^◌, ◌<◌, ◌≡◌, ◌⊎◌, inl, inr, refl, arith, Bool, true, false, ◌&&◌, Option, none,
  some, List, [], ◌∷◌, ltb, if◌then◌else◌, Bool-cases,
}
use ipmb.Errors.{Error}
use ipmb.Message.{Bytes}
use ipmb.Windows.Hub.{Step, panics, unfinished, continues}
use ipmb.Windows.Hub.Passes.{Safe}
use ipmb.Macos.Hub.{
  PipeStatus, readable, pending, offline, Pipe, Received, too_large, message, timed_out, port_died,
  other, Answer, trailer_size, first_capacity, after_answer, read_loop, read, IoHub, TryRecv,
  queued, empty, disconnected, Round, Outcome, from_bus, arrived, fails, is_overdue, after_wait,
  after_local, after_nothing, after_read, read_local, after_channel, turn, next_turn, recv_outcome,
}

-- Some element satisfies a predicate.
abbrev pub Exists : {A : Type 0} → (A → Type 0) → List A → Type 0
Exists P [] = ⊥
Exists P (x ∷ xs) = P x ⊎ Exists P xs

first_of :
    {A : Type 0} (P : A → Type 0) (x : A) (xs : List A) → Exists P (x ∷ []) → Exists P (x ∷ xs)
first_of P x xs (inl h) = inl h
first_of P x xs (inr h) = absurd h

-- A message that the port gave.
abbrev pub Gave : Bytes → List Answer → Type 0
Gave m = Exists (λ answer. (capacity : ℕ) × (answer capacity ≡ message m))

-- Why a result is right: a message came from the channel or from the port; a disconnect only where
-- both are gone; a timeout only where there is one, and it was over behind a wait without events.
abbrev pub Explained : Option ℕ → List Round → Outcome → IoHub → Type 0
Explained end rounds (from_bus msg) hub = Exists (λ (r : Round). r.received ≡ queued msg) rounds
Explained end rounds (arrived m) hub = Exists (λ (r : Round). Gave m r.answers) rounds
Explained end rounds (fails Error.disconnect) hub = (hub.bus_receiver ≡ false) × (hub.local ≡ none)
Explained end rounds (fails Error.timeout) hub =
    (e : ℕ) × (end ≡ some e) × Exists (λ (r : Round). (e < r.now) × (r.events ≡ [])) rounds
Explained end rounds (fails _) hub = ⊥

abbrev pub IsUnreadable : PipeStatus → Type 0
IsUnreadable readable = ⊥
IsUnreadable pending = Unit
IsUnreadable offline = Unit

-- What a read may give: a message of the port, or a pipe that is not readable.
abbrev pub ReadOk : List Answer → Option (Option Bytes × Pipe) → Type 0
ReadOk answers none = Unit
ReadOk answers (some (some m, pipe)) = Gave m answers
ReadOk answers (some (none, pipe)) = elim pipe.status [
  | readable ↦ ⊥
  | pending ↦ Unit {0}
  | offline ↦ Unit {0}
]

later_ReadOk :
    (answer : Answer) (answers : List Answer) (x : Option (Option Bytes × Pipe))
    → ReadOk answers x
    → ReadOk (answer ∷ answers) x
later_ReadOk answer answers none h = tt
later_ReadOk answer answers (some (some m, pipe)) h = inr h
later_ReadOk answer answers (some (none, pipe)) h = h

after_answer-ReadOk :
    (answer : Answer) (answers : List Answer) (capacity : ℕ) (pipe : Pipe)
    (again : ℕ → Option (Option Bytes × Pipe)) (x : Received)
    → answer capacity ≡ x
    → ((size : ℕ) → ReadOk answers (again size))
    → ReadOk (answer ∷ answers) (after_answer pipe again x)
after_answer-ReadOk answer answers capacity pipe again (too_large size) e h =
    later_ReadOk answer answers (again size) (h size)
after_answer-ReadOk answer answers capacity pipe again (message m) e h = inl (capacity, e)
after_answer-ReadOk answer answers capacity pipe again timed_out e h = tt
after_answer-ReadOk answer answers capacity pipe again port_died e h = tt
after_answer-ReadOk answer answers capacity pipe again other e h = tt

module _ (grow : ℕ → ℕ → ℕ) where
  read_loop-ReadOk :
      (capacity : ℕ) (answers : List Answer) (pipe : Pipe)
      → ReadOk answers (read_loop grow capacity answers pipe)
  unfolding read_loop
  read_loop-ReadOk capacity [] pipe = tt
  read_loop-ReadOk capacity (answer ∷ answers) pipe =
      after_answer-ReadOk answer answers (capacity % 2 ^ 32) pipe _ (answer (capacity % 2 ^ 32))
        refl (λ size. read_loop-ReadOk (grow capacity (size + trailer_size)) answers pipe)

  pub read-ReadOk :
      (answers : List Answer) (port : ℕ) (status : PipeStatus)
      → ReadOk answers (read grow answers (record { port = port; status = status }))
  unfolding read
  read-ReadOk answers port readable = read_loop-ReadOk first_capacity answers _
  read-ReadOk answers port pending = tt
  read-ReadOk answers port offline = tt

-- What a turn may give: a result that its round explains, or none yet.
abbrev TurnOk : Option ℕ → Round → Option Outcome × IoHub → Type 0
TurnOk end r (some o, hub) = Explained end (r ∷ []) o hub
TurnOk end r (none, hub) = Unit

module _ (end : Option ℕ) (r : Round) where
  after_wait-TurnOk :
      (hub : IoHub) (events : List ℕ)
      → r.events ≡ events
      → TurnOk end r (after_wait end r hub events)
  after_wait-TurnOk hub (event ∷ events) e = tt
  after_wait-TurnOk hub [] e = overdue end refl
    where
      overdue :
          (t : Option ℕ)
          → end ≡ t
          → TurnOk end r (if is_overdue t r.now then some (fails Error.timeout) else none, hub)
      overdue none p = tt
      overdue (some t) p = elim (Bool-cases (ltb t r.now)) [
        | inl q ↦ rw q (t, p, inl (ground arith, e))
        | inr q ↦ rw q tt
      ]

  after_local-TurnOk :
      (local : Option Pipe) (b : Bool)
      → TurnOk end r (after_local end r (record { local = local; bus_receiver = b }))
  after_local-TurnOk none false = (refl, refl)
  after_local-TurnOk none true = after_wait-TurnOk _ r.events refl
  after_local-TurnOk (some pipe) false = after_wait-TurnOk _ r.events refl
  after_local-TurnOk (some pipe) true = after_wait-TurnOk _ r.events refl

  after_nothing-Safe :
      (watches : Bool) (b : Bool) (local : Option Pipe) (pipe : Pipe) (status : PipeStatus)
      → IsUnreadable status
      → Safe
          (TurnOk end r)
          (after_nothing end watches r (record { local = local; bus_receiver = b }) pipe status)
  after_nothing-Safe watches b local pipe readable h = h
  after_nothing-Safe watches b local pipe pending h =
      after_local-TurnOk (if watches && r.dead then none else some pipe) b
  after_nothing-Safe watches b local pipe offline h = after_local-TurnOk none b

  after_read-Safe :
      (watches : Bool) (b : Bool) (local : Option Pipe) (x : Option (Option Bytes × Pipe))
      → ReadOk r.answers x
      → Safe
          (TurnOk end r)
          (after_read end watches r (record { local = local; bus_receiver = b }) x)
  after_read-Safe watches b local none h = tt
  after_read-Safe watches b local (some (some m, pipe)) h = inl h
  after_read-Safe watches b local (some (none, pipe)) h =
      after_nothing-Safe watches b local pipe pipe.status h

module _ (grow : ℕ → ℕ → ℕ) (end : Option ℕ) (watches : Bool) where
  read_local-Safe :
      (r : Round) (local : Option Pipe) (b : Bool)
      → Safe
          (TurnOk end r)
          (read_local grow end watches r (record { local = local; bus_receiver = b }))
  unfolding read_local
  read_local-Safe r none b = after_local-TurnOk end r none b
  read_local-Safe r (some pipe) b =
      after_read-Safe end r watches b (some pipe) (read grow r.answers pipe)
        (read-ReadOk grow r.answers pipe.port pipe.status)

  after_channel-Safe :
      (r : Round) (hub : IoHub) (go_on : Bool → Step (Option Outcome × IoHub)) (x : TryRecv)
      → r.received ≡ x
      → ((b : Bool) → Safe (TurnOk end r) (go_on b))
      → Safe (TurnOk end r) (after_channel hub go_on x)
  after_channel-Safe r hub go_on (queued msg) e h = inl e
  after_channel-Safe r hub go_on empty e h = h true
  after_channel-Safe r hub go_on disconnected e h = h false

  turn-Safe :
      (r : Round) (local : Option Pipe) (b : Bool)
      → Safe (TurnOk end r) (turn grow end watches r (record { local = local; bus_receiver = b }))
  unfolding turn
  turn-Safe r local true = after_channel-Safe r _ _ r.received refl (λ b. read_local-Safe r local b)
  turn-Safe r local false = read_local-Safe r local false

module _ (end : Option ℕ) where
  first_Explained :
      (r : Round) (rounds : List Round) (o : Outcome) (hub : IoHub)
      → Explained end (r ∷ []) o hub
      → Explained end (r ∷ rounds) o hub
  first_Explained r rounds (from_bus msg) hub h = first_of _ r rounds h
  first_Explained r rounds (arrived m) hub h = first_of _ r rounds h
  first_Explained r rounds (fails Error.disconnect) hub h = h
  first_Explained r rounds (fails Error.timeout) hub h = (h.0, h.1, first_of _ r rounds h.2)
  first_Explained r rounds (fails e) hub h = h

  later_Explained :
      (r : Round) (rounds : List Round) (o : Outcome) (hub : IoHub)
      → Explained end rounds o hub
      → Explained end (r ∷ rounds) o hub
  later_Explained r rounds (from_bus msg) hub h = inr h
  later_Explained r rounds (arrived m) hub h = inr h
  later_Explained r rounds (fails Error.disconnect) hub h = h
  later_Explained r rounds (fails Error.timeout) hub h = (h.0, h.1, inr h.2)
  later_Explained r rounds (fails e) hub h = h

next_turn-Safe :
    (end : Option ℕ) (r : Round) (rounds : List Round) (x : Step (Option Outcome × IoHub))
    (rest : IoHub → Step (Outcome × IoHub))
    → Safe (TurnOk end r) x
    → ((hub : IoHub) → Safe (λ (o : Outcome × IoHub). Explained end rounds o.0 o.1) (rest hub))
    → Safe (λ (o : Outcome × IoHub). Explained end (r ∷ rounds) o.0 o.1) (next_turn x rest)
next_turn-Safe end r rounds panics rest s h = s
next_turn-Safe end r rounds unfinished rest s h = tt
next_turn-Safe end r rounds (continues (some o, hub)) rest s h =
    first_Explained end r rounds o hub s
next_turn-Safe end r rounds (continues (none, hub)) rest s h = later (rest hub) (h hub)
  where
    later :
        (x : Step (Outcome × IoHub))
        → Safe (λ (o : Outcome × IoHub). Explained end rounds o.0 o.1) x
        → Safe (λ (o : Outcome × IoHub). Explained end (r ∷ rounds) o.0 o.1) x
    later panics k = k
    later unfinished k = k
    later (continues (o, hub')) k = later_Explained end r rounds o hub' k

-- The loop does not reach its `unreachable!()`, and its outcome is explained.
pub recv_outcome-IsExplained :
    (grow : ℕ → ℕ → ℕ) (end : Option ℕ) (watches : Bool) (rounds : List Round) (hub : IoHub)
    → Safe
        (λ (o : Outcome × IoHub). Explained end rounds o.0 o.1)
        (recv_outcome grow end watches rounds hub)
unfolding recv_outcome
recv_outcome-IsExplained grow end watches [] hub = tt
recv_outcome-IsExplained grow end watches (r ∷ rounds) hub =
    next_turn-Safe end r rounds (turn grow end watches r hub) _
      (turn-Safe grow end watches r hub.local hub.bus_receiver)
      (λ hub'. recv_outcome-IsExplained grow end watches rounds hub')
