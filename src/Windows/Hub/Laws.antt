-- ===== src/Windows/Hub/Laws.antt =====
-- ipmb/src/platform/windows/mod.rs: the statuses of the pipes of a hub, between its operations.
use ipmb.Prelude.{
  ℕ, suc, ◌≡◌, inl, inr, refl, arith, Bool, true, false, Option, none, some, List, [], ◌∷◌, length,
  ◌==◌, All-append, Bool-cases,
}
use ipmb.Message.{Bytes}
use ipmb.Linux.Hub.{TryRecv, message, empty, disconnected}
use ipmb.Windows.{NamedPipe, ReadStarted, Read}
use ipmb.Windows.Hub.{
  IoHub, Step, panics, unfinished, continues, Answer, hub_listen, read_pipes, Waited, Failure,
  accept, update_pipe, fail_read, fail_listen, on_key, Outcome, from_bus, after_wait, Round,
  after_reads, read_all, after_channel, turn, next_turn, recv, is_deserted,
}
use ipmb.Windows.Hub.Passes.{
  serves, AllServe, IsSound, Safe, Ends, listen_loop-IsSound, pending_serve, IsRead,
  read_pipes-IsRead,
}

abbrev hub_of : Bool → ℕ → List NamedPipe → Option NamedPipe → IoHub
hub_of b w ps l = record { bus_receiver = b; waker = w; pipes = ps; listening_pipe = l }

-- The loop over the pipes of a hub, none of them free, ends, without a panic: with a message that was read whole, or
-- with every pipe that is left pending.
pub read_pipes-ends :
    (hub : IoHub) (answer : ℕ → ReadStarted)
    → AllServe hub.pipes
    → Ends IsRead (read_pipes (suc (length hub.pipes)) answer 0 hub.pipes)
read_pipes-ends hub answer s =
    read_pipes-IsRead answer (suc (length hub.pipes)) [] hub.pipes tt s (omega arith)

AllServe-update_pipe :
    (key : ℕ) (f : NamedPipe → NamedPipe) (ps : List NamedPipe)
    → ((p : NamedPipe) → serves p ≡ true → serves (f p) ≡ true)
    → AllServe ps
    → AllServe (update_pipe key f ps)
AllServe-update_pipe key f [] h s = tt
AllServe-update_pipe key f (p ∷ ps) h s = elim (Bool-cases (p.handle == key)) [
  | inl e ↦ rw e (h p s.0, s.1)
  | inr e ↦ rw e (s.0, AllServe-update_pipe key f ps h s.1)
]

accept-IsSound :
    (hub : IoHub) (p : NamedPipe) (handle : ℕ) → IsSound hub → IsSound (accept hub p handle)
accept-IsSound hub p handle s =
    (All-append (λ (x : NamedPipe). serves x ≡ true) hub.pipes _ s.0 (refl, tt), refl)

fail_listen-IsSound :
    (hub : IoHub) (p : NamedPipe) (handle : ℕ) (e : Failure)
    → IsSound hub
    → IsSound (fail_listen hub p handle e)
fail_listen-IsSound hub p handle Failure.pipe_connected s = accept-IsSound hub p handle s
fail_listen-IsSound hub p handle Failure.pipe_listening s = s
fail_listen-IsSound hub p handle Failure.io_pending s = s
fail_listen-IsSound hub p handle Failure.io_incomplete s = (s.0, refl)
fail_listen-IsSound hub p handle Failure.more_data s = (s.0, refl)
fail_listen-IsSound hub p handle Failure.other s = (s.0, refl)

fail_read-serves :
    (grow : Bytes → Bytes) (e : Failure) (bytes : Bytes) (p : NamedPipe)
    → serves p ≡ true
    → serves (fail_read grow e bytes p) ≡ true
fail_read-serves grow Failure.pipe_connected bytes p s = refl
fail_read-serves grow Failure.pipe_listening bytes p s = refl
fail_read-serves grow Failure.io_pending bytes p s = s
fail_read-serves grow Failure.io_incomplete bytes p s = s
fail_read-serves grow Failure.more_data bytes p s = refl
fail_read-serves grow Failure.other bytes p s = refl

on_key-IsSound :
    (b : Bool) (w : ℕ) (ps : List NamedPipe) (l : Option NamedPipe) (key : ℕ)
    (f : NamedPipe → IoHub) (g : NamedPipe → NamedPipe)
    → ((p : NamedPipe) → serves p ≡ true → serves (g p) ≡ true)
    → ((p : NamedPipe) → l ≡ some p → IsSound (f p))
    → IsSound (hub_of b w ps l)
    → IsSound (on_key (hub_of b w ps l) key f g)
on_key-IsSound b w ps none key f g hg hf s = elim (Bool-cases (key == w)) [
  | inl e ↦ rw e s
  | inr e ↦ rw e (AllServe-update_pipe key g ps hg s.0, tt)
]
on_key-IsSound b w ps (some p) key f g hg hf s = elim (Bool-cases (key == w)) [
  | inl e ↦ rw e s
  | inr e ↦ elim (Bool-cases (p.handle == key)) [
    | inl d ↦ rw (e, d) (hf p refl)
    | inr d ↦ rw (e, d) (AllServe-update_pipe key g ps hg s.0, s.1)
  ]
]

module _ (grow : Bytes → Bytes) where
  after_wait-IsSound :
      (handle : ℕ) (w : Waited) (hub : IoHub)
      → IsSound hub
      → IsSound (after_wait grow handle w hub).1
  unfolding after_wait
  after_wait-IsSound handle Waited.timed_out hub s = s
  after_wait-IsSound handle Waited.abandoned hub s = s
  after_wait-IsSound handle (Waited.completed key bytes) hub s =
      on_key-IsSound hub.bus_receiver hub.waker hub.pipes hub.listening_pipe key _ _ (λ p e. refl)
        (λ p e. accept-IsSound hub p handle s) s
  after_wait-IsSound handle (Waited.failed key e bytes) hub s =
      on_key-IsSound hub.bus_receiver hub.waker hub.pipes hub.listening_pipe key _ _
        (fail_read-serves grow e bytes) (λ p q. fail_listen-IsSound hub p handle e s) s

  -- What a turn leaves.
  abbrev TurnIsSound : Option Outcome × IoHub → Type 0
  TurnIsSound t = IsSound t.1

  after_reads-IsSound :
      (r : Round) (hub : IoHub) (x : Step (Option Read × List NamedPipe))
      → IsSound hub
      → Ends IsRead x
      → Ends TurnIsSound (after_reads grow r hub x)
  after_reads-IsSound r hub panics s e = e
  after_reads-IsSound r hub unfinished s e = e
  after_reads-IsSound r hub (continues (some msg, ps)) s e = (e, s.1)
  after_reads-IsSound r hub (continues (none, ps)) s e =
      elim (Bool-cases (is_deserted (record hub { pipes = ps }))) [
        | inl d ↦ rw d (pending_serve ps e, s.1)
        | inr d ↦ rw d (after_wait-IsSound r.fresh r.waited _ (pending_serve ps e, s.1))
      ]

  read_all-Ends : (r : Round) (hub : IoHub) → IsSound hub → Ends TurnIsSound (read_all grow r hub)
  read_all-Ends r hub s = after_reads-IsSound r hub _ s (read_pipes-ends hub r.reads s.0)

  Ends-Safe : {A : Type 0} (P : A → Type 0) (x : Step A) → Ends P x → Safe P x
  Ends-Safe P panics e = e
  Ends-Safe P unfinished e = tt
  Ends-Safe P (continues a) e = e

  channel-Safe :
      (r : Round) (hub : IoHub)
      → IsSound hub
      → (t : TryRecv)
      → Safe TurnIsSound (elim t [
        | message msg ↦ continues (some (from_bus msg), hub)
        | empty ↦ read_all grow r hub
        | disconnected ↦ read_all grow r (record hub { bus_receiver = false })
      ])
  channel-Safe r hub s (message msg) = s
  channel-Safe r hub s empty = Ends-Safe TurnIsSound _ (read_all-Ends r hub s)
  channel-Safe r hub s disconnected =
      Ends-Safe TurnIsSound _ (read_all-Ends r (record hub { bus_receiver = false }) s)

  by_flag :
      (r : Round) (b : Bool) (w : ℕ) (ps : List NamedPipe) (l : Option NamedPipe)
      → IsSound (hub_of b w ps l)
      → Safe TurnIsSound (after_channel grow r (continues (hub_of b w ps l)))
  by_flag r true w ps l s = channel-Safe r (hub_of true w ps l) s r.received
  by_flag r false w ps l s =
      Ends-Safe TurnIsSound (read_all grow r (hub_of false w ps l))
        (read_all-Ends r (hub_of false w ps l) s)

  after_channel-IsSound :
      (r : Round) (x : Step IoHub) → Safe IsSound x → Safe TurnIsSound (after_channel grow r x)
  after_channel-IsSound r panics s = s
  after_channel-IsSound r unfinished s = tt
  after_channel-IsSound r (continues hub) s =
      by_flag r hub.bus_receiver hub.waker hub.pipes hub.listening_pipe s

  hub_listen-IsSound :
      (answers : List Answer) (b : Bool) (w : ℕ) (ps : List NamedPipe) (l : Option NamedPipe)
      → IsSound (hub_of b w ps l)
      → Safe IsSound (hub_listen answers (hub_of b w ps l))
  unfolding hub_listen
  hub_listen-IsSound answers b w ps none s = s
  hub_listen-IsSound answers b w ps (some p) s =
      listen_loop-IsSound answers _ p.handle p.status p.buffer p.capacity p.message_size s.0 s.1

  turn-IsSound : (r : Round) (hub : IoHub) → IsSound hub → Safe TurnIsSound (turn grow r hub)
  unfolding turn
  turn-IsSound r hub s =
      after_channel-IsSound r _
        (hub_listen-IsSound r.answers hub.bus_receiver hub.waker hub.pipes hub.listening_pipe s)

  next_turn-IsSound :
      (x : Step (Option Outcome × IoHub)) (rest : IoHub → Step (Outcome × IoHub))
      → Safe TurnIsSound x
      → ((hub : IoHub) → IsSound hub → Safe (λ (o : Outcome × IoHub). IsSound o.1) (rest hub))
      → Safe (λ (o : Outcome × IoHub). IsSound o.1) (next_turn x rest)
  next_turn-IsSound panics rest s h = s
  next_turn-IsSound unfinished rest s h = tt
  next_turn-IsSound (continues (some o, hub)) rest s h = s
  next_turn-IsSound (continues (none, hub)) rest s h = h hub s

-- From a hub whose listening pipe is free, pending or offline and whose other pipes are not free, `recv`
-- reaches none of its `unreachable!()`, whatever the system answers, and when it returns, the hub is
-- such a hub again.
pub recv-IsSound :
    (grow : Bytes → Bytes) (rounds : List Round) (hub : IoHub)
    → IsSound hub
    → Safe (λ (o : Outcome × IoHub). IsSound o.1) (recv grow rounds hub)
unfolding recv
recv-IsSound grow [] hub s = tt
recv-IsSound grow (r ∷ rounds) hub s =
    next_turn-IsSound grow (turn grow r hub) _ (turn-IsSound grow r hub s)
      (λ hub' s'. recv-IsSound grow rounds hub' s')
