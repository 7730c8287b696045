-- ===== src/Endpoint/Session/Reconnect.antt =====
-- ipmb/src/lib.rs: one reconnection serves all threads, and a closed reader stays closed.
use ipmb.Prelude.{
  ℕ, ◌^◌, ◌<◌, ◌≡◌, subst, refl, Bool, true, false, Option, none, some, List, [], arith, ◌==◌,
  ==_iff, inl, inr, Bool-cases,
}
use ipmb.Errors.{JoinError, Result, ok, err}
use ipmb.Message.{EncodedMessage}
use ipmb.Endpoint.{Client, Rule, client, server, reader_close}
use ipmb.Endpoint.Join.{Round, fresh, join}
use ipmb.Endpoint.Join.Outcome.{IsJoined, join-IsJoined}
use ipmb.Endpoint.Session.{next_epoch, reclosed, rejoined, reconnect}

module _ {Hub : Type 0} where
  -- The rule is not a client of this epoch.
  abbrev pub HasLeft : ℕ → Rule Hub → Type 0
  HasLeft epoch (client c) = (epoch == c.epoch) ≡ false
  HasLeft epoch (server s) = Unit

  HasLeft-reclosed :
      (epoch : ℕ) (closed : Bool) (rule : Rule Hub)
      → HasLeft epoch rule
      → HasLeft epoch (reclosed closed rule)
  unfolding reader_close
  HasLeft-reclosed epoch closed (client c) h = ground arith
  HasLeft-reclosed epoch closed (server s) h = ground arith

  reconnect_left :
      (end : Option ℕ) (rounds : List (Round Hub)) (epoch : ℕ) (rule : Rule Hub)
      → HasLeft epoch rule
      → reconnect end rounds epoch rule ≡ some (ok tt, rule)
  unfolding reconnect
  reconnect_left end rounds epoch (client c) h = ground arith
  reconnect_left end rounds epoch (server s) h = refl

  HasLeft-joined :
      (epoch : ℕ) (c : Client Hub) (rule : Rule Hub)
      → epoch < 2 ^ 32
      → IsJoined c.options (next_epoch epoch) rule
      → HasLeft epoch rule
  HasLeft-joined epoch c (client d) b j = ground (arith, ==_iff epoch d.epoch)
  HasLeft-joined epoch c (server s) b j = tt

  rejoined_left :
      (epoch : ℕ) (c : Client Hub) (o : Option (Result (Rule Hub) JoinError)) (rule : Rule Hub)
      → ((r : Rule Hub) → o ≡ some (ok r) → HasLeft epoch r)
      → rejoined c o ≡ some (ok tt, rule)
      → HasLeft epoch rule
  rejoined_left epoch c none rule h e = absurd (ground arith)
  rejoined_left epoch c (some (err f)) rule h e = absurd (ground arith)
  rejoined_left epoch c (some (ok r)) rule h e =
      let q : reclosed c.reader_closed r ≡ rule = ground arith in
      subst (HasLeft epoch) q (HasLeft-reclosed epoch c.reader_closed r (h r refl))

  reconnect_leaves :
      (end : Option ℕ) (rounds : List (Round Hub)) (epoch : ℕ) (rule rule' : Rule Hub)
      → epoch < 2 ^ 32
      → reconnect end rounds epoch rule ≡ some (ok tt, rule')
      → HasLeft epoch rule'
  unfolding reconnect
  reconnect_leaves end rounds epoch (server s) rule' b e =
      let q : server s ≡ rule' = ground arith in subst (HasLeft epoch) q tt
  reconnect_leaves end rounds epoch (client c) rule' b e = elim (Bool-cases (epoch == c.epoch)) [
    | inl same ↦
        rejoined_left epoch c (join c.options (next_epoch epoch) end fresh rounds).result rule'
          (λ r j.
            HasLeft-joined epoch c r b (join-IsJoined c.options (next_epoch epoch) end rounds r j))
          (ground arith)
    | inr other ↦ let q : client c ≡ rule' = ground arith in subst (HasLeft epoch) q other
  ]

  -- After a thread has reconnected for an epoch, which fits 32 bits, the step of any other thread that
  -- lost the connection of that epoch succeeds at once and changes nothing.
  pub reconnect-once :
      (end end' : Option ℕ) (rounds rounds' : List (Round Hub)) (epoch : ℕ) (rule rule' : Rule Hub)
      → epoch < 2 ^ 32
      → reconnect end rounds epoch rule ≡ some (ok tt, rule')
      → reconnect end' rounds' epoch rule' ≡ some (ok tt, rule')
  reconnect-once end end' rounds rounds' epoch rule rule' b e =
      reconnect_left end' rounds' epoch rule' (reconnect_leaves end rounds epoch rule rule' b e)

  -- The receiver was dropped.
  abbrev pub IsClosed : Rule Hub → Type 0
  IsClosed (client c) = (c.reader_closed ≡ true) × (c.io_hub ≡ none)
  IsClosed (server s) = s.receiver ≡ none

  -- The receiver is there, and a client's hub is there or will be joined for.
  abbrev pub IsOpen : Rule Hub → Type 0
  IsOpen (client c) = c.reader_closed ≡ false
  IsOpen (server s) = (q : List EncodedMessage) × (s.receiver ≡ some q)

  pub reader_close-IsClosed : (rule : Rule Hub) → IsClosed (reader_close rule)
  unfolding reader_close
  reader_close-IsClosed (client c) = (refl, refl)
  reader_close-IsClosed (server s) = refl

  rejoined-IsClosed :
      (c : Client Hub) (o : Option (Result (Rule Hub) JoinError)) (r : Result (Unit {0}) JoinError)
      (rule : Rule Hub)
      → c.reader_closed ≡ true
      → rejoined c o ≡ some (r, rule)
      → IsClosed rule
  rejoined-IsClosed c none r rule h e = absurd (ground arith)
  rejoined-IsClosed c (some (err f)) r rule h e =
      let q : client (record c { io_hub = none }) ≡ rule = ground arith in
      subst IsClosed q (h, refl)
  rejoined-IsClosed c (some (ok d)) r rule h e =
      let q : reader_close d ≡ rule = ground arith in subst IsClosed q (reader_close-IsClosed d)

  -- A reader that was closed is closed behind every reconnection, whether the join succeeded or not.
  pub reconnect-IsClosed :
      (end : Option ℕ) (rounds : List (Round Hub)) (epoch : ℕ) (rule rule' : Rule Hub)
      (r : Result (Unit {0}) JoinError)
      → IsClosed rule
      → reconnect end rounds epoch rule ≡ some (r, rule')
      → IsClosed rule'
  unfolding reconnect
  reconnect-IsClosed end rounds epoch (server s) rule' r h e =
      let q : server s ≡ rule' = ground arith in subst IsClosed q h
  reconnect-IsClosed end rounds epoch (client c) rule' r h e =
      elim (Bool-cases (epoch == c.epoch)) [
        | inl same ↦
            rejoined-IsClosed c (join c.options (next_epoch epoch) end fresh rounds).result r rule'
              h.0 (ground arith)
        | inr other ↦ let q : client c ≡ rule' = ground arith in subst IsClosed q h
      ]

  rejoined-IsOpen :
      (c : Client Hub) (o : Option (Result (Rule Hub) JoinError)) (r : Result (Unit {0}) JoinError)
      (rule : Rule Hub)
      → c.reader_closed ≡ false
      → ((d : Rule Hub) → o ≡ some (ok d) → IsOpen d)
      → rejoined c o ≡ some (r, rule)
      → IsOpen rule
  rejoined-IsOpen c none r rule h k e = absurd (ground arith)
  rejoined-IsOpen c (some (err f)) r rule h k e =
      let q : client (record c { io_hub = none }) ≡ rule = ground arith in subst IsOpen q h
  rejoined-IsOpen c (some (ok d)) r rule h k e =
      let q : d ≡ rule = ground arith in subst IsOpen q (k d refl)

  IsJoined-IsOpen :
      (c : Client Hub) (epoch : ℕ) (rule : Rule Hub) → IsJoined c.options epoch rule → IsOpen rule
  IsJoined-IsOpen c epoch (client d) j = j.2
  IsJoined-IsOpen c epoch (server s) j = ([], j.2)

  -- A reader that is open stays open behind every reconnection, whether the join succeeded or not.
  pub reconnect-IsOpen :
      (end : Option ℕ) (rounds : List (Round Hub)) (epoch : ℕ) (rule rule' : Rule Hub)
      (r : Result (Unit {0}) JoinError)
      → IsOpen rule
      → reconnect end rounds epoch rule ≡ some (r, rule')
      → IsOpen rule'
  unfolding reconnect
  reconnect-IsOpen end rounds epoch (server s) rule' r h e =
      let q : server s ≡ rule' = ground arith in subst IsOpen q h
  reconnect-IsOpen end rounds epoch (client c) rule' r h e = elim (Bool-cases (epoch == c.epoch)) [
    | inl same ↦
        rejoined-IsOpen c (join c.options (next_epoch epoch) end fresh rounds).result r rule' h
          (λ d j.
            IsJoined-IsOpen c (next_epoch epoch) d
              (join-IsJoined c.options (next_epoch epoch) end rounds d j))
          (ground arith)
    | inr other ↦ let q : client c ≡ rule' = ground arith in subst IsOpen q h
  ]
