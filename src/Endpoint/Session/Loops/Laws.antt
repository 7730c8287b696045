-- ===== src/Endpoint/Session/Loops/Laws.antt =====
-- ipmb/src/lib.rs: when sending does not panic.
use ipmb.Prelude.{
  ℕ, ◌≡◌, ◌≢◌, subst, refl, Bool, true, Option, none, some, List, [], ◌∷◌, All, arith, ◌==◌, inl,
  inr, Bool-cases,
}
use ipmb.Errors.{Error, JoinError, SendError, Result, ok, err}
use ipmb.Message.{EncodedMessage}
use ipmb.Endpoint.{Client, Rule, client, server, reader_close}
use ipmb.Endpoint.Join.{Round, fresh, join}
use ipmb.Endpoint.Join.Outcome.{IsJoined, join-IsJoined}
use ipmb.Endpoint.Session.{
  SendTurn, sent, broken, next_epoch, reclosed, rejoined, reconnect, send_turn,
}
use ipmb.Endpoint.Session.Loops.{Outcome, panicked, SendRound, resumed, after_send, send}

-- The results of the `send` of a message for which `EndpointSender::send` has an arm.
abbrev pub IsAttempt {ℓ} : {A : Type ℓ} → Result A Error → Type 0
IsAttempt (ok a) = Unit
IsAttempt (err Error.disconnect) = Unit
IsAttempt (err e) = ⊥

module _ {Hub : Type 0} where
  resumed_safe :
      {A : Type 0} (Q : Rule Hub → Type 0) (f : JoinError → A) (rule : Rule Hub)
      (o : Option (Result (Unit {0}) JoinError × Rule Hub)) (rest : Rule Hub → Outcome A × Rule Hub)
      → ((r : Result (Unit {0}) JoinError) (rule' : Rule Hub) → o ≡ some (r, rule') → Q rule')
      → ((rule' : Rule Hub) → Q rule' → (rest rule').0 ≢ panicked)
      → (resumed f rule o rest).0 ≢ panicked
  resumed_safe Q f rule none rest k h e = ground arith
  resumed_safe Q f rule (some (ok _, rule')) rest k h e = h rule' (k _ rule' refl) e
  resumed_safe Q f rule (some (err _, rule')) rest k h e = ground arith

  -- The controller's end of the channel of a server is there.
  abbrev pub IsConnected : Rule Hub → Type 0
  IsConnected (client c) = Unit
  IsConnected (server s) = s.bus_sender.connected ≡ true

  IsConnected-reclosed :
      (closed : Bool) (rule : Rule Hub) → IsConnected rule → IsConnected (reclosed closed rule)
  unfolding reader_close
  IsConnected-reclosed closed (client c) h = ground arith
  IsConnected-reclosed closed (server s) h = ground arith

  IsJoined-IsConnected :
      (c : Client Hub) (epoch : ℕ) (rule : Rule Hub)
      → IsJoined c.options epoch rule
      → IsConnected rule
  IsJoined-IsConnected c epoch (client d) j = tt
  IsJoined-IsConnected c epoch (server s) j = j.1

  rejoined-IsConnected :
      (c : Client Hub) (o : Option (Result (Rule Hub) JoinError)) (r : Result (Unit {0}) JoinError)
      (rule : Rule Hub)
      → ((d : Rule Hub) → o ≡ some (ok d) → IsConnected d)
      → rejoined c o ≡ some (r, rule)
      → IsConnected rule
  rejoined-IsConnected c none r rule k e = absurd (ground arith)
  rejoined-IsConnected c (some (err f)) r rule k e =
      let q : client (record c { io_hub = none }) ≡ rule = ground arith in subst IsConnected q tt
  rejoined-IsConnected c (some (ok d)) r rule k e =
      let q : reclosed c.reader_closed d ≡ rule = ground arith in
      subst IsConnected q (IsConnected-reclosed c.reader_closed d (k d refl))

  reconnect-IsConnected :
      (end : Option ℕ) (rounds : List (Round Hub)) (epoch : ℕ) (rule rule' : Rule Hub)
      (r : Result (Unit {0}) JoinError)
      → IsConnected rule
      → reconnect end rounds epoch rule ≡ some (r, rule')
      → IsConnected rule'
  unfolding reconnect
  reconnect-IsConnected end rounds epoch (server s) rule' r h e =
      let q : server s ≡ rule' = ground arith in subst IsConnected q h
  reconnect-IsConnected end rounds epoch (client c) rule' r h e =
      elim (Bool-cases (epoch == c.epoch)) [
        | inl same ↦
            rejoined-IsConnected c (join c.options (next_epoch epoch) end fresh rounds).result r
              rule'
              (λ d j.
                IsJoined-IsConnected c (next_epoch epoch) d
                  (join-IsJoined c.options (next_epoch epoch) end rounds d j))
              (ground arith)
        | inr other ↦ let q : client c ≡ rule' = ground arith in subst IsConnected q h
      ]

  after_send_safe :
      (t : SendTurn × Rule Hub) (joins : List (Round Hub))
      (rest : Rule Hub → Outcome (Result (Unit {0}) SendError) × Rule Hub)
      → t.0 ≢ SendTurn.panics
      → IsConnected t.1
      → ((rule' : Rule Hub) → IsConnected rule' → (rest rule').0 ≢ panicked)
      → (after_send t joins rest).0 ≢ panicked
  after_send_safe (sent, rule) joins rest t o h e = ground arith
  after_send_safe (SendTurn.panics, rule) joins rest t o h e = t refl
  after_send_safe (broken epoch, rule) joins rest t o h e =
      resumed_safe IsConnected _ rule (reconnect none joins epoch rule) rest
        (λ r rule' q. reconnect-IsConnected none joins epoch rule rule' r o q) h e

  send_turn_safe :
      (rule : Rule Hub) (msg : EncodedMessage) (r : Result (Unit {0}) Error)
      → IsConnected rule
      → IsAttempt r
      → ((send_turn rule msg r).0 ≢ SendTurn.panics) × IsConnected (send_turn rule msg r).1
  unfolding send_turn
  send_turn_safe (client c) msg (ok _) h a = (λ e. ground arith, tt)
  send_turn_safe (client c) msg (err e) h a = ground arith
  send_turn_safe (server s) msg r h a = (λ e. ground arith, ground arith)

  -- A call of `send` does not panic, through all reconnections, where a server's channel to the
  -- controller is connected at first and every write ends in success or a disconnect.
  pub send-safe :
      (rule : Rule Hub) (msg : EncodedMessage) (rounds : List (SendRound Hub))
      → IsConnected rule
      → All (λ r. IsAttempt r.taken) rounds
      → (send rule msg rounds).0 ≢ panicked
  unfolding send
  send-safe rule msg [] o a e = ground arith
  send-safe rule msg (r ∷ rounds) o a e =
      let (safe, connected) = send_turn_safe rule msg r.taken o a.0 in
      after_send_safe (send_turn rule msg r.taken) r.joins (λ rule'. send rule' msg rounds) safe
        connected (λ rule' o'. send-safe rule' msg rounds o' a.1) e
