-- ===== src/Endpoint/Session/Loops.antt =====
-- ipmb/src/lib.rs: the loops of `EndpointSender::send` and `EndpointReceiver::recv`.
pub mod Delivery
pub mod Laws
pub mod Panics
use ipmb.Prelude.{ℕ, Option, none, some, List, [], ◌∷◌}
use ipmb.Errors.{Error, JoinError, SendError, RecvError, Result, ok, err, send_error, recv_error}
use ipmb.Message.{EncodedMessage, Message, MessageBox}
use ipmb.Endpoint.{Rule, client, server}
use ipmb.Endpoint.Join.{Round}
use ipmb.Endpoint.Session.{
  SendTurn, sent, broken, RecvTurn, received, skipped, lost, reconnect, send_turn, recv_turn,
}

-- What became of a call: it returned, its history ended within the loop, or it panicked.
pub data Outcome (A : Type 0) : Type 0 where
  finished : A → Outcome A
  unfinished panicked : Outcome A

-- A round of `send`: what `msg.send(remote)` returns, and the rounds of a join, if it comes to it.
pub record SendRound (Hub : Type 0) : Type 0 where
  pub taken : Result (Unit {0}) Error
  pub joins : List (Round Hub)

-- What `recv_timeout` or `recv` on the channel of a server gives; without a timeout, it does not time
-- out.
pub data FromChannel : Type 0 where
  gave : EncodedMessage → FromChannel
  timed_out disconnected : FromChannel

-- A round of `recv`: what the hub of a client returns, or what the channel of a server gives, and the
-- rounds of a join with its deadline, if it comes to it.
pub record RecvRound (Hub : Type 0) : Type 0 where
  pub from_hub : Result EncodedMessage Error
  pub from_channel : FromChannel
  pub end : Option ℕ
  pub joins : List (Round Hub)

module _ {Hub : Type 0} where
  -- `Rule::join(..)?` in the step under the write lock, and the next round
  abbrev pub resumed :
      {A : Type 0}
      → (JoinError → A)
      → Rule Hub
      → Option (Result (Unit {0}) JoinError × Rule Hub)
      → (Rule Hub → Outcome A × Rule Hub)
      → Outcome A × Rule Hub
  resumed f rule none rest = (unfinished, rule)
  resumed f rule (some (ok _, rule')) rest = rest rule'
  resumed f rule (some (err e, rule')) rest = (finished (f e), rule')

  abbrev pub after_send :
      SendTurn × Rule Hub
      → List (Round Hub)
      → (Rule Hub → Outcome (Result (Unit {0}) SendError) × Rule Hub)
      → Outcome (Result (Unit {0}) SendError) × Rule Hub
  after_send (sent, rule) joins rest = (finished (ok tt), rule)
  after_send (broken epoch, rule) joins rest =
      resumed (λ e. err (send_error e)) rule (reconnect none joins epoch rule) rest
  after_send (SendTurn.panics, rule) joins rest = (panicked, rule)

  -- `EndpointSender::send`, of a message that is encoded
  unfoldable pub send :
      Rule Hub
      → EncodedMessage
      → List (SendRound Hub)
      → Outcome (Result (Unit {0}) SendError) × Rule Hub
  unfolding send_turn reconnect send_error
  send rule msg [] = (unfinished, rule)
  send rule msg (r ∷ rounds) =
      after_send (send_turn rule msg r.taken) r.joins (λ rule'. send rule' msg rounds)

  abbrev pub answer : Rule Hub → RecvRound Hub → Result EncodedMessage Error
  answer (client c) r = r.from_hub
  answer (server s) r = elim r.from_channel [
    | gave msg ↦ ok msg
    | timed_out ↦ err Error.timeout
    | disconnected ↦ err Error.disconnect
  ]

  module _ {R : Type 0} (box : MessageBox R) where
    abbrev pub after_recv :
        RecvTurn R
        → Rule Hub
        → Option ℕ
        → List (Round Hub)
        → (Rule Hub → Outcome (Result (Message R) RecvError) × Rule Hub)
        → Outcome (Result (Message R) RecvError) × Rule Hub
    after_recv (received r) rule end joins rest = (finished r, rule)
    after_recv skipped rule end joins rest = rest rule
    after_recv (lost epoch) rule end joins rest =
        resumed (λ e. err (recv_error e)) rule (reconnect end joins epoch rule) rest
    after_recv RecvTurn.panics rule end joins rest = (panicked, rule)

    -- `EndpointReceiver::recv`
    unfoldable pub recv :
        Rule Hub → List (RecvRound Hub) → Outcome (Result (Message R) RecvError) × Rule Hub
    unfolding recv_turn reconnect recv_error
    recv rule [] = (unfinished, rule)
    recv rule (r ∷ rounds) =
        after_recv (recv_turn box rule (answer rule r)) rule r.end r.joins
          (λ rule'. recv rule' rounds)
