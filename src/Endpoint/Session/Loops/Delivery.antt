-- ===== src/Endpoint/Session/Loops/Delivery.antt =====
-- ipmb/src/lib.rs: what it means that `send` returned without an error.
use ipmb.Prelude.{
  ◌≡◌, refl, subst, Bool, true, false, ◌⊎◌, inl, inr, Option, none, some, List, [], ◌∷◌, ◌++◌, any,
  arith, Bool-cases,
}
use ipmb.Errors.{JoinError, SendError, Result, ok, err}
use ipmb.Message.{EncodedMessage}
use ipmb.Bus.{channel_send}
use ipmb.Endpoint.{Rule, client, server}
use ipmb.Endpoint.Join.{Round}
use ipmb.Endpoint.Session.{SendTurn, sent, broken, reconnect, send_turn}
use ipmb.Endpoint.Session.Loops.{Outcome, finished, SendRound, resumed, after_send, send}

abbrev pub is_taken : {Hub : Type 0} → SendRound Hub → Bool
is_taken r = elim r.taken [ ok _ ↦ true | err _ ↦ false ]

-- The last message in the channel to the controller.
abbrev pub IsQueued : {Hub : Type 0} → EncodedMessage → Rule Hub → Type 0
IsQueued msg (client c) = ⊥
IsQueued msg (server s) = (q : List EncodedMessage) × (s.bus_sender.queue ≡ q ++ msg ∷ [])

module _ {Hub : Type 0} where
  send_turn-sent :
      (rule : Rule Hub) (msg : EncodedMessage) (r : SendRound Hub)
      → (send_turn rule msg r.taken).0 ≡ sent
      → (is_taken r ≡ true) ⊎ IsQueued msg (send_turn rule msg r.taken).1
  unfolding send_turn channel_send
  send_turn-sent (client c) msg r h = inl (ground arith)
  send_turn-sent (server s) msg r h = elim (Bool-cases s.bus_sender.connected) [
    | inl c ↦ inr (s.bus_sender.queue, ground arith)
    | inr c ↦ absurd (ground arith)
  ]

  resumed_sent :
      {A : Type 0} (P : Rule Hub → Type 0) (a : A) (f : JoinError → A) (rule final : Rule Hub)
      (o : Option (Result (Unit {0}) JoinError × Rule Hub)) (rest : Rule Hub → Outcome A × Rule Hub)
      → ((e : JoinError) → f e ≡ a → ⊥)
      → ((rule' : Rule Hub) → rest rule' ≡ (finished a, final) → P final)
      → resumed f rule o rest ≡ (finished a, final)
      → P final
  resumed_sent P a f rule final none rest n h e = absurd (ground arith)
  resumed_sent P a f rule final (some (ok _, rule')) rest n h e = h rule' e
  resumed_sent P a f rule final (some (err j, rule')) rest n h e = absurd (n j (ground arith))

  after_send_sent :
      (P : Rule Hub → Type 0) (final : Rule Hub) (t : SendTurn × Rule Hub)
      (joins : List (Round Hub))
      (rest : Rule Hub → Outcome (Result (Unit {0}) SendError) × Rule Hub)
      → (t.0 ≡ sent → P t.1)
      → ((rule' : Rule Hub) → rest rule' ≡ (finished (ok tt), final) → P final)
      → after_send t joins rest ≡ (finished (ok tt), final)
      → P final
  after_send_sent P final (sent, rule) joins rest s h e =
      let q : rule ≡ final = ground arith in subst P q (s refl)
  after_send_sent P final (SendTurn.panics, rule) joins rest s h e = absurd (ground arith)
  after_send_sent P final (broken epoch, rule) joins rest s h e =
      resumed_sent P (ok tt) _ rule final (reconnect none joins epoch rule) rest
        (λ j n. ground arith) h e

  -- Where `send` returns without an error, through whatever disconnects and reconnections, the
  -- platform has taken the message in a round, or the endpoint is a server and the message is the
  -- last in its channel to the controller.
  pub send-delivers :
      (rule final : Rule Hub) (msg : EncodedMessage) (rounds : List (SendRound Hub))
      → send rule msg rounds ≡ (finished (ok tt), final)
      → (any is_taken rounds ≡ true) ⊎ IsQueued msg final
  unfolding send
  send-delivers rule final msg [] e = absurd (ground arith)
  send-delivers rule final msg (r ∷ rounds) e =
      after_send_sent (λ f. (any is_taken (r ∷ rounds) ≡ true) ⊎ IsQueued msg f) final
        (send_turn rule msg r.taken) r.joins (λ rule'. send rule' msg rounds)
        (λ s. elim (send_turn-sent rule msg r s) [ inl t ↦ inl (ground arith) | inr q ↦ inr q ])
        (λ rule' k. elim (send-delivers rule' final msg rounds k) [
          | inl t ↦ inl (ground arith)
          | inr q ↦ inr q
        ])
        e
