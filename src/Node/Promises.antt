-- ===== src/Node/Promises.antt =====
-- ipmb-js/src/lib.rs: each promise of a receiver is settled once, or waits.
use ipmb.Prelude.{
  ℕ, ◌+◌, ◌≡◌, refl, arith, Bool, true, false, Option, none, some, List, [], ◌∷◌, ◌++◌,
  if◌then◌else◌, ltb, ◌==◌,
}
use ipmb.Errors.{ok, err}
use ipmb.Message.{Message, BytesMessage}
use ipmb.Node.Action.{Received, Reason, DelegateAction}
use ipmb.Node.Buffer.{
  Env, Waiting, Settled, deadline_of, recv, mark_closed, delegate_receiver, consume_deferred,
  reject_all, close, hand_over, take_message,
}
use ipmb.Node.Timeouts.{unexpired, expired, clean_timeout_lem}
use ipmb.Node.Run.{
  Operation, ask, mark, act, System, started, step, replay, after, after_ask, after_mark,
}

abbrev one_if : Bool → ℕ
one_if b = if b then 1 else 0

-- How often a promise was settled, and how often it waits.
abbrev pub times : ℕ → List Settled → ℕ
times d [] = 0
times d (s ∷ ss) = one_if (s.promise == d) + times d ss

abbrev pub waits : ℕ → List Waiting → ℕ
waits d [] = 0
waits d (w ∷ ws) = one_if (w.deferred == d) + waits d ws

-- Node-API makes every error and every object that it is asked for.
abbrev pub Works : Env → Type 0
Works env =
    ((e : Reason) → env.create_error e ≡ true)
    × ((m : Message BytesMessage) → env.create_object m ≡ true)

times-append : (d : ℕ) (xs ys : List Settled) → times d (xs ++ ys) ≡ times d xs + times d ys
times-append d [] ys = omega arith
times-append d (x ∷ xs) ys = omega (arith, times-append d xs ys)

waits-append : (d : ℕ) (xs ys : List Waiting) → waits d (xs ++ ys) ≡ waits d xs + waits d ys
waits-append d [] ys = omega arith
waits-append d (x ∷ xs) ys = omega (arith, waits-append d xs ys)

waits-retain :
    (d now : ℕ) (ws : List Waiting)
    → waits d (unexpired now ws) + waits d (expired now ws) ≡ waits d ws
waits-retain d now [] = refl
waits-retain d now (w ∷ ws) = ground (arith, waits-retain d now ws)

-- The promise is among those made.
abbrev Accounted : ℕ → System → Type 0
Accounted d y = times d y.log + waits d y.buffer.deferred_list ≡ one_if (ltb d y.created)

module _ (env : Env) (works : Works env) (d : ℕ) where
  times-consume_deferred :
      (p : ℕ) (r : Received) → times d (consume_deferred env p r) ≡ one_if (p == d)
  unfolding consume_deferred
  times-consume_deferred p (ok m) = rw (works.1 m) (ground arith)
  times-consume_deferred p (err e) = rw (works.0 (Reason.from_endpoint e)) (ground arith)

  times-reject_all : (e : Reason) (ws : List Waiting) → times d (reject_all env e ws) ≡ waits d ws
  unfolding reject_all
  times-reject_all e [] = refl
  times-reject_all e (w ∷ ws) = rw (works.0 e, times-reject_all e ws) refl

  waits-of : (xs ys : List Waiting) → xs ≡ ys → waits d xs ≡ waits d ys
  waits-of xs ys q = rw q refl

  arrive-Accounted :
      (y : System) (r : Received) (ds : List Waiting)
      → y.buffer.deferred_list ≡ ds
      → Accounted d y
      → Accounted d (after y (some (hand_over env y.buffer r ds)))
  arrive-Accounted y r [] q h = ground (arith, times-append d y.log [], h, q)
  arrive-Accounted y r (w ∷ ws) q h = ground (
    arith,
    times-append d y.log (consume_deferred env w.deferred r),
    times-consume_deferred w.deferred r,
    waits-of y.buffer.deferred_list (w ∷ ws) q,
    h,
  )

  ask-Accounted :
      (y : System) (at : Option ℕ) (ms : List Received)
      → Accounted d y
      → Accounted d (
          after_ask y
            (some (take_message env y.buffer (record { deferred = y.created; deadline = at }) ms)))
  ask-Accounted y at [] h = ground (
    arith,
    times-append d y.log [],
    waits-append d y.buffer.deferred_list (record { deferred = y.created; deadline = at } ∷ []),
    h,
  )
  ask-Accounted y at (r ∷ ms) h = ground (
    arith,
    times-append d y.log (consume_deferred env y.created r),
    times-consume_deferred y.created r,
    h,
  )

  ask_step-Accounted :
      (y : System) (at : Option ℕ) (c : Bool)
      → Accounted d y
      → Accounted d (
          after_ask y (
            if c
            then none
            else some (
                take_message env y.buffer
                  (record { deferred = y.created; deadline = at })
                  y.buffer.messages)))
  ask_step-Accounted y at true h = h
  ask_step-Accounted y at false h = ask-Accounted y at y.buffer.messages h

  mark_step-Accounted :
      (y : System) (c : Bool)
      → Accounted d y
      → Accounted d (after_mark y (if c then none else some (record y.buffer { closed = true })))
  mark_step-Accounted y true h = h
  mark_step-Accounted y false h = h

  expire-Accounted :
      (y : System) (now : ℕ)
      → Accounted d y
      → Accounted d (after y (delegate_receiver env now DelegateAction.clean_timeout y.buffer))
  unfolding delegate_receiver
  expire-Accounted y now h =
      let ws = y.buffer.deferred_list in
      rw (clean_timeout_lem env now y.buffer) (
        omega (
          arith,
          times-append d y.log (reject_all env Reason.timeout (expired now ws)),
          times-reject_all Reason.timeout (expired now ws),
          waits-retain d now ws,
          h,
        ))

  close-Accounted :
      (y : System) (now : ℕ)
      → Accounted d y
      → Accounted d (after y (delegate_receiver env now DelegateAction.close y.buffer))
  unfolding delegate_receiver close
  close-Accounted y now h =
      let ws = y.buffer.deferred_list in
      omega (
        arith,
        times-append d y.log (reject_all env Reason.closed ws),
        times-reject_all Reason.closed ws,
        h,
      )

  step-Accounted : (y : System) (e : Operation) → Accounted d y → Accounted d (step env y e)
  unfolding step recv mark_closed delegate_receiver
  step-Accounted y (act now DelegateAction.close) h = close-Accounted y now h
  step-Accounted y (act now DelegateAction.clean_timeout) h = expire-Accounted y now h
  step-Accounted y (act now (DelegateAction.recv r)) h =
      arrive-Accounted y r y.buffer.deferred_list refl h
  step-Accounted y (ask now timeout) h =
      ask_step-Accounted y (deadline_of now timeout) y.buffer.closed h
  step-Accounted y mark h = mark_step-Accounted y y.buffer.closed h

  replay-Accounted :
      (y : System) (es : List Operation) → Accounted d y → Accounted d (replay env y es)
  unfolding replay
  replay-Accounted y [] h = h
  replay-Accounted y (e ∷ es) h = replay-Accounted (step env y e) es (step-Accounted y e h)

started-Accounted : (d : ℕ) → Accounted d started
started-Accounted d = ground arith

replay-append :
    (env : Env) (y : System) (xs ys : List Operation)
    → replay env y (xs ++ ys) ≡ replay env (replay env y xs) ys
unfolding replay
replay-append env y [] ys = refl
replay-append env y (x ∷ xs) ys = replay-append env (step env y x) xs ys

closing :
    (env : Env) (y : System) (now d : ℕ)
    → Works env
    → Accounted d y
    → let z = step env y (act now DelegateAction.close) in
      (times d z.log ≡ (if ltb d y.created then 1 else 0)) × (z.buffer.deferred_list ≡ [])
unfolding step delegate_receiver close
closing env y now d works h =
    let last = close-Accounted env works d y now h in (omega (arith, last), refl)

-- Where Node-API makes what it is asked for: after any history, a promise that `recv` returned was
-- settled or waits, once in all, and no other promise was; and once the receiving thread's last action,
-- to close, was handled, each promise was settled exactly once, and none waits.
pub replay-settles :
    (env : Env) (es : List Operation) (now d : ℕ)
    → Works env
    → let y = replay env started es in
      let z = replay env started (es ++ act now DelegateAction.close ∷ []) in
      (times d y.log + waits d y.buffer.deferred_list ≡ (if ltb d y.created then 1 else 0))
      × (times d z.log ≡ (if ltb d y.created then 1 else 0))
      × (z.buffer.deferred_list ≡ [])
unfolding replay
replay-settles env es now d works =
    let y = replay env started es in
    let h = replay-Accounted env works d started es (started-Accounted d) in
    let last = closing env y now d works h in
    rw (replay-append env started es (act now DelegateAction.close ∷ [])) (h, last.0, last.1)
