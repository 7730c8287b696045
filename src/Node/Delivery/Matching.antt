-- ===== src/Node/Delivery/Matching.antt =====
-- ipmb-js/src/lib.rs: which promises and results of a `LocalBuffer` have met, and how each operation
-- changes that.
use ipmb.Prelude.{
  append-singleton, ℕ, suc, ◌≡◌, refl, ap, subst, ◌⊎◌, inl, inr, arith, Bool, true, false, Option,
  none, some, List, [], ◌∷◌, ◌++◌, length, take, drop, retain, append-nil, append_assoc,
  length-append, if◌then◌else◌,
}
use ipmb.Node.Action.{Received, DelegateAction}
use ipmb.Node.Buffer.{
  Env, Waiting, deadline_of, recv, mark_closed, delegate_receiver, close, hand_over, take_message,
}
use ipmb.Node.Timeouts.{clean_timeout_lem}
use ipmb.Node.Run.{
  Operation, ask, mark, act, System, step, Spec, spec_step, answers, is_answer, after, after_ask,
  after_mark,
}
use ipmb.Node.Delivery.Parts.{
  retain-reject_timeout, retain-reject_closed, answered-snoc, answered-more, other_empty, parts,
  swap,
}

-- The promises and results that met, and the rest, of which one kind is empty.
pub record Matched (env : Env) (s : Spec) (y : System) : Type 0 where
  pub ps : List Waiting
  pub rs : List Received
  pub same_length : length ps ≡ length rs
  pub flag : y.buffer.closed ≡ s.is_closed
  pub count : y.created ≡ s.made
  pub promises_of : s.promises ≡ ps ++ y.buffer.deferred_list
  pub results_of : s.results ≡ rs ++ y.buffer.messages
  pub tidy : (y.buffer.deferred_list ≡ []) ⊎ (y.buffer.messages ≡ [])
  pub answered : retain is_answer y.log ≡ answers env ps rs

module _ (env : Env) (s : Spec) (y : System) (m : Matched env s y) where
  -- A result meets the first promise, or is kept.
  arrive-Matched :
      (r : Received) (ds : List Waiting)
      → y.buffer.deferred_list ≡ ds
      → Matched env
          (record s { results = s.results ++ r ∷ [] })
          (after y (some (hand_over env y.buffer r ds)))
  arrive-Matched r [] q = record {
    ps = m.ps;
    rs = m.rs;
    same_length = m.same_length;
    flag = m.flag;
    count = m.count;
    promises_of = m.promises_of;
    results_of = rw m.results_of (append_assoc m.rs y.buffer.messages (r ∷ []));
    tidy = inl q;
    answered = rw (append-nil y.log) m.answered;
  }
  arrive-Matched r (w ∷ ws) q = record {
    ps = m.ps ++ w ∷ [];
    rs = m.rs ++ r ∷ [];
    same_length =
        omega (arith, m.same_length, length-append m.ps (w ∷ []), length-append m.rs (r ∷ []));
    flag = m.flag;
    count = m.count;
    promises_of = rw (m.promises_of, q) (append-singleton m.ps ws w);
    results_of =
        rw (m.results_of, other_empty m.tidy q, append-nil m.rs, append-nil (m.rs ++ r ∷ [])) refl;
    tidy = inr (other_empty m.tidy q);
    answered = answered-snoc env y.log m.ps m.rs w r m.same_length m.answered;
  }

  -- A promise gets the first message, or waits.
  ask-Matched :
      (w : Waiting) (ms : List Received)
      → y.buffer.messages ≡ ms
      → Matched env
          (record s { made = suc s.made; promises = s.promises ++ w ∷ [] })
          (after_ask y (some (take_message env y.buffer w ms)))
  ask-Matched w [] q = record {
    ps = m.ps;
    rs = m.rs;
    same_length = m.same_length;
    flag = m.flag;
    count = ap suc m.count;
    promises_of = rw m.promises_of (append_assoc m.ps y.buffer.deferred_list (w ∷ []));
    results_of = m.results_of;
    tidy = inr q;
    answered = rw (append-nil y.log) m.answered;
  }
  ask-Matched w (r ∷ rest) q =
      let no_one = other_empty (swap m.tidy) q in
      record {
        ps = m.ps ++ w ∷ [];
        rs = m.rs ++ r ∷ [];
        same_length =
            omega (arith, m.same_length, length-append m.ps (w ∷ []), length-append m.rs (r ∷ []));
        flag = m.flag;
        count = ap suc m.count;
        promises_of = rw (m.promises_of, no_one, append-nil m.ps, append-nil (m.ps ++ w ∷ [])) refl;
        results_of = rw (m.results_of, q) (append-singleton m.rs rest r);
        tidy = inl no_one;
        answered = answered-snoc env y.log m.ps m.rs w r m.same_length m.answered;
      }

  pub met :
      (take (length s.results) s.promises ≡ m.ps)
      × (drop (length s.results) s.promises ≡ y.buffer.deferred_list)
  met =
      rw (m.promises_of, m.results_of)
        (parts m.ps y.buffer.deferred_list m.rs y.buffer.messages m.same_length m.tidy)

  -- The promises that time out are among those that no result met.
  expire-Matched :
      (now : ℕ)
      → Matched env
          (spec_step s (act now DelegateAction.clean_timeout))
          (after y (delegate_receiver env now DelegateAction.clean_timeout y.buffer))
  unfolding delegate_receiver
  expire-Matched now = rw (clean_timeout_lem env now y.buffer) (record {
    ps = m.ps;
    rs = m.rs;
    same_length = m.same_length;
    flag = m.flag;
    count = m.count;
    promises_of = rw (met.0, met.1) refl;
    results_of = m.results_of;
    tidy = elim m.tidy [ inl e ↦ inl (rw e refl) | inr e ↦ inr e ];
    answered = answered-more env y.log _ m.ps m.rs (retain-reject_timeout env _) m.answered;
  })

  close-Matched :
      (now : ℕ)
      → Matched env
          (spec_step s (act now DelegateAction.close))
          (after y (delegate_receiver env now DelegateAction.close y.buffer))
  unfolding delegate_receiver close
  close-Matched now = record {
    ps = m.ps;
    rs = m.rs;
    same_length = m.same_length;
    flag = refl;
    count = m.count;
    promises_of = rw (met.0, append-nil m.ps) refl;
    results_of = m.results_of;
    tidy = inl refl;
    answered = answered-more env y.log _ m.ps m.rs (retain-reject_closed env _) m.answered;
  }

  ask_step-Matched :
      (now : ℕ) (timeout : Option ℕ) (c d : Bool)
      → c ≡ d
      → Matched env
          (if d then s else record s {
            made = suc s.made;
            promises =
                s.promises ++ record { deferred = s.made; deadline = deadline_of now timeout } ∷ [];
          })
          (after_ask y (
            if c
            then none
            else some (
                take_message env y.buffer
                  (record { deferred = y.created; deadline = deadline_of now timeout })
                  y.buffer.messages)))
  ask_step-Matched now timeout true true e = m
  ask_step-Matched now timeout true false e = absurd cc
  ask_step-Matched now timeout false true e = absurd cc
  ask_step-Matched now timeout false false e =
      let at = deadline_of now timeout in
      subst
        (λ d.
          Matched env
            (record s {
              made = suc s.made;
              promises = s.promises ++ record { deferred = d; deadline = at } ∷ [];
            })
            (after_ask y (
              some (
                take_message env y.buffer (record { deferred = y.created; deadline = at })
                  y.buffer.messages))))
        m.count
        (ask-Matched (record { deferred = y.created; deadline = at }) y.buffer.messages refl)

  mark_step-Matched :
      (c : Bool)
      → y.buffer.closed ≡ c
      → Matched env
          (record s { is_closed = true })
          (after_mark y (if c then none else some (record y.buffer { closed = true })))
  mark_step-Matched true e = record {
    ps = m.ps;
    rs = m.rs;
    same_length = m.same_length;
    flag = e;
    count = m.count;
    promises_of = m.promises_of;
    results_of = m.results_of;
    tidy = m.tidy;
    answered = m.answered;
  }
  mark_step-Matched false e = record {
    ps = m.ps;
    rs = m.rs;
    same_length = m.same_length;
    flag = refl;
    count = m.count;
    promises_of = m.promises_of;
    results_of = m.results_of;
    tidy = m.tidy;
    answered = m.answered;
  }

pub step-Matched :
    (env : Env) (s : Spec) (y : System) (e : Operation)
    → Matched env s y
    → Matched env (spec_step s e) (step env y e)
unfolding step recv mark_closed delegate_receiver
step-Matched env s y (act now DelegateAction.close) m = close-Matched env s y m now
step-Matched env s y (act now DelegateAction.clean_timeout) m = expire-Matched env s y m now
step-Matched env s y (act now (DelegateAction.recv r)) m =
    arrive-Matched env s y m r y.buffer.deferred_list refl
step-Matched env s y (ask now timeout) m =
    ask_step-Matched env s y m now timeout y.buffer.closed s.is_closed m.flag
step-Matched env s y mark m = mark_step-Matched env s y m y.buffer.closed refl
