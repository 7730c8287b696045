-- ===== src/Node/Delivery/Parts.antt =====
-- Lemmas on the lists of promises and results of a `LocalBuffer` (ipmb-js/src/lib.rs).
use ipmb.Prelude.{
  ℕ, zero, suc, ◌≡◌, refl, ap, ◌⊎◌, inl, inr, arith, Bool, List, [], ◌∷◌, ◌++◌, length, take, drop,
  retain, append-nil, append_assoc,
}
use ipmb.Errors.{ok, err}
use ipmb.Node.Action.{Received, Reason}
use ipmb.Node.Buffer.{Env, Waiting, Settled, consume_deferred, reject_all}
use ipmb.Node.Run.{answers, is_answer}

pub retain-append :
    {A : Type 0} (p : A → Bool) (xs ys : List A) → retain p (xs ++ ys) ≡ retain p xs ++ retain p ys
retain-append p [] ys = refl
retain-append p (x ∷ xs) ys = ground (arith, retain-append p xs ys)

pub retain-consume_deferred :
    (env : Env) (d : ℕ) (r : Received)
    → retain is_answer (consume_deferred env d r) ≡ consume_deferred env d r
unfolding consume_deferred
retain-consume_deferred env d (ok m) = ground arith
retain-consume_deferred env d (err e) = ground arith

pub retain-reject_timeout :
    (env : Env) (ws : List Waiting) → retain is_answer (reject_all env Reason.timeout ws) ≡ []
unfolding reject_all
retain-reject_timeout env [] = refl
retain-reject_timeout env (w ∷ ws) = ground (arith, retain-reject_timeout env ws)

pub retain-reject_closed :
    (env : Env) (ws : List Waiting) → retain is_answer (reject_all env Reason.closed ws) ≡ []
unfolding reject_all
retain-reject_closed env [] = refl
retain-reject_closed env (w ∷ ws) = ground (arith, retain-reject_closed env ws)

-- One more promise meets one more result.
pub answers-snoc :
    (env : Env) (ps : List Waiting) (rs : List Received) (w : Waiting) (r : Received)
    → length ps ≡ length rs
    → answers env (ps ++ w ∷ []) (rs ++ r ∷ [])
      ≡ answers env ps rs ++ consume_deferred env w.deferred r
unfolding answers
answers-snoc env [] [] w r h = append-nil _
answers-snoc env [] (x ∷ rs) w r h = absurd (omega arith)
answers-snoc env (p ∷ ps) [] w r h = absurd (omega arith)
answers-snoc env (p ∷ ps) (x ∷ rs) w r h =
    rw
      (
        answers-snoc env ps rs w r (omega arith),
        append_assoc (consume_deferred env p.deferred x) (answers env ps rs)
            (consume_deferred env w.deferred r),
      )
      refl

pub answered-snoc :
    (env : Env) (log : List Settled) (ps : List Waiting) (rs : List Received) (w : Waiting)
    (r : Received)
    → length ps ≡ length rs
    → retain is_answer log ≡ answers env ps rs
    → retain is_answer (log ++ consume_deferred env w.deferred r)
      ≡ answers env (ps ++ w ∷ []) (rs ++ r ∷ [])
answered-snoc env log ps rs w r h a =
    rw
      (
        answers-snoc env ps rs w r h,
        retain-append is_answer log (consume_deferred env w.deferred r),
        a,
        retain-consume_deferred env w.deferred r,
      )
      refl

pub answered-more :
    (env : Env) (log new : List Settled) (ps : List Waiting) (rs : List Received)
    → retain is_answer new ≡ []
    → retain is_answer log ≡ answers env ps rs
    → retain is_answer (log ++ new) ≡ answers env ps rs
answered-more env log new ps rs n a =
    rw (retain-append is_answer log new, n, append-nil (retain is_answer log)) a

pub other_empty :
    {A B : Type 0} {xs : List A} {ys : List B} {x : A} {xs' : List A}
    → (xs ≡ []) ⊎ (ys ≡ [])
    → xs ≡ x ∷ xs'
    → ys ≡ []
other_empty (inl e) q = absurd cc
other_empty (inr e) q = e

pub take-nil : {A : Type 0} (n : ℕ) → (take {A = A} n [] ≡ []) × (drop {A = A} n [] ≡ [])
take-nil zero = (refl, refl)
take-nil (suc n) = (refl, refl)

pub answers-nil : (env : Env) (ds : List Waiting) → answers env ds [] ≡ []
unfolding answers
answers-nil env [] = refl
answers-nil env (d ∷ ds) = refl

-- Where one of two rests is empty, the first parts are found again by the lengths of the wholes.
pub parts :
    {A B : Type 0} (ps ds : List A) (rs ms : List B)
    → length ps ≡ length rs
    → (ds ≡ []) ⊎ (ms ≡ [])
    → (take (length (rs ++ ms)) (ps ++ ds) ≡ ps) × (drop (length (rs ++ ms)) (ps ++ ds) ≡ ds)
parts [] ds [] ms h (inl e) = rw e (take-nil (length ms))
parts [] ds [] ms h (inr e) = rw e (refl, refl)
parts [] ds (r ∷ rs) ms h t = absurd (omega arith)
parts (p ∷ ps) ds [] ms h t = absurd (omega arith)
parts (p ∷ ps) ds (r ∷ rs) ms h t =
    let (front, back) = parts ps ds rs ms (omega arith) t in (ap (◌∷◌ p) front, back)

pub answers-append :
    (env : Env) (ps ds : List Waiting) (rs ms : List Received)
    → length ps ≡ length rs
    → (ds ≡ []) ⊎ (ms ≡ [])
    → answers env (ps ++ ds) (rs ++ ms) ≡ answers env ps rs
unfolding answers
answers-append env [] ds [] ms h (inl e) = rw e refl
answers-append env [] ds [] ms h (inr e) = rw e (answers-nil env ds)
answers-append env [] ds (r ∷ rs) ms h t = absurd (omega arith)
answers-append env (p ∷ ps) ds [] ms h t = absurd (omega arith)
answers-append env (p ∷ ps) ds (r ∷ rs) ms h t =
    ap (λ a. consume_deferred env p.deferred r ++ a)
      (answers-append env ps ds rs ms (omega arith) t)

pub swap : {A B : Type 0} → A ⊎ B → B ⊎ A
swap (inl a) = inr a
swap (inr b) = inl b
