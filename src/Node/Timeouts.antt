-- ===== src/Node/Timeouts.antt =====
-- ipmb-js/src/lib.rs: the loop of `clean_timeout`, which removes by index, against a filter.
use ipmb.Prelude.{
  get_elem?-length, append-singleton, length-snoc, get_elem?-append, remove_at-append, ℕ, zero, suc,
  ◌<◌, ◌≡◌, refl, sym, arith, Bool, not, some, List, [], ◌∷◌, ◌++◌, length, retain, Bool-cases, inl,
  inr, append-nil, append_assoc,
}
use ipmb.Node.Action.{Reason, Received}
use ipmb.Node.Buffer.{Env, Waiting, LocalBuffer, is_expired, clean_loop, clean_timeout, reject_all}

-- The promises that stay, and those that time out.
abbrev pub unexpired : ℕ → List Waiting → List Waiting
unexpired now = retain (λ w. not (is_expired now w))

abbrev pub expired : ℕ → List Waiting → List Waiting
expired now = retain (is_expired now)

clean_loop_lem :
    (fuel now : ℕ) (passed ws removed : List Waiting)
    → length ws < fuel
    → clean_loop fuel now (length passed) (passed ++ ws) removed
      ≡ some
          (passed ++ retain (λ w. not (is_expired now w)) ws, removed ++ retain (is_expired now) ws)
unfolding clean_loop
clean_loop_lem zero now passed ws removed h = absurd (omega arith)
clean_loop_lem (suc fuel) now passed [] removed h =
    rw
      (
        append-nil passed,
        clean_loop,
        get_elem?-length passed,
        append-nil removed,
        append-nil passed,
      )
      refl
clean_loop_lem (suc fuel) now passed (w ∷ ws) removed h =
    rw (clean_loop, get_elem?-append passed ws w)
      (elim (Bool-cases (is_expired now w)) [
        | inl e ↦
            rw
              (
                e,
                remove_at-append passed ws w,
                clean_loop_lem fuel now passed ws (removed ++ w ∷ []) (omega arith),
                append_assoc removed (w ∷ []) (retain (is_expired now) ws),
              )
              refl
        | inr e ↦
            rw
              (
                e,
                append-singleton passed ws w,
                append-singleton passed (retain (λ x. not (is_expired now x)) ws) w,
                sym (length-snoc passed w),
              )
              (clean_loop_lem fuel now (passed ++ w ∷ []) ws removed (omega arith))
      ])

clean_list_lem :
    (env : Env) (now : ℕ) (c : Bool) (ms : List Received) (ws : List Waiting)
    → clean_timeout env now (record { closed = c; messages = ms; deferred_list = ws })
      ≡ some (
        record { closed = c; messages = ms; deferred_list = unexpired now ws },
        reject_all env Reason.timeout (expired now ws),
      )
unfolding clean_timeout
clean_list_lem env now c ms [] = refl
clean_list_lem env now c ms (w ∷ ws) =
    rw (clean_loop_lem (suc (length (w ∷ ws))) now [] (w ∷ ws) [] (omega arith)) refl

-- `clean_timeout` ends, keeps the promises whose deadline has not passed in their order, and rejects
-- the others with a timeout, in their order, each once.
pub clean_timeout_lem :
    (env : Env) (now : ℕ) (b : LocalBuffer)
    → clean_timeout env now b
      ≡ some (
        record b { deferred_list = unexpired now b.deferred_list },
        reject_all env Reason.timeout (expired now b.deferred_list),
      )
unfolding clean_timeout
clean_timeout_lem env now b = clean_list_lem env now b.closed b.messages b.deferred_list
