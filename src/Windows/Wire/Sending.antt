-- ===== src/Windows/Wire/Sending.antt =====
-- ipmb/src/platform/windows/mod.rs: what `send_helper` does to the counts of the regions, and to the
-- handles that it made in the remote process.
use ipmb.Prelude.{
  ℕ, ◌+◌, ◌^◌, ◌<◌, ◌≡◌, ◌⊎◌, inl, inr, refl, sym, subst, ◌∙◌, arith, append-nil, append_assoc,
  Option-cases, Option, none, some, List, [], ◌∷◌, ◌++◌, map, Bool-cases, ◌==◌,
}
use ipmb.Errors.{Error, ok, err}
use ipmb.Region.{Object, MemoryRegion, Headers, add_refs}
use ipmb.Region.Counting.Tally.{tally, refs-add_refs, refs-sub_refs}
use ipmb.Message.{Bytes}
use ipmb.Windows.Wire.{Duplicated, Sent, duplicate_all, written_out, sent_by, send_helper}

-- A send that succeeded: each region has one more reference, and no remote handle is closed. One that
-- failed: the counts are as before, nothing went into the pipe, and every remote handle is closed.
abbrev pub IsSettled : Headers → ℕ → List MemoryRegion → List ℕ → Sent → Type 0
IsSettled h u regions made s =
    ((s.result ≡ ok tt)
      × (s.headers.refs u ≡ h.refs u + tally u regions)
      × (s.closed ≡ [])
      × ((bytes : Bytes) × (s.delivered ≡ some bytes)))
    ⊎ ((s.result ≡ err Error.disconnect)
        × (s.headers.refs u ≡ h.refs u)
        × (s.closed ≡ made)
        × (s.delivered ≡ none))

-- The remote handles of objects, up to the first that is not duplicated.
abbrev pub made_by : (Object → Option ℕ) → List Object → List ℕ
made_by to_remote [] = []
made_by to_remote (o ∷ os) = elim (to_remote o) [ none ↦ [] | some h ↦ h ∷ made_by to_remote os ]

made-duplicate_all :
    (to_remote : Object → Option ℕ) (off : ℕ) (os : List Object) (buf : Bytes) (made : List ℕ)
    → (duplicate_all to_remote off os buf made).made ≡ made ++ made_by to_remote os
unfolding duplicate_all
made-duplicate_all to_remote off [] buf made = sym (append-nil made)
made-duplicate_all to_remote off (o ∷ os) buf made = elim (Option-cases (to_remote o)) [
  | inl e ↦ rw (duplicate_all, made_by, e) (sym (append-nil made))
  | inr (h, e) ↦
      rw (duplicate_all, made_by, e)
        (made-duplicate_all to_remote (off + 8) os _ (made ++ h ∷ [])
          ∙ append_assoc made (h ∷ []) (made_by to_remote os))
]

same : {A : Type 0} (x y : A) → some x ≡ some y → x ≡ y
same x y h = cc

nothing : {A : Type 0} (y : A) → none ≡ some y → ⊥
nothing y h = ground arith

module _ (h : Headers) (u : ℕ) (regions : List MemoryRegion) (d : Duplicated) (size : ℕ)
    (fits : h.refs u + tally u regions < 2 ^ 32) where
  written_out-IsSettled :
      (wrote : Option ℕ) (s : Sent)
      → written_out h regions d size wrote ≡ some s
      → IsSettled h u regions d.made s
  written_out-IsSettled none s e =
      let counts = refs-add_refs u h regions fits in
      let back = refs-sub_refs u (add_refs h regions) regions in
      subst (IsSettled h u regions d.made) (same _ s e)
        (inr (refl, omega (arith, counts, back), refl, refl))
  written_out-IsSettled (some n) s e = elim (Bool-cases (n == size)) [
    | inl q ↦
        subst (IsSettled h u regions d.made) (same _ s (rw q at e))
          (inl (refl, refs-add_refs u h regions fits, refl, (d.buffer, refl)))
    | inr q ↦ absurd (nothing s (rw q at e))
  ]

  sent_by-IsSettled :
      (wrote : Option ℕ) (s : Sent)
      → sent_by h regions d size wrote ≡ some s
      → IsSettled h u regions d.made s
  sent_by-IsSettled wrote s e = elim (Bool-cases d.complete) [
    | inl q ↦ written_out-IsSettled wrote s (rw q at e)
    | inr q ↦
        subst (IsSettled h u regions d.made) (same _ s (rw q at e)) (inr (refl, refl, refl, refl))
  ]

-- Where the counts do not overflow: when `send_helper` returns, either it succeeded, each of the
-- regions has one more reference, and the remote handles stay; or it reports a disconnect, the counts
-- are as before, nothing went into the pipe, and every handle that it made in the remote process, those
-- of the objects before the first that could not be duplicated, is closed.
pub send_helper-IsSettled :
    (to_remote : Object → Option ℕ) (h : Headers) (buf : Bytes) (size : ℕ) (objects : List Object)
    (regions : List MemoryRegion) (wrote : Option ℕ) (u : ℕ) (s : Sent)
    → h.refs u + tally u regions < 2 ^ 32
    → send_helper to_remote h buf size objects regions wrote ≡ some s
    → IsSettled h u regions
        (made_by to_remote (objects ++ map (λ (r : MemoryRegion). r.obj) regions))
        s
unfolding send_helper
send_helper-IsSettled to_remote h buf size objects regions wrote u s fits e =
    let os = objects ++ map (λ (r : MemoryRegion). r.obj) regions in
    subst (λ made. IsSettled h u regions made s) (made-duplicate_all to_remote 8 os buf [])
      (sent_by-IsSettled h u regions (duplicate_all to_remote 8 os buf []) size fits wrote s e)
