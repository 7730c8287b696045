-- ===== src/Label/Matching.antt =====
-- ipmb/src/label.rs: what `LabelOp::validate` decides, stated over the membership of names.
use mathlib.Core.List.{mem-cons, not-mem-nil}
use mathlib.Core.Logic.Or
use mathlib.Core.Bool.{Bool-set, false≢true}
use ipmb.Label.Laws.{all_one}
use ipmb.Prelude.{
  String, ◌≡◌, refl, sym, Bool, true, false, not, ◌&&◌, ◌||◌, List, [], ◌∷◌, Mem, arith, ◌↔◌, ◌∨₁◌,
  str_eq, eq_iff, Bool-cases, inl, inr,
}
use ipmb.Label.{Label, LabelOp, always, never, leaf, negate, both, either, has_name, validate}

-- The formula that an operation stands for, at the set of names of an endpoint.
abbrev pub Matches : LabelOp → List String → Type 0
Matches always names = Unit
Matches never names = ⊥
Matches (leaf v) names = Mem v names
Matches (negate left) names = ¬ Matches left names
Matches (both left right) names = Matches left names × Matches right names
Matches (either left right) names = Matches left names ∨₁ Matches right names

pub has_name_iff : (names : List String) (s : String) → (has_name names s ≡ true) ↔ Mem s names
has_name_iff [] s = (λ h. cc, λ m. absurd (not-mem-nil m))
has_name_iff (x ∷ xs) s = (
  λ h. elim (Bool-cases (str_eq x s)) [
    | inl e ↦ mem-cons.1 (Or.inl (sym ((eq_iff x s).0 e)))
    | inr n ↦ mem-cons.1 (Or.inr ((has_name_iff xs s).0 (ground arith)))
  ],
  λ m.
      Or.elim (Bool-set _ _) (mem-cons.0 m) (λ e. ground (arith, eq_iff x s))
        (λ t. ground (arith, (has_name_iff xs s).1 t)),
)

not_iff {ℓ} : {P : Type ℓ} (b : Bool) → (b ≡ true) ↔ P → (not b ≡ true) ↔ (¬ P)
not_iff true h = (λ e. cc, λ n. absurd (n (h.0 refl)))
not_iff false h = (λ e p. false≢true (h.1 p), λ n. refl)

and_iff {ℓ κ} :
    {P : Type ℓ} {Q : Type κ} (a b : Bool)
    → (a ≡ true) ↔ P
    → (b ≡ true) ↔ Q
    → ((a && b) ≡ true) ↔ (P × Q)
and_iff true b p q = (λ e. (p.0 refl, q.0 e), λ h. q.1 h.1)
and_iff false b p q = (λ e. cc, λ h. p.1 h.0)

or_iff {ℓ κ} :
    {P : Type ℓ} {Q : Type κ} (a b : Bool)
    → (a ≡ true) ↔ P
    → (b ≡ true) ↔ Q
    → ((a || b) ≡ true) ↔ (P ∨₁ Q)
or_iff true b p q = (λ e. Or.inl (p.0 refl), λ h. refl)
or_iff false b p q =
    (λ e. Or.inr (q.0 e), λ h. Or.elim (Bool-set _ _) h (λ x. absurd (false≢true (p.1 x))) q.1)

-- `validate` is true exactly when the formula that the operation stands for holds of the set of the
-- label's names.
pub validate_iff : (op : LabelOp) (l : Label) → (validate op l ≡ true) ↔ Matches op l.names
unfolding validate
validate_iff always l = (λ e. tt, λ h. refl)
validate_iff never l = (λ e. false≢true e, λ h. absurd h)
validate_iff (leaf v) l = rw (all_one l v) (has_name_iff l.names v)
validate_iff (negate left) l = not_iff (validate left l) (validate_iff left l)
validate_iff (both left right) l =
    and_iff (validate left l) (validate right l) (validate_iff left l) (validate_iff right l)
validate_iff (either left right) l =
    or_iff (validate left l) (validate right l) (validate_iff left l) (validate_iff right l)
