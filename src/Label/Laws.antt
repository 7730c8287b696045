-- ===== src/Label/Laws.antt =====
-- ipmb/src/label.rs: a label behaves as a finite set of names.
use mathlib.Core.List.{foldl}
use ipmb.Prelude.{
  String, ◌≡◌, refl, Bool, true, false, not, ◌&&◌, ◌||◌, List, [], ◌∷◌, ◌++◌, retain, arith,
  any-append, str_eq, eq_iff, ◌∙◌,
}
use ipmb.Label.{Label, has_name, default, insert, remove, all, from}

-- No name occurs twice.
abbrev pub IsDistinct : List String → Type 0
IsDistinct [] = Unit
IsDistinct (x ∷ xs) = (has_name xs x ≡ false) × IsDistinct xs

has_name-append :
    (xs : List String) (s t : String) → has_name (xs ++ s ∷ []) t ≡ (has_name xs t || str_eq s t)
has_name-append xs s t = ground (arith, any-append (λ i. str_eq i t) xs (s ∷ []))

pub all_one : (l : Label) (s : String) → all l (s ∷ []) ≡ has_name l.names s
unfolding all
all_one l s = ground arith

str_eq_refl : (s : String) → str_eq s s ≡ true
str_eq_refl s = (eq_iff s s).1 refl

str_eq_sym : (s t : String) → str_eq s t ≡ str_eq t s
str_eq_sym s t = ground (arith, eq_iff s t, eq_iff t s)

-- A name inserted is in the label, and no other name is affected.
has_name-insert :
    (l : Label) (s t : String) → has_name (insert l s).names t ≡ (has_name l.names t || str_eq s t)
unfolding insert
has_name-insert l s t = ground (arith, has_name-append l.names s t, eq_iff s t)

has_name-remove :
    (names : List String) (s t : String)
    → has_name (retain (λ i. not (str_eq i s)) names) t ≡ (has_name names t && not (str_eq s t))
has_name-remove [] s t = refl
has_name-remove (x ∷ xs) s t =
    ground (arith, has_name-remove xs s t, eq_iff x s, eq_iff x t, eq_iff s t)

-- After `insert` of a name, a label has that name and those it had, and no other.
pub all-insert :
    (l : Label) (s t : String) → all (insert l s) (t ∷ []) ≡ (all l (t ∷ []) || str_eq s t)
all-insert l s t = rw (all_one (insert l s) t, all_one l t) (has_name-insert l s t)

-- After `remove` of a name, a label has the names it had but that one.
pub all-remove :
    (l : Label) (s t : String) → all (remove l s) (t ∷ []) ≡ (all l (t ∷ []) && not (str_eq s t))
unfolding remove
all-remove l s t =
    rw (all_one (record { names = retain (λ i. not (str_eq i s)) l.names }) t, all_one l t)
      (has_name-remove l.names s t)

IsDistinct-append :
    (xs : List String) (s : String)
    → has_name xs s ≡ false
    → IsDistinct xs
    → IsDistinct (xs ++ s ∷ [])
IsDistinct-append [] s h d = (refl, tt)
IsDistinct-append (x ∷ xs) s h d =
    ground (arith, has_name-append xs s x, eq_iff s x, eq_iff x s, IsDistinct-append xs s)

pub insert-IsDistinct :
    (l : Label) (s : String) → IsDistinct l.names → IsDistinct (insert l s).names
unfolding insert
insert-IsDistinct l s d = ground (arith, IsDistinct-append l.names s)

has_name-retain-false :
    (p : String → Bool) (xs : List String) (s : String)
    → has_name xs s ≡ false
    → has_name (retain p xs) s ≡ false
has_name-retain-false p [] s h = refl
has_name-retain-false p (x ∷ xs) s h = ground (arith, has_name-retain-false p xs s)

IsDistinct-retain :
    (p : String → Bool) (xs : List String) → IsDistinct xs → IsDistinct (retain p xs)
IsDistinct-retain p [] d = tt
IsDistinct-retain p (x ∷ xs) d =
    ground (arith, IsDistinct-retain p xs d.1, has_name-retain-false p xs x d.0)

pub remove-IsDistinct :
    (l : Label) (s : String) → IsDistinct l.names → IsDistinct (remove l s).names
unfolding remove
remove-IsDistinct l s d = IsDistinct-retain (λ i. not (str_eq i s)) l.names d

foldl-insert :
    (l : Label) (ss : List String) (t : String)
    → IsDistinct l.names
    → IsDistinct (foldl insert l ss).names
      × (has_name (foldl insert l ss).names t ≡ (has_name l.names t || has_name ss t))
foldl-insert l [] t d = (d, ground arith)
foldl-insert l (s ∷ ss) t d =
    ground (arith, foldl-insert (insert l s) ss t (insert-IsDistinct l s d), has_name-insert l s t)

-- A label built from a sequence of names has no name twice and has exactly those names.
pub from-contents :
    (ss : List String) (t : String)
    → IsDistinct (from ss).names × (all (from ss) (t ∷ []) ≡ has_name ss t)
unfolding from
from-contents ss t =
    let (d, c) = foldl-insert default ss t tt in (d, all_one (foldl insert default ss) t ∙ c)
