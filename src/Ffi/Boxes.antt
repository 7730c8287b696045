-- ===== src/Ffi/Boxes.antt =====
-- ipmb-ffi/src/lib.rs: `opaque_type!`. A handle is the address of a box; a conversion to the handle
-- makes one, and a conversion back, or a drop, frees it.
use ipmb.Prelude.{ℕ, Option, none, some, List, [], ◌∷◌, ◌==◌, if◌then◌else◌}

-- The live boxes of a type, by address. The null pointer is 0.
abbrev pub Boxes : Type 0 → Type 0
Boxes A = List (ℕ × A)

module _ {A : Type 0} where
  -- `From<$rust> for $ffi`, at a free address
  abbrev pub make_box : ℕ → A → Boxes A → Boxes A
  make_box a v bs = (a, v) ∷ bs

  abbrev pub keep_box : ℕ × A → Option (A × Boxes A) → Option (A × Boxes A)
  keep_box b none = none
  keep_box b (some (v, bs)) = some (v, b ∷ bs)

  -- `From<$ffi> for $rust`, and `Drop for $ffi`, which drops the value; `none` for an address without
  -- a box, where the behaviour is undefined
  unfoldable pub take_box : ℕ → Boxes A → Option (A × Boxes A)
  take_box a [] = none
  take_box a ((b, v) ∷ bs) =
      let rest = keep_box (b, v) (take_box a bs) in if b == a then some (v, bs) else rest

  -- `Deref`
  unfoldable pub deref : ℕ → Boxes A → Option A
  deref a [] = none
  deref a ((b, v) ∷ bs) = let rest = deref a bs in if b == a then some v else rest

  -- A write behind `DerefMut`
  unfoldable pub set_box : ℕ → A → Boxes A → Boxes A
  set_box a w [] = []
  set_box a w ((b, v) ∷ bs) =
      let rest = set_box a w bs in if b == a then (b, w) ∷ bs else (b, v) ∷ rest
