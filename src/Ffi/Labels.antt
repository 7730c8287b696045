-- ===== src/Ffi/Labels.antt =====
-- ipmb-ffi/src/lib.rs: label expressions of the C interface. A call takes the boxes behind the handles
-- that it is given, and makes a box for its result.
pub mod Laws
mod Examples
use ipmb.Prelude.{ℕ, suc, String, Bool, true, false, Option, none, some, List, [], ◌∷◌, ◌>>=◌}
use ipmb.Label.{Label, LabelOp, and, or, negation, default, insert}
use ipmb.Ffi.{label_op_bool, label_op_leaf}
use ipmb.Ffi.Boxes.{Boxes, make_box, take_box, deref, set_box}

-- `ipmb_label`, `ipmb_label_insert`: `none` for a handle without a box
abbrev pub label : ℕ → Boxes Label → Boxes Label
label a bs = make_box a default bs

unfoldable pub label_insert : ℕ → String → Boxes Label → Option (Boxes Label)
unfolding deref set_box
label_insert a s bs = deref a bs >>= λ l. some (set_box a (insert l s) bs)

-- `ipmb_label_op_bool`, `ipmb_label_op_leaf`, in a box at a free address
abbrev pub op_bool : ℕ → Bool → Boxes LabelOp → Boxes LabelOp
op_bool a v bs = make_box a (label_op_bool v) bs

abbrev pub op_leaf : ℕ → String → Boxes LabelOp → Boxes LabelOp
op_leaf a s bs = make_box a (label_op_leaf s) bs

-- `ipmb_label_op_not`
unfoldable pub op_not : ℕ → ℕ → Boxes LabelOp → Option (Boxes LabelOp)
unfolding take_box
op_not a left bs = take_box left bs >>= λ l. some (make_box a (negation l.0) l.1)

-- `ipmb_label_op_and`; the handle on the right is taken where it is passed on.
unfoldable pub op_and : ℕ → ℕ → ℕ → Boxes LabelOp → Option (Boxes LabelOp)
unfolding take_box
op_and a left right bs = do
  l ← take_box left bs
  r ← take_box right l.1
  some (make_box a (and l.0 r.0) r.1)

-- `ipmb_label_op_or`
unfoldable pub op_or : ℕ → ℕ → ℕ → Boxes LabelOp → Option (Boxes LabelOp)
unfolding take_box
op_or a left right bs = do
  l ← take_box left bs
  r ← take_box right l.1
  some (make_box a (or l.0 r.0) r.1)

-- `ipmb_label_op_drop`
unfoldable pub op_drop : ℕ → Boxes LabelOp → Option (Boxes LabelOp)
unfolding take_box
op_drop left bs = take_box left bs >>= λ l. some l.1
