-- ===== src/Ffi/Labels/Laws.antt =====
-- ipmb-ffi/src/lib.rs: a caller can build every label expression, and nothing is left over.
use ipmb.Prelude.{ℕ, suc, ◌≡◌, ◌≤◌, ◌<◌, refl, arith, true, false, Option, some, ◌∷◌, ==_iff, ◌>>=◌}
use ipmb.Label.{LabelOp, always, never, leaf, negate, both, either}
use ipmb.Ffi.Boxes.{Boxes, take_box}
use ipmb.Ffi.Labels.{op_bool, op_leaf, op_not, op_and, op_or, op_drop}

-- A caller that builds an expression, where the allocator gives ascending addresses: the handle, the
-- next address, and the boxes.
unfoldable pub build : LabelOp → ℕ → Boxes LabelOp → Option (ℕ × ℕ × Boxes LabelOp)
unfolding op_not op_and op_or
build always n bs = some (n, suc n, op_bool n true bs)
build never n bs = some (n, suc n, op_bool n false bs)
build (leaf s) n bs = some (n, suc n, op_leaf n s bs)
build (negate op) n bs = do
  (left, n', bs') ← build op n bs
  bs'' ← op_not n' left bs'
  some (n', suc n', bs'')
build (both op v) n bs = do
  (left, n', bs') ← build op n bs
  (right, n'', bs'') ← build v n' bs'
  bs''' ← op_and n'' left right bs''
  some (n'', suc n'', bs''')
build (either op v) n bs = do
  (left, n', bs') ← build op n bs
  (right, n'', bs'') ← build v n' bs'
  bs''' ← op_or n'' left right bs''
  some (n'', suc n'', bs''')

module _ {A : Type 0} where
  take_box-head : (a : ℕ) (v : A) (bs : Boxes A) → take_box a ((a, v) ∷ bs) ≡ some (v, bs)
  unfolding take_box
  take_box-head a v bs = ground (arith, ==_iff a a)

  take_box-below :
      (a b : ℕ) (v w : A) (bs : Boxes A)
      → a < b
      → take_box a ((b, w) ∷ (a, v) ∷ bs) ≡ some (v, (b, w) ∷ bs)
  unfolding take_box
  take_box-below a b v w bs h = ground (arith, ==_iff b a, ==_iff a a)

-- The expression is in one new box on top of the boxes that were there.
abbrev pub IsBuilt : LabelOp → ℕ → Boxes LabelOp → Type 0
IsBuilt op n bs =
    (h : ℕ) × (n' : ℕ) × (build op n bs ≡ some (h, n', (h, op) ∷ bs))
    × (n ≤ h)
    × (h < n')
    × (op_drop h ((h, op) ∷ bs) ≡ some bs)

dropped : (h : ℕ) (op : LabelOp) (bs : Boxes LabelOp) → op_drop h ((h, op) ∷ bs) ≡ some bs
unfolding op_drop
dropped h op bs = rw (take_box-head h op bs) refl

-- Where the allocator gives ascending addresses, a caller can build every expression with the calls
-- for its parts: the handle that it gets stands for that expression, the boxes of the parts are gone,
-- those of others are as they were, and to drop the handle frees what was made.
pub build-IsBuilt : (op : LabelOp) (n : ℕ) (bs : Boxes LabelOp) → IsBuilt op n bs
unfolding build op_not op_and op_or
build-IsBuilt always n bs = (n, suc n, refl, omega arith, omega arith, dropped n always bs)
build-IsBuilt never n bs = (n, suc n, refl, omega arith, omega arith, dropped n never bs)
build-IsBuilt (leaf s) n bs = (n, suc n, refl, omega arith, omega arith, dropped n (leaf s) bs)
build-IsBuilt (negate op) n bs =
    let (h, n', e, low, high, d) = build-IsBuilt op n bs in
    (
      n',
      suc n',
      rw (e, take_box-head h op bs) refl,
      omega arith,
      omega arith,
      dropped n' (negate op) bs,
    )
build-IsBuilt (both op v) n bs =
    let (h, n', e, low, high, d) = build-IsBuilt op n bs in
    let (h', n'', e', low', high', d') = build-IsBuilt v n' ((h, op) ∷ bs) in
    (
      n'',
      suc n'',
      rw (e, e', take_box-below h h' op v bs (omega arith), take_box-head h' v bs) refl,
      omega arith,
      omega arith,
      dropped n'' (both op v) bs,
    )
build-IsBuilt (either op v) n bs =
    let (h, n', e, low, high, d) = build-IsBuilt op n bs in
    let (h', n'', e', low', high', d') = build-IsBuilt v n' ((h, op) ∷ bs) in
    (
      n'',
      suc n'',
      rw (e, e', take_box-below h h' op v bs (omega arith), take_box-head h' v bs) refl,
      omega arith,
      omega arith,
      dropped n'' (either op v) bs,
    )
