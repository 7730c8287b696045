-- ===== src/Ffi/Labels/Examples.antt =====
-- A caller that builds `not ("a" and false)` next to a box of its own.
use ipmb.Prelude.{some, [], ◌∷◌, ◌≡◌, refl}
use ipmb.Label.{LabelOp, always, never, leaf, negate, both}
use ipmb.Ffi.Boxes.{Boxes}
use ipmb.Ffi.Labels.Laws.{build, IsBuilt, build-IsBuilt}

abbrev expression : LabelOp
expression = negate (both (leaf "a") never)

abbrev others : Boxes LabelOp
others = (7, always) ∷ []

expression_run : build expression 8 others ≡ some (11, 12, (11, expression) ∷ others)
unfolding build
expression_run = refl

build-IsBuilt_example : IsBuilt expression 8 others
build-IsBuilt_example = build-IsBuilt expression 8 others
