-- ===== src/Label/Examples.antt =====
-- A label of two names, and an operation on labels.
use ipmb.Prelude.{◌≡◌, refl, true, [], ◌∷◌, ◌↔◌}
use ipmb.Label.{Label, LabelOp, leaf, negate, both, either, insert, remove, from, validate}
use ipmb.Label.Matching.{Matches, validate_iff}

abbrev planets : Label
planets = record { names = "earth" ∷ "mars" ∷ [] }

abbrev earth_not_moon : LabelOp
earth_not_moon = both (leaf "earth") (negate (either (leaf "moon") (leaf "sun")))

-- A name that is there is not inserted again.
insert_twice : insert planets "mars" ≡ planets
unfolding insert
insert_twice = refl

remove_runs : (remove planets "earth").names ≡ "mars" ∷ []
unfolding remove
remove_runs = refl

from_runs : (from ("a" ∷ "b" ∷ "a" ∷ [])).names ≡ "a" ∷ "b" ∷ []
unfolding from insert
from_runs = refl

validate_iff_example :
    (validate earth_not_moon planets ≡ true) ↔ Matches earth_not_moon planets.names
validate_iff_example = validate_iff earth_not_moon planets
