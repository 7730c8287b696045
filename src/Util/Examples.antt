-- ===== src/Util/Examples.antt =====
-- Sizes that are rounded up.
use ipmb.Prelude.{◌≡◌, refl}
use ipmb.Util.{align4}

align4_runs : align4 64 13 ≡ 16
unfolding align4
align4_runs = refl
