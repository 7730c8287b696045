-- ===== src/Version/Examples.antt =====
-- Versions of one series, and of two.
use ipmb.Prelude.{◌≡◌, refl, false}
use ipmb.Version.{Version, version, compatible}

abbrev older : Version
older = record { major = 0; minor = 7; patch = 9 }

older_refused : compatible version older ≡ false
unfolding compatible
older_refused = refl
