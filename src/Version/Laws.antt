-- ===== src/Version/Laws.antt =====
-- ipmb/src/lib.rs: compatibility groups the versions into series.
use ipmb.Prelude.{ℕ, zero, suc, ◌≡◌, true, ◌↔◌, arith}
use ipmb.Version.{Version, compatible}

-- The series of a version: its major number, and below 1.0 its minor number too.
pub data Series : Type 0 where
  unstable : ℕ → Series
  stable : ℕ → Series

abbrev pub series_of : ℕ → ℕ → Series
series_of zero minor = unstable minor
series_of (suc major) minor = stable major

abbrev pub series : Version → Series
series v = series_of v.major v.minor

numbers_iff :
    (m n : ℕ) (a b : ℕ)
    → (compatible
          (record { major = m; minor = a; patch = 0 })
          (record { major = n; minor = b; patch = 0 })
        ≡ true)
      ↔ (series_of m a ≡ series_of n b)
unfolding compatible
numbers_iff zero zero a b = ground arith
numbers_iff zero (suc n) a b = ground arith
numbers_iff (suc m) zero a b = ground arith
numbers_iff (suc m) (suc n) a b = ground arith

-- Two versions are compatible exactly when they are of one series.
pub compatible_iff : (v w : Version) → (compatible v w ≡ true) ↔ (series v ≡ series w)
unfolding compatible
compatible_iff v w = numbers_iff v.major w.major v.minor w.minor
