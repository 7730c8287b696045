-- ===== src/Version.antt =====
-- ipmb/src/lib.rs: `Version`, and the rule by which two endpoints agree to talk.
mod Examples
pub mod Laws
use ipmb.Prelude.{ℕ, ◌≡◌, Bool, ◌&&◌, ◌==◌, if◌then◌else◌}

-- Three `u8` fields.
pub record Version : Type 0 where
  pub major : ℕ
  pub minor : ℕ
  pub patch : ℕ

-- `version()`: the package's own version in ipmb/Cargo.toml
abbrev pub version : Version
version = record { major = 0; minor = 8; patch = 5 }

-- `Version::compatible`
unfoldable pub compatible : Version → Version → Bool
compatible v rhs =
    if v.major == 0 && rhs.major == 0 then v.minor == rhs.minor else v.major == rhs.major
