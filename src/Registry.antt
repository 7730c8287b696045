-- ===== src/Registry.antt =====
-- ipmb/src/memory_registry.rs: regions that are kept for some seconds and used again.
pub mod Maintain
pub mod Alloc
pub mod Pending
pub mod Callbacks
pub mod Calls
pub mod Freshness
pub mod Origin
mod Examples
use ipmb.Prelude.{
  ℕ, String, ◌+◌, ◌-◌, ◌*◌, Bool, true, false, not, ◌&&◌, Option, none, some, List, [], ◌∷◌, ◌++◌,
  str_eq, ltb, leb, ◌==◌, if◌then◌else◌, is_empty,
}
use ipmb.Region.{Object, MemoryRegion, Headers, new, drop_region, ref_count, clone}

-- `MemoryRegionEntry`; the callback of the guard is named by a number.
pub record Entry : Type 0 where
  pub region : MemoryRegion
  pub last_alloc : ℕ
  pub tag : Option String
  pub guard : Option ℕ

abbrev pub Bucket : Type 0
Bucket = ℕ × List Entry

-- The registry's map in the order of its keys, the headers of the shared memories, and the callbacks
-- that were called so far.
pub record MemoryRegistry : Type 0 where
  pub inner : List Bucket
  pub headers : Headers
  pub freed : List ℕ

-- What the system answers to the two calls that an allocation can make.
pub record Kernel : Type 0 where
  pub obj_new : Option Object
  pub duplicate : Object → Option Object

abbrev pub tag_eq : Option String → Option String → Bool
tag_eq none none = true
tag_eq (some a) (some b) = str_eq a b
tag_eq _ _ = false

-- `Drop for Guard`
abbrev pub drop_guard : Option ℕ → List ℕ → List ℕ
drop_guard none freed = freed
drop_guard (some free) freed = freed ++ free ∷ []

-- Five seconds, in nanoseconds.
abbrev pub max_age : ℕ
max_age = 5000000000
