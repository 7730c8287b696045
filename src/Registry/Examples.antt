-- ===== src/Registry/Examples.antt =====
-- A registry with two regions of one bucket, of which one is in use.
use ipmb.Prelude.{ℕ, ◌-◌, ◌≡◌, refl, ◌⊎◌, none, some, [], ◌∷◌, ◌^◌, Option}
use ipmb.Region.{Object, MemoryRegion, ref_count, ref_count_inner, from_object, clone, drop_region}
use ipmb.Registry.{Entry, MemoryRegistry, Kernel, max_age}
use ipmb.Registry.Maintain.{maintain_entry, maintain_entries, maintain_buckets, maintain_inner}
use ipmb.Registry.Alloc.{find_entry, find_bucket, alloc_within, alloc_inner}
use ipmb.Registry.Calls.{IsAccounted, callbacks-alloc_inner}
use ipmb.Registry.Origin.{IsReusedIn, IsCreated, alloc_inner-origin}

abbrev obj : ℕ → Object
obj n = record { raw = n; target = n }

abbrev entry : ℕ → ℕ → Entry
entry n last = record {
  region = record { buffer_size = 100; buffer = none; obj = obj n };
  last_alloc = last;
  tag = none;
  guard = some n;
}

-- The regions of the objects 1 and 2; the first is in use elsewhere.
abbrev registry : MemoryRegistry
registry = record {
  inner = (100, entry 1 0 ∷ entry 2 0 ∷ []) ∷ [];
  headers = record { refs = λ u. 3 - u; sizes = λ u. 100 };
  freed = [];
}

abbrev kernel : Kernel
kernel = record { obj_new = some (obj 9); duplicate = λ o. some (record o { raw = 50 }) }

abbrev handed : MemoryRegion
handed = record { buffer_size = 100; buffer = none; obj = record { raw = 50; target = 2 } }

abbrev behind_it : Option MemoryRegion × MemoryRegistry
behind_it = alloc_within kernel 10 60 none (some 7) registry

alloc_runs : (behind_it.0 ≡ some handed) × (behind_it.1.freed ≡ 2 ∷ [])
unfolding alloc_within find_bucket find_entry maintain_inner maintain_buckets maintain_entries
    maintain_entry ref_count ref_count_inner clone from_object
alloc_runs = (refl, refl)

-- After five seconds the callback of a region is called though the region is in use elsewhere.
in_use_is_freed : (maintain_inner max_age registry).freed ≡ 1 ∷ 2 ∷ []
unfolding maintain_inner maintain_buckets maintain_entries maintain_entry ref_count ref_count_inner
    drop_region
in_use_is_freed = refl

handed_run : alloc_inner kernel 10 60 none (some 7) registry ≡ some (some handed, behind_it.1)
unfolding alloc_inner alloc_within find_bucket find_entry maintain_inner maintain_buckets
    maintain_entries maintain_entry ref_count ref_count_inner clone from_object
handed_run = refl

-- Twice the size overflows.
huge_panics : alloc_inner kernel 10 (2 ^ 63) none none registry ≡ none
unfolding alloc_inner
huge_panics = refl

callbacks-alloc_inner_example :
    IsAccounted 7 kernel 10 60 none (some 7) registry (some handed, behind_it.1)
callbacks-alloc_inner_example =
    callbacks-alloc_inner 7 kernel 10 60 none (some 7) registry (some handed, behind_it.1)
      handed_run

target_kept : (o d : Object) → some (record o { raw = 50 }) ≡ some d → d.target ≡ o.target
target_kept o d e = cc

alloc_inner-origin_example :
    IsReusedIn registry.headers 60 none handed registry.inner ⊎ IsCreated kernel 60 handed
alloc_inner-origin_example =
    alloc_inner-origin kernel 10 60 none (some 7) registry behind_it.1 handed target_kept handed_run
