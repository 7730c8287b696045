-- ===== src/Region/Examples.antt =====
-- Two regions of one kernel object, and the mapping of a range.
use ipmb.Prelude.{◌+◌, ◌-◌, ◌≡◌, refl, none, some, arith}
use ipmb.Errors.{ok}
use ipmb.Util.{included, excluded}
use ipmb.Region.{
  Object, MappedRegion, MemoryRegion, new, from_object, drop_region, ref_count, ref_count_inner,
}
use ipmb.Region.Counting.{
  Sharing, create, duplicate, release, Reach, here, next, IsCounted, Reach-IsCounted, sole_owner,
  plus_one, minus_one,
}
use ipmb.Region.Mapping.{System, trunc_page, map_object, map_range}

abbrev first : Object
first = record { raw = 11; target = 0 }

abbrev second : Object
second = record { raw = 12; target = 0 }

abbrev region : Object → MemoryRegion
region o = record { buffer_size = 100; buffer = none; obj = o }

abbrev start : Sharing
start = record {
  headers = record { refs = λ u. 0; sizes = λ u. 0 };
  live = λ u. 0;
  flight = λ u. 0;
}

abbrev created : Sharing
created = record start { headers = (new start.headers first 100).1; live = plus_one start.live 0 }

abbrev duplicated : Sharing
duplicated = record created {
  headers = (from_object created.headers second).1;
  live = plus_one created.live 0;
}

abbrev released : Sharing
released = record duplicated {
  headers = drop_region duplicated.headers (region first);
  live = minus_one duplicated.live 0;
}

start-IsCounted : IsCounted start
start-IsCounted = record { exact = λ u. refl; fits = λ u. omega arith }

-- A region is created and cloned, and the first handle is dropped.
reached : Reach start released
reached =
    next (next (next here (create first 100 refl)) (duplicate second (omega arith)))
      (release (region first) (omega arith))

Reach-IsCounted_example : IsCounted released
Reach-IsCounted_example = Reach-IsCounted start-IsCounted reached

released-count : ref_count released.headers (region second) ≡ 1
unfolding ref_count ref_count_inner new from_object drop_region
released-count = refl

sole_owner_example : (released.live 0 ≡ 1) × (released.flight 0 ≡ 0)
sole_owner_example = sole_owner (region second) start-IsCounted reached (omega arith) released-count

-- Pages of 4096 bytes, mapped at an address behind the object's offset.
abbrev system : System
system = record { page_size = 4096; map = λ obj off len. ok (65536 + off) }

page_mapped :
    system.map first (trunc_page system 5000) (5000 - trunc_page system 5000 + 100) ≡ ok 69632
unfolding trunc_page
page_mapped = refl

abbrev slice : MappedRegion
slice = record { offset = 22; ptr = 65558; len = 40 }

slice_mapped :
    map_range system (region first) (included 10) (excluded 50)
    ≡ (ok slice, record (region first) { buffer = some slice })
unfolding map_range map_object trunc_page
slice_mapped = refl
