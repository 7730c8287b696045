-- ===== src/Region/Counting.antt =====
-- ipmb/src/platform/mod.rs and the `send` and receive functions of the platforms: the count in a
-- header is the number of regions that refer to it, those in unread messages included.
pub mod Tally
use Tally.{refs-add_refs, refs-sub_refs, refs-receive_regions, tally, object_tally}
use ipmb.Prelude.{ℕ, ◌+◌, ◌-◌, ◌^◌, ◌≤◌, ◌<◌, ◌≡◌, List, arith, ◌==◌, if◌then◌else◌}
use ipmb.Region.{
  Object, MemoryRegion, Headers, ref_count_inner, new, from_object, drop_region, ref_count,
  add_refs, sub_refs, receive_regions, update,
}

-- The headers of all shared memories, with what the processes hold: for each kernel object, how
-- many live `MemoryRegion` values refer to it, and how often it is in a message that was written
-- and has not been received.
pub record Sharing : Type 0 where
  pub headers : Headers
  pub live : ℕ → ℕ
  pub flight : ℕ → ℕ

abbrev pub plus_one : (ℕ → ℕ) → ℕ → ℕ → ℕ
plus_one f t u = if t == u then f u + 1 else f u

abbrev pub minus_one : (ℕ → ℕ) → ℕ → ℕ → ℕ
minus_one f t u = if t == u then f u - 1 else f u

abbrev pub limit : ℕ
limit = 2 ^ 32

-- What a process can do to a region: create, clone or drop one, write a message that carries some,
-- fail to write it, and receive some.
pub data Step (s : Sharing) : Sharing → Type 0 where
  create :
      (obj : Object) (size : ℕ)
      → s.live obj.target + s.flight obj.target ≡ 0
      → Step s
          (record s { headers = (new s.headers obj size).1; live = plus_one s.live obj.target })
  duplicate :
      (obj : Object)
      → s.live obj.target + s.flight obj.target + 1 < limit
      → Step s
          (record s { headers = (from_object s.headers obj).1; live = plus_one s.live obj.target })
  release :
      (r : MemoryRegion)
      → 0 < s.live r.obj.target
      → Step s
          (record s { headers = drop_region s.headers r; live = minus_one s.live r.obj.target })
  written :
      (rs : List MemoryRegion)
      → ((u : ℕ) → s.live u + s.flight u + tally u rs < limit)
      → Step s (record s { headers = add_refs s.headers rs; flight = λ u. s.flight u + tally u rs })
  not_written :
      (rs : List MemoryRegion)
      → ((u : ℕ) → s.live u + s.flight u + tally u rs < limit)
      → Step s (record s { headers = sub_refs (add_refs s.headers rs) rs })
  received :
      (objs : List Object)
      → ((u : ℕ) → object_tally u objs ≤ s.flight u)
      → Step s (record s {
        headers = (receive_regions s.headers objs).1;
        live = λ u. s.live u + object_tally u objs;
        flight = λ u. s.flight u - object_tally u objs;
      })

pub data Reach (s : Sharing) : Sharing → Type 0 where
  here : Reach s s
  next : {t u : Sharing} → Reach s t → Step t u → Reach s u

pub record IsCounted (s : Sharing) : Type 0 where
  pub exact : (u : ℕ) → s.headers.refs u ≡ s.live u + s.flight u
  pub fits : (u : ℕ) → s.live u + s.flight u < limit

pub Step-IsCounted : {s t : Sharing} → Step s t → IsCounted s → IsCounted t
unfolding new from_object drop_region ref_count_inner
Step-IsCounted {s} (create obj size h) c = record {
  exact = λ u. ground (arith, c.exact u);
  fits = λ u. ground (arith, c.fits u);
}
Step-IsCounted {s} (duplicate obj h) c = record {
  exact = λ u. ground (arith, c.exact u, c.exact obj.target);
  fits = λ u. ground (arith, c.fits u);
}
Step-IsCounted {s} (release r h) c = record {
  exact = λ u. ground (arith, c.exact u, c.exact r.obj.target, c.fits r.obj.target);
  fits = λ u. ground (arith, c.fits u);
}
Step-IsCounted {s} (written rs h) c = record {
  exact = λ u. ground (arith, c.exact u, h u, refs-add_refs u s.headers rs);
  fits = λ u. omega (arith, h u);
}
Step-IsCounted {s} (not_written rs h) c = record {
  exact = λ u. ground (
    arith,
    c.exact u,
    h u,
    refs-add_refs u s.headers rs,
    refs-sub_refs u (add_refs s.headers rs) rs,
  );
  fits = c.fits;
}
Step-IsCounted {s} (received objs h) c = record {
  exact = λ u. ground (arith, c.exact u, c.fits u, h u, refs-receive_regions u s.headers objs);
  fits = λ u. omega (arith, c.fits u, h u);
}

-- From a state where each header's count is the number of live regions plus the number of regions in
-- messages that have not been received, and fits 32 bits, every reachable state is such a state.
pub Reach-IsCounted : {s t : Sharing} → IsCounted s → Reach s t → IsCounted t
Reach-IsCounted c here = c
Reach-IsCounted c (next r st) = Step-IsCounted st (Reach-IsCounted c r)

-- In a state reachable from one where the counts are right, a live region whose count reads 1 is the only one that refers to its kernel
-- object: no other live region does, and no message that carries it is under way.
pub sole_owner :
    {s t : Sharing} (r : MemoryRegion)
    → IsCounted s
    → Reach s t
    → 0 < t.live r.obj.target
    → ref_count t.headers r ≡ 1
    → (t.live r.obj.target ≡ 1) × (t.flight r.obj.target ≡ 0)
unfolding ref_count ref_count_inner
sole_owner r c reach held one = let v = (Reach-IsCounted c reach).exact r.obj.target in omega arith
