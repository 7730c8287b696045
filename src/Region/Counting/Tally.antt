-- ===== src/Region/Counting/Tally.antt =====
-- ipmb/src/platform/mod.rs: what a pass over the regions of a message does to the counts.
use ipmb.Prelude.{ℕ, ◌+◌, ◌-◌, ◌^◌, ◌≤◌, ◌<◌, ◌≡◌, refl, List, [], ◌∷◌, arith, ◌==◌, if◌then◌else◌}
use ipmb.Region.{
  pos, negsuc, Object, MemoryRegion, Headers, ref_count_inner, add_refs, sub_refs, receive_region,
  receive_regions,
}

-- How many of the regions refer to a target.
abbrev pub tally : ℕ → List MemoryRegion → ℕ
tally u [] = 0
tally u (r ∷ rs) = if r.obj.target == u then tally u rs + 1 else tally u rs

abbrev pub object_tally : ℕ → List Object → ℕ
object_tally u [] = 0
object_tally u (obj ∷ objs) =
    if obj.target == u then object_tally u objs + 1 else object_tally u objs

module _ (u : ℕ) where
  pub refs-add_refs :
      (h : Headers) (rs : List MemoryRegion)
      → h.refs u + tally u rs < 2 ^ 32
      → (add_refs h rs).refs u ≡ h.refs u + tally u rs
  unfolding add_refs
  refs-add_refs h [] b = omega arith
  refs-add_refs h (r ∷ rs) b =
      ground (arith, refs-add_refs (ref_count_inner h r.obj.target (pos 1)).1 rs)

  pub refs-sub_refs :
      (h : Headers) (rs : List MemoryRegion)
      → tally u rs ≤ h.refs u
      → h.refs u < 2 ^ 32
      → (sub_refs h rs).refs u ≡ h.refs u - tally u rs
  unfolding sub_refs
  refs-sub_refs h [] b c = omega arith
  refs-sub_refs h (r ∷ rs) b c =
      ground (arith, refs-sub_refs (ref_count_inner h r.obj.target (negsuc 0)).1 rs)

  pub refs-receive_region :
      (h : Headers) (obj : Object) → h.refs u < 2 ^ 32 → (receive_region h obj).1.refs u ≡ h.refs u
  unfolding receive_region
  refs-receive_region h obj b = ground arith

  pub refs-receive_regions :
      (h : Headers) (objs : List Object)
      → h.refs u < 2 ^ 32
      → (receive_regions h objs).1.refs u ≡ h.refs u
  unfolding receive_regions
  refs-receive_regions h [] b = refl
  refs-receive_regions h (obj ∷ objs) b =
      ground
        (arith, refs-receive_region h obj b, refs-receive_regions (receive_region h obj).1 objs)
