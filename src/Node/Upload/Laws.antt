-- ===== src/Node/Upload/Laws.antt =====
-- ipmb-js/src/lib.rs: what `Sender::send` writes into the regions that it fills.
use ipmb.Prelude.{
  ℕ, ◌+◌, ◌^◌, ◌≤◌, ◌<◌, ◌≡◌, inl, inr, refl, arith, Option, none, some, List, [], ◌∷◌, length, All,
}
use ipmb.Errors.{Error, Result, ok, err}
use ipmb.Message.{Bytes}
use ipmb.Region.{Object, MappedRegion, MemoryRegion, Headers, header_length}
use ipmb.Region.Mapping.{System, map_range, map_object}
use ipmb.Util.{unbounded}
use ipmb.Registry.{Entry, Bucket, MemoryRegistry, Kernel}
use ipmb.Registry.Alloc.{alloc_within}
use ipmb.Registry.Origin.{alloc_within-origin, IsReused, IsReusedIn}
use ipmb.Node.Upload.{Upload, Copy, allocated, copied, upload}

-- A header tells the size of the bucket that its entry stands in, which leaves room for the header.
abbrev pub IsSized : MemoryRegistry → Type 0
IsSized m =
    All
      (λ (b : Bucket).
        All
          (λ (e : Entry).
            (m.headers.sizes e.region.obj.target ≡ b.0) × (b.0 + header_length < 2 ^ 64))
          b.1)
      m.inner

module _ (h : Headers) (min_size : ℕ) (tag : Option _) (region : MemoryRegion) where
  reused_size :
      (size : ℕ) (es : List Entry)
      → All
          (λ (e : Entry). (h.sizes e.region.obj.target ≡ size) × (size + header_length < 2 ^ 64))
          es
      → IsReused h tag region es
      → (region.buffer_size ≡ size) × (size + header_length < 2 ^ 64)
  reused_size size [] a r = absurd r
  reused_size size (e ∷ es) a (inl r) = (omega (arith, r, a), a.0.1)
  reused_size size (e ∷ es) a (inr r) = reused_size size es a.1 r

  reused_in_size :
      (bs : List Bucket)
      → All
          (λ (b : Bucket).
            All
              (λ (e : Entry). (h.sizes e.region.obj.target ≡ b.0) × (b.0 + header_length < 2 ^ 64))
              b.1)
          bs
      → IsReusedIn h min_size tag region bs
      → (min_size ≤ region.buffer_size) × (region.buffer_size + header_length < 2 ^ 64)
  reused_in_size [] a r = absurd r
  reused_in_size (b ∷ bs) a (inl r) = omega (arith, r, reused_size b.0 b.1 a.0 r.2)
  reused_in_size (b ∷ bs) a (inr r) = reused_in_size bs a.1 r

map_rest :
    (sys : System) (r r' : MemoryRegion) (slice : MappedRegion)
    → r.buffer_size + header_length < 2 ^ 64
    → map_range sys r unbounded unbounded ≡ (ok slice, r')
    → (slice.offset ≡ header_length) × (slice.len ≡ r.buffer_size)
unfolding map_range map_object
map_rest sys r r' slice b e = ground arith

copied_fits :
    (sys : System) (buf : Bytes) (r region : MemoryRegion) (copy : Copy) (m m' : MemoryRegistry)
    (o : Result MappedRegion Error × MemoryRegion)
    → map_range sys r unbounded unbounded ≡ o
    → length buf ≤ r.buffer_size
    → r.buffer_size + header_length < 2 ^ 64
    → copied buf m o ≡ (ok (region, copy), m')
    → (copy.bytes ≡ buf) × (copy.target.offset ≡ header_length) × (length buf ≤ copy.target.len)
copied_fits sys buf r region copy m m' (ok slice, r') q l b e =
    ground (arith, map_rest sys r r' slice b q)
copied_fits sys buf r region copy m m' (err x, r') q l b e = absurd (ground arith)

allocated_fits :
    (sys : System) (buf : Bytes) (region : MemoryRegion) (copy : Copy)
    (o : Option MemoryRegion × MemoryRegistry) (m' : MemoryRegistry)
    → ((r : MemoryRegion)
        → o.0 ≡ some r
        → (length buf ≤ r.buffer_size) × (r.buffer_size + header_length < 2 ^ 64))
    → allocated sys buf o ≡ (ok (region, copy), m')
    → (copy.bytes ≡ buf) × (copy.target.offset ≡ header_length) × (length buf ≤ copy.target.len)
allocated_fits sys buf region copy (none, m) m' h e = absurd (ground arith)
allocated_fits sys buf region copy (some r, m) m' h e =
    let (l, b) = h r refl in copied_fits sys buf r region copy m m' _ refl l b e

alloc_sizes :
    (k : Kernel) (now size : ℕ) (m : MemoryRegistry) (region : MemoryRegion)
    → ((o d : Object) → k.duplicate o ≡ some d → d.target ≡ o.target)
    → IsSized m
    → size + header_length < 2 ^ 64
    → (alloc_within k now size none none m).0 ≡ some region
    → (size ≤ region.buffer_size) × (region.buffer_size + header_length < 2 ^ 64)
alloc_sizes k now size m region same sized b e =
    elim (alloc_within-origin k now size none none m region same e) [
      | inl r ↦ reused_in_size m.headers size none region m.inner sized r
      | inr (obj, q, o, z) ↦ omega (arith, z)
    ]

-- Where the system's duplicates refer to the object that they duplicate, the headers of the registry's
-- regions tell the sizes that they stand under, and sizes with the header fit in 64 bits: when the body
-- of the loop of `send` succeeds, the caller's bytes are what was copied, to the slice behind the
-- region's header, which is long enough for all of them.
pub upload-fits :
    (sys : System) (u : Upload) (m m' : MemoryRegistry) (region : MemoryRegion) (copy : Copy)
    → ((o d : Object) → u.kernel.duplicate o ≡ some d → d.target ≡ o.target)
    → IsSized m
    → length u.buf + header_length < 2 ^ 64
    → upload sys u m ≡ (ok (region, copy), m')
    → (copy.bytes ≡ u.buf) × (copy.target.offset ≡ header_length) × (length u.buf ≤ copy.target.len)
unfolding upload
upload-fits sys u m m' region copy same sized b e =
    allocated_fits sys u.buf region copy (alloc_within u.kernel u.now (length u.buf) none none m) m'
      (λ r q. alloc_sizes u.kernel u.now (length u.buf) m r same sized b q) e
