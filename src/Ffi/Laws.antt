-- ===== src/Ffi/Laws.antt =====
-- ipmb-ffi/src/lib.rs: error codes tell errors apart, and regions are neither lost nor doubled
-- between boxes and messages.
pub mod Counts
use ipmb.Prelude.{
  ℕ, zero, suc, ◌+◌, ◌≡◌, ◌⊎◌, ◌↔◌, inl, inr, refl, sym, ap, subst, ◌∙◌, arith, Bool, true, false,
  String, Option, none, some, List, [], ◌∷◌, ◌++◌, length, get_elem?, remove_at, get_elem?-append,
  remove_at-append, append-nil, if◌then◌else◌, ◌==◌, Bool-cases,
}
use ipmb.Errors.{Result, ok, err, JoinError, SendError, RecvError, send_error, recv_error}
use ipmb.Version.{Version, version}
use ipmb.Message.{Message, BytesMessage}
use ipmb.Region.{MemoryRegion, pos, negsuc}
use ipmb.Ffi.{ErrorCode, error_code_success, recv_code, send_code, join_error_code}
use ipmb.Ffi.Boxes.{Boxes, make_box, take_box, deref, set_box}
use ipmb.Ffi.Messages.{Store, region_append, region_appended, region_retrieve, region_get}

same : {A : Type 0} (x y : A) → some x ≡ some y → x ≡ y
same x y h = cc

module _ {A : Type 0} (m : ℕ) where
  deref-set_box : (v w : A) (bs : Boxes A) → deref m bs ≡ some v → deref m (set_box m w bs) ≡ some w
  unfolding deref set_box
  deref-set_box v w [] h = absurd (ground arith)
  deref-set_box v w ((b, x) ∷ bs) h = elim (Bool-cases (b == m)) [
    | inl e ↦ rw (e, e) refl
    | inr e ↦ rw (e, e) (deref-set_box v w bs (rw e at h))
  ]

  set_box-set_box :
      (v w : A) (bs : Boxes A) → deref m bs ≡ some v → set_box m v (set_box m w bs) ≡ bs
  unfolding deref set_box
  set_box-set_box v w [] h = refl
  set_box-set_box v w ((b, x) ∷ bs) h = elim (Bool-cases (b == m)) [
    | inl e ↦ rw (e, e) (ground (arith, same x v (rw e at h)))
    | inr e ↦ rw (e, e) (ap (◌∷◌ (b, x)) (set_box-set_box v w bs (rw e at h)))
  ]

-- A store after a region was put behind those of a message.
abbrev with_region :
    ℕ
    → Boxes (Message BytesMessage)
    → Boxes MemoryRegion
    → MemoryRegion
    → Message BytesMessage
    → Store
with_region m ms rs r v = record {
  messages = set_box m (record v { memory_regions = v.memory_regions ++ r ∷ [] }) ms;
  regions = rs;
}

taken :
    (m : ℕ) (s s' : Store) (o : Option (MemoryRegion × Boxes MemoryRegion))
    (d : Option (Message BytesMessage)) (v : Message BytesMessage)
    → d ≡ some v
    → region_appended m s o d ≡ some s'
    → (r : MemoryRegion) × (rs : Boxes MemoryRegion) × (o ≡ some (r, rs))
      × (with_region m s.messages rs r v ≡ s')
taken m s s' none d v q h = absurd (ground arith)
taken m s s' (some (r, rs)) none v q h = absurd (ground arith)
taken m s s' (some (r, rs)) (some v') v q h =
    (r, rs, refl, ap (with_region m s.messages rs r) (sym (same v' v q)) ∙ same _ s' h)

retrieved :
    (m a : ℕ) (ms : Boxes (Message BytesMessage)) (rs : Boxes MemoryRegion) (r : MemoryRegion)
    (v : Message BytesMessage)
    → deref m ms ≡ some v
    → (region_get m (length v.memory_regions) (with_region m ms rs r v) ≡ some (some r))
      × (region_retrieve a m (length v.memory_regions) (with_region m ms rs r v)
          ≡ some (a, record { messages = ms; regions = make_box a r rs }))
unfolding region_get region_retrieve
retrieved m a ms rs r v q =
    let w = record v { memory_regions = v.memory_regions ++ r ∷ [] } in
    (
      rw (region_get, deref-set_box m v w ms q, get_elem?-append v.memory_regions [] r) refl,
      rw
          (
            region_retrieve,
            deref-set_box m v w ms q,
            get_elem?-append v.memory_regions [] r,
            remove_at-append v.memory_regions [] r,
            append-nil v.memory_regions,
            set_box-set_box m v w ms q,
          )
          refl,
    )

-- A region appended to a message stands last in the message's regions: a handle got for that index
-- points to it, and retrieving it there gives a box of the same region, with the message as it was
-- before, and the box of the region that was appended freed.
pub region_append-region_retrieve :
    (m region a : ℕ) (s s' : Store) (v : Message BytesMessage)
    → deref m s.messages ≡ some v
    → region_append m region s ≡ some s'
    → (r : MemoryRegion) × (rs : Boxes MemoryRegion) × (take_box region s.regions ≡ some (r, rs))
      × (region_get m (length v.memory_regions) s' ≡ some (some r))
      × (region_retrieve a m (length v.memory_regions) s'
          ≡ some (a, record { messages = s.messages; regions = make_box a r rs }))
unfolding region_append
region_append-region_retrieve m region a s s' v q h =
    let (r, rs, t, e) = taken m s s' (take_box region s.regions) (deref m s.messages) v q h in
    let both = retrieved m a s.messages rs r v q in
    (
      r,
      rs,
      t,
      subst (λ x. region_get m (length v.memory_regions) x ≡ some (some r)) e both.0,
      subst
          (λ x.
            region_retrieve a m (length v.memory_regions) x
            ≡ some (a, record { messages = s.messages; regions = make_box a r rs }))
          e both.1,
    )

-- The error behind a code, given the version for a mismatch of versions.
abbrev pub meaning : Version → ErrorCode → Option RecvError
meaning v (pos n) = none
meaning v (negsuc zero) = none
meaning v (negsuc (suc zero)) = some RecvError.timeout
meaning v (negsuc (suc (suc zero))) = some RecvError.decode
meaning v (negsuc (suc (suc (suc zero)))) = some (RecvError.version_mismatch v)
meaning v (negsuc (suc (suc (suc (suc zero))))) = some RecvError.token_mismatch
meaning v (negsuc (suc (suc (suc (suc (suc zero)))))) = some RecvError.permission_denied
meaning v (negsuc (suc (suc (suc (suc (suc (suc n))))))) = none

abbrev pub version_in : RecvError → Version
version_in e = elim e [
  | RecvError.version_mismatch v ↦ v
  | RecvError.decode ↦ version
  | RecvError.timeout ↦ version
  | RecvError.token_mismatch ↦ version
  | RecvError.permission_denied ↦ version
]

meaning_of :
    (A : Type 0) (e : RecvError) → meaning (version_in e) (recv_code {A = A} (err e)) ≡ some e
unfolding recv_code
meaning_of A RecvError.decode = refl
meaning_of A RecvError.timeout = refl
meaning_of A (RecvError.version_mismatch v) = refl
meaning_of A RecvError.token_mismatch = refl
meaning_of A RecvError.permission_denied = refl

-- The code of `ipmb_recv` tells which error it was, up to the version of a mismatch, and is not that of
-- success; and an error of a join has one code, whether it is met in `ipmb_join`, in `ipmb_send` or
-- in `ipmb_recv`.
pub codes_tell :
    (A : Type 0) (e : RecvError) (j : JoinError)
    → (meaning (version_in e) (recv_code {A = A} (err e)) ≡ some e)
      × (send_code {A = A} (err (send_error j)) ≡ join_error_code j)
      × (recv_code {A = A} (err (recv_error j)) ≡ join_error_code j)
unfolding recv_code send_code send_error recv_error
codes_tell A e j = (meaning_of A e, ground arith, ground arith)
