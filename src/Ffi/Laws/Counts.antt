-- ===== src/Ffi/Laws/Counts.antt =====
-- ipmb-ffi/src/lib.rs: how many regions boxes and messages hold.
use ipmb.Prelude.{
  ℕ, zero, suc, ◌+◌, ◌≡◌, inl, inr, refl, ap, subst, ◌∙◌, arith, Option, none, some, List, [], ◌∷◌,
  ◌++◌, get_elem?, remove_at, if◌then◌else◌, ◌==◌, Bool-cases, Option-cases, ◌>>=◌,
}
use ipmb.Message.{Message, BytesMessage}
use ipmb.Region.{MemoryRegion, Object}
use ipmb.Ffi.Boxes.{Boxes, make_box, keep_box, take_box, deref, set_box}
use ipmb.Ffi.Messages.{
  Store, region_append, region_appended, region_retrieve, region_retrieved, object_append,
  object_retrieve, message_into,
}

-- The regions of an object, by its raw value: in a list, in boxes, in messages, in a store.
abbrev pub one : ℕ → MemoryRegion → ℕ
one u r = if r.obj.raw == u then 1 else 0

abbrev pub in_list : ℕ → List MemoryRegion → ℕ
in_list u [] = 0
in_list u (r ∷ rs) = one u r + in_list u rs

abbrev pub total : {A : Type 0} → (A → ℕ) → Boxes A → ℕ
total f [] = 0
total f ((a, v) ∷ bs) = f v + total f bs

abbrev pub in_boxes : ℕ → Boxes MemoryRegion → ℕ
in_boxes u = total (one u)

abbrev pub in_messages : ℕ → Boxes (Message BytesMessage) → ℕ
in_messages u = total (λ (v : Message BytesMessage). in_list u v.memory_regions)

abbrev pub in_store : ℕ → Store → ℕ
in_store u s = in_boxes u s.regions + in_messages u s.messages

-- The calls that move objects and regions, on a message.
pub data Call : Type 0 where
  append retrieve retrieve_object : ℕ → ℕ → Call
  append_object : ℕ → Object → Call

-- A call, with an address that is free for a box.
unfoldable pub call : ℕ → Call → Store → Option Store
unfolding region_append region_retrieve object_append object_retrieve
call a (append m region) s = region_append m region s
call a (retrieve m index) s = region_retrieve a m index s >>= λ r. some r.1
call a (append_object m obj) s = object_append m obj s
call a (retrieve_object m index) s = object_retrieve m index s >>= λ r. some r.1

unfoldable pub calls : List (ℕ × Call) → Store → Option Store
unfolding call
calls [] s = some s
calls ((a, c) ∷ cs) s = call a c s >>= λ s'. calls cs s'

same : {A : Type 0} (x y : A) → some x ≡ some y → x ≡ y
same x y h = cc

nothing : {A : Type 0} (y : A) → none ≡ some y → ⊥
nothing y h = ground arith

module _ {A : Type 0} (f : A → ℕ) where
  left_of :
      (p q : A × Boxes A) (n : ℕ)
      → total f p.1 + f p.0 ≡ n
      → some p ≡ some q
      → total f q.1 + f q.0 ≡ n
  left_of p q n e h = subst (λ y. total f y.1 + f y.0 ≡ n) (same p q h) e

  behind_left :
      (b : ℕ) (x : A) (bs bs' : Boxes A) (r : A) (o : Option (A × Boxes A))
      → ((c : A) (p : Boxes A) → o ≡ some (c, p) → total f p + f c ≡ total f bs)
      → keep_box (b, x) o ≡ some (r, bs')
      → total f bs' + f r ≡ f x + total f bs
  behind_left b x bs bs' r none g h = absurd (ground arith)
  behind_left b x bs bs' r (some (c, p)) g h =
      left_of (c, (b, x) ∷ p) (r, bs') (f x + total f bs) (omega (arith, g c p refl)) h

  total-take_box :
      (a : ℕ) (bs bs' : Boxes A) (r : A)
      → take_box a bs ≡ some (r, bs')
      → total f bs' + f r ≡ total f bs
  unfolding take_box
  total-take_box a [] bs' r h = absurd (ground arith)
  total-take_box a ((b, x) ∷ bs) bs' r h = elim (Bool-cases (b == a)) [
    | inl e ↦ left_of (x, bs) (r, bs') (f x + total f bs) (omega arith) (rw e at h)
    | inr e ↦ behind_left b x bs bs' r (take_box a bs) (λ c p. total-take_box a bs p c) (rw e at h)
  ]

module _ (u : ℕ) where
  in_list-append :
      (rs : List MemoryRegion) (r : MemoryRegion)
      → in_list u (rs ++ r ∷ []) ≡ in_list u rs + one u r
  in_list-append [] r = omega arith
  in_list-append (x ∷ rs) r = omega (arith, in_list-append rs r)

  in_list-remove_at :
      (rs : List MemoryRegion) (i : ℕ) (r : MemoryRegion)
      → get_elem? rs i ≡ some r
      → in_list u (remove_at rs i) + one u r ≡ in_list u rs
  in_list-remove_at [] i r h = absurd (ground arith)
  in_list-remove_at (x ∷ rs) zero r h = ground arith
  in_list-remove_at (x ∷ rs) (suc i) r h = omega (arith, in_list-remove_at rs i r h)

  in_messages-set_box :
      (m : ℕ) (v w : Message BytesMessage) (ms : Boxes (Message BytesMessage))
      → deref m ms ≡ some v
      → in_messages u (set_box m w ms) + in_list u v.memory_regions
        ≡ in_messages u ms + in_list u w.memory_regions
  unfolding deref set_box
  in_messages-set_box m v w [] h = absurd (ground arith)
  in_messages-set_box m v w ((b, x) ∷ ms) h = elim (Bool-cases (b == m)) [
    | inl e ↦ rw (e) (
        omega (
          arith,
          ap (λ (y : Message BytesMessage). in_list u y.memory_regions) (same x v (rw e at h)),
        ))
    | inr e ↦ rw (e) (omega (arith, in_messages-set_box m v w ms (rw e at h)))
  ]

  -- A store where one message and the boxes of regions changed.
  moved :
      (s : Store) (m : ℕ) (v w : Message BytesMessage) (rs : Boxes MemoryRegion)
      → deref m s.messages ≡ some v
      → in_boxes u rs + in_list u w.memory_regions
        ≡ in_boxes u s.regions + in_list u v.memory_regions
      → in_store u (record { messages = set_box m w s.messages; regions = rs }) ≡ in_store u s
  moved s m v w rs q e = omega (arith, in_messages-set_box m v w s.messages q, e)

  appended :
      (m : ℕ) (s s' : Store) (o : Option (MemoryRegion × Boxes MemoryRegion))
      (d : Option (Message BytesMessage))
      → ((r : MemoryRegion) (p : Boxes MemoryRegion)
          → o ≡ some (r, p)
          → in_boxes u p + one u r ≡ in_boxes u s.regions)
      → deref m s.messages ≡ d
      → region_appended m s o d ≡ some s'
      → in_store u s' ≡ in_store u s
  appended m s s' none d f q h = absurd (ground arith)
  appended m s s' (some (r, p)) none f q h = absurd (ground arith)
  appended m s s' (some (r, p)) (some v) f q h =
      subst (λ x. in_store u x ≡ in_store u s) (same _ s' h)
        (moved s m v (record v { memory_regions = v.memory_regions ++ r ∷ [] }) p q
          (omega (arith, f r p refl, in_list-append v.memory_regions r)))

  retrieved :
      (a m index : ℕ) (s : Store) (v : Message BytesMessage) (o : Option MemoryRegion)
      → deref m s.messages ≡ some v
      → get_elem? v.memory_regions index ≡ o
      → in_store u (region_retrieved a m index s v o).1 ≡ in_store u s
  retrieved a m index s v none q g = refl
  retrieved a m index s v (some r) q g =
      moved s m v (record v { memory_regions = remove_at v.memory_regions index })
        (make_box a r s.regions) q (omega (arith, in_list-remove_at v.memory_regions index r g))

  call-counts :
      (a : ℕ) (c : Call) (s s' : Store) → call a c s ≡ some s' → in_store u s' ≡ in_store u s
  unfolding call region_append region_retrieve object_append object_retrieve
  call-counts a (append m region) s s' h =
      appended m s s' (take_box region s.regions) (deref m s.messages)
        (λ r p. total-take_box (one u) region s.regions p r) refl h
  call-counts a (retrieve m index) s s' h = elim (Option-cases (deref m s.messages)) [
    | inl e ↦ absurd (nothing s' (rw (region_retrieve, e) at h))
    | inr (v, e) ↦
        subst (λ x. in_store u x ≡ in_store u s) (same _ s' (rw (region_retrieve, e) at h))
          (retrieved a m index s v (get_elem? v.memory_regions index) e refl)
  ]
  call-counts a (append_object m obj) s s' h = elim (Option-cases (deref m s.messages)) [
    | inl e ↦ absurd (nothing s' (rw (object_append, e) at h))
    | inr (v, e) ↦
        subst (λ x. in_store u x ≡ in_store u s) (same _ s' (rw (object_append, e) at h))
          (moved s m v (record v { objects = v.objects ++ obj ∷ [] }) s.regions e refl)
  ]
  call-counts a (retrieve_object m index) s s' h = elim (Option-cases (deref m s.messages)) [
    | inl e ↦ absurd (nothing s' (rw (object_retrieve, e) at h))
    | inr (v, e) ↦
        subst (λ x. in_store u x ≡ in_store u s) (same _ s' (rw (object_retrieve, e) at h))
          (moved s m v (record v { objects = remove_at v.objects index }) s.regions e refl)
  ]

  calls-counts :
      (cs : List (ℕ × Call)) (s s' : Store) → calls cs s ≡ some s' → in_store u s' ≡ in_store u s
  unfolding calls
  calls-counts [] s s' h = subst (λ x. in_store u x ≡ in_store u s) (same s s' h) refl
  calls-counts ((a, c) ∷ cs) s s' h = elim (Option-cases (call a c s)) [
    | inl e ↦ absurd (nothing s' (rw e at h))
    | inr (s'', e) ↦ calls-counts cs s'' s' (rw e at h) ∙ call-counts a c s s'' e
  ]

-- Calls of the interface that put regions and objects into messages and take them out neither lose
-- nor double a region: as many regions of each object stand in boxes and messages as before, as long
-- as every handle that the caller passes has its box. A message that is sent takes its regions along.
pub calls-keep :
    (u m : ℕ) (cs : List (ℕ × Call)) (s s' s'' : Store) (v : Message BytesMessage)
    → calls cs s ≡ some s'
    → message_into m s' ≡ some (v, s'')
    → (in_store u s' ≡ in_store u s) × (in_store u s'' + in_list u v.memory_regions ≡ in_store u s)
unfolding message_into
calls-keep u m cs s s' s'' v h k =
    let before = calls-counts u cs s s' h in
    elim (Option-cases (take_box m s'.messages)) [
      | inl e ↦ absurd (nothing _ (rw (message_into, e) at k))
      | inr ((w, ms), e) ↦ (
        before,
        subst
            (λ (x : Message BytesMessage × Store).
              in_store u x.1 + in_list u x.0.memory_regions ≡ in_store u s)
            (same _ (v, s'') (rw (message_into, e) at k))
            (omega (
              arith,
              before,
              total-take_box (λ (x : Message BytesMessage). in_list u x.memory_regions) m
                  s'.messages ms w e,
            )),
      )
    ]
