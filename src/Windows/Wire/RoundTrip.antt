-- ===== src/Windows/Wire/RoundTrip.antt =====
-- ipmb/src/platform/windows/mod.rs: a message that was sent on a pipe is read as it was sent.
use mathlib.Core.List.{map-append}
use ipmb.Message.{MessageBox, Message}
use ipmb.Region.{add_refs}
use ipmb.Windows.Wire.{Encoded, Sent, into_encoded, send_encoded, send_helper}
use ipmb.Prelude.{
  ℕ, suc, ◌+◌, ◌*◌, ◌^◌, ◌≤◌, ◌<◌, ◌≡◌, refl, sym, ap, ◌∙◌, arith, true, Option, some, List, [],
  ◌∷◌, ◌++◌, map, length, All, length-append, append-nil, append_assoc,
}
use ipmb.Errors.{ok}
use ipmb.Version.{version, compatible}
use ipmb.Region.{Object, MemoryRegion, Headers, receive_regions}
use ipmb.Message.{Bytes, Selector, Codec, decode}
use ipmb.Linux.RoundTrip.{drain_last-append}
use ipmb.Windows.Wire.{
  msg_size, writes, pipe_msg, u64_parts, duplicate_all, Arrived, read_rest, read_selector,
  read_objects, received_objects, new_encoded,
}
use ipmb.Windows.Wire.Layout.{handle_writes}
use ipmb.Windows.Wire.Parts.{
  full, full-word, full-count, full-sel_size, full-sel, full-pay_size, full-pay, full-handles,
}

cons_parts : {A : Type 0} (x y : A) (xs ys : List A) → x ∷ xs ≡ y ∷ ys → (x ≡ y) × (xs ≡ ys)
cons_parts x y xs ys e = (cc, cc)

-- Where every handle is duplicated, the handles stand in the buffer.
pub duplicate_all_complete :
    (to_remote : Object → Option ℕ) (off : ℕ) (os : List Object) (hs : List ℕ) (buf : Bytes)
    (made : List ℕ)
    → map to_remote os ≡ map some hs
    → duplicate_all to_remote off os buf made
      ≡ record { complete = true; buffer = writes buf (handle_writes off hs); made = made ++ hs }
unfolding duplicate_all writes
duplicate_all_complete to_remote off [] [] buf made e = rw (append-nil made) refl
duplicate_all_complete to_remote off [] (h ∷ hs) buf made e = absurd (ground arith)
duplicate_all_complete to_remote off (o ∷ os) [] buf made e = absurd (ground arith)
duplicate_all_complete to_remote off (o ∷ os) (h ∷ hs) buf made e =
    let (first, others) = cons_parts (to_remote o) (some h) (map to_remote os) (map some hs) e in
    rw (duplicate_all, first)
      (duplicate_all_complete to_remote (off + 8) os hs (writes buf (u64_parts off h))
          (made ++ h ∷ []) others
        ∙ rw (append_assoc made (h ∷ []) hs) refl)

pub received-append :
    (target : ℕ → ℕ) (xs ys : List ℕ)
    → received_objects target (xs ++ ys) ≡ received_objects target xs ++ received_objects target ys
received-append target [] ys = refl
received-append target (x ∷ xs) ys =
    ap (◌∷◌ (record { raw = x; target = target x })) (received-append target xs ys)

pub length-received_objects :
    (target : ℕ → ℕ) (xs : List ℕ) → length (received_objects target xs) ≡ length xs
length-received_objects target [] = refl
length-received_objects target (x ∷ xs) = ap suc (length-received_objects target xs)

module _ (junk : ℕ → ℕ) (selectors : Codec Selector) (target : ℕ → ℕ) (h : Headers) (sel : Selector)
    (sel_data pay : Bytes) (oh rh : List ℕ) (encodes : selectors.encode_to_vec sel ≡ some sel_data)
    (sel_small : length sel_data + 4 ≤ 2 ^ 32) (pay_small : length pay + 4 ≤ 2 ^ 32)
    (few : length (oh ++ rh) < 2 ^ 32) (fit : All (λ x. x < 2 ^ 64) (oh ++ rh))
    (counted : length rh ≡ sel.memory_region_count) where
  abbrev got : Bytes
  got = full junk sel_data pay (oh ++ rh) sel_small pay_small few fit

  abbrev pub arrived : Arrived
  arrived = record {
    selector = sel;
    payload_data = pay;
    objects = received_objects target oh;
    memory_regions = (receive_regions h (received_objects target rh)).0;
  }

  rest_received :
      read_rest h got
        (8 + length (oh ++ rh) * 8 + 4)
        (received_objects target (oh ++ rh))
        (length sel_data)
        (ok sel)
      ≡ some (ok arrived, (receive_regions h (received_objects target rh)).1)
  unfolding read_rest
  rest_received =
      rw
        (
          received-append target oh rh,
          drain_last-append (received_objects target oh) (received_objects target rh)
              sel.memory_region_count (length-received_objects target rh ∙ counted),
          full-pay_size junk sel_data pay (oh ++ rh) sel_small pay_small few fit,
          full-pay junk sel_data pay (oh ++ rh) sel_small pay_small few fit,
        )
        refl

  selector_received :
      read_selector selectors h got (8 + length (oh ++ rh) * 8) (received_objects target (oh ++ rh))
      ≡ some (ok arrived, (receive_regions h (received_objects target rh)).1)
  unfolding read_selector decode
  selector_received =
      rw
        (
          full-sel_size junk sel_data pay (oh ++ rh) sel_small pay_small few fit,
          full-sel junk sel_data pay (oh ++ rh) sel_small pay_small few fit,
          ← append-nil sel_data,
          selectors.round_trip sel sel_data [] encodes,
          append-nil sel_data,
        )
        rest_received

  objects_received :
      read_objects selectors target h got version
      ≡ some (ok arrived, (receive_regions h (received_objects target rh)).1)
  unfolding read_objects compatible
  objects_received =
      rw
        (
          full-count junk sel_data pay (oh ++ rh) sel_small pay_small few fit,
          full-handles junk sel_data pay (oh ++ rh) sel_small pay_small few fit,
        )
        selector_received

  pub written-new_encoded :
      new_encoded selectors target h got
      ≡ some (ok arrived, (receive_regions h (received_objects target rh)).1)
  unfolding new_encoded
  written-new_encoded =
      rw (full-word junk sel_data pay (oh ++ rh) sel_small pay_small few fit) objects_received

same_length :
    (to_remote : Object → Option ℕ) (os : List Object) (hs : List ℕ)
    → map to_remote os ≡ map some hs
    → length os ≡ length hs
same_length to_remote [] [] e = refl
same_length to_remote [] (h ∷ hs) e = absurd (ground arith)
same_length to_remote (o ∷ os) [] e = absurd (ground arith)
same_length to_remote (o ∷ os) (h ∷ hs) e = ap suc (
    same_length to_remote os hs
      (cons_parts (to_remote o) (some h) (map to_remote os) (map some hs) e).1)

map_both :
    (to_remote : Object → Option ℕ) (xs ys : List Object) (oh rh : List ℕ)
    → map to_remote xs ≡ map some oh
    → map to_remote ys ≡ map some rh
    → map to_remote (xs ++ ys) ≡ map some (oh ++ rh)
map_both to_remote xs ys oh rh p q =
    map-append to_remote xs ys ∙ rw (p, q) (sym (map-append some oh rh))

length-map_obj :
    (rs : List MemoryRegion) → length (map (λ (r : MemoryRegion). r.obj) rs) ≡ length rs
length-map_obj [] = refl
length-map_obj (r ∷ rs) = ap suc (length-map_obj rs)

-- A send whose duplicates and whose write succeed.
send_succeeds :
    (to_remote : Object → Option ℕ) (h : Headers) (buf : Bytes) (size : ℕ) (objects : List Object)
    (regions : List MemoryRegion) (hs : List ℕ)
    → map to_remote (objects ++ map (λ (r : MemoryRegion). r.obj) regions) ≡ map some hs
    → send_helper to_remote h buf size objects regions (some size)
      ≡ some (record {
        result = ok tt;
        headers = add_refs h regions;
        delivered = some (writes buf (handle_writes 8 hs));
        closed = [];
      })
unfolding send_helper
send_succeeds to_remote h buf size objects regions hs e =
    rw
      (duplicate_all_complete to_remote 8 (objects ++ map (λ (r : MemoryRegion). r.obj) regions) hs
        buf [] e)
      (ground arith)

-- For a message whose selector and payload encode, each to less than 2 ^ 32 - 3 bytes, with fewer than
-- 2 ^ 32 handles of 64 bits, of which the selector counts the regions: `into_encoded` succeeds. Where
-- every handle is duplicated into the remote process and the pipe takes the message, the send succeeds
-- and closes no duplicate, and from the buffer `EncodedMessage::new` reads the selector, the bytes of
-- the payload, the objects and the regions, under the handles of the remote process and told apart.
pub sent-received :
    {T : Type 0} (junk : ℕ → ℕ) (selectors : Codec Selector) (box : MessageBox T) (msg : Message T)
    (target : ℕ → ℕ) (to_remote : Object → Option ℕ) (h h' : Headers) (sel_data pay : Bytes)
    (oh rh : List ℕ)
    → selectors.encode_to_vec msg.selector ≡ some sel_data
    → box.encode_box msg.payload ≡ ok pay
    → length sel_data + 4 ≤ 2 ^ 32
    → length pay + 4 ≤ 2 ^ 32
    → length msg.memory_regions ≡ msg.selector.memory_region_count
    → map to_remote msg.objects ≡ map some oh
    → map to_remote (map (λ (r : MemoryRegion). r.obj) msg.memory_regions) ≡ map some rh
    → length (oh ++ rh) < 2 ^ 32
    → All (λ x. x < 2 ^ 64) (oh ++ rh)
    → (e : Encoded) × (s : Sent) × (bytes : Bytes) × (into_encoded junk selectors box msg ≡ some e)
      × (send_encoded to_remote h e (some e.size) ≡ some s)
      × (s.result ≡ ok tt)
      × (s.closed ≡ [])
      × (s.delivered ≡ some bytes)
      × (new_encoded selectors target h' bytes
          ≡ some (
            ok (record {
              selector = msg.selector;
              payload_data = pay;
              objects = received_objects target oh;
              memory_regions = (receive_regions h' (received_objects target rh)).0;
            }),
            (receive_regions h' (received_objects target rh)).1,
          ))
unfolding into_encoded
sent-received junk selectors box msg target to_remote h h' sel_data pay oh rh se pe ss ps c po pr
      few fit =
    let n = length (oh ++ rh) in
    let region_objects = map (λ (r : MemoryRegion). r.obj) msg.memory_regions in
    let regions_counted : length rh ≡ length msg.memory_regions =
      sym (same_length to_remote region_objects rh pr) ∙ length-map_obj msg.memory_regions in
    let handles_counted : length msg.objects + length msg.memory_regions ≡ n =
      omega
        (arith, same_length to_remote msg.objects oh po, regions_counted, length-append oh rh) in
    (
      record {
        selector = msg.selector;
        payload_data = pay;
        buffer = pipe_msg junk n sel_data pay;
        size = msg_size n sel_data pay;
        objects = msg.objects;
        memory_regions = msg.memory_regions;
      },
      record {
        result = ok tt;
        headers = add_refs h msg.memory_regions;
        delivered = some (full junk sel_data pay (oh ++ rh) ss ps few fit);
        closed = [];
      },
      full junk sel_data pay (oh ++ rh) ss ps few fit,
      rw (se, pe, handles_counted) refl,
      send_succeeds to_remote h (pipe_msg junk n sel_data pay) (msg_size n sel_data pay) msg.objects
          msg.memory_regions (oh ++ rh) (map_both to_remote msg.objects region_objects oh rh po pr),
      refl,
      refl,
      refl,
      written-new_encoded junk selectors target h' msg.selector sel_data pay oh rh se ss ps few fit
          (regions_counted ∙ c),
    )
