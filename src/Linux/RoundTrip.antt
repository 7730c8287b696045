-- ===== src/Linux/RoundTrip.antt =====
-- ipmb/src/platform/linux.rs and linux/encoded_message.rs: a message that was encoded is received
-- as it was sent.
use ipmb.Prelude.{
  ℕ, ◌+◌, ◌-◌, ◌^◌, ◌≤◌, ◌<◌, ◌≡◌, refl, some, List, [], ◌++◌, map, arith, length, take, drop,
  append-nil, ap, false, length-append, take-append, drop-append,
}
use ipmb.Errors.{ok}
use ipmb.Version.{compatible}
use ipmb.Region.{Object, Headers, receive_regions}
use ipmb.Message.{Bytes, Selector, Codec, MessageBox, Message, EncodedMessage, decode}
use ipmb.Message.Laws.{IsFaithful}
use ipmb.Linux.Encode.{iov_bytes, into_encoded, control_handles}
use ipmb.Linux.Layout.{iov-word, iov-selector_size, iov-selector, iov-payload_size, iov-payload}
use ipmb.Linux.Receive.{Received, from_local, read_version, read_selector, read_payload, drain_last}

pub drain_last-append {ℓ} :
    {A : Type ℓ} (xs ys : List A) (n : ℕ) → length ys ≡ n → drain_last n (xs ++ ys) ≡ some (xs, ys)
drain_last-append xs ys n h =
    let e : length (xs ++ ys) - n ≡ length xs = omega (arith, length-append xs ys) in
    ground (
      arith,
      length-append xs ys,
      e,
      ap (λ k. take k (xs ++ ys)) e,
      ap (λ k. drop k (xs ++ ys)) e,
      take-append xs ys,
      drop-append xs ys,
    )

-- The datagram that the socket delivers whole.
abbrev pub delivered : ℕ → Bytes → List Object → Received
delivered n iov_data objects = record {
  len = n;
  truncated = false;
  control_truncated = false;
  iov_data = iov_data;
  objects = objects;
}

module _ (junk : ℕ → ℕ) (selectors : Codec Selector) (h : Headers) (sel : Selector)
    (sel_data pay : Bytes) (objs region_objs : List Object)
    (sel_encodes : selectors.encode_to_vec sel ≡ some sel_data)
    (sel_small : length sel_data + 4 ≤ 2 ^ 32) (pay_small : length pay + 4 ≤ 2 ^ 32)
    (counted : length region_objs ≡ sel.memory_region_count) where
  abbrev iov : Bytes
  iov = iov_bytes junk sel_data pay

  abbrev message : EncodedMessage
  message = record {
    selector = sel;
    payload_data = pay;
    iov_data = iov;
    control_data = map (λ o. o.raw) (objs ++ region_objs);
    objects = objs;
    memory_regions = (receive_regions h region_objs).0;
  }

  payload_received :
      read_payload h iov (objs ++ region_objs) (length sel_data) (ok sel)
      ≡ some (ok message, (receive_regions h region_objs).1)
  unfolding read_payload
  payload_received = rw (
    drain_last-append objs region_objs sel.memory_region_count counted,
    iov-payload_size junk sel_data pay sel_small pay_small,
    iov-payload junk sel_data pay sel_small pay_small,
  )

  selector_received :
      read_selector selectors h iov (objs ++ region_objs)
      ≡ some (ok message, (receive_regions h region_objs).1)
  unfolding read_selector decode
  selector_received =
      rw
        (
          iov-selector_size junk sel_data pay sel_small pay_small,
          iov-selector junk sel_data pay sel_small pay_small,
          ← append-nil sel_data,
          selectors.round_trip sel sel_data [] sel_encodes,
          append-nil sel_data,
        )
        payload_received

  version_received :
      read_version selectors h iov (objs ++ region_objs)
      ≡ some (ok message, (receive_regions h region_objs).1)
  unfolding read_version compatible
  version_received = rw (iov-word junk sel_data pay sel_small pay_small) selector_received

  pub delivered-received :
      (peeked n : ℕ)
      → 0 < peeked
      → 0 < n
      → from_local selectors h peeked (delivered n iov (objs ++ region_objs))
        ≡ some (ok message, (receive_regions h region_objs).1)
  unfolding from_local
  delivered-received peeked n p q = ground (arith, version_received)

-- For a message whose selector and payload encode, each to less than 2 ^ 32 - 3 bytes, whose selector
-- names the payload's type, and whose box is faithful: `into_encoded` succeeds, and where its datagram
-- is delivered whole with the handles of objects and then of as many regions as the selector counts,
-- `from_local` gives the same selector and bytes, the objects and the regions told apart, and a
-- payload that decodes to what was sent.
pub encoded-received :
    {T : Type 0} (junk : ℕ → ℕ) (selectors : Codec Selector) (box : MessageBox T) (msg : Message T)
    (h : Headers) (sel_data pay : Bytes) (objs region_objs : List Object) (peeked n : ℕ)
    → IsFaithful box
    → msg.selector.uuid ≡ box.uuid_of msg.payload
    → selectors.encode_to_vec msg.selector ≡ some sel_data
    → box.encode_box msg.payload ≡ ok pay
    → length sel_data + 4 ≤ 2 ^ 32
    → length pay + 4 ≤ 2 ^ 32
    → length region_objs ≡ msg.selector.memory_region_count
    → 0 < peeked
    → 0 < n
    → (e : EncodedMessage) × (into_encoded junk selectors box msg ≡ some e)
      × (from_local selectors h peeked (delivered n e.iov_data (objs ++ region_objs))
          ≡ some (
            ok (record e {
              control_data = map (λ o. o.raw) (objs ++ region_objs);
              objects = objs;
              memory_regions = (receive_regions h region_objs).0;
            }),
            (receive_regions h region_objs).1,
          ))
      × (e.selector ≡ msg.selector)
      × (box.decode_box e.selector.uuid e.payload_data ≡ ok msg.payload)
unfolding into_encoded
encoded-received junk selectors box msg h sel_data pay objs region_objs peeked n f u se pe ss ps c p
      q =
    (
      record {
        selector = msg.selector;
        payload_data = pay;
        iov_data = iov_bytes junk sel_data pay;
        control_data = control_handles msg.objects msg.memory_regions;
        objects = msg.objects;
        memory_regions = msg.memory_regions;
      },
      rw (se, pe),
      delivered-received junk selectors h msg.selector sel_data pay objs region_objs se ss ps c
          peeked n p q,
      refl,
      rw (u, ← append-nil pay) (f.reads_back msg.payload pay [] pe),
    )
