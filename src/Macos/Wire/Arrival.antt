-- ===== src/Macos/Wire/Arrival.antt =====
-- ipmb/src/platform/macos/mod.rs: what `EncodedMessage::new` makes of a message that carries a selector
-- and a payload.
pub mod Copies
use ipmb.Prelude.{
  ℕ, ◌+◌, ◌*◌, ◌%◌, ◌^◌, ◌≤◌, ◌<◌, ◌≡◌, inl, refl, ap, subst, ◌∙◌, arith, Option, some, List, [],
  ◌∷◌, ◌++◌, length, append-nil,
}
use ipmb.Errors.{ok}
use ipmb.Version.{version, compatible}
use ipmb.Util.{align4}
use ipmb.Region.{Object, Headers, receive_regions}
use ipmb.Message.{Bytes, Selector, Codec, decode}
use ipmb.Linux.Buffer.{slice?, u32_bytes, read_u32}
use ipmb.Linux.Buffer.Laws.{read_u32_lem}
use ipmb.Linux.Layout.{align4-32}
use ipmb.Linux.RoundTrip.{drain_last-append}
use ipmb.Windows.Wire.{writes, received_objects}
use ipmb.Windows.Wire.RoundTrip.{received-append, length-received_objects}
use ipmb.Windows.Wire.Layout.{length-writes, slice?-writes_mid}
use ipmb.Macos.Wire.{
  base_size, descriptor_size, complex_bits, msg_size, EncodedMessage, read_rest, read_selector,
  new_encoded, routed_size, route_writes,
}
use ipmb.Macos.Wire.Encoded.{align4-fits}
use ipmb.Macos.Wire.Layout.{
  HasPorts, HasPorts-same, HasCopies-same, Carries, Carries-Agrees, Agrees-writes, IsQuiet,
  IsSendable, slice?-writes_below,
}
use Copies.{
  copy_writes, copies-IsQuiet, read_descriptors-HasPorts, copied-HasPorts, copied-HasCopies,
}

routed_size-msg_size :
    (n : ℕ) (sel pay : Bytes)
    → length sel + 4 ≤ 2 ^ 32
    → length pay + 4 ≤ 2 ^ 32
    → msg_size n sel pay < 2 ^ 32
    → routed_size n (length sel) (length pay) ≡ msg_size n sel pay
unfolding routed_size
routed_size-msg_size n sel pay s p b =
    rw (align4-32 (length sel) s, align4-32 (length pay) p) (omega arith)

-- The objects' names, then those of the regions, in a message that came in.
module _ (selectors : Codec Selector) (target : ℕ → ℕ) (h : Headers) (sel : Selector)
    (sel_data pay got : Bytes) (oh rh : List ℕ)
    (encodes : selectors.encode_to_vec sel ≡ some sel_data)
    (sel_small : length sel_data + 4 ≤ 2 ^ 32) (pay_small : length pay + 4 ≤ 2 ^ 32)
    (few : msg_size (length (oh ++ rh)) sel_data pay < 2 ^ 32)
    (counted : length rh ≡ sel.memory_region_count)
    (room : msg_size (length (oh ++ rh)) sel_data pay ≤ length got)
    (carries : Carries (length (oh ++ rh)) sel_data pay got)
    (ports : HasPorts base_size (oh ++ rh) got) where
  abbrev names : List ℕ
  names = oh ++ rh

  abbrev n : ℕ
  n = length names

  abbrev marked : Bytes
  marked = writes got (copy_writes base_size n)

  abbrev at : ℕ
  at = base_size + n * descriptor_size

  abbrev forwarded : Bytes
  forwarded = writes marked (route_writes (msg_size n sel_data pay))

  abbrev pub arrived : EncodedMessage
  arrived = record {
    selector = sel;
    payload_data = pay;
    mach_msg = forwarded;
    objects = received_objects target oh;
    memory_regions = (receive_regions h (received_objects target rh)).0;
  }

  marked-Carries : Carries n sel_data pay marked
  marked-Carries =
      Carries-Agrees n sel_data pay got marked (align4-fits (length sel_data) sel_small)
        (align4-fits (length pay) pay_small)
        (Agrees-writes n (msg_size n sel_data pay) got (copy_writes base_size n)
          (copies-IsQuiet n base_size n (omega arith) (omega arith)))
        carries

  rest_received :
      read_rest h marked n (received_objects target names) (length sel_data) (ok sel)
      ≡ some (ok arrived, (receive_regions h (received_objects target rh)).1)
  unfolding read_rest
  rest_received =
      rw
        (
          received-append target oh rh,
          drain_last-append (received_objects target oh) (received_objects target rh)
              sel.memory_region_count (length-received_objects target rh ∙ counted),
          align4-32 (length sel_data) sel_small,
          marked-Carries.pay_size,
          marked-Carries.pay_data,
          routed_size-msg_size n sel_data pay sel_small pay_small few,
        )
        refl

  selector_received :
      read_selector selectors h marked n (received_objects target names)
      ≡ some (ok arrived, (receive_regions h (received_objects target rh)).1)
  unfolding read_selector decode
  selector_received =
      rw
        (
          marked-Carries.sel_size,
          marked-Carries.sel_data,
          ← append-nil sel_data,
          selectors.round_trip sel sel_data [] encodes,
          append-nil sel_data,
        )
        rest_received

  pub carried-new_encoded :
      new_encoded selectors target h got
      ≡ some (ok arrived, (receive_regions h (received_objects target rh)).1)
  unfolding new_encoded compatible
  carried-new_encoded =
      rw (carries.count, read_descriptors-HasPorts base_size names got ports, marked-Carries.word)
        selector_received

  length-marked : length marked ≡ length got
  length-marked = length-writes got (copy_writes base_size n)

  same_ports :
      (i k : ℕ)
      → base_size ≤ i
      → i + k ≤ base_size + n * descriptor_size
      → slice? forwarded i k ≡ slice? marked i k
  same_ports i k a b =
      slice?-writes_below marked (route_writes (msg_size n sel_data pay)) base_size i k a
        (omega arith)

  -- What was read can be sent on, and carries the same.
  pub arrived-Carries : Carries n sel_data pay arrived.mach_msg
  arrived-Carries =
      Carries-Agrees n sel_data pay marked forwarded (align4-fits (length sel_data) sel_small)
        (align4-fits (length pay) pay_small)
        (Agrees-writes n (msg_size n sel_data pay) marked (route_writes (msg_size n sel_data pay))
          (inl (omega arith), (inl (omega arith), (inl (omega arith), tt))))
        marked-Carries

  abbrev size : ℕ
  size = msg_size n sel_data pay

  size_fits : size ≡ size % 2 ^ 32
  size_fits = omega arith

  pub arrived-IsSendable : IsSendable names (msg_size n sel_data pay) arrived.mach_msg
  arrived-IsSendable = record {
    bits = read_u32_lem forwarded 0 complex_bits (omega arith) (
        slice?-writes_mid marked [] 0 (u32_bytes complex_bits)
          ((4, u32_bytes (msg_size n sel_data pay)) ∷ (12, u32_bytes 0) ∷ [])
          (omega (arith, length-marked)) (inl (omega arith), (inl (omega arith), tt)));
    sized = read_u32_lem forwarded 4 size few (
        subst (λ k. slice? forwarded 4 4 ≡ some (u32_bytes k)) size_fits
          (slice?-writes_mid marked ((0, u32_bytes complex_bits) ∷ []) 4 (u32_bytes size)
            ((12, u32_bytes 0) ∷ []) (omega (arith, length-marked)) (inl (omega arith), tt)));
    count = arrived-Carries.count;
    ports =
        HasPorts-same base_size names marked forwarded same_ports
          (copied-HasPorts base_size names got ports);
    copies =
        HasCopies-same base_size n marked forwarded same_ports
          (copied-HasCopies base_size n got (omega arith));
  }
