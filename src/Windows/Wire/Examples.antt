-- ===== src/Windows/Wire/Examples.antt =====
-- A message with an object and a region on a pipe, sent and refused.
use ipmb.Prelude.{ℕ, ◌+◌, ◌≡◌, refl, arith, Option, none, some, [], ◌∷◌, ◌++◌, map}
use ipmb.Errors.{Error, ok, err}
use ipmb.Region.{Object, MemoryRegion, receive_regions, add_refs, sub_refs}
use ipmb.Message.{Bytes, typed_box}
use ipmb.Linux.Examples.{selectors, byte, msg, headers, box_encodes}
use ipmb.Windows.Wire.{
  Encoded, Sent, into_encoded, send_encoded, send_helper, duplicate_all, writes, received_objects,
  new_encoded,
}
use ipmb.Windows.Wire.RoundTrip.{sent-received}
use ipmb.Windows.Wire.Sending.{IsSettled, made_by, send_helper-IsSettled}

-- The remote process gives a handle that is greater by 100.
abbrev to_remote : Object → Option ℕ
to_remote o = some (o.raw + 100)

abbrev target : ℕ → ℕ
target raw = raw

sent-received_example :
    (e : Encoded) × (s : Sent) × (bytes : Bytes) × (into_encoded
        (λ i. 0)
        selectors
        (typed_box 7 byte)
        msg
      ≡ some e)
    × (send_encoded to_remote headers e (some e.size) ≡ some s)
    × (s.result ≡ ok tt)
    × (s.closed ≡ [])
    × (s.delivered ≡ some bytes)
    × (new_encoded selectors target headers bytes
        ≡ some (
          ok (record {
            selector = msg.selector;
            payload_data = 42 ∷ [];
            objects = received_objects target (103 ∷ []);
            memory_regions = (receive_regions headers (received_objects target (104 ∷ []))).0;
          }),
          (receive_regions headers (received_objects target (104 ∷ []))).1,
        ))
sent-received_example =
    sent-received (λ i. 0) selectors (typed_box 7 byte) msg target to_remote headers headers
      (7 ∷ 1 ∷ 0 ∷ []) (42 ∷ []) (103 ∷ []) (104 ∷ []) refl box_encodes (omega arith) (omega arith)
      refl refl refl (omega arith) (omega arith, (omega arith, tt))

-- The pipe is broken: both handles are closed again.
abbrev refused : Sent
refused = record {
  result = err Error.disconnect;
  headers = sub_refs (add_refs headers msg.memory_regions) msg.memory_regions;
  delivered = none;
  closed = 103 ∷ 104 ∷ [];
}

refused_runs : send_helper to_remote headers [] 0 msg.objects msg.memory_regions none ≡ some refused
unfolding send_helper duplicate_all writes
refused_runs = refl

send_helper-IsSettled_example :
    IsSettled headers 4 msg.memory_regions
      (made_by to_remote (msg.objects ++ map (λ (r : MemoryRegion). r.obj) msg.memory_regions))
      refused
send_helper-IsSettled_example =
    send_helper-IsSettled to_remote headers [] 0 msg.objects msg.memory_regions none 4 refused
      (omega arith) refused_runs
