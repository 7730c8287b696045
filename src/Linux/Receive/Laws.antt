-- ===== src/Linux/Receive/Laws.antt =====
-- ipmb/src/platform/linux/encoded_message.rs: what receiving and sending do to the shared counts,
-- on every path.
use ipmb.Prelude.{
  ℕ, ◌+◌, ◌^◌, ◌<◌, ◌≡◌, refl, Bool, true, false, none, some, List, arith, ◌>>=◌, ◌⊎◌, inl, inr,
  Option,
}
use ipmb.Errors.{Error, Result, ok, err}
use ipmb.Version.{Version}
use ipmb.Region.{Object, Headers, add_refs}
use ipmb.Util.{align4}
use ipmb.Linux.Buffer.{slice?, read_u32}
use ipmb.Region.Counting.Tally.{tally, refs-add_refs, refs-sub_refs, refs-receive_regions}
use ipmb.Message.{Bytes, Selector, Codec, decode, EncodedMessage}
use ipmb.Linux.Receive.{
  Received, Parsed, from_local, read_version, read_selector, read_payload, send, drain_last,
  version_word, check_version,
}

-- A receive that ends, with a message or an error, has left the count of a region as it was.
abbrev pub KeptBy : Headers → ℕ → Parsed → Type 0
KeptBy h u none = Unit
KeptBy h u (some (r, h')) = h'.refs u ≡ h.refs u

pub record Keeps (h : Headers) (u : ℕ) (p : Parsed) : Type 0 where
  pub kept : KeptBy h u p

module _ (selectors : Codec Selector) (h : Headers) (u : ℕ) (small : h.refs u < 2 ^ 32) where
  Keeps-bind :
      {A : Type 0} (o : Option A) (f : A → Parsed)
      → ((a : A) → Keeps h u (f a))
      → Keeps h u (o >>= f)
  Keeps-bind none f k = record { kept = tt }
  Keeps-bind (some a) f k = k a

  read_payload-Keeps :
      (iov_data : Bytes) (objects : List Object) (n : ℕ) (r : Result Selector Error)
      → Keeps h u (read_payload h iov_data objects n r)
  unfolding read_payload
  read_payload-Keeps iov_data objects n (err e) = record { kept = refl }
  read_payload-Keeps iov_data objects n (ok selector) =
      Keeps-bind (drain_last selector.memory_region_count objects) _ λ d.
        Keeps-bind (read_u32 iov_data (8 + align4 32 n)) _ λ size.
          Keeps-bind (slice? iov_data (8 + align4 32 n + 4) size) _
            λ p. record { kept = refs-receive_regions u h d.1 small }

  read_selector-Keeps :
      (iov_data : Bytes) (objects : List Object)
      → Keeps h u (read_selector selectors h iov_data objects)
  unfolding read_selector
  read_selector-Keeps iov_data objects = Keeps-bind (read_u32 iov_data 4) _ λ size.
      Keeps-bind (slice? iov_data 8 size) _
        λ b. read_payload-Keeps iov_data objects size (decode selectors b)

  check_version-Keeps :
      (iov_data : Bytes) (objects : List Object) (magic : ℕ) (v : Version)
      → Keeps h u (check_version selectors h iov_data objects magic v)
  check_version-Keeps iov_data objects magic v =
      ground (arith, read_selector-Keeps iov_data objects)

  read_version-Keeps :
      (iov_data : Bytes) (objects : List Object)
      → Keeps h u (read_version selectors h iov_data objects)
  unfolding read_version
  read_version-Keeps iov_data objects =
      Keeps-bind (slice? iov_data 0 4) _
        λ w. Keeps-bind (version_word w) _ λ m. check_version-Keeps iov_data objects m.0 m.1

  -- Whatever was received, where `from_local` returns, with a message or an error, the count of any
  -- region whose count fits 32 bits is as before.
  pub from_local-Keeps :
      (peeked : ℕ) (got : Received) → Keeps h u (from_local selectors h peeked got)
  unfolding from_local
  from_local-Keeps peeked got = ground (arith, read_version-Keeps got.iov_data got.objects)

-- Where the counts do not overflow: sending a message that the kernel takes adds one reference for
-- each of its regions and returns ok; one that it does not take leaves the counts as they were, and
-- the error is a disconnect.
pub refs-send :
    (h : Headers) (u : ℕ) (msg : EncodedMessage) (taken : Bool)
    → h.refs u + tally u msg.memory_regions < 2 ^ 32
    → ((taken ≡ true)
        × ((send h msg taken).0 ≡ ok tt)
        × ((send h msg taken).1.refs u ≡ h.refs u + tally u msg.memory_regions))
      ⊎ ((taken ≡ false)
          × ((send h msg taken).0 ≡ err Error.disconnect)
          × ((send h msg taken).1.refs u ≡ h.refs u))
unfolding send
refs-send h u msg true b = inl (refl, refl, refs-add_refs u h msg.memory_regions b)
refs-send h u msg false b =
    let e = refs-add_refs u h msg.memory_regions b in
    inr (
      refl,
      refl,
      omega (arith, e, refs-sub_refs u (add_refs h msg.memory_regions) msg.memory_regions),
    )
