-- ===== src/Macos/Wire/Sending.antt =====
-- ipmb/src/platform/macos/mod.rs: how `EncodedMessage::send` ends, and what it does to the counts.
use ipmb.Prelude.{
  ℕ, zero, suc, ◌+◌, ◌^◌, ◌<◌, ◌≡◌, ◌≢◌, ◌⊎◌, inl, inr, refl, arith, Bool, none, some, List, ◌∷◌,
  ◌++◌, replicate, if◌then◌else◌,
}
use ipmb.Errors.{Error, ok, err}
use ipmb.Region.{MemoryRegion, Headers, add_refs, sub_refs}
use ipmb.Region.Counting.Tally.{tally, refs-add_refs, refs-sub_refs}
use ipmb.Message.{Bytes}
use ipmb.Macos.Wire.{
  EncodedMessage, SendReturn, success, no_buffer, other, Sent, send_loop, addressed, send,
}

-- Either the kernel took the message, with the port that it goes to, and each region has one more
-- reference; or it took nothing, the counts are as before, and the result tells whether the remote is
-- dead.
abbrev pub IsSettled : ℕ → Bool → Headers → ℕ → EncodedMessage → Sent → Type 0
IsSettled remote dead h u msg s =
    ((s.result ≡ ok tt)
      × (s.taken ≡ some (addressed remote msg.mach_msg))
      × (s.headers.refs u ≡ h.refs u + tally u msg.memory_regions))
    ⊎ ((s.result ≡ (if dead then err Error.disconnect else ok tt))
        × (s.taken ≡ none)
        × (s.headers.refs u ≡ h.refs u))

-- The retries change nothing.
send_loop-replicate :
    (dead : Bool) (h : Headers) (regions : List MemoryRegion) (mach_msg : Bytes) (n : ℕ)
    (rs : List SendReturn)
    → send_loop dead h regions mach_msg (replicate n no_buffer ++ rs)
      ≡ send_loop dead h regions mach_msg rs
unfolding send_loop
send_loop-replicate dead h regions mach_msg zero rs = refl
send_loop-replicate dead h regions mach_msg (suc n) rs =
    send_loop-replicate dead h regions mach_msg n rs

module _ (remote : ℕ) (dead : Bool) (h : Headers) (u : ℕ) (msg : EncodedMessage)
    (fits : h.refs u + tally u msg.memory_regions < 2 ^ 32) where
  abbrev added : Headers
  added = add_refs h msg.memory_regions

  send_loop-IsSettled :
      (r : SendReturn) (rs : List SendReturn)
      → r ≢ no_buffer
      → (s : Sent) × (send_loop dead added msg.memory_regions
            (addressed remote msg.mach_msg)
            (r ∷ rs)
          ≡ some s)
        × IsSettled remote dead h u msg s
  unfolding send_loop
  send_loop-IsSettled success rs e = (
    record { result = ok tt; headers = added; taken = some (addressed remote msg.mach_msg) },
    refl,
    inl (refl, refl, refs-add_refs u h msg.memory_regions fits),
  )
  send_loop-IsSettled no_buffer rs e = absurd (e refl)
  send_loop-IsSettled other rs e =
      let counts = refs-add_refs u h msg.memory_regions fits in
      let back = refs-sub_refs u added msg.memory_regions in
      (
        record {
          result = if dead then err Error.disconnect else ok tt;
          headers = sub_refs added msg.memory_regions;
          taken = none;
        },
        refl,
        inr (refl, refl, omega (arith, counts, back)),
      )

-- Where the counts do not overflow: as soon as the kernel returns something else than that it has no
-- buffer, `send` returns. Either the kernel took the message, with the remote's port in it, and each of
-- its regions has one more reference; or it took nothing, the counts are as before, and the result is a
-- disconnect if the remote is dead and success if it is not.
pub send-IsSettled :
    (remote : ℕ) (dead : Bool) (h : Headers) (u : ℕ) (msg : EncodedMessage) (retries : ℕ)
    (r : SendReturn) (rs : List SendReturn)
    → h.refs u + tally u msg.memory_regions < 2 ^ 32
    → r ≢ no_buffer
    → (s : Sent) × (send remote dead h msg (replicate retries no_buffer ++ r ∷ rs) ≡ some s)
      × IsSettled remote dead h u msg s
unfolding send
send-IsSettled remote dead h u msg retries r rs fits e =
    rw
      (send_loop-replicate dead (add_refs h msg.memory_regions) msg.memory_regions
        (addressed remote msg.mach_msg) retries (r ∷ rs))
      (send_loop-IsSettled remote dead h u msg fits r rs e)
