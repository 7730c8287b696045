-- ===== src/Windows/Wire/Layout.antt =====
-- ipmb/src/platform/windows/mod.rs: what is written into the buffer of a message is found there.
use ipmb.Prelude.{
  ℕ, ◌+◌, ◌*◌, ◌/◌, ◌%◌, ◌^◌, ◌≤◌, ◌<◌, ◌≡◌, ◌⊎◌, inl, inr, refl, ap, subst, ◌∙◌, arith, some, List,
  [], ◌∷◌, ◌++◌, length, All,
}
use ipmb.Message.{Bytes}
use ipmb.Linux.Buffer.{write, slice?, u32_bytes, read_u32}
use ipmb.Linux.Buffer.Laws.{length-write, slice?-write, slice?-write_beside, read_u32_lem}
use ipmb.Windows.Wire.{writes, u64_parts, read_u64, read_handles}

-- A write that does not touch `n` bytes at `i`.
abbrev pub IsBeside : ℕ → ℕ → ℕ × Bytes → Type 0
IsBeside i n w = (i + n ≤ w.0) ⊎ (w.0 + length w.1 ≤ i)

pub length-writes : (buf : Bytes) (ws : List (ℕ × Bytes)) → length (writes buf ws) ≡ length buf
unfolding writes
length-writes buf [] = refl
length-writes buf ((off, bytes) ∷ ws) =
    length-writes (write buf off bytes) ws ∙ length-write buf off bytes

pub slice?-writes_beside :
    (buf : Bytes) (ws : List (ℕ × Bytes)) (i n : ℕ)
    → All (IsBeside i n) ws
    → slice? (writes buf ws) i n ≡ slice? buf i n
unfolding writes
slice?-writes_beside buf [] i n h = refl
slice?-writes_beside buf ((off, bytes) ∷ ws) i n h =
    slice?-writes_beside (write buf off bytes) ws i n h.1
    ∙ slice?-write_beside buf off bytes i n h.0

-- What the first of some writes put down, where none of the others touches it.
pub slice?-writes :
    (buf : Bytes) (off : ℕ) (bytes : Bytes) (ws : List (ℕ × Bytes))
    → off + length bytes ≤ length buf
    → All (IsBeside off (length bytes)) ws
    → slice? (writes buf ((off, bytes) ∷ ws)) off (length bytes) ≡ some bytes
unfolding writes
slice?-writes buf off bytes ws h b =
    slice?-writes_beside (write buf off bytes) ws off (length bytes) b
    ∙ slice?-write buf off bytes h

-- Handles, written from an offset.
abbrev pub handle_writes : ℕ → List ℕ → List (ℕ × Bytes)
handle_writes off [] = []
handle_writes off (h ∷ hs) = u64_parts off h ++ handle_writes (off + 8) hs

pub handles-IsBeside_before :
    (off i n : ℕ) (hs : List ℕ) → i + n ≤ off → All (IsBeside i n) (handle_writes off hs)
handles-IsBeside_before off i n [] h = tt
handles-IsBeside_before off i n (x ∷ hs) h =
    (inl h, (inl (omega arith), handles-IsBeside_before (off + 8) i n hs (omega arith)))

pub handles-IsBeside_after :
    (off i n : ℕ) (hs : List ℕ)
    → off + length hs * 8 ≤ i
    → All (IsBeside i n) (handle_writes off hs)
handles-IsBeside_after off i n [] h = tt
handles-IsBeside_after off i n (x ∷ hs) h =
    (inr (omega arith), (inr (omega arith), handles-IsBeside_after (off + 8) i n hs (omega arith)))

pub writes-append :
    (buf : Bytes) (xs ys : List (ℕ × Bytes)) → writes buf (xs ++ ys) ≡ writes (writes buf xs) ys
unfolding writes
writes-append buf [] ys = refl
writes-append buf ((off, bytes) ∷ xs) ys = writes-append (write buf off bytes) xs ys

read_u32-writes :
    (buf : Bytes) (off n : ℕ) (ws : List (ℕ × Bytes))
    → n < 2 ^ 32
    → off + 4 ≤ length buf
    → All (IsBeside off 4) ws
    → read_u32 (writes buf ((off, u32_bytes (n % 2 ^ 32)) ∷ ws)) off ≡ some n
read_u32-writes buf off n ws s b h =
    read_u32_lem _ off n s (slice?-writes buf off (u32_bytes (n % 2 ^ 32)) ws b h)

same_low : (h : ℕ) → h % 2 ^ 32 % 2 ^ 32 ≡ h % 2 ^ 32
same_low h = omega arith

read_high :
    (buf : Bytes) (off h : ℕ) (ws : List (ℕ × Bytes))
    → h < 2 ^ 64
    → off + 8 ≤ length buf
    → All (IsBeside (off + 4) 4) ws
    → read_u32 (writes buf (u64_parts off h ++ ws)) (off + 4) ≡ some (h / 2 ^ 32)
unfolding writes
read_high buf off h ws s b hi =
    read_u32-writes (write buf off (u32_bytes (h % 2 ^ 32))) (off + 4) (h / 2 ^ 32) ws (omega arith)
      (omega (arith, length-write buf off (u32_bytes (h % 2 ^ 32)))) hi

read_low :
    (buf : Bytes) (off h : ℕ) (ws : List (ℕ × Bytes))
    → off + 8 ≤ length buf
    → All (IsBeside off 4) ws
    → read_u32 (writes buf (u64_parts off h ++ ws)) off ≡ some (h % 2 ^ 32)
read_low buf off h ws b lo =
    subst
      (λ n.
        read_u32 (writes buf ((off, u32_bytes n) ∷ (off + 4, u32_bytes (h / 2 ^ 32 % 2 ^ 32)) ∷ ws))
          off
        ≡ some (h % 2 ^ 32))
      (same_low h)
      (read_u32-writes buf off (h % 2 ^ 32) ((off + 4, u32_bytes (h / 2 ^ 32 % 2 ^ 32)) ∷ ws)
        (omega arith) (omega arith) (inl (omega arith), lo))

read_u64-writes :
    (buf : Bytes) (off h : ℕ) (ws : List (ℕ × Bytes))
    → h < 2 ^ 64
    → off + 8 ≤ length buf
    → All (IsBeside off 4) ws
    → All (IsBeside (off + 4) 4) ws
    → read_u64 (writes buf (u64_parts off h ++ ws)) off ≡ some h
unfolding read_u64
read_u64-writes buf off h ws s b lo hi =
    rw (read_u64, read_low buf off h ws b lo, read_high buf off h ws s b hi) (ap some (omega arith))

-- Handles that were written are read back.
pub read_handles-writes :
    (buf : Bytes) (off : ℕ) (hs : List ℕ)
    → off + length hs * 8 ≤ length buf
    → All (λ h. h < 2 ^ 64) hs
    → read_handles (writes buf (handle_writes off hs)) off (length hs) ≡ some hs
unfolding read_handles writes
read_handles-writes buf off [] b s = refl
read_handles-writes buf off (h ∷ hs) b s =
    rw
      (
        read_handles,
        read_u64-writes buf off h (handle_writes (off + 8) hs) s.0 (omega arith)
            (handles-IsBeside_before (off + 8) off 4 hs (omega arith))
            (handles-IsBeside_before (off + 8) (off + 4) 4 hs (omega arith)),
        read_handles-writes (writes buf (u64_parts off h)) (off + 8) hs
            (omega (arith, length-writes buf (u64_parts off h))) s.1,
      )
      refl

-- What one of some writes put down, where none of the later ones touches it.
pub slice?-writes_mid :
    (buf : Bytes) (pre : List (ℕ × Bytes)) (off : ℕ) (bytes : Bytes) (post : List (ℕ × Bytes))
    → off + length bytes ≤ length buf
    → All (IsBeside off (length bytes)) post
    → slice? (writes buf (pre ++ (off, bytes) ∷ post)) off (length bytes) ≡ some bytes
slice?-writes_mid buf pre off bytes post b h =
    rw (writes-append buf pre ((off, bytes) ∷ post))
      (slice?-writes (writes buf pre) off bytes post (omega (arith, length-writes buf pre)) h)
