-- ===== src/Macos/Wire/Layout.antt =====
-- ipmb/src/platform/macos/mod.rs: what a message holds, whoever wrote it: ports in its descriptors, and
-- the selector and the payload behind them.
use ipmb.Prelude.{
  ℕ, zero, suc, ◌+◌, ◌*◌, ◌≤◌, ◌≡◌, ◌⊎◌, inl, inr, ◌∙◌, arith, some, List, [], ◌∷◌, length, All,
}
use ipmb.Version.{version}
use ipmb.Util.{align4}
use ipmb.Message.{Bytes}
use ipmb.Linux.Buffer.{slice?, read_u32}
use ipmb.Windows.Wire.{writes}
use ipmb.Windows.Wire.Layout.{IsBeside, slice?-writes_beside}
use ipmb.Macos.Wire.{
  base_size, descriptor_size, copy_send, port_descriptor, complex_bits, msg_size, read_u8,
  descriptor_writes, content_writes,
}

-- Equal slices read as equal numbers.
pub read_u32-slice? :
    (buf buf' : Bytes) (i : ℕ) → slice? buf i 4 ≡ slice? buf' i 4 → read_u32 buf i ≡ read_u32 buf' i
unfolding read_u32
read_u32-slice? buf buf' i e = rw e

pub read_u8-slice? :
    (buf buf' : Bytes) (i : ℕ) → slice? buf i 1 ≡ slice? buf' i 1 → read_u8 buf i ≡ read_u8 buf' i
unfolding read_u8
read_u8-slice? buf buf' i e = rw e

pub read_u8_lem :
    (buf : Bytes) (off a : ℕ) → slice? buf off 1 ≡ some (a ∷ []) → read_u8 buf off ≡ some a
unfolding read_u8
read_u8_lem buf off a e = rw e

-- Descriptors from an offset that name the ports.
abbrev pub HasPorts : ℕ → List ℕ → Bytes → Type 0
HasPorts off [] buf = Unit
HasPorts off (name ∷ names) buf =
    (read_u32 buf off ≡ some name)
    × (read_u8 buf (off + 11) ≡ some port_descriptor)
    × HasPorts (off + descriptor_size) names buf

-- `n` descriptors from an offset that ask for a copy of the right to send.
abbrev pub HasCopies : ℕ → ℕ → Bytes → Type 0
HasCopies off zero buf = Unit
HasCopies off (suc n) buf =
    (read_u8 buf (off + 10) ≡ some copy_send) × HasCopies (off + descriptor_size) n buf

-- A message of `n` ports that carries the bytes of a selector and of a payload.
pub record Carries (n : ℕ) (sel pay buf : Bytes) : Type 0 where
  pub count : read_u32 buf 24 ≡ some n
  pub word :
      slice? buf (base_size + n * descriptor_size) 4
      ≡ some (0xff ∷ version.major ∷ version.minor ∷ version.patch ∷ [])
  pub sel_size : read_u32 buf (base_size + n * descriptor_size + 4) ≡ some (length sel)
  pub sel_data : slice? buf (base_size + n * descriptor_size + 8) (length sel) ≡ some sel
  pub pay_size :
      read_u32 buf (base_size + n * descriptor_size + 8 + align4 64 (length sel))
      ≡ some (length pay)
  pub pay_data :
      slice? buf (base_size + n * descriptor_size + 8 + align4 64 (length sel) + 4) (length pay)
      ≡ some pay

-- What the kernel asks of a message that it takes: its size, and a copy of the right to send to each of
-- the ports.
pub record IsSendable (names : List ℕ) (size : ℕ) (buf : Bytes) : Type 0 where
  pub bits : read_u32 buf 0 ≡ some complex_bits
  pub sized : read_u32 buf 4 ≡ some size
  pub count : read_u32 buf 24 ≡ some (length names)
  pub ports : HasPorts base_size names buf
  pub copies : HasCopies base_size (length names) buf

-- Two buffers that agree on the count of the ports, and up to a size on what follows `n` descriptors.
abbrev pub Agrees : ℕ → ℕ → Bytes → Bytes → Type 0
Agrees n size sent got =
    (slice? got 24 4 ≡ slice? sent 24 4)
    × ((i k : ℕ)
        → base_size + n * descriptor_size ≤ i
        → i + k ≤ size
        → slice? got i k ≡ slice? sent i k)

-- A message is carried on by what agrees with it up to its size.
pub Carries-Agrees :
    (n : ℕ) (sel pay sent got : Bytes)
    → length sel ≤ align4 64 (length sel)
    → length pay ≤ align4 64 (length pay)
    → Agrees n (msg_size n sel pay) sent got
    → Carries n sel pay sent
    → Carries n sel pay got
Carries-Agrees n sel pay sent got sf pf a c =
    let at = base_size + n * descriptor_size in
    record {
      count = read_u32-slice? got sent 24 a.0 ∙ c.count;
      word = a.1 at 4 (omega arith) (omega arith) ∙ c.word;
      sel_size =
          read_u32-slice? got sent (at + 4) (a.1 (at + 4) 4 (omega arith) (omega arith))
          ∙ c.sel_size;
      sel_data = a.1 (at + 8) (length sel) (omega arith) (omega arith) ∙ c.sel_data;
      pay_size =
          read_u32-slice? got sent (at + 8 + align4 64 (length sel))
            (a.1 (at + 8 + align4 64 (length sel)) 4 (omega arith) (omega arith))
          ∙ c.pay_size;
      pay_data =
          a.1 (at + 8 + align4 64 (length sel) + 4) (length pay) (omega arith) (omega arith)
          ∙ c.pay_data;
    }

-- A write that touches neither the count nor what follows `n` descriptors.
abbrev pub IsQuiet : ℕ → ℕ × Bytes → Type 0
IsQuiet n w =
    (w.0 + length w.1 ≤ 24)
    ⊎ ((base_size ≤ w.0) × (w.0 + length w.1 ≤ base_size + n * descriptor_size))

IsQuiet-IsBeside_count : (n : ℕ) (w : ℕ × Bytes) → IsQuiet n w → IsBeside 24 4 w
IsQuiet-IsBeside_count n w (inl h) = inr h
IsQuiet-IsBeside_count n w (inr h) = inl (omega arith)

IsQuiet-IsBeside :
    (n i k : ℕ) (w : ℕ × Bytes) → base_size + n * descriptor_size ≤ i → IsQuiet n w → IsBeside i k w
IsQuiet-IsBeside n i k w b (inl h) = inr (omega arith)
IsQuiet-IsBeside n i k w b (inr h) = inr (omega arith)

map_All :
    {A : Type 0} (P Q : A → Type 0) (xs : List A) → ((x : A) → P x → Q x) → All P xs → All Q xs
map_All P Q [] f h = tt
map_All P Q (x ∷ xs) f h = (f x h.0, map_All P Q xs f h.1)

pub Agrees-writes :
    (n size : ℕ) (buf : Bytes) (ws : List (ℕ × Bytes))
    → All (IsQuiet n) ws
    → Agrees n size buf (writes buf ws)
Agrees-writes n size buf ws q = (
  slice?-writes_beside buf ws 24 4
      (map_All (IsQuiet n) (IsBeside 24 4) ws (IsQuiet-IsBeside_count n) q),
  λ i k b s.
      slice?-writes_beside buf ws i k
        (map_All (IsQuiet n) (IsBeside i k) ws (λ w. IsQuiet-IsBeside n i k w b) q),
)

-- Descriptors stay where the bytes that they stand in do.
abbrev pub SameFrom : ℕ → ℕ → Bytes → Bytes → Type 0
SameFrom off n buf buf' =
    (i k : ℕ) → off ≤ i → i + k ≤ off + n * descriptor_size → slice? buf' i k ≡ slice? buf i k

pub HasPorts-same :
    (off : ℕ) (names : List ℕ) (buf buf' : Bytes)
    → SameFrom off (length names) buf buf'
    → HasPorts off names buf
    → HasPorts off names buf'
HasPorts-same off [] buf buf' s h = tt
HasPorts-same off (name ∷ names) buf buf' s h = (
  read_u32-slice? buf' buf off (s off 4 (omega arith) (omega arith)) ∙ h.0,
  read_u8-slice? buf' buf (off + 11) (s (off + 11) 1 (omega arith) (omega arith)) ∙ h.1,
  HasPorts-same (off + descriptor_size) names buf buf'
      (λ i k b e. s i k (omega arith) (omega arith)) h.2,
)

pub HasCopies-same :
    (off n : ℕ) (buf buf' : Bytes)
    → SameFrom off n buf buf'
    → HasCopies off n buf
    → HasCopies off n buf'
HasCopies-same off zero buf buf' s h = tt
HasCopies-same off (suc n) buf buf' s h = (
  read_u8-slice? buf' buf (off + 10) (s (off + 10) 1 (omega arith) (omega arith)) ∙ h.0,
  HasCopies-same (off + descriptor_size) n buf buf' (λ i k b e. s i k (omega arith) (omega arith))
      h.1,
)

-- Writes below an offset, and writes from one on.
abbrev pub IsBelow : ℕ → ℕ × Bytes → Type 0
IsBelow off w = w.0 + length w.1 ≤ off

abbrev pub IsFrom : ℕ → ℕ × Bytes → Type 0
IsFrom off w = off ≤ w.0

pub slice?-writes_below :
    (buf : Bytes) (ws : List (ℕ × Bytes)) (off i k : ℕ)
    → off ≤ i
    → All (IsBelow off) ws
    → slice? (writes buf ws) i k ≡ slice? buf i k
slice?-writes_below buf ws off i k b q =
    slice?-writes_beside buf ws i k
      (map_All (IsBelow off) (IsBeside i k) ws (λ w h. inr (omega arith)) q)

pub slice?-writes_from :
    (buf : Bytes) (ws : List (ℕ × Bytes)) (off i k : ℕ)
    → i + k ≤ off
    → All (IsFrom off) ws
    → slice? (writes buf ws) i k ≡ slice? buf i k
slice?-writes_from buf ws off i k b q =
    slice?-writes_beside buf ws i k
      (map_All (IsFrom off) (IsBeside i k) ws (λ w h. inl (omega arith)) q)

pub descriptors-IsFrom :
    (low off : ℕ) (names : List ℕ) → low ≤ off → All (IsFrom low) (descriptor_writes off names)
descriptors-IsFrom low off [] b = tt
descriptors-IsFrom low off (name ∷ names) b = (
  b,
  (
    omega arith,
    (
      omega arith,
      (
        omega arith,
        (omega arith, descriptors-IsFrom low (off + descriptor_size) names (omega arith)),
      ),
    ),
  ),
)

pub content-IsFrom : (off : ℕ) (sel pay : Bytes) → All (IsFrom off) (content_writes off sel pay)
content-IsFrom off sel pay =
    (omega arith, (omega arith, (omega arith, (omega arith, (omega arith, tt)))))

pub From-Beside :
    (off i k : ℕ) (ws : List (ℕ × Bytes))
    → i + k ≤ off
    → All (IsFrom off) ws
    → All (IsBeside i k) ws
From-Beside off i k ws b q = map_All (IsFrom off) (IsBeside i k) ws (λ w h. inl (omega arith)) q
