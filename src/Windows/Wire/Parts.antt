-- ===== src/Windows/Wire/Parts.antt =====
-- ipmb/src/platform/windows/mod.rs: the parts of a message in its buffer, with the handles.
use ipmb.Prelude.{
  ℕ, ◌+◌, ◌*◌, ◌%◌, ◌^◌, ◌≤◌, ◌<◌, ◌≡◌, inl, arith, some, List, [], ◌∷◌, length, All,
}
use ipmb.Version.{version}
use ipmb.Util.{align4}
use ipmb.Util.Laws.{align4_lem}
use ipmb.Message.{Bytes}
use ipmb.Linux.Buffer.{uninitialized, slice?, u32_bytes, read_u32}
use ipmb.Linux.Buffer.Laws.{length-uninitialized, read_u32_lem}
use ipmb.Linux.Layout.{align4-32}
use ipmb.Windows.Wire.{msg_size, writes, parts, pipe_msg, read_handles}
use ipmb.Windows.Wire.Layout.{
  length-writes, slice?-writes_mid, handle_writes, handles-IsBeside_before, handles-IsBeside_after,
  read_handles-writes,
}

module _ (junk : ℕ → ℕ) (sel pay : Bytes) (hs : List ℕ) (sel_small : length sel + 4 ≤ 2 ^ 32)
    (pay_small : length pay + 4 ≤ 2 ^ 32) (few : length hs < 2 ^ 32)
    (fit : All (λ h. h < 2 ^ 64) hs) where
  abbrev n : ℕ
  n = length hs

  abbrev memory : Bytes
  memory = uninitialized junk (msg_size n sel pay)

  abbrev rest : List (ℕ × Bytes)
  rest = handle_writes 8 hs

  abbrev pub full : Bytes
  full = writes (pipe_msg junk n sel pay) rest

  room : 16 + n * 8 + align4 64 (length sel) + length pay ≤ length memory
  room = rw length-uninitialized (omega (arith, (align4_lem 64 (length pay) (omega arith)).1))

  sel_fits : length sel ≤ align4 64 (length sel)
  sel_fits = (align4_lem 64 (length sel) (omega arith)).1

  abbrev at_sel : ℕ
  at_sel = 8 + n * 8

  abbrev at_pay : ℕ
  at_pay = at_sel + 4 + align4 64 (length sel)

  abbrev word : Bytes
  word = 0xff ∷ version.major ∷ version.minor ∷ version.patch ∷ []

  abbrev count : Bytes
  count = u32_bytes (n % 2 ^ 32)

  abbrev sel_size : Bytes
  sel_size = u32_bytes (length sel % 2 ^ 32)

  abbrev pay_size : Bytes
  pay_size = u32_bytes (length pay % 2 ^ 32)

  pub full-word : slice? full 0 4 ≡ some word
  unfolding pipe_msg
  full-word =
      slice?-writes_mid memory [] 0 word
        ((4, count)
          ∷ (at_sel, sel_size)
          ∷ (at_sel + 4, sel)
          ∷ (at_pay, pay_size)
          ∷ (at_pay + 4, pay)
          ∷ rest)
        (omega (arith, room))
        (
          inl (omega arith),
          (
            inl (omega arith),
            (
              inl (omega arith),
              (
                inl (omega arith),
                (inl (omega arith), handles-IsBeside_before 8 0 4 hs (omega arith)),
              ),
            ),
          ),
        )

  pub full-count : read_u32 full 4 ≡ some n
  unfolding pipe_msg
  full-count = read_u32_lem _ 4 n few (
      slice?-writes_mid memory ((0, word) ∷ []) 4 count
        ((at_sel, sel_size) ∷ (at_sel + 4, sel) ∷ (at_pay, pay_size) ∷ (at_pay + 4, pay) ∷ rest)
        (omega (arith, room))
        (
          inl (omega arith),
          (
            inl (omega arith),
            (
              inl (omega arith),
              (inl (omega arith), handles-IsBeside_before 8 4 4 hs (omega arith)),
            ),
          ),
        ))

  pub full-sel_size : read_u32 full at_sel ≡ some (length sel)
  unfolding pipe_msg
  full-sel_size = read_u32_lem _ at_sel (length sel) (omega arith) (
      slice?-writes_mid memory ((0, word) ∷ (4, count) ∷ []) at_sel sel_size
        ((at_sel + 4, sel) ∷ (at_pay, pay_size) ∷ (at_pay + 4, pay) ∷ rest) (omega (arith, room))
        (
          inl (omega arith),
          (
            inl (omega arith),
            (inl (omega arith), handles-IsBeside_after 8 at_sel 4 hs (omega arith)),
          ),
        ))

  pub full-sel : slice? full (at_sel + 4) (length sel) ≡ some sel
  unfolding pipe_msg
  full-sel =
      slice?-writes_mid memory ((0, word) ∷ (4, count) ∷ (at_sel, sel_size) ∷ []) (at_sel + 4) sel
        ((at_pay, pay_size) ∷ (at_pay + 4, pay) ∷ rest) (omega (arith, room, sel_fits))
        (
          inl (omega (arith, sel_fits)),
          (
            inl (omega (arith, sel_fits)),
            handles-IsBeside_after 8 (at_sel + 4) (length sel) hs (omega arith),
          ),
        )

  pub full-pay_size : read_u32 full (at_sel + 4 + align4 32 (length sel)) ≡ some (length pay)
  unfolding pipe_msg
  full-pay_size = rw (align4-32 (length sel) sel_small) (
      read_u32_lem _ at_pay (length pay) (omega arith) (
        slice?-writes_mid memory
          ((0, word) ∷ (4, count) ∷ (at_sel, sel_size) ∷ (at_sel + 4, sel) ∷ []) at_pay pay_size
          ((at_pay + 4, pay) ∷ rest) (omega (arith, room))
          (inl (omega arith), handles-IsBeside_after 8 at_pay 4 hs (omega arith))))

  pub full-pay : slice? full (at_sel + 4 + align4 32 (length sel) + 4) (length pay) ≡ some pay
  unfolding pipe_msg
  full-pay = rw (align4-32 (length sel) sel_small) (
      slice?-writes_mid memory
        ((0, word) ∷ (4, count) ∷ (at_sel, sel_size) ∷ (at_sel + 4, sel) ∷ (at_pay, pay_size) ∷ [])
        (at_pay + 4) pay rest (omega (arith, room))
        (handles-IsBeside_after 8 (at_pay + 4) (length pay) hs (omega arith)))

  length-pipe_msg : length (pipe_msg junk n sel pay) ≡ length memory
  unfolding pipe_msg
  length-pipe_msg = length-writes memory (parts n sel pay)

  pub full-handles : read_handles full 8 n ≡ some hs
  full-handles =
      read_handles-writes (pipe_msg junk n sel pay) 8 hs (omega (arith, room, length-pipe_msg)) fit
