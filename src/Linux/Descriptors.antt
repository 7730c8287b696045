-- ===== src/Linux/Descriptors.antt =====
-- ipmb/src/platform/linux/fd.rs and linux/io_mul.rs: the test whether a remote is dead, and the wait
-- for events.
use ipmb.Prelude.{
  ℕ, ◌-◌, ◌*◌, ◌/◌, ◌%◌, ◌^◌, ◌<◌, ◌≡◌, arith, Bool, not, ◌||◌, Option, none, some, List, [], ltb,
  ◌==◌, if◌then◌else◌,
}
use ipmb.Region.{ℤ, pos, negsuc}

-- `Remote::is_dead`, given what `getsockopt` returned: whether it failed, and the pending error
abbrev pub is_dead : Bool → ℕ → Bool
is_dead failed e = failed || not (e == 0)

-- `n as c_int`, of 32 bits
abbrev pub c_int : ℕ → ℤ
c_int n = let low = n % 2 ^ 32 in if ltb low (2 ^ 31) then pos low else negsuc (2 ^ 32 - 1 - low)

-- The timeout in nanoseconds as `epoll_wait` gets it, in milliseconds. A negative one is for ever.
unfoldable pub epoll_timeout : Option ℕ → ℤ
epoll_timeout none = negsuc 0
epoll_timeout (some tot) = c_int (tot / 10 ^ 6)

-- `IoMultiplexing::wait`: the events, given what `epoll_wait` returned
abbrev pub waited : {A : Type 0} → Option (List A) → List A
waited none = []
waited (some events) = events

-- A timeout of less than 2 ^ 31 milliseconds is passed on in whole milliseconds.
pub epoll_timeout-small :
    (tot : ℕ) → tot < 2 ^ 31 * 10 ^ 6 → epoll_timeout (some tot) ≡ pos (tot / 10 ^ 6)
unfolding epoll_timeout
epoll_timeout-small tot h = ground arith
