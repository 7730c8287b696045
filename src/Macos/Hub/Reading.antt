-- ===== src/Macos/Hub/Reading.antt =====
-- ipmb/src/platform/macos/mod.rs: a read of the port.
use ipmb.Prelude.{ℕ, ◌+◌, ◌^◌, ◌≤◌, ◌<◌, ◌≡◌, arith, some, List, ◌∷◌, length, leb, if◌then◌else◌}
use ipmb.Message.{Bytes}
use ipmb.Macos.Hub.{readable, too_large, message, Answer, trailer_size, first_capacity, read}

-- The answers of a port whose first message is this one: it is received whole where the buffer holds it
-- and the trailer, and else stays where it is (`MACH_RCV_LARGE`).
abbrev pub offers : Bytes → Answer
offers mach_msg capacity =
    if leb (length mach_msg + trailer_size) capacity
    then message mach_msg
    else too_large (length mach_msg)

-- Where `Vec::reserve` gives at least what it is asked for, and less than 2 ^ 32 bytes: from a port that
-- holds a message, a read from a readable pipe gives the message, by the second call at the latest, and
-- the pipe stays readable.
pub read-offers :
    (grow : ℕ → ℕ → ℕ) (mach_msg : Bytes) (rest : List Answer) (port : ℕ)
    → length mach_msg + trailer_size ≤ grow first_capacity (length mach_msg + trailer_size)
    → grow first_capacity (length mach_msg + trailer_size) < 2 ^ 32
    → read grow
        (offers mach_msg ∷ offers mach_msg ∷ rest)
        (record { port = port; status = readable })
      ≡ some (some mach_msg, record { port = port; status = readable })
unfolding read
read-offers grow mach_msg rest port enough small = ground arith
