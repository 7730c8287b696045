-- ===== src/Windows/Examples.antt =====
-- A hub with a listening pipe and two pipes: a peer connects, one pipe fails, and a message arrives in
-- two parts.
use ipmb.Prelude.{ℕ, suc, ◌≡◌, refl, true, some, List, [], ◌∷◌, length, ◌==◌, if◌then◌else◌}
use ipmb.Message.{Bytes}
use ipmb.Linux.Hub.{empty}
use ipmb.Windows.{new_pipe, free, pending, readable, Connected, ReadStarted, listen, read}
use ipmb.Windows.Hub.{
  IoHub, continues, Failure, Waited, Outcome, arrived, Round, read_pipes, hub_listen, listen_loop,
  after_wait, turn, recv,
}
use ipmb.Windows.Hub.Passes.{IsSound, Safe, Ends, IsRead}
use ipmb.Windows.Hub.Laws.{recv-IsSound, read_pipes-ends}

abbrev same_bytes : Bytes → Bytes
same_bytes bs = bs

abbrev hub : IoHub
hub = record {
  bus_receiver = true;
  waker = 0;
  pipes = new_pipe 8 readable ∷ new_pipe 9 readable ∷ [];
  listening_pipe = some (new_pipe 7 free);
}

-- The read of pipe 8 fails.
abbrev reads : ℕ → ReadStarted
reads h = if h == 8 then ReadStarted.failed else ReadStarted.pending

abbrev round_of : List (Connected × ℕ) → Waited → Round
round_of answers waited = record {
  answers = answers;
  received = empty;
  reads = reads;
  waited = waited;
  fresh = 11;
}

abbrev rounds : List Round
rounds =
    round_of ((Connected.connected, 10) ∷ (Connected.listening, 0) ∷ [])
      (Waited.failed 9 Failure.more_data (1 ∷ 2 ∷ []))
    ∷ round_of ((Connected.listening, 0) ∷ []) (Waited.completed 9 (3 ∷ []))
    ∷ round_of ((Connected.listening, 0) ∷ []) Waited.timed_out
    ∷ []

message_arrives :
    recv same_bytes rounds hub
    ≡ continues (
      arrived (1 ∷ 2 ∷ 3 ∷ [], 3),
      record hub {
        pipes = record (new_pipe 7 pending) { status = pending } ∷ new_pipe 9 readable ∷ [];
        listening_pipe = some (new_pipe 10 pending);
      },
    )
unfolding recv turn hub_listen listen_loop listen read_pipes read after_wait
message_arrives = refl

hub-IsSound : IsSound hub
hub-IsSound = ((refl, (refl, tt)), refl)

recv-IsSound_example : Safe (λ (o : Outcome × IoHub). IsSound o.1) (recv same_bytes rounds hub)
recv-IsSound_example = recv-IsSound same_bytes rounds hub hub-IsSound

read_pipes-ends_example : Ends IsRead (read_pipes (suc (length hub.pipes)) reads 0 hub.pipes)
read_pipes-ends_example = read_pipes-ends hub reads (refl, (refl, tt))

same_bytes-same : (bs : Bytes) → same_bytes bs ≡ bs
same_bytes-same bs = refl
