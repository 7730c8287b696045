-- ===== src/Windows.antt =====
-- ipmb/src/platform/windows/mod.rs: named pipes with overlapped operations, and the statuses that they
-- go through. The children model the hub over them.
pub mod Hub
pub mod Wire
pub mod Connect
pub mod Process
mod Examples
use ipmb.Prelude.{
  ℕ, ◌+◌, ◌-◌, ◌*◌, Bool, true, false, Option, none, some, List, [], ◌∷◌, ◌++◌, length, take, ltb,
  if◌then◌else◌,
}
use ipmb.Message.{Bytes}

pub data NamedPipeStatus : Type 0 where
  free readable pending ready offline : NamedPipeStatus

-- `buffer` holds the bytes that the system wrote to the spare capacity of the vector, whose length
-- stays 0.
pub record NamedPipe : Type 0 where
  pub handle : ℕ
  pub status : NamedPipeStatus
  pub buffer : Bytes
  pub capacity : ℕ
  pub message_size : ℕ

-- `NamedPipe::new`
abbrev pub new_pipe : ℕ → NamedPipeStatus → NamedPipe
new_pipe handle status = record {
  handle = handle;
  status = status;
  buffer = [];
  capacity = 64;
  message_size = 0;
}

-- What `ConnectNamedPipe` and the error behind it say.
pub data Connected : Type 0 where
  returned connected listening failed : Connected

abbrev pub status_after : Connected → NamedPipeStatus
status_after returned = pending
status_after connected = readable
status_after listening = pending
status_after failed = offline

-- `NamedPipe::listen`; `none` for the arms that are `unreachable!()`
unfoldable pub listen : Connected → NamedPipe → Option NamedPipe
listen answer pipe = elim pipe.status [
  | free ↦ some (record pipe { status = status_after answer })
  | pending ↦ some pipe
  | offline ↦ some pipe
  | readable ↦ none
  | ready ↦ none
]

-- What `ReadFile` and the error behind it say. The bytes come with the completion.
pub data ReadStarted : Type 0 where
  returned more_data pending failed : ReadStarted

abbrev pub status_of_read : ReadStarted → NamedPipeStatus
status_of_read ReadStarted.returned = pending
status_of_read ReadStarted.more_data = pending
status_of_read ReadStarted.pending = pending
status_of_read ReadStarted.failed = offline

-- A message that was read whole: the buffer and the size of what is in it.
abbrev pub Read : Type 0
Read = Bytes × ℕ

abbrev pub start_read : ReadStarted → NamedPipe → Option (Option Read × NamedPipe)
start_read answer pipe = some (none, record pipe { status = status_of_read answer })

abbrev pub take_read : NamedPipe → Option (Option Read × NamedPipe)
take_read pipe = some (
  some (pipe.buffer, pipe.message_size),
  record pipe { status = readable; buffer = []; capacity = 64; message_size = 0 },
)

-- `NamedPipe::read`; `none` for the arm that is `unreachable!()`
unfoldable pub read : ReadStarted → NamedPipe → Option (Option Read × NamedPipe)
read answer pipe = elim pipe.status [
  | free ↦ none
  | pending ↦ some (none, pipe)
  | offline ↦ some (none, pipe)
  | readable ↦ start_read answer pipe
  | ready ↦
      if ltb 0 pipe.message_size
      then take_read pipe
      else start_read answer (record pipe { status = readable })
]

-- Bytes that the system wrote at `message_size` for a read that completed.
abbrev pub written : NamedPipe → Bytes → NamedPipe
written pipe bytes = record pipe {
  buffer = take pipe.message_size pipe.buffer ++ bytes;
  message_size = pipe.message_size + length bytes;
}
