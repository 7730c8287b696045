-- ===== src/Node/Examples.antt =====
-- A receiver with two promises, of which one times out, and a sender with a registry of one region.
use ipmb.Prelude.{
  ℕ, ◌+◌, ◌≤◌, ◌≡◌, refl, arith, true, false, none, some, List, [], ◌∷◌, ◌++◌, length, retain,
  if◌then◌else◌, ltb,
}
use ipmb.Errors.{RecvError, ok, err}
use ipmb.Label.{leaf}
use ipmb.Message.{Message, BytesMessage, unicast_to}
use ipmb.Region.{
  Object, MemoryRegion, header_length, ref_count, ref_count_inner, from_object, clone,
}
use ipmb.Region.Mapping.{System, map_range, map_object, trunc_page}
use ipmb.Util.{range_to_offset_size}
use ipmb.Registry.{MemoryRegistry}
use ipmb.Registry.Alloc.{alloc_within, find_bucket, find_entry}
use ipmb.Registry.Maintain.{maintain_inner, maintain_buckets, maintain_entries, maintain_entry}
use ipmb.Node.Action.{Reason, DelegateAction}
use ipmb.Node.Buffer.{
  Env, LocalBuffer, clean_timeout, clean_loop, reject_all, recv, delegate_receiver,
  consume_deferred,
}
use ipmb.Node.Timeouts.{unexpired, expired, clean_timeout_lem}
use ipmb.Node.Run.{
  Operation, ask, act, started, step, replay, spec_started, spec_run, answers, is_answer,
}
use ipmb.Node.Delivery.{Refines, replay-Refines}
use ipmb.Node.Promises.{times, waits, replay-settles}
use ipmb.Node.Thread.{Round, serve, signalled, empty, turn}
use ipmb.Node.Thread.Laws.{calls_of, results, replay-serve}
use ipmb.Node.Upload.{Upload, Copy, upload}
use ipmb.Node.Upload.Laws.{upload-fits}

abbrev working : Env
working = record { create_error = λ e. true; create_object = λ m. true }

abbrev message : ℕ → Message BytesMessage
message n = record {
  selector = unicast_to (leaf "a");
  payload = record { format = n; bytes = n ∷ [] };
  objects = [];
  memory_regions = [];
}

abbrev waiting : LocalBuffer
waiting = record {
  closed = false;
  messages = [];
  deferred_list =
      record { deferred = 0; deadline = some 5 }
      ∷ record { deferred = 1; deadline = none }
      ∷ record { deferred = 2; deadline = some 9 }
      ∷ [];
}

-- Two promises, the first with a deadline of a millisecond; a pass after it; two messages; a promise.
abbrev history : List Operation
history =
    ask 0 (some 1)
    ∷ ask 0 none
    ∷ act 2000000 DelegateAction.clean_timeout
    ∷ act 2000001 (DelegateAction.recv (ok (message 7)))
    ∷ act 2000002 (DelegateAction.recv (ok (message 8)))
    ∷ ask 2000003 none
    ∷ []

history_runs :
    (replay working started history).log
    ≡ record { promise = 0; outcome = err Reason.timeout }
      ∷ record { promise = 1; outcome = ok (message 7) }
      ∷ record { promise = 2; outcome = ok (message 8) }
      ∷ []
unfolding replay step recv delegate_receiver clean_timeout clean_loop reject_all consume_deferred
history_runs = refl

clean_timeout_lem_example :
    clean_timeout working 7 waiting
    ≡ some (
      record waiting { deferred_list = unexpired 7 waiting.deferred_list },
      reject_all working Reason.timeout (expired 7 waiting.deferred_list),
    )
clean_timeout_lem_example = clean_timeout_lem working 7 waiting

replay-Refines_example :
    Refines working (spec_run spec_started history) (replay working started history)
replay-Refines_example = replay-Refines working history

replay-settles_example :
    let y = replay working started history in
    let z = replay working started (history ++ act 9 DelegateAction.close ∷ []) in
    (times 1 y.log + waits 1 y.buffer.deferred_list ≡ (if ltb 1 y.created then 1 else 0))
    × (times 1 z.log ≡ (if ltb 1 y.created then 1 else 0))
    × (z.buffer.deferred_list ≡ [])
replay-settles_example = replay-settles working history 9 1 (λ e. refl, λ m. refl)

-- The thread behind that history: a timeout, and two messages.
abbrev rounds : List Round
rounds =
    (err RecvError.timeout, empty) ∷ (ok (message 7), signalled) ∷ (ok (message 8), signalled) ∷ []

history_of_rounds : calls_of history ≡ (serve rounds).calls
unfolding serve turn
history_of_rounds = refl

replay-serve_example :
    retain is_answer (replay working started history).log
    ≡ answers working (spec_run spec_started history).promises (results rounds)
replay-serve_example = replay-serve working rounds history history_of_rounds

abbrev busy : List Round
busy = (ok (message 7), signalled) ∷ (err RecvError.decode, signalled) ∷ []

abbrev registry : MemoryRegistry
registry = record {
  inner =
      (
        100,
        record {
          region = record {
            buffer_size = 100;
            buffer = none;
            obj = record { raw = 1; target = 1 };
          };
          last_alloc = 0;
          tag = none;
          guard = none;
        }
            ∷ [],
      )
      ∷ [];
  headers = record { refs = λ u. 1; sizes = λ u. 100 };
  freed = [];
}

abbrev os : System
os = record { page_size = 4096; map = λ obj off len. ok (65536 + off) }

abbrev buffer : Upload
buffer = record {
  buf = 1 ∷ 2 ∷ 3 ∷ [];
  now = 10;
  kernel = record { obj_new = some (record { raw = 9; target = 9 }); duplicate = λ o. some o };
}

abbrev created : MemoryRegion
created = record {
  buffer_size = 3;
  buffer = some (record { offset = 12; ptr = 65548; len = 3 });
  obj = record { raw = 9; target = 9 };
}

abbrev copy : Copy
copy = record { target = record { offset = 12; ptr = 65548; len = 3 }; bytes = 1 ∷ 2 ∷ 3 ∷ [] }

buffer_uploaded : upload os buffer registry ≡ (ok (created, copy), (upload os buffer registry).1)
unfolding upload alloc_within find_bucket find_entry maintain_inner maintain_buckets
    maintain_entries maintain_entry ref_count ref_count_inner clone from_object map_range map_object
    trunc_page range_to_offset_size
buffer_uploaded = refl

same_target : (o d : Object) → buffer.kernel.duplicate o ≡ some d → d.target ≡ o.target
same_target o d e = ground arith

upload-fits_example :
    (copy.bytes ≡ buffer.buf)
    × (copy.target.offset ≡ header_length)
    × (length buffer.buf ≤ copy.target.len)
upload-fits_example =
    upload-fits os buffer registry (upload os buffer registry).1 created copy same_target
      (((refl, omega arith), tt), tt) (omega arith) buffer_uploaded
