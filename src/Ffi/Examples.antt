-- ===== src/Ffi/Examples.antt =====
-- A store of one message and one region, whose handle is put into the message and taken out.
use ipmb.Prelude.{ℕ, ◌+◌, ◌≡◌, refl, some, none, [], ◌∷◌, length}
use ipmb.Label.{leaf}
use ipmb.Message.{Message, BytesMessage, unicast_to}
use ipmb.Region.{MemoryRegion}
use ipmb.Ffi.Boxes.{take_box, deref, set_box, Boxes, make_box}
use ipmb.Ffi.Messages.{
  Store, region_append, region_retrieve, object_append, object_get, message_into, region_get,
}
use ipmb.Ffi.Laws.{region_append-region_retrieve}
use ipmb.Ffi.Laws.Counts.{append, retrieve, calls, call, in_store, in_list, calls-keep}

abbrev region : ℕ → MemoryRegion
region n = record { buffer_size = 100; buffer = none; obj = record { raw = n; target = n } }

abbrev message : Message BytesMessage
message = record {
  selector = unicast_to (leaf "a");
  payload = record { format = 0; bytes = [] };
  objects = [];
  memory_regions = region 5 ∷ [];
}

abbrev store : Store
store = record { messages = (8, message) ∷ []; regions = (16, region 6) ∷ [] }

abbrev filled : Store
filled = record {
  messages = (8, record message { memory_regions = region 5 ∷ region 6 ∷ [] }) ∷ [];
  regions = [];
}

append_runs : region_append 8 16 store ≡ some filled
unfolding region_append take_box deref set_box
append_runs = refl

message_boxed : deref 8 store.messages ≡ some message
unfolding deref
message_boxed = refl

region_append-region_retrieve_example :
    (r : MemoryRegion) × (rs : Boxes MemoryRegion) × (take_box 16 store.regions ≡ some (r, rs))
    × (region_get 8 (length message.memory_regions) filled ≡ some (some r))
    × (region_retrieve 24 8 (length message.memory_regions) filled
        ≡ some (24, record { messages = store.messages; regions = make_box 24 r rs }))
region_append-region_retrieve_example =
    region_append-region_retrieve 8 16 24 store filled message message_boxed append_runs

-- The first region of the message is taken out before it is sent.
abbrev retrieved : Store
retrieved = record {
  messages = (8, record message { memory_regions = region 6 ∷ [] }) ∷ [];
  regions = (24, region 5) ∷ [];
}

calls_run : calls ((0, append 8 16) ∷ (24, retrieve 8 0) ∷ []) store ≡ some retrieved
unfolding calls call region_append region_retrieve take_box deref set_box
calls_run = refl

message_taken :
    message_into 8 retrieved
    ≡ some (record message { memory_regions = region 6 ∷ [] }, record retrieved { messages = [] })
unfolding message_into take_box
message_taken = refl

calls-keep_example :
    (in_store 5 retrieved ≡ in_store 5 store)
    × (in_store 5 (record retrieved { messages = [] }) + in_list 5 (region 6 ∷ [])
        ≡ in_store 5 store)
calls-keep_example =
    calls-keep 5 8 ((0, append 8 16) ∷ (24, retrieve 8 0) ∷ []) store retrieved
      (record retrieved { messages = [] }) (record message { memory_regions = region 6 ∷ [] })
      calls_run message_taken

-- The value 0 stands both for an object with that raw value and for none.
zero_is_ambiguous :
    (object_append 8 (record { raw = 0; target = 1 }) store
      ≡ some (record store {
        messages = (8, record message { objects = record { raw = 0; target = 1 } ∷ [] }) ∷ [];
      }))
    × (object_get 8 0 store ≡ some 0)
    × (object_get 8 0 (record store {
      messages = (8, record message { objects = record { raw = 0; target = 1 } ∷ [] }) ∷ [];
    })
        ≡ some 0)
unfolding object_append object_get deref set_box
zero_is_ambiguous = (refl, refl, refl)
