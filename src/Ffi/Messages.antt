-- ===== src/Ffi/Messages.antt =====
-- ipmb-ffi/src/lib.rs: messages behind handles, and the objects and regions put into them and taken
-- out again.
use ipmb.Prelude.{ℕ, ◌%◌, ◌^◌, Option, none, some, [], ◌∷◌, ◌++◌, length, get_elem?, remove_at}
use ipmb.Message.{Bytes, Message, MessageBox, BytesMessage, new_message}
use ipmb.Region.{Object, MemoryRegion}
use ipmb.Ffi.{CSelector, rust_selector}
use ipmb.Ffi.Boxes.{Boxes, make_box, take_box, deref, set_box}

-- The boxes of messages and of regions that the caller holds handles of. A step gives `none` where a
-- handle has no box.
pub record Store : Type 0 where
  pub messages : Boxes (Message BytesMessage)
  pub regions : Boxes MemoryRegion

-- `ipmb_message`, at a free address
unfoldable pub make_message : MessageBox BytesMessage → ℕ → CSelector → ℕ → Bytes → Store → Store
unfolding new_message rust_selector
make_message box a selector format bytes s = record s {
  messages =
      make_box a
        (new_message box (rust_selector selector) (record { format = format; bytes = bytes }))
        s.messages;
}

-- `ipmb_message_bytes_data`: the format, the bytes, and the size, a `u32`
unfoldable pub bytes_data : ℕ → Store → Option (ℕ × Bytes × ℕ)
unfolding deref
bytes_data m s = elim (deref m s.messages) [
  | none ↦ none
  | some v ↦ some (v.payload.format, v.payload.bytes, length v.payload.bytes % 2 ^ 32)
]

-- `ipmb_message_object_append`
unfoldable pub object_append : ℕ → Object → Store → Option Store
unfolding deref set_box
object_append m obj s = elim (deref m s.messages) [
  | none ↦ none
  | some v ↦
      some (record s {
        messages = set_box m (record v { objects = v.objects ++ obj ∷ [] }) s.messages;
      })
]

-- What an object's handle is for the caller: its raw value, or 0 for none.
abbrev pub raw_or_zero : Option Object → ℕ
raw_or_zero none = 0
raw_or_zero (some obj) = obj.raw

-- `ipmb_message_object_retrieve`
unfoldable pub object_retrieve : ℕ → ℕ → Store → Option (ℕ × Store)
unfolding deref set_box
object_retrieve m index s = elim (deref m s.messages) [
  | none ↦ none
  | some v ↦ some (
    raw_or_zero (get_elem? v.objects index),
    record s { messages = set_box m (record v { objects = remove_at v.objects index }) s.messages },
  )
]

-- `ipmb_message_object_get`
unfoldable pub object_get : ℕ → ℕ → Store → Option ℕ
unfolding deref
object_get m index s = elim (deref m s.messages) [
  | none ↦ none
  | some v ↦ some (raw_or_zero (get_elem? v.objects index))
]

abbrev pub region_appended :
    ℕ
    → Store
    → Option (MemoryRegion × Boxes MemoryRegion)
    → Option (Message BytesMessage)
    → Option Store
region_appended m s none v = none
region_appended m s (some taken) none = none
region_appended m s (some (r, rs)) (some v) = some (record {
  messages = set_box m (record v { memory_regions = v.memory_regions ++ r ∷ [] }) s.messages;
  regions = rs;
})

-- `ipmb_message_memory_region_append`
unfoldable pub region_append : ℕ → ℕ → Store → Option Store
unfolding take_box deref set_box
region_append m region s = region_appended m s (take_box region s.regions) (deref m s.messages)

abbrev pub region_retrieved :
    ℕ → ℕ → ℕ → Store → Message BytesMessage → Option MemoryRegion → ℕ × Store
region_retrieved a m index s v none = (0, s)
region_retrieved a m index s v (some r) = (
  a,
  record {
    messages =
        set_box m (record v { memory_regions = remove_at v.memory_regions index }) s.messages;
    regions = make_box a r s.regions;
  },
)

-- `ipmb_message_memory_region_retrieve`, with a free address: a handle that may be null
unfoldable pub region_retrieve : ℕ → ℕ → ℕ → Store → Option (ℕ × Store)
unfolding deref set_box
region_retrieve a m index s = elim (deref m s.messages) [
  | none ↦ none
  | some v ↦ some (region_retrieved a m index s v (get_elem? v.memory_regions index))
]

-- `ipmb_message_memory_region_get`: the region that the handle points to, if it is not null
unfoldable pub region_get : ℕ → ℕ → Store → Option (Option MemoryRegion)
unfolding deref
region_get m index s = elim (deref m s.messages) [
  | none ↦ none
  | some v ↦ some (get_elem? v.memory_regions index)
]

-- `message.into()` in `ipmb_send`: the message, and the store without its box
unfoldable pub message_into : ℕ → Store → Option (Message BytesMessage × Store)
unfolding take_box
message_into m s = elim (take_box m s.messages) [
  | none ↦ none
  | some (v, ms) ↦ some (v, record s { messages = ms })
]
