-- ===== src/Node/Upload.antt =====
-- ipmb-js/src/lib.rs: `Sender::send`, which copies each buffer into a region of the registry.
pub mod Laws
use ipmb.Prelude.{ℕ, Option, none, some, List, [], ◌∷◌, ◌++◌, length}
use ipmb.Errors.{Error, Result, ok, err, SendError}
use ipmb.Message.{Bytes, MessageBox, Message, BytesMessage, new_message}
use ipmb.Region.{MappedRegion, MemoryRegion, Headers, drop_region}
use ipmb.Region.Mapping.{System, map_range}
use ipmb.Util.{unbounded}
use ipmb.Registry.{MemoryRegistry, Kernel}
use ipmb.Registry.Alloc.{alloc_within}
use ipmb.Node.{JsSelector, ipmb_selector}

-- A buffer of the caller, the instant of its allocation, and what the system answers then.
pub record Upload : Type 0 where
  pub buf : Bytes
  pub now : ℕ
  pub kernel : Kernel

pub data Failure : Type 0 where
  alloc_failed : Failure
  map_failed : Error → Failure
  send_failed : SendError → Failure

-- `ptr::copy` of a buffer to the start of a mapped slice.
pub record Copy : Type 0 where
  pub target : MappedRegion
  pub bytes : Bytes

-- A region that was filled, the copy that filled it, and the registry.
abbrev pub Filled : Type 0
Filled = Result (MemoryRegion × Copy) Failure × MemoryRegistry

abbrev pub copied : Bytes → MemoryRegistry → Result MappedRegion Error × MemoryRegion → Filled
copied buf m (ok slice, region) = (ok (region, record { target = slice; bytes = buf }), m)
copied buf m (err e, region) =
    (err (map_failed e), record m { headers = drop_region m.headers region })

abbrev pub allocated : System → Bytes → Option MemoryRegion × MemoryRegistry → Filled
allocated sys buf (none, m) = (err alloc_failed, m)
allocated sys buf (some region, m) = copied buf m (map_range sys region unbounded unbounded)

-- The body of the loop over the buffers. A slice has less than 2 ^ 63 bytes, so that twice its length
-- does not overflow in `alloc`.
unfoldable pub upload : System → Upload → MemoryRegistry → Filled
unfolding map_range
upload sys u m = allocated sys u.buf (alloc_within u.kernel u.now (length u.buf) none none m)

-- The regions of a message that is dropped.
abbrev pub drop_regions : Headers → List MemoryRegion → Headers
drop_regions h [] = h
drop_regions h (r ∷ rs) = drop_regions (drop_region h r) rs

abbrev pub Uploaded : Type 0
Uploaded = Result (List MemoryRegion × List Copy) Failure × MemoryRegistry

-- An early return drops the message with the regions pushed so far.
abbrev pub pushed :
    List MemoryRegion
    → List Copy
    → Filled
    → (List MemoryRegion → List Copy → MemoryRegistry → Uploaded)
    → Uploaded
pushed regions copies (err e, m) rest =
    (err e, record m { headers = drop_regions m.headers regions })
pushed regions copies (ok (region, copy), m) rest =
    rest (regions ++ region ∷ []) (copies ++ copy ∷ []) m

-- `for buf in buffers { .. }`
unfoldable pub upload_all :
    System → List Upload → List MemoryRegion → List Copy → MemoryRegistry → Uploaded
unfolding upload
upload_all sys [] regions copies m = (ok (regions, copies), m)
upload_all sys (u ∷ us) regions copies m =
    pushed regions copies (upload sys u m) (λ rs cs m'. upload_all sys us rs cs m')

-- The message that is sent, where `ipmb_send` is what the endpoint's `send` returns.
abbrev pub submitted :
    MessageBox BytesMessage
    → (Message BytesMessage → Result (Unit {0}) SendError)
    → JsSelector
    → BytesMessage
    → Uploaded
    → Result (List Copy) Failure × MemoryRegistry
submitted box ipmb_send selector message (err e, m) = (err e, m)
submitted box ipmb_send selector message (ok (regions, copies), m) = (
  elim (ipmb_send
      (record (new_message box (ipmb_selector selector) message) { memory_regions = regions })) [
        | ok x ↦ ok copies
        | err e ↦ err (send_failed e)
      ],
  m,
)

-- `Sender::send`
unfoldable pub send :
    MessageBox BytesMessage
    → System
    → (Message BytesMessage → Result (Unit {0}) SendError)
    → JsSelector
    → BytesMessage
    → List Upload
    → MemoryRegistry
    → Result (List Copy) Failure × MemoryRegistry
unfolding upload_all ipmb_selector
send box sys ipmb_send selector message buffers m =
    submitted box ipmb_send selector message (upload_all sys buffers [] [] m)
