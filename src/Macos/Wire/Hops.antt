-- ===== src/Macos/Wire/Hops.antt =====
-- ipmb/src/platform/macos/mod.rs: a message on its way from process to process. An endpoint sends it to
-- the controller, and the controller sends on what it received.
use ipmb.Prelude.{
  ℕ, ◌+◌, ◌%◌, ◌^◌, ◌≤◌, ◌<◌, ◌≡◌, inl, inr, refl, subst, ◌∙◌, arith, Option, some, List, [], ◌∷◌,
  ◌++◌, length, All, length-append,
}
use ipmb.Errors.{ok}
use ipmb.Region.{Object, MemoryRegion, Headers, receive_regions}
use ipmb.Message.{Bytes, Selector, Codec, MessageBox, Message}
use ipmb.Linux.Buffer.{u32_bytes, read_u32}
use ipmb.Linux.Buffer.Laws.{slice?-write_beside}
use ipmb.Windows.Wire.{received_objects}
use ipmb.Macos.Wire.{
  base_size, msg_size, EncodedMessage, port_names, into_encoded, mach_message, addressed,
  new_encoded, Parsed,
}
use ipmb.Macos.Wire.Encoded.{align4-fits, mach_message-IsSendable, mach_message-Carries}
use ipmb.Macos.Wire.Layout.{read_u32-slice?, HasPorts, Carries, Carries-Agrees, Agrees, IsSendable}
use ipmb.Macos.Wire.Arrival.{arrived, carried-new_encoded, arrived-Carries, arrived-IsSendable}

-- What the kernel makes of a message that is sent: as many bytes as the header says, with the ports
-- under the names that they have in the process which receives it. It may use the rest of the header.
pub record Delivered (names : List ℕ) (sent got : Bytes) : Type 0 where
  pub size : ℕ
  pub sized : read_u32 sent 4 ≡ some size
  pub agrees : Agrees (length names) size sent got
  pub ports : HasPorts base_size names got
  pub room : size ≤ length got

-- The regions of a process, and the kernel objects behind its names.
pub record Process : Type 0 where
  pub headers : Headers
  pub target : ℕ → ℕ

-- The way of a message into the buffer of the process that receives it, at once or over processes that
-- send on what `new` gave them. `objects` and `regions` are the names of the ports at the end.
pub data Way (selectors : Codec Selector) (n m : ℕ) (got : Bytes) (objects regions : List ℕ)
    : Bytes → Type 0 where
  direct :
      {sent : Bytes} (remote : ℕ)
      → length objects ≡ n
      → length regions ≡ m
      → Delivered (objects ++ regions) (addressed remote sent) got
      → Way selectors n m got objects regions sent
  via :
      {sent : Bytes} (remote : ℕ) (mid : Bytes) (os rs : List ℕ) (process : Process)
      (a : EncodedMessage) (h' : Headers)
      → length os ≡ n
      → length rs ≡ m
      → Delivered (os ++ rs) (addressed remote sent) mid
      → new_encoded selectors process.target process.headers mid ≡ some (ok a, h')
      → Way selectors n m got objects regions a.mach_msg
      → Way selectors n m got objects regions sent

-- What `new` gives for a message whose ports have these names, and what it can be sent on as.
pub record IsRead (sel : Selector) (pay : Bytes) (oh rh : List ℕ) (size : ℕ) (p : Process)
    (a : EncodedMessage) : Type 0 where
  pub selector : a.selector ≡ sel
  pub payload : a.payload_data ≡ pay
  pub objects : a.objects ≡ received_objects p.target oh
  pub regions : a.memory_regions ≡ (receive_regions p.headers (received_objects p.target rh)).0
  pub sendable : IsSendable (oh ++ rh) size a.mach_msg

same_number : (a b : ℕ) (o : Option ℕ) → o ≡ some a → o ≡ some b → a ≡ b
same_number a b o p q = cc

same_message :
    (a b : EncodedMessage) (h h' : Headers) (r : Parsed)
    → r ≡ some (ok a, h)
    → r ≡ some (ok b, h')
    → a ≡ b
same_message a b h h' r p q = cc

module _ (selectors : Codec Selector) (sel : Selector) (sel_data pay : Bytes) (n m : ℕ)
    (encodes : selectors.encode_to_vec sel ≡ some sel_data)
    (sel_small : length sel_data + 4 ≤ 2 ^ 32) (pay_small : length pay + 4 ≤ 2 ^ 32)
    (few : msg_size (n + m) sel_data pay < 2 ^ 32) (counted : m ≡ sel.memory_region_count) where
  abbrev size : ℕ
  size = msg_size (n + m) sel_data pay

  -- A message with its size and its contents.
  abbrev pub Holds : Bytes → Type 0
  Holds buf = (read_u32 buf 4 ≡ some size) × Carries (n + m) sel_data pay buf

  addressed-Carries :
      (remote : ℕ) (sent : Bytes)
      → Carries (n + m) sel_data pay sent
      → Carries (n + m) sel_data pay (addressed remote sent)
  addressed-Carries remote sent c =
      Carries-Agrees (n + m) sel_data pay sent (addressed remote sent)
        (align4-fits (length sel_data) sel_small) (align4-fits (length pay) pay_small)
        (
          slice?-write_beside sent 8 (u32_bytes (remote % 2 ^ 32)) 24 4 (inr (omega arith)),
          λ i k a b.
              slice?-write_beside sent 8 (u32_bytes (remote % 2 ^ 32)) i k (inr (omega arith)),
        )
        c

  addressed-size :
      (remote : ℕ) (sent : Bytes)
      → read_u32 sent 4 ≡ some size
      → read_u32 (addressed remote sent) 4 ≡ some size
  addressed-size remote sent e =
      read_u32-slice? (addressed remote sent) sent 4
        (slice?-write_beside sent 8 (u32_bytes (remote % 2 ^ 32)) 4 4 (inl (omega arith)))
      ∙ e

  module _ (os rs : List ℕ) (objects_counted : length os ≡ n)
      (regions_counted : length rs ≡ m) where
    all_counted : length (os ++ rs) ≡ n + m
    all_counted = omega (arith, length-append os rs, objects_counted, regions_counted)

    Delivered-Carries :
        (remote : ℕ) (sent got : Bytes)
        → Holds sent
        → Delivered (os ++ rs) (addressed remote sent) got
        → Carries (length (os ++ rs)) sel_data pay got × (size ≤ length got)
    Delivered-Carries remote sent got (sized, c) d =
        let same : d.size ≡ size =
          same_number d.size size (read_u32 (addressed remote sent) 4) d.sized
            (addressed-size remote sent sized) in
        let agrees =
          subst (λ s. Agrees (length (os ++ rs)) s (addressed remote sent) got) same d.agrees in
        (
          rw all_counted (
              Carries-Agrees (n + m) sel_data pay (addressed remote sent) got
                (align4-fits (length sel_data) sel_small) (align4-fits (length pay) pay_small)
                (subst (λ k. Agrees k size (addressed remote sent) got) all_counted agrees)
                (addressed-Carries remote sent c)),
          subst (λ s. s ≤ length got) same d.room,
        )

    -- A message that was delivered is read, and can be sent on.
    Delivered-IsRead :
        (remote : ℕ) (sent got : Bytes) (p : Process)
        → Holds sent
        → Delivered (os ++ rs) (addressed remote sent) got
        → (a : EncodedMessage) × (new_encoded selectors p.target p.headers got
            ≡ some (ok a, (receive_regions p.headers (received_objects p.target rs)).1))
          × IsRead sel pay os rs size p a
          × Holds a.mach_msg
    Delivered-IsRead remote sent got p held d =
        let (c, room) = Delivered-Carries remote sent got held d in
        let fits : msg_size (length (os ++ rs)) sel_data pay < 2 ^ 32 = rw all_counted few in
        let there : msg_size (length (os ++ rs)) sel_data pay ≤ length got = rw all_counted room in
        let told : length rs ≡ sel.memory_region_count = regions_counted ∙ counted in
        let sendable =
          arrived-IsSendable selectors p.target p.headers sel sel_data pay got os rs encodes
            sel_small pay_small fits told there c d.ports in
        let sized : IsSendable (os ++ rs) size
            (arrived selectors p.target p.headers sel sel_data pay got os rs encodes sel_small
              pay_small fits told there c d.ports).mach_msg =
          subst
            (λ k.
              IsSendable (os ++ rs) (msg_size k sel_data pay)
                (arrived selectors p.target p.headers sel sel_data pay got os rs encodes sel_small
                  pay_small fits told there c d.ports).mach_msg)
            all_counted sendable in
        (
          arrived selectors p.target p.headers sel sel_data pay got os rs encodes sel_small
              pay_small fits told there c d.ports,
          carried-new_encoded selectors p.target p.headers sel sel_data pay got os rs encodes
              sel_small pay_small fits told there c d.ports,
          record {
            selector = refl;
            payload = refl;
            objects = refl;
            regions = refl;
            sendable = sized;
          },
          (
            sized.sized,
            subst
                (λ k.
                  Carries k sel_data pay
                    (arrived selectors p.target p.headers sel sel_data pay got os rs encodes
                      sel_small pay_small fits told there c d.ports).mach_msg)
                all_counted
                (arrived-Carries selectors p.target p.headers sel sel_data pay got os rs encodes
                  sel_small pay_small fits told there c d.ports),
          ),
        )

  -- Whatever the way, what is read at its end is what was sent.
  Way-received :
      (got : Bytes) (oh rh : List ℕ) (p : Process) {sent : Bytes}
      → Holds sent
      → Way selectors n m got oh rh sent
      → (a : EncodedMessage) × (new_encoded selectors p.target p.headers got
          ≡ some (ok a, (receive_regions p.headers (received_objects p.target rh)).1))
        × IsRead sel pay oh rh size p a
  Way-received got oh rh p held (direct remote o r d) =
      let (a, e, read, _) = Delivered-IsRead oh rh o r remote _ got p held d in (a, e, read)
  Way-received got oh rh p held (via remote mid os rs process a h' o r d e way) =
      let (b, e', read, held') = Delivered-IsRead os rs o r remote _ mid process held d in
      Way-received got oh rh p
        (subst (λ (x : EncodedMessage). Holds x.mach_msg) (same_message b a _ h' _ e' e) held') way

length-port_names :
    (objects : List Object) (regions : List MemoryRegion)
    → length (port_names objects regions) ≡ length objects + length regions
length-port_names [] [] = refl
length-port_names [] (r ∷ regions) = omega (arith, length-port_names [] regions)
length-port_names (o ∷ objects) regions = omega (arith, length-port_names objects regions)

into_encoded-mach_message :
    {T : Type 0} (junk : ℕ → ℕ) (selectors : Codec Selector) (box : MessageBox T) (msg : Message T)
    (e : EncodedMessage) (sel_data pay : Bytes)
    → selectors.encode_to_vec msg.selector ≡ some sel_data
    → box.encode_box msg.payload ≡ ok pay
    → into_encoded junk selectors box msg ≡ some e
    → mach_message junk (port_names msg.objects msg.memory_regions) sel_data pay ≡ e.mach_msg
unfolding into_encoded
into_encoded-mach_message junk selectors box msg e sel_data pay se pe ie =
    field_of _ e (rw (se, pe) at ie)
  where
    field_of : (a b : EncodedMessage) → some a ≡ some b → a.mach_msg ≡ b.mach_msg
    field_of a b h = cc

-- For a message whose selector and payload encode, each to less than 2 ^ 32 - 3 bytes and with the ports
-- to less than 2 ^ 32, whose names fit 32 bits, and whose selector counts the regions: what
-- `into_encoded` gives is a message that the kernel takes, with the names of the objects and then of the
-- regions, and its true size. Whatever way it goes, at once or over processes that read it and send it
-- on, and whatever names the kernel gives the ports: at the end `new` reads the selector, the bytes of
-- the payload, the objects and the regions, told apart, and a message that can be sent on.
pub routed-received :
    {T : Type 0} (junk : ℕ → ℕ) (selectors : Codec Selector) (box : MessageBox T) (msg : Message T)
    (e : EncodedMessage) (sel_data pay got : Bytes) (oh rh : List ℕ) (p : Process)
    → selectors.encode_to_vec msg.selector ≡ some sel_data
    → box.encode_box msg.payload ≡ ok pay
    → length sel_data + 4 ≤ 2 ^ 32
    → length pay + 4 ≤ 2 ^ 32
    → msg_size (length msg.objects + length msg.memory_regions) sel_data pay < 2 ^ 32
    → All (λ name. name < 2 ^ 32) (port_names msg.objects msg.memory_regions)
    → length msg.memory_regions ≡ msg.selector.memory_region_count
    → into_encoded junk selectors box msg ≡ some e
    → Way selectors (length msg.objects) (length msg.memory_regions) got oh rh e.mach_msg
    → IsSendable
        (port_names msg.objects msg.memory_regions)
        (msg_size (length msg.objects + length msg.memory_regions) sel_data pay)
        e.mach_msg
      × ((a : EncodedMessage) × (new_encoded selectors p.target p.headers got
            ≡ some (ok a, (receive_regions p.headers (received_objects p.target rh)).1))
          × IsRead msg.selector pay oh rh
              (msg_size (length msg.objects + length msg.memory_regions) sel_data pay)
              p
              a)
routed-received junk selectors box msg e sel_data pay got oh rh p se pe ss ps few fit c ie way =
    let names = port_names msg.objects msg.memory_regions in
    let counted = length-port_names msg.objects msg.memory_regions in
    let small : msg_size (length names) sel_data pay < 2 ^ 32 = rw counted few in
    let written = into_encoded-mach_message junk selectors box msg e sel_data pay se pe ie in
    let sendable =
      subst (λ k. IsSendable names (msg_size k sel_data pay) e.mach_msg) counted
        (subst (IsSendable names (msg_size (length names) sel_data pay)) written
          (mach_message-IsSendable junk names sel_data pay ss ps small fit)) in
    let carries =
      subst (λ k. Carries k sel_data pay e.mach_msg) counted
        (subst (Carries (length names) sel_data pay) written
          (mach_message-Carries junk names sel_data pay ss ps small)) in
    (
      sendable,
      Way-received selectors msg.selector sel_data pay (length msg.objects)
          (length msg.memory_regions) se ss ps few c got oh rh p (sendable.sized, carries) way,
    )
