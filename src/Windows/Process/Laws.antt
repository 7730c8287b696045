-- ===== src/Windows/Process/Laws.antt =====
-- ipmb/src/platform/windows/util.rs: the handle that is fetched is the one that was made.
use ipmb.Prelude.{
  ℕ, ◌+◌, ◌*◌, ◌/◌, ◌%◌, ◌^◌, ◌<◌, ◌≡◌, ◌⊎◌, inl, inr, refl, ap, ◌∙◌, arith, String, false, Option,
  none, some, List, [], ◌∷◌, Option-cases,
}
use ipmb.Label.{LabelOp}
use ipmb.Errors.{Error, Result, ok, err, Result-cases}
use ipmb.Region.{Headers}
use ipmb.Message.{Bytes, Selector, Codec, MessageBox, Message, new_message, unicast_to, decode}
use ipmb.Linux.Buffer.{slice?, read_u32}
use ipmb.Windows.Wire.{Encoded, Sent, into_encoded, send_encoded, send_helper, read_u64}
use ipmb.Windows.Process.{
  FetchProcessHandle, signalled, under_way, FetchCalls, await_handle, after_send, fetch, ReplyCalls,
  Replied, handle_bytes, answer_with, duplicated, opened, replied, reply, handle_read,
}

-- Four bytes, least first.
abbrev four : ℕ → ℕ
four n =
    n % 256 + 256 * (n / 256 % 256) + 65536 * (n / 65536 % 256) + 16777216 * (n / 16777216 % 256)

four-lt : (n : ℕ) → n < 2 ^ 32 → four n ≡ n
four-lt n h = omega arith

-- A handle of 64 bits is read from its bytes.
read_u64-handle_bytes : (h : ℕ) → h < 2 ^ 64 → read_u64 (handle_bytes h) 0 ≡ some h
unfolding read_u64 read_u32 slice?
read_u64-handle_bytes h b =
    ap some (
      omega
        (arith, four-lt (h % 2 ^ 32) (omega arith), four-lt (h / 2 ^ 32 % 2 ^ 32) (omega arith)))

-- The handle that the controller makes in the client's process, if it comes to that.
abbrev pub made_by : Option ℕ → Option ℕ → Result ℕ Error → List ℕ
made_by none none (ok h) = h ∷ []
made_by none none (err e) = []
made_by none (some e) remote = []
made_by (some e) pipe remote = []

abbrev pub made : Result FetchProcessHandle Error → ReplyCalls → List ℕ
made (err e) calls = []
made (ok msg) calls = made_by calls.client calls.pipe calls.remote

module _ (junk : ℕ → ℕ) (selectors : Codec Selector) (box : MessageBox FetchProcessHandle)
    (msg : Message FetchProcessHandle) (e : Encoded) where
  -- A message without objects and regions is encoded without them.
  bare-into_encoded :
      msg.objects ≡ []
      → msg.memory_regions ≡ []
      → into_encoded junk selectors box msg ≡ some e
      → (e.objects ≡ []) × (e.memory_regions ≡ [])
  unfolding into_encoded
  bare-into_encoded o r ie = elim (Option-cases (selectors.encode_to_vec msg.selector)) [
    | inl p ↦ absurd (ground arith)
    | inr (sel_bytes, p) ↦ elim (Result-cases (box.encode_box msg.payload)) [
      | inr (x, q) ↦ absurd (ground arith)
      | inl (pay, q) ↦ same_parts _ e o r (rw (p, q) at ie)
    ]
  ]
    where
      same_parts :
          (a b : Encoded)
          → a.objects ≡ []
          → a.memory_regions ≡ []
          → some a ≡ some b
          → (b.objects ≡ []) × (b.memory_regions ≡ [])
      same_parts a b p q h = ground arith

-- A message without objects and regions is sent to a process for which there is no handle.
bare-send_encoded :
    (hd : Headers) (e : Encoded)
    → e.objects ≡ []
    → e.memory_regions ≡ []
    → (s : Sent) × (send_encoded (λ o. none) hd e (some e.size) ≡ some s) × (s.result ≡ ok tt)
unfolding send_helper
bare-send_encoded hd e o r = (
  record { result = ok tt; headers = hd; delivered = some e.buffer; closed = [] },
  rw (o, r) (ground arith),
  refl,
)

-- What follows a request that was sent.
after_send-sent :
    (calls : FetchCalls) (o : Option Sent) (s : Sent)
    → o ≡ some s
    → s.result ≡ ok tt
    → after_send calls o ≡ await_handle calls
after_send-sent calls o s p q = rw (p, q) refl

-- A client whose calls succeed up to the read.
module _ (junk : ℕ → ℕ) (selectors : Codec Selector) (box : MessageBox FetchProcessHandle)
    (hd : Headers) (pid : ℕ) (calls : FetchCalls) (name : String) (e : Encoded)
    (piped : calls.pipe ≡ ok name)
    (encodes : into_encoded junk selectors box
        (new_message box (unicast_to LabelOp.always) (record { pid = pid; reply_pipe = name }))
      ≡ some e)
    (wrote : calls.wrote ≡ some e.size) (evented : calls.event ≡ none)
    (connecting : calls.connection ≡ under_way) (connected : calls.connected ≡ signalled)
    (reset : calls.reset ≡ none) (reading : calls.reading ≡ under_way)
    (arrived : calls.arrived ≡ signalled) where
  await-reads :
      (h : ℕ)
      → h < 2 ^ 64
      → await_handle (record calls { buf = handle_bytes h })
        ≡ some (record { result = ok h; cancelled = false })
  unfolding await_handle
  await-reads h b =
      rw (evented, connecting, connected, reset, reading, arrived)
        (ap handle_read (read_u64-handle_bytes h b))

  fetch-reads :
      (h : ℕ)
      → h < 2 ^ 64
      → fetch junk selectors box hd pid (record calls { buf = handle_bytes h })
        ≡ some (record { result = ok h; cancelled = false })
  unfolding fetch
  fetch-reads h b =
      let payload : FetchProcessHandle = record { pid = pid; reply_pipe = name } in
      let sel = unicast_to LabelOp.always in
      let (o, r) =
        bare-into_encoded junk selectors box (new_message box sel payload) e
          (no_objects sel payload) (no_regions sel payload) encodes in
      let (s, sends, done) = bare-send_encoded hd e o r in
      rw (piped, encodes, wrote)
        (after_send-sent (record calls { buf = handle_bytes h }) _ s sends done ∙ await-reads h b)
    where
      no_objects :
          (sel : Selector) (payload : FetchProcessHandle)
          → (new_message box sel payload).objects ≡ []
      no_objects sel payload = unfold new_message in refl

      no_regions :
          (sel : Selector) (payload : FetchProcessHandle)
          → (new_message box sel payload).memory_regions ≡ []
      no_regions sel payload = unfold new_message in refl

  -- What the controller's reply comes to.
  abbrev pub IsExchanged : List ℕ → Replied → Type 0
  IsExchanged handles r =
      ((r.result ≡ ok tt)
        × (r.closed ≡ [])
        × ((h : ℕ) × (bytes : Bytes) × (handles ≡ h ∷ [])
            × (r.written ≡ some bytes)
            × (fetch junk selectors box hd pid (record calls { buf = bytes })
                ≡ some (record { result = ok h; cancelled = false }))))
      ⊎ (((x : Error) × (r.result ≡ err x)) × (r.written ≡ none) × (r.closed ≡ handles))

  answer_with-IsExchanged :
      (h : ℕ) (write : Option ℕ) → h < 2 ^ 64 → IsExchanged (h ∷ []) (answer_with h write)
  answer_with-IsExchanged h none b =
      inl (refl, refl, (h, handle_bytes h, refl, refl, fetch-reads h b))
  answer_with-IsExchanged h (some x) b = inr ((Error.win_error x, refl), refl, refl)

  opened-IsExchanged :
      (client pipe : Option ℕ) (remote : Result ℕ Error) (write : Option ℕ)
      → ((h : ℕ) → remote ≡ ok h → h < 2 ^ 64)
      → IsExchanged
          (made_by client pipe remote)
          (opened client (opened pipe (duplicated remote write)))
  opened-IsExchanged (some x) pipe remote write b = inr ((Error.win_error x, refl), refl, refl)
  opened-IsExchanged none (some x) remote write b = inr ((Error.win_error x, refl), refl, refl)
  opened-IsExchanged none none (err x) write b = inr ((x, refl), refl, refl)
  opened-IsExchanged none none (ok h) write b = answer_with-IsExchanged h write (b h refl)

  -- Where a client's calls succeed up to the read, its request is written whole, and handles have 64
  -- bits: either the controller's reply succeeds, and then it has made one handle in the client's
  -- process, which stays open, and the client gets that handle from the bytes that were written; or the
  -- reply fails, and then it has written nothing, and has closed the handle that it made, if any.
  pub fetch-reply :
      (codec : Codec FetchProcessHandle) (payload_data : Bytes) (answers : ReplyCalls)
      → ((h : ℕ) → answers.remote ≡ ok h → h < 2 ^ 64)
      → IsExchanged (made (decode codec payload_data) answers) (reply codec payload_data answers)
  unfolding reply
  fetch-reply codec payload_data answers b = by_request (decode codec payload_data)
    where
      by_request :
          (m : Result FetchProcessHandle Error) → IsExchanged (made m answers) (replied m answers)
      by_request (err x) = inr ((x, refl), refl, refl)
      by_request (ok msg) =
          opened-IsExchanged answers.client answers.pipe answers.remote answers.write b
