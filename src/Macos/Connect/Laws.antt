-- ===== src/Macos/Connect/Laws.antt =====
-- ipmb/src/platform/macos/mod.rs: what an endpoint learns from `look_up`, and which port the climb finds.
use ipmb.Prelude.{
  ℕ, zero, suc, ◌+◌, ◌*◌, ◌^◌, ◌≤◌, ◌<◌, ◌≡◌, ◌≢◌, ◌⊎◌, inl, inr, refl, ◌∙◌, ap, arith, Bool, true,
  false, Option, none, some, List, [], ◌∷◌, All, length, ltb, str_eq, if◌then◌else◌, append-nil,
}
use ipmb.Version.{version, compatible}
use ipmb.Errors.{Error, Remote, ok, err}
use ipmb.Region.{Object, Headers}
use ipmb.Message.{Selector, Uuid, Bytes, Message, MessageBox, ConnectMessage, ConnectMessageAck}
use ipmb.Message.Laws.{IsFaithful}
use ipmb.Bus.{Platform, BusController}
use ipmb.Bus.Admission.{ack_for}
use ipmb.Linux.Connect.{request}
use ipmb.Windows.Hub.{continues}
use ipmb.Macos.Wire.{EncodedMessage, into_encoded, Sent, send, msg_size, port_names, new_encoded}
use ipmb.Macos.Wire.Hops.{Way, Process, IsRead, routed-received}
use ipmb.Macos.Hub.{
  Pipe, new_pipe, IoHub, for_endpoint, Round, arrived, read, read_local, turn, with_new,
  recv_outcome, recv,
}
use ipmb.Macos.Connect.{
  success, Calls, Found, acknowledged, answered, received, Context, connect, look_up, climb,
}

-- A chain of so many parents from a port to the top, which has no parent but itself.
pub data Chain (parent : ℕ → Option ℕ) (top : ℕ) : ℕ → ℕ → Type 0 where
  ends : (parent top ≡ none) ⊎ (parent top ≡ some top) → Chain parent top top zero
  next :
      {port up n : ℕ}
      → parent port ≡ some up
      → port ≢ up
      → Chain parent top up n
      → Chain parent top port (suc n)

-- From a port with a chain of parents, the climb finds the top, in one turn more than the chain is long.
pub climb-Chain :
    (parent : ℕ → Option ℕ) (top : ℕ) {port n : ℕ}
    → Chain parent top port n
    → climb (suc n) parent port ≡ some top
unfolding climb
climb-Chain parent top (ends (inl e)) = ground arith
climb-Chain parent top (ends (inr e)) = ground arith
climb-Chain parent top (next {n = n} e d chain) = ground (arith, climb-Chain parent top chain)

-- What an endpoint is to learn about its request: its version is wrong, or else its token, or it is in,
-- with an identifier.
abbrev pub verdict :
    (p : Platform) → BusController p.World → ConnectMessage → IoHub → Remote → Found
verdict p c payload io_hub remote =
    if compatible payload.version version
    then (if str_eq payload.token c.token
        then ok (io_hub, remote, (p.new_id c.link.world).0)
        else err Error.token_mismatch)
    else err (Error.version_mismatch version none)

acknowledged-ack_for :
    (p : Platform) (c : BusController p.World) (payload : ConnectMessage) (io_hub : IoHub)
    (remote : Remote)
    → acknowledged io_hub remote (ok (ack_for p c (ok payload))) ≡ verdict p c payload io_hub remote
acknowledged-ack_for p c payload io_hub remote = ground arith

-- A message that the port holds ends an endpoint's `recv` in its first round.
recv_outcome-read :
    (grow : ℕ → ℕ → ℕ) (end : Option ℕ) (watches : Bool) (r : Round) (rounds : List Round)
    (local : ℕ) (got : Bytes) (pipe : Pipe)
    → read grow r.answers (new_pipe local) ≡ some (some got, pipe)
    → recv_outcome grow end watches (r ∷ rounds) (for_endpoint local)
      ≡ continues (arrived got, record { local = some pipe; bus_receiver = false })
unfolding recv_outcome turn read_local
recv_outcome-read grow end watches r rounds local got pipe e = rw e refl

-- An acknowledgement for a request reads as one.
decoded_ack :
    (box : MessageBox ConnectMessageAck) (uuid : Uuid) (ack ack' : ConnectMessageAck) (pay : Bytes)
    → IsFaithful box
    → ack ≡ ack'
    → uuid ≡ box.uuid_of ack
    → box.encode_box ack ≡ ok pay
    → box.decode_box uuid pay ≡ ok ack'
decoded_ack box uuid ack ack' pay f says named e =
    rw (← says, named, ← append-nil pay) (f.reads_back ack pay [] e)

answered-IsRead :
    (box : MessageBox ConnectMessageAck) (io_hub : IoHub) (remote : Remote) (sel : Selector)
    (pay : Bytes) (oh rh : List ℕ) (size : ℕ) (process : Process) (msg : EncodedMessage)
    (ack : ConnectMessageAck)
    → IsRead sel pay oh rh size process msg
    → box.decode_box sel.uuid pay ≡ ok ack
    → answered box io_hub remote msg ≡ acknowledged io_hub remote (ok ack)
answered-IsRead box io_hub remote sel pay oh rh size process msg ack r d =
    rw (r.selector, r.payload, d) refl

-- A request that is sent to a port which launchd knows, and what the port for the answers gives first.
module _ (c : Context) (h : Headers) (payload : ConnectMessage) (calls : Calls) (reply : Object)
    (encoded : EncodedMessage) (s : Sent) (r : Round) (rounds : List Round) (pipe : Pipe)
    (got : Bytes) (found : calls.code ≡ success) (there : 0 < calls.remote)
    (cloned : calls.clone ≡ some reply)
    (encodes : into_encoded c.formats.junk c.formats.selectors c.formats.connect_box
        (request c.formats.connect_box payload.label payload.token reply)
      ≡ some encoded)
    (sends : send calls.remote calls.dead h encoded calls.returns ≡ some s)
    (taken : s.result ≡ ok tt) (waits : calls.rounds ≡ r ∷ rounds)
    (reads : read c.grow r.answers (new_pipe calls.local) ≡ some (some got, pipe)) where
  abbrev hub : IoHub
  hub = record { local = some pipe; bus_receiver = false }

  abbrev remote : Remote
  remote = record { v = calls.remote }

  look_up-received :
      look_up c h payload.label payload.token calls
      ≡ received c remote (with_new hub (new_encoded c.formats.selectors c.target s.headers got))
  unfolding look_up connect recv
  look_up-received =
      let known : ltb 0 calls.remote ≡ true = ground arith in
      rw
        (
          found,
          known,
          cloned,
          encodes,
          sends,
          taken,
          waits,
          recv_outcome-read c.grow (some (calls.now + 2 * 10 ^ 9)) true r rounds calls.local got
              pipe reads,
        )
        refl

  -- Where an endpoint's request is sent to the port that launchd has for the identifier, and the port for
  -- the answers then gives, over whatever way it came, the acknowledgement that a controller has for the
  -- request and that it encoded, with sizes and names that fit: `look_up` gives the controller's verdict,
  -- a version mismatch with the controller's version, a token mismatch, or the new identifier with a hub
  -- on the port for the answers and the controller's port as remote.
  pub look_up-verdict :
      (p : Platform) (ctrl : BusController p.World) (ack_msg : Message ConnectMessageAck)
      (e : EncodedMessage) (sel_data pay : Bytes) (oh rh : List ℕ)
      → IsFaithful c.formats.ack_box
      → ack_msg.payload ≡ ack_for p ctrl (ok payload)
      → ack_msg.selector.uuid ≡ c.formats.ack_box.uuid_of ack_msg.payload
      → c.formats.selectors.encode_to_vec ack_msg.selector ≡ some sel_data
      → c.formats.ack_box.encode_box ack_msg.payload ≡ ok pay
      → length sel_data + 4 ≤ 2 ^ 32
      → length pay + 4 ≤ 2 ^ 32
      → msg_size (length ack_msg.objects + length ack_msg.memory_regions) sel_data pay < 2 ^ 32
      → All (λ name. name < 2 ^ 32) (port_names ack_msg.objects ack_msg.memory_regions)
      → length ack_msg.memory_regions ≡ ack_msg.selector.memory_region_count
      → into_encoded c.formats.junk c.formats.selectors c.formats.ack_box ack_msg ≡ some e
      → Way c.formats.selectors
          (length ack_msg.objects)
          (length ack_msg.memory_regions)
          got
          oh
          rh
          e.mach_msg
      → look_up c h payload.label payload.token calls
        ≡ continues (verdict p ctrl payload hub remote)
  look_up-verdict p ctrl ack_msg e sel_data pay oh rh f says named se pe ss ps few fit k ie way =
      let process : Process = record { headers = s.headers; target = c.target } in
      let (_, (msg, arrives, r')) =
        routed-received c.formats.junk c.formats.selectors c.formats.ack_box ack_msg e sel_data pay
          got oh rh process se pe ss ps few fit k ie way in
      look_up-received
      ∙ ap (λ parsed. received c remote (with_new hub parsed)) arrives
      ∙ ap continues (
          answered-IsRead c.formats.ack_box hub remote ack_msg.selector pay oh rh _ process msg
            (ack_for p ctrl (ok payload)) r'
            (decoded_ack c.formats.ack_box ack_msg.selector.uuid ack_msg.payload _ pay f says named
              pe)
          ∙ acknowledged-ack_for p ctrl payload hub remote)
