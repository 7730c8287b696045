-- ===== src/Windows/Connect/Laws.antt =====
-- ipmb/src/platform/windows/mod.rs: the hubs that `look_up` and `register` give.
use ipmb.Prelude.{
  ℕ, String, ◌≡◌, refl, arith, subst, inl, inr, Option, none, some, List, str_eq, Bool-cases,
  Option-cases,
}
use ipmb.Label.{Label}
use ipmb.Errors.{Error, Result, ok, err, Result-cases}
use ipmb.Region.{Object, Headers}
use ipmb.Message.{
  Bytes, EndpointId, MessageBox, ConnectMessageAck, accepted, err_version, err_token,
}
use ipmb.Linux.Connect.{Formats}
use ipmb.Windows.{new_pipe, readable}
use ipmb.Windows.Hub.{
  IoHub, Step, panics, unfinished, continues, Outcome, arrived, from_bus, fails, Round, recv,
}
use ipmb.Windows.Hub.Passes.{IsSound, Safe}
use ipmb.Windows.Hub.Laws.{recv-IsSound}
use ipmb.Windows.Wire.{Sent, Arrived, new_encoded}
use ipmb.Windows.Connect.{
  WinError, Peer, Calls, Found, acknowledged, parsed, answered, requested, server_process, look_up,
  register, for_endpoint,
}

-- A hub that was found is sound.
abbrev Gives : Step Found → Type 0
Gives panics = Unit
Gives unfinished = Unit
Gives (continues (err e)) = Unit
Gives (continues (ok (hub, remote, id))) = IsSound hub

acknowledged-Gives :
    (hub : IoHub) (remote : Peer) (r : Result ConnectMessageAck Error)
    → IsSound hub
    → Gives (continues (acknowledged hub remote r))
acknowledged-Gives hub remote (ok (accepted id)) s = s
acknowledged-Gives hub remote (ok (err_version v)) s = tt
acknowledged-Gives hub remote (ok err_token) s = tt
acknowledged-Gives hub remote (err e) s = tt

parsed-Gives :
    (box : MessageBox ConnectMessageAck) (hub : IoHub) (remote : Peer)
    (o : Option (Result Arrived Error × Headers))
    → IsSound hub
    → Gives (parsed box hub remote o)
parsed-Gives box hub remote none s = tt
parsed-Gives box hub remote (some (err e, h)) s = tt
parsed-Gives box hub remote (some (ok msg, h)) s = acknowledged-Gives hub remote _ s

module _ (f : Formats) (grow : Bytes → Bytes) (target : ℕ → ℕ) (waker : ℕ) (remote : Peer) where
  answered-Gives :
      (h : Headers) (x : Step (Outcome × IoHub))
      → Safe (λ (o : Outcome × IoHub). IsSound o.1) x
      → Gives (answered f target h remote x)
  answered-Gives h panics s = tt
  answered-Gives h unfinished s = tt
  answered-Gives h (continues (fails e, hub)) s = tt
  answered-Gives h (continues (arrived (bytes, size), hub)) s =
      parsed-Gives f.ack_box hub remote (new_encoded f.selectors target h bytes) s
  answered-Gives h (continues (from_bus msg, hub)) s =
      acknowledged-Gives hub remote (f.ack_box.decode_box msg.selector.uuid msg.payload_data) s

  requested-Gives :
      (rounds : List Round) (read_pipe : Object) (o : Option Sent)
      → Gives (requested f grow target waker rounds remote read_pipe o)
  requested-Gives rounds read_pipe none = tt
  requested-Gives rounds read_pipe (some s) = elim (Result-cases s.result) [
    | inl (x, e) ↦ rw e (
        answered-Gives s.headers _ (
          recv-IsSound grow rounds (for_endpoint waker (new_pipe read_pipe.raw readable))
            ((refl, tt), tt)))
    | inr (x, e) ↦ rw e tt
  ]

module _ (f : Formats) (grow : Bytes → Bytes) (target : ℕ → ℕ) (waker : ℕ) (h : Headers)
    (identifier : String) (label : Label) (token : String) (calls : Calls) where
  look_up-Gives : Gives (look_up f grow target waker h identifier label token calls)
  unfolding look_up
  look_up-Gives = elim (Bool-cases (str_eq identifier "")) [
    | inl e ↦ rw e tt
    | inr i ↦ elim (Result-cases calls.create_file) [
      | inr (e, c) ↦ rw (i, c) tt
      | inl (pipe, c) ↦ elim (Option-cases calls.server_process_id) [
        | inr (e, p) ↦ rw (i, c, p) tt
        | inl p ↦ elim (Result-cases (server_process calls calls.open_process)) [
          | inr (e, o) ↦ rw (i, c, p, o) tt
          | inl (process, o) ↦ elim (Result-cases calls.anon_pipe) [
            | inr (e, a) ↦ rw (i, c, p, o, a) tt
            | inl ((read_pipe, write_pipe), a) ↦
                rw (i, c, p, o, a)
                  (requested-Gives f grow target waker (record { pipe = pipe; process = process })
                    calls.rounds read_pipe _)
          ]
        ]
      ]
    ]
  ]

abbrev as_ok : {A : Type 0} → A → Result A Error
as_ok a = ok a

as_ok-injective : {A : Type 0} (x y : A) → as_ok x ≡ as_ok y → x ≡ y
as_ok-injective x y e = cc

register-IsSound :
    (waker : ℕ) (made : Result Object WinError) (id : EndpointId) (hub : IoHub)
    → register waker made id ≡ ok (hub, id)
    → IsSound hub
unfolding register
register-IsSound waker (err x) id hub e = absurd (ground arith)
register-IsSound waker (ok pipe) id hub e =
    subst (λ (y : IoHub × EndpointId). IsSound y.0) (as_ok-injective _ (hub, id) e) (tt, refl)

-- `recv` on the hub that `look_up` or `register` gave reaches none of its `unreachable!()`, whatever
-- the system answers.
pub found-Safe :
    (f : Formats) (grow : Bytes → Bytes) (target : ℕ → ℕ) (waker : ℕ) (h : Headers)
    (identifier token : String) (label : Label) (calls : Calls) (made : Result Object WinError)
    (id id' : EndpointId) (hub hub' : IoHub) (remote : Peer) (rounds : List Round)
    → look_up f grow target waker h identifier label token calls ≡ continues (ok (hub, remote, id))
    → register waker made id' ≡ ok (hub', id')
    → Safe (λ (o : Outcome × IoHub). IsSound o.1) (recv grow rounds hub)
      × Safe (λ (o : Outcome × IoHub). IsSound o.1) (recv grow rounds hub')
found-Safe f grow target waker h identifier token label calls made id id' hub hub' remote rounds e
      r =
    let s = subst Gives e (look_up-Gives f grow target waker h identifier label token calls) in
    (
      recv-IsSound grow rounds hub s,
      recv-IsSound grow rounds hub' (register-IsSound waker made id' hub' r),
    )
