-- ===== src/Node/Channel.antt =====
-- canopen-core/src/node.rs: `PendingSdoTx`, the response slot of an SDO server. `transmit` is the
-- transport, with its state.
use yacob.Base.{
  ℕ, zero, suc, Bool, true, false, if◌then◌else◌, leb, List, [], ◌∷◌, Option, none, some,
}
use yacob.Base.Bytes.{Bytes8, to_list, wrapping_sub}
use yacob.Can.{CanFrame, new_frame}
use yacob.Node.{SdoChannel, no_pending, Sent, is_taken}
use yacob.Sdo.Server.State.{
  abort_transfer, check_timeout, respond, silent, panicked, sdo_timeout_us,
}
use yacob.Sdo.Server.Block.{poll_block_upload}

-- `queue`.
unfoldable pub queue_response : SdoChannel → Bytes8 → ℕ → SdoChannel
queue_response c bytes now = record c {
  pending = record {
    frame = elim (new_frame c.tx (to_list bytes)) [ none ↦ none | some f ↦ some (f, now) ];
    refused_this_poll = c.pending.refused_this_poll;
  };
}

-- `begin_poll`: has the queued response waited for too long?
abbrev pub is_stale : Option (CanFrame × ℕ) → ℕ → Bool
is_stale none now = false
is_stale (some f) now = leb sdo_timeout_us (wrapping_sub now f.1)

unfoldable pub begin_poll : SdoChannel → ℕ → SdoChannel
begin_poll c now =
    let c' : SdoChannel = record c {
      pending = record { frame = c.pending.frame; refused_this_poll = false };
    } in
    if is_stale c.pending.frame now
    then record c { server = abort_transfer c.server; pending = no_pending }
    else let (server, reply) = check_timeout c.server now in
      elim reply [
        | respond r ↦ queue_response (record c' { server = server }) r now
        | silent ↦ record c' { server = server }
        | panicked ↦ record c' { server = server }
      ]

module _ {T : Type 0} (transmit : T → CanFrame → T × Sent) where
  -- `try_send`.
  unfoldable pub try_send : SdoChannel → T → SdoChannel × T
  try_send c t = if c.pending.refused_this_poll then (c, t) else elim c.pending.frame [
    | none ↦ (c, t)
    | some f ↦
        let (t', sent) = transmit t f.0 in
        (
          (if is_taken sent
              then record c { pending = record { frame = none; refused_this_poll = false } }
              else record c { pending = record { frame = some f; refused_this_poll = true } }),
          t',
        )
  ]

  -- The loop of `service`; `none` is a panic of the server.
  unfoldable pub send_block : ℕ → SdoChannel → ℕ → T → Option (SdoChannel × T)
  send_block zero c now t = some (c, t)
  send_block (suc rounds) c now t = elim c.pending.frame [
    | some f ↦ some (c, t)
    | none ↦
        let (server, reply) = poll_block_upload c.server now in
        elim reply [
          | silent ↦ some (record c { server = server }, t)
          | panicked ↦ none
          | respond r ↦
              let (c', t') = try_send (queue_response (record c { server = server }) r now) t in
              send_block rounds c' now t'
        ]
  ]

  -- `service`.
  unfoldable pub service : SdoChannel → ℕ → T → Option (SdoChannel × T)
  service c now t = let (c', t') = try_send c t in send_block 127 c' now t'

  unfoldable pub service_all : List SdoChannel → ℕ → T → Option (List SdoChannel × T)
  service_all [] now t = some ([], t)
  service_all (c ∷ cs) now t = elim (service c now t) [
    | none ↦ none
    | some (c', t') ↦ elim (service_all cs now t') [
      | none ↦ none
      | some (cs', t'') ↦ some (c' ∷ cs', t'')
    ]
  ]
