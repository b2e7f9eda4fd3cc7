-- ===== src/Outbound/Queues.antt =====
-- minimq/src/mqtt_client/outbound.rs: the operations that push into the queues and take from them.
use minimq.Control.{ControlAction}
use minimq.Errors.{ProtocolError, inflight_metadata_exhausted}
use minimq.Outbound.{
  OpKind, Outbound, PendingControl, PendingRelease, RetainedPacket, VecOps, copy_within, holds_op,
  max_pending_control, max_pending_release, max_retained, position, retained_bytes, total, write,
}
use minimq.Prelude.{
  Bool, List, Option, Result, err, false, get_elem?, none, ok, some, take, true, ℕ, ◌+◌, ◌==◌,
}
use minimq.Reason.{ReasonCode}

-- The pushed queue, or the error of a full one.
unfoldable pub control_pushed :
    Outbound → Option (List PendingControl) → Outbound × Result ProtocolError (Unit {0})
control_pushed o (some queue) = (record o { pending_control = queue }, ok tt)
control_pushed o none = (o, err inflight_metadata_exhausted)

unfoldable pub release_pushed :
    Outbound → Option (List PendingRelease) → Outbound × Result ProtocolError (Unit {0})
release_pushed o (some queue) = (record o { pending_release = queue }, ok tt)
release_pushed o none = (o, err inflight_metadata_exhausted)

unfoldable pub retained_pushed :
    Outbound → Option (List RetainedPacket) → Outbound × Result ProtocolError (Unit {0})
retained_pushed o (some queue) = (record o { retained = queue }, ok tt)
retained_pushed o none = (o, err inflight_metadata_exhausted)

module _ (v : VecOps) where
  unfoldable pub queue_control :
      ControlAction → Outbound → Outbound × Result ProtocolError (Unit {0})
  unfolding control_pushed
  queue_control action o = control_pushed o (
      v.vec_push max_pending_control (record { action = action; state = write 0 })
        o.pending_control)

  unfoldable pub queue_release :
      ℕ → ReasonCode → Outbound → Outbound × Result ProtocolError (Unit {0})
  unfolding release_pushed
  queue_release packet_id reason o = release_pushed o (
      v.vec_push max_pending_release
        (record { packet_id = packet_id; reason = reason; state = write 0 }) o.pending_release)

  unfoldable pub retain_packet :
      OpKind → ℕ → ℕ → Outbound → Outbound × Result ProtocolError (Unit {0})
  unfolding retained_pushed
  retain_packet kind packet_id len o = retained_pushed o (
      v.vec_push max_retained
        (record { kind = kind; packet_id = packet_id; len = len; state = write 0 }) o.retained)

  unfoldable pub len_at : ℕ → List RetainedPacket → ℕ
  len_at i es = elim (get_elem? es i) [ none ↦ 0 | some e ↦ e.len ]

  unfoldable pub ack_at : ℕ → Outbound → Outbound
  unfolding len_at retained_bytes
  ack_at i o =
      let offset = total (take i o.retained) in
      let len = len_at i o.retained in
      record o {
        buf = copy_within (offset + len) (retained_bytes o) offset o.buf;
        retained = v.remove i o.retained;
      }

  unfoldable pub ack_found : Outbound → Option ℕ → Outbound × Bool
  unfolding ack_at
  ack_found o none = (o, false)
  ack_found o (some i) = (ack_at i o, true)

  unfoldable pub ack_packet : OpKind → ℕ → Outbound → Outbound × Bool
  unfolding ack_found holds_op
  ack_packet kind packet_id o = ack_found o (position (holds_op kind packet_id) o.retained)

  unfoldable pub release_found : Outbound → Option ℕ → Outbound × Bool
  release_found o none = (o, false)
  release_found o (some i) =
      (record o { pending_release = v.swap_remove i o.pending_release }, true)

  unfoldable pub ack_release : ℕ → Outbound → Outbound × Bool
  unfolding release_found
  ack_release packet_id o =
      release_found o (position (λ p. p.packet_id == packet_id) o.pending_release)
