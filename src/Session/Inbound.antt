-- ===== src/Session/Inbound.antt =====
-- minimq/src/mqtt_client/session/inbound.rs: what a received packet does to the session.
-- `ok true` is a publication for the application.
pub mod ExactlyOnce
pub mod Quota
use minimq.Control.{ControlAction, check_control_packet_size, check_pubrel_size}
use minimq.Errors.{
  Error, ProtocolError, as_result, disconnected, from_protocol, peer, unexpected_packet,
}
use minimq.Outbound.{
  Outbound, VecOps, any, has_pending_release, position, publish_at_least_once, publish_exactly_once,
  subscribe_op, unsubscribe_op,
}
use minimq.Outbound.Queues.{ack_packet, ack_release, queue_control, queue_release}
use minimq.Prelude.{
  Bool, List, Option, Result, [], err, false, if◌then◌else◌, map_err, min, none, ok, some, true, ℕ,
  ◌+◌, ◌==◌, ◌>>◌, ◌∷◌,
}
use minimq.Reason.{
  ReasonCode, from_u8, packet_id_in_use, packet_id_not_found, receive_max_exceeded, success,
}
use minimq.Session.{Client, max_inbound_qos2, with_outbound, with_pending}
use minimq.Wire.{QoS, at_least_once, at_most_once, exactly_once}
use minimq.Errors.{malformed_packet}

-- What the handler reads of a received packet: identifiers, reason codes and the quality of service.
pub data HandledPacket : Type 0 where
  conn_ack ping_resp disconnect : HandledPacket
  sub_ack unsub_ack : ℕ → List ℕ → HandledPacket
  pub_ack pub_rec pub_comp : ℕ → ReasonCode → HandledPacket
  pub_rel : ℕ → HandledPacket
  publish : QoS → Option ℕ → HandledPacket

abbrev pub Handled : Type 0
Handled = Client × Result (Error ⊥) Bool

-- `saturating_add(1).min(max)`.
unfoldable pub restore_quota : Client → Client
restore_quota c = record c {
  runtime = record c.runtime {
    send_quota = min (min (c.runtime.send_quota + 1) 65535) c.runtime.max_send_quota;
  };
}

-- The rest of a handler after a step that may fail; the state is kept.
unfoldable pub after_ok : Client → Result (Error ⊥) (Unit {0}) → Handled → Handled
after_ok c (ok u) k = k
after_ok c (err e) k = (c, err e)

unfoldable pub verdict : ReasonCode → Result (Error ⊥) (Unit {0})
unfolding as_result
verdict code = map_err peer (as_result code)

-- `for &code in ack.codes`.
unfoldable pub verdicts : List ℕ → Result (Error ⊥) (Unit {0})
unfolding verdict from_u8
verdicts [] = ok tt
verdicts (code ∷ codes) = verdict (from_u8 code) >> verdicts codes

-- An acknowledgement that matches nothing is ignored.
unfoldable pub if_acked : Client → Outbound × Bool → (Client → Handled) → Handled
unfolding with_outbound
if_acked c (o, true) k = k (with_outbound c o)
if_acked c (o, false) k = (with_outbound c o, ok false)

unfoldable pub queued : Client → Outbound × Result ProtocolError (Unit {0}) → Handled → Handled
unfolding with_outbound from_protocol
queued c (o, ok u) (d, r) = (with_outbound d o, r)
queued c (o, err e) k = (with_outbound c o, err (from_protocol e))

module _ (v : VecOps) where
  -- The size check, then the queue; `r` is the result after both.
  unfoldable pub respond : ControlAction → Bool → Client → Handled
  unfolding queued after_ok check_control_packet_size queue_control from_protocol
  respond action r c =
      after_ok c
        (map_err from_protocol (check_control_packet_size c.runtime.maximum_packet_size action))
        (queued c (queue_control v action c.session.outbound) (c, ok r))

  unfoldable pub release : ℕ → Client → Handled
  unfolding queued after_ok check_pubrel_size queue_release from_protocol
  release packet_id c =
      after_ok c
        (map_err from_protocol (check_pubrel_size c.runtime.maximum_packet_size packet_id success))
        (queued c (queue_release v packet_id success c.session.outbound) (c, ok false))

  unfoldable pub on_pub_rec : ℕ → ReasonCode → Client → Outbound × Bool → Handled
  unfolding with_outbound restore_quota after_ok verdict release has_pending_release
  on_pub_rec packet_id reason c (o, true) =
      let c' = restore_quota (with_outbound c o) in
      after_ok c' (verdict reason) (release packet_id c')
  on_pub_rec packet_id reason c (o, false) =
      let c' = with_outbound c o in
      if has_pending_release packet_id o
      then after_ok c' (verdict reason) (c', ok false)
      else (c', ok false)

  unfoldable pub on_pub_rel : ℕ → Client → Option ℕ → Handled
  unfolding respond with_pending
  on_pub_rel packet_id c (some index) =
      respond (ControlAction.pub_comp packet_id success) false
        (with_pending c (v.swap_remove index c.session.pending_server_packet_ids))
  on_pub_rel packet_id c none =
      respond (ControlAction.pub_comp packet_id packet_id_not_found) false c

  unfoldable pub on_new : ℕ → Client → Option (List ℕ) → Handled
  unfolding respond with_pending
  on_new packet_id c (some ids) =
      respond (ControlAction.pub_rec packet_id success) true (with_pending c ids)
  on_new packet_id c none = respond (ControlAction.pub_rec packet_id receive_max_exceeded) false c

  unfoldable pub on_exactly_once : ℕ → Client → Handled
  unfolding respond on_new
  on_exactly_once packet_id c =
      if any (λ id. id == packet_id) c.session.pending_server_packet_ids
      then respond (ControlAction.pub_rec packet_id success) false c
      else on_new packet_id c
          (v.vec_push max_inbound_qos2 packet_id c.session.pending_server_packet_ids)

  unfoldable pub on_publish : QoS → Option ℕ → Client → Handled
  unfolding respond on_exactly_once from_protocol
  on_publish at_most_once packet_id c = (c, ok true)
  on_publish at_least_once none c = (c, err (from_protocol malformed_packet))
  on_publish at_least_once (some packet_id) c =
      let reason =
        if any (λ id. id == packet_id) c.session.pending_server_packet_ids
        then packet_id_in_use
        else success in
      respond (ControlAction.pub_ack packet_id reason) true c
  on_publish exactly_once none c = (c, err (from_protocol malformed_packet))
  on_publish exactly_once (some packet_id) c = on_exactly_once packet_id c

  unfoldable pub handle_packet : Client → HandledPacket → Handled
  unfolding from_protocol if_acked ack_packet ack_release after_ok verdicts verdict restore_quota
      on_pub_rec on_pub_rel on_publish
  handle_packet c conn_ack = (c, err (from_protocol unexpected_packet))
  handle_packet c (sub_ack packet_id codes) =
      if_acked c (ack_packet v subscribe_op packet_id c.session.outbound)
        (λ c'. after_ok c' (verdicts codes) (c', ok false))
  handle_packet c (unsub_ack packet_id codes) =
      if_acked c (ack_packet v unsubscribe_op packet_id c.session.outbound)
        (λ c'. after_ok c' (verdicts codes) (c', ok false))
  handle_packet c ping_resp =
      (record c { runtime = record c.runtime { ping_timeout = none } }, ok false)
  handle_packet c (pub_ack packet_id reason) =
      if_acked c (ack_packet v publish_at_least_once packet_id c.session.outbound)
        (λ c'. after_ok (restore_quota c') (verdict reason) (restore_quota c', ok false))
  handle_packet c (pub_rec packet_id reason) =
      on_pub_rec packet_id reason c (ack_packet v publish_exactly_once packet_id c.session.outbound)
  handle_packet c (pub_comp packet_id reason) =
      if_acked c (ack_release v packet_id c.session.outbound)
        (λ c'. after_ok c' (verdict reason) (c', ok false))
  handle_packet c (pub_rel packet_id) =
      on_pub_rel packet_id c (position (λ id. id == packet_id) c.session.pending_server_packet_ids)
  handle_packet c (publish qos packet_id) = on_publish qos packet_id c
  handle_packet c disconnect = (c, err disconnected)
