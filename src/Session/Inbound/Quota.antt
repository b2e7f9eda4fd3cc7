-- ===== src/Session/Inbound/Quota.antt =====
-- The send quota against the peer's receive maximum.
use minimq.Control.{ControlAction, check_control_packet_size, check_pubrel_size}
use minimq.Errors.{Error, ProtocolError, from_protocol}
use minimq.Outbound.{
  Outbound, VecOps, any, has_pending_release, position, publish_at_least_once, publish_exactly_once,
  subscribe_op, unsubscribe_op,
}
use minimq.Outbound.Queues.{ack_packet, ack_release, queue_control, queue_release}
use minimq.Prelude.{
  Bool, Bool-cases, List, Option, Result, arith, err, false, if◌then◌else◌, inl, inr, map_err, none,
  ok, some, true, ℕ, ◌==◌, ◌≤◌,
}
use minimq.Reason.{ReasonCode, packet_id_in_use, packet_id_not_found, receive_max_exceeded, success}
use minimq.Session.{Client, max_inbound_qos2, with_outbound, with_pending}
use minimq.Session.Inbound.{
  Handled, HandledPacket, after_ok, conn_ack, disconnect, handle_packet, if_acked, on_exactly_once,
  on_new, on_pub_rec, on_pub_rel, on_publish, ping_resp, pub_ack, pub_comp, pub_rec, pub_rel,
  publish, queued, release, respond, restore_quota, sub_ack, unsub_ack, verdict, verdicts,
}
use minimq.Wire.{QoS, at_least_once, at_most_once, exactly_once}

abbrev pub Quota : Client → Type 0
Quota c = c.runtime.send_quota ≤ c.runtime.max_send_quota

after_ok-Quota :
    (c : Client) (r : Result (Error ⊥) (Unit {0})) (k : Handled)
    → Quota c
    → Quota k.0
    → Quota (after_ok c r k).0
unfolding after_ok
after_ok-Quota c (ok u) k h g = g
after_ok-Quota c (err e) k h g = h

queued-Quota :
    (c : Client) (q : Outbound × Result ProtocolError (Unit {0})) (r : Result (Error ⊥) Bool)
    → Quota c
    → Quota (queued c q (c, r)).0
unfolding queued with_outbound
queued-Quota c (o, ok u) r h = h
queued-Quota c (o, err e) r h = h

if_acked-Quota :
    (c : Client) (q : Outbound × Bool) (k : Client → Handled)
    → Quota c
    → ((d : Client) → Quota d → Quota (k d).0)
    → Quota (if_acked c q k).0
unfolding if_acked with_outbound
if_acked-Quota c (o, true) k h g = g (with_outbound c o) h
if_acked-Quota c (o, false) k h g = h

restore_quota-Quota : (c : Client) → Quota (restore_quota c)
unfolding restore_quota
restore_quota-Quota c = omega arith

module _ (v : VecOps) where
  respond-Quota :
      (action : ControlAction) (r : Bool) (c : Client) → Quota c → Quota (respond v action r c).0
  unfolding respond
  respond-Quota action r c h =
      after_ok-Quota c
        (map_err from_protocol (check_control_packet_size c.runtime.maximum_packet_size action))
        (queued c (queue_control v action c.session.outbound) (c, ok r)) h
        (queued-Quota c (queue_control v action c.session.outbound) (ok r) h)

  release-Quota : (packet_id : ℕ) (c : Client) → Quota c → Quota (release v packet_id c).0
  unfolding release
  release-Quota packet_id c h =
      after_ok-Quota c
        (map_err from_protocol (check_pubrel_size c.runtime.maximum_packet_size packet_id success))
        (queued c (queue_release v packet_id success c.session.outbound) (c, ok false)) h
        (queued-Quota c (queue_release v packet_id success c.session.outbound) (ok false) h)

  on_pub_rec-Quota :
      (packet_id : ℕ) (reason : ReasonCode) (c : Client) (q : Outbound × Bool)
      → Quota c
      → Quota (on_pub_rec v packet_id reason c q).0
  unfolding on_pub_rec with_outbound
  on_pub_rec-Quota packet_id reason c (o, true) h =
      let d = restore_quota (with_outbound c o) in
      let g : Quota d = restore_quota-Quota (with_outbound c o) in
      after_ok-Quota d (verdict reason) (release v packet_id d) g (release-Quota packet_id d g)
  on_pub_rec-Quota packet_id reason c (o, false) h =
      elim (Bool-cases (has_pending_release packet_id o)) [
        | inl e ↦
            rw e (
              after_ok-Quota (with_outbound c o) (verdict reason) (with_outbound c o, ok false) h h)
        | inr e ↦ rw e h
      ]

  on_pub_rel-Quota :
      (packet_id : ℕ) (c : Client) (index : Option ℕ)
      → Quota c
      → Quota (on_pub_rel v packet_id c index).0
  unfolding on_pub_rel with_pending
  on_pub_rel-Quota packet_id c none h =
      respond-Quota (ControlAction.pub_comp packet_id packet_id_not_found) false c h
  on_pub_rel-Quota packet_id c (some index) h =
      respond-Quota (ControlAction.pub_comp packet_id success) false
        (with_pending c (v.swap_remove index c.session.pending_server_packet_ids)) h

  on_new-Quota :
      (packet_id : ℕ) (c : Client) (q : Option (List ℕ))
      → Quota c
      → Quota (on_new v packet_id c q).0
  unfolding on_new with_pending
  on_new-Quota packet_id c none h =
      respond-Quota (ControlAction.pub_rec packet_id receive_max_exceeded) false c h
  on_new-Quota packet_id c (some ids) h =
      respond-Quota (ControlAction.pub_rec packet_id success) true (with_pending c ids) h

  on_publish-Quota :
      (qos : QoS) (packet_id : Option ℕ) (c : Client)
      → Quota c
      → Quota (on_publish v qos packet_id c).0
  unfolding on_publish on_exactly_once
  on_publish-Quota at_most_once packet_id c h = h
  on_publish-Quota at_least_once none c h = h
  on_publish-Quota at_least_once (some id) c h =
      respond-Quota
        (ControlAction.pub_ack id (
          if any (λ i. i == id) c.session.pending_server_packet_ids
          then packet_id_in_use
          else success))
        true c h
  on_publish-Quota exactly_once none c h = h
  on_publish-Quota exactly_once (some id) c h =
      elim (Bool-cases (any (λ i. i == id) c.session.pending_server_packet_ids)) [
        | inl e ↦ rw e (respond-Quota (ControlAction.pub_rec id success) false c h)
        | inr e ↦ rw e (
            on_new-Quota id c (v.vec_push max_inbound_qos2 id c.session.pending_server_packet_ids)
              h)
      ]

  settled-Quota :
      (r : Result (Error ⊥) (Unit {0})) (d : Client)
      → Quota d
      → Quota (after_ok d r (d, ok false)).0
  settled-Quota r d h = after_ok-Quota d r (d, ok false) h h

  -- A received packet leaves the send quota within the peer's receive maximum, also where the packet
  -- is refused.
  pub handle_packet-Quota :
      (c : Client) (packet : HandledPacket) → Quota c → Quota (handle_packet v c packet).0
  unfolding handle_packet
  handle_packet-Quota c conn_ack h = h
  handle_packet-Quota c ping_resp h = h
  handle_packet-Quota c disconnect h = h
  handle_packet-Quota c (sub_ack id codes) h =
      if_acked-Quota c (ack_packet v subscribe_op id c.session.outbound)
        (λ d. after_ok d (verdicts codes) (d, ok false)) h (settled-Quota (verdicts codes))
  handle_packet-Quota c (unsub_ack id codes) h =
      if_acked-Quota c (ack_packet v unsubscribe_op id c.session.outbound)
        (λ d. after_ok d (verdicts codes) (d, ok false)) h (settled-Quota (verdicts codes))
  handle_packet-Quota c (pub_ack id reason) h =
      if_acked-Quota c (ack_packet v publish_at_least_once id c.session.outbound)
        (λ d. after_ok (restore_quota d) (verdict reason) (restore_quota d, ok false)) h
        (λ d g. settled-Quota (verdict reason) (restore_quota d) (restore_quota-Quota d))
  handle_packet-Quota c (pub_rec id reason) h =
      on_pub_rec-Quota id reason c (ack_packet v publish_exactly_once id c.session.outbound) h
  handle_packet-Quota c (pub_comp id reason) h =
      if_acked-Quota c (ack_release v id c.session.outbound)
        (λ d. after_ok d (verdict reason) (d, ok false)) h (settled-Quota (verdict reason))
  handle_packet-Quota c (pub_rel id) h =
      on_pub_rel-Quota id c (position (λ i. i == id) c.session.pending_server_packet_ids) h
  handle_packet-Quota c (publish qos id) h = on_publish-Quota qos id c h
