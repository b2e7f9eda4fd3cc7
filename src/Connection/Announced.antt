-- ===== src/Connection/Announced.antt =====
-- Only a PUBLISH is announced to the application.
use minimq.Control.{ControlAction}
use minimq.Errors.{Error, ProtocolError}
use minimq.Outbound.{
  OpKind, Outbound, VecOps, has_pending_release, publish_exactly_once, subscribe_op, unsubscribe_op,
}
use minimq.Outbound.Queues.{ack_packet, queue_control, queue_release}
use minimq.Prelude.{
  Bool, List, Option, Result, err, false, if◌then◌else◌, inl, inr, none, ok, refl, some, true, ℕ,
  ◌≡◌, ◌⊎◌,
}
use minimq.Reason.{ReasonCode, packet_id_not_found, success}
use minimq.Received.{Publish, ReceivedPacket, ack_code, handled}
use minimq.Session.{Client, with_outbound, with_pending}
use minimq.Session.Inbound.{
  Handled, after_ok, handle_packet, if_acked, on_pub_rec, on_pub_rel, queued, release, respond,
  verdict, verdicts,
}

-- No publication for the application.
abbrev pub Silent : Result (Error ⊥) Bool → Type 0
Silent (ok true) = ⊥
Silent (ok false) = Unit {0}
Silent (err e) = Unit {0}

after_ok-Silent :
    (c : Client) (r : Result (Error ⊥) (Unit {0})) (k : Handled)
    → Silent k.1
    → Silent (after_ok c r k).1
unfolding after_ok
after_ok-Silent c (ok u) k h = h
after_ok-Silent c (err e) k h = tt

if_acked-Silent :
    (c : Client) (r : Outbound × Bool) (k : Client → Handled)
    → ((c' : Client) → Silent (k c').1)
    → Silent (if_acked c r k).1
unfolding if_acked
if_acked-Silent c (o, true) k h = h (with_outbound c o)
if_acked-Silent c (o, false) k h = tt

queued-Silent :
    (c : Client) (q : Outbound × Result ProtocolError (Unit {0})) (k : Handled)
    → Silent k.1
    → Silent (queued c q k).1
unfolding queued
queued-Silent c (o, ok u) (d, r) h = h
queued-Silent c (o, err e) k h = tt

module _ (v : VecOps) where
  respond-Silent : (action : ControlAction) (c : Client) → Silent (respond v action false c).1
  unfolding respond
  respond-Silent action c =
      after_ok-Silent c _ _
        (queued-Silent c (queue_control v action c.session.outbound) (c, ok false) tt)

  release-Silent : (packet_id : ℕ) (c : Client) → Silent (release v packet_id c).1
  unfolding release
  release-Silent packet_id c =
      after_ok-Silent c _ _
        (queued-Silent c (queue_release v packet_id success c.session.outbound) (c, ok false) tt)

  on_pub_rec-Silent :
      (packet_id : ℕ) (reason : ReasonCode) (c : Client) (r : Outbound × Bool)
      → Silent (on_pub_rec v packet_id reason c r).1
  unfolding on_pub_rec
  on_pub_rec-Silent packet_id reason c (o, true) =
      after_ok-Silent _ (verdict reason) _ (release-Silent packet_id _)
  on_pub_rec-Silent packet_id reason c (o, false) = through (has_pending_release packet_id o)
    where
      through :
          (b : Bool)
          → Silent
              (if b
                then after_ok (with_outbound c o) (verdict reason) (with_outbound c o, ok false)
                else (with_outbound c o, ok false)).1
      through true =
          after_ok-Silent (with_outbound c o) (verdict reason) (with_outbound c o, ok false) tt
      through false = tt

  on_pub_rel-Silent :
      (packet_id : ℕ) (c : Client) (o : Option ℕ) → Silent (on_pub_rel v packet_id c o).1
  unfolding on_pub_rel
  on_pub_rel-Silent packet_id c (some index) =
      respond-Silent (ControlAction.pub_comp packet_id success)
        (with_pending c (v.swap_remove index c.session.pending_server_packet_ids))
  on_pub_rel-Silent packet_id c none =
      respond-Silent (ControlAction.pub_comp packet_id packet_id_not_found) c

  codes-Silent :
      (kind : OpKind) (packet_id : ℕ) (codes : List ℕ) (c : Client)
      → Silent
          (if_acked c
            (ack_packet v kind packet_id c.session.outbound)
            (λ c'. after_ok c' (verdicts codes) (c', ok false))).1
  codes-Silent kind packet_id codes c =
      if_acked-Silent c (ack_packet v kind packet_id c.session.outbound)
        (λ c'. after_ok c' (verdicts codes) (c', ok false))
        (λ c'. after_ok-Silent c' (verdicts codes) (c', ok false) tt)

  -- What is announced was a PUBLISH.
  pub announced :
      (c : Client) (p : ReceivedPacket)
      → Silent (handle_packet v c (handled p)).1 ⊎ ((m : Publish) × (p ≡ ReceivedPacket.publish m))
  unfolding handle_packet handled
  announced c (ReceivedPacket.publish m) = inr (m, refl)
  announced c (ReceivedPacket.conn_ack p) = inl tt
  announced c (ReceivedPacket.sub_ack p) = inl (codes-Silent subscribe_op p.packet_id p.codes c)
  announced c (ReceivedPacket.unsub_ack p) = inl (codes-Silent unsubscribe_op p.packet_id p.codes c)
  announced c (ReceivedPacket.pub_ack p) =
      inl (if_acked-Silent c _ _ (λ c'. after_ok-Silent _ (verdict (ack_code p)) _ tt))
  announced c (ReceivedPacket.pub_rec p) = inl (
      on_pub_rec-Silent p.packet_id (ack_code p) c
        (ack_packet v publish_exactly_once p.packet_id c.session.outbound))
  announced c (ReceivedPacket.pub_rel p) = inl (on_pub_rel-Silent p.packet_id c _)
  announced c (ReceivedPacket.pub_comp p) =
      inl (if_acked-Silent c _ _ (λ c'. after_ok-Silent c' (verdict (ack_code p)) _ tt))
  announced c (ReceivedPacket.disconnect p) = inl tt
  announced c ReceivedPacket.ping_resp = inl tt
