-- ===== src/Session/Inbound/ExactlyOnce/Once.antt =====
-- The bound on the deliveries under one identifier.
use minimq.Control.{ControlAction}
use minimq.Outbound.{VecOps, any}
use minimq.Outbound.View.{packets}
use minimq.Prelude.{
  All, Bool, Bool-cases, List, Option, [], ap, arith, false, inl, inr, none, refl, some, sym, true,
  ℕ, ◌&&◌, ◌==◌, ◌∙◌, ◌∷◌, ◌≡◌, ◌≤◌,
}
use minimq.Reason.{receive_max_exceeded}
use minimq.Session.{Client, max_inbound_qos2}
use minimq.Session.Inbound.{
  HandledPacket, conn_ack, disconnect, handle_packet, on_exactly_once, on_new, on_publish,
  ping_resp, pub_ack, pub_comp, pub_rec, pub_rel, publish, sub_ack, unsub_ack,
}
use minimq.Session.Inbound.ExactlyOnce.{awaits, deliveries, delivers, publishes, releases}
use minimq.Session.Inbound.ExactlyOnce.Kept.{
  any-last, awaiting_refused, exactly_once-awaits, handle-awaits, on_new-awaits, pushed-append,
  respond-delivers,
}
use minimq.Wire.{at_least_once, at_most_once, exactly_once}

module _ (v : VecOps) (packet_id : ℕ) where
  publishes-shape :
      (packet : HandledPacket)
      → publishes packet_id packet ≡ true
      → packet ≡ publish exactly_once (some packet_id)
  unfolding publishes
  publishes-shape (publish exactly_once (some id)) h =
      ap (λ k. publish exactly_once (some k)) (ground arith)
  publishes-shape (publish exactly_once none) h = absurd (ground arith)
  publishes-shape (publish at_least_once id) h = absurd (ground arith)
  publishes-shape (publish at_most_once id) h = absurd (ground arith)
  publishes-shape conn_ack h = absurd (ground arith)
  publishes-shape ping_resp h = absurd (ground arith)
  publishes-shape disconnect h = absurd (ground arith)
  publishes-shape (sub_ack id codes) h = absurd (ground arith)
  publishes-shape (unsub_ack id codes) h = absurd (ground arith)
  publishes-shape (pub_ack id reason) h = absurd (ground arith)
  publishes-shape (pub_rec id reason) h = absurd (ground arith)
  publishes-shape (pub_comp id reason) h = absurd (ground arith)
  publishes-shape (pub_rel id) h = absurd (ground arith)

  new_once :
      (c : Client) (q : Option (List ℕ))
      → ((xs : List ℕ) → q ≡ some xs → any (λ i. i == packet_id) xs ≡ true)
      → delivers (on_new v packet_id c q) ≡ true
      → awaits packet_id (on_new v packet_id c q).0 ≡ true
  unfolding on_new
  new_once c (some xs) entered h =
      on_new-awaits v packet_id c packet_id (some xs) entered (λ e. absurd (cc))
  new_once c none entered h =
      let refused = respond-delivers v (ControlAction.pub_rec packet_id receive_max_exceeded) c in
      absurd (cc)

  on_exactly_once_fresh :
      (c : Client)
      → any (λ i. i == packet_id) c.session.pending_server_packet_ids ≡ false
      → on_exactly_once v packet_id c
        ≡ on_new v packet_id c
            (v.vec_push max_inbound_qos2 packet_id c.session.pending_server_packet_ids)
  unfolding on_exactly_once
  on_exactly_once_fresh c e = rw e refl

  -- A delivery enters the identifier.
  once-awaits :
      (c : Client)
      → delivers (on_exactly_once v packet_id c) ≡ true
      → awaits packet_id (on_exactly_once v packet_id c).0 ≡ true
  once-awaits c h = elim (Bool-cases (any (λ i. i == packet_id) held)) [
    | inl e ↦ exactly_once-awaits v packet_id c packet_id (unfold awaits in e)
    | inr e ↦
        let fresh = on_exactly_once_fresh c e in
        ap (λ r. awaits packet_id r.0) fresh
        ∙ new_once c (v.vec_push max_inbound_qos2 packet_id held) entered
            (sym (ap delivers fresh) ∙ h)
  ]
    where
      held : List ℕ
      held = c.session.pending_server_packet_ids

      entered :
          (xs : List ℕ)
          → v.vec_push max_inbound_qos2 packet_id held ≡ some xs
          → any (λ i. i == packet_id) xs ≡ true
      entered xs eq =
          ap (any (λ i. i == packet_id)) (pushed-append v max_inbound_qos2 packet_id held xs eq)
          ∙ any-last held packet_id

  both : (b d : Bool) → (b && d) ≡ true → (b ≡ true) × (d ≡ true)
  both true d h = (refl, h)
  both false d h = absurd (ground arith)

  delivered-awaits :
      (c : Client) (packet : HandledPacket)
      → (delivers (handle_packet v c packet) && publishes packet_id packet) ≡ true
      → awaits packet_id (handle_packet v c packet).0 ≡ true
  unfolding handle_packet on_publish
  delivered-awaits c packet h =
      let (delivered, published) =
        both (delivers (handle_packet v c packet)) (publishes packet_id packet) h in
      let shape = publishes-shape packet published in
      ap (λ p. awaits packet_id (handle_packet v c p).0) shape
      ∙ once-awaits c (sym (ap (λ p. delivers (handle_packet v c p)) shape) ∙ delivered)

  none_awaiting :
      (c : Client) (packets : List HandledPacket)
      → awaits packet_id c ≡ true
      → All (λ packet. releases packet_id packet ≡ false) packets
      → deliveries v packet_id c packets ≡ 0
  unfolding deliveries
  none_awaiting c [] h others = refl
  none_awaiting c (packet ∷ packets) h (other, others) =
      rw (awaiting_refused v packet_id c packet h) (
        none_awaiting (handle_packet v c packet).0 packets
          (handle-awaits v packet_id c packet other h) others)

  -- However often the broker sends QoS 2 publications under an identifier, and whatever else it
  -- sends, as long as it does not release the identifier at most one of them is delivered.
  pub deliveries_le_one :
      (c : Client) (packets : List HandledPacket)
      → All (λ packet. releases packet_id packet ≡ false) packets
      → deliveries v packet_id c packets ≤ 1
  unfolding deliveries
  deliveries_le_one c [] others = omega arith
  deliveries_le_one c (packet ∷ packets) (other, others) =
      elim (Bool-cases (delivers (handle_packet v c packet) && publishes packet_id packet)) [
        | inl e ↦ rw e (
            omega (
              arith,
              none_awaiting (handle_packet v c packet).0 packets (delivered-awaits c packet e)
                  others,
            ))
        | inr e ↦ rw e (deliveries_le_one (handle_packet v c packet).0 packets others)
      ]
