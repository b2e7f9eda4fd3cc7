-- ===== src/Session/Inbound/ExactlyOnce.antt =====
-- A QoS 2 publication reaches the application at most once until the broker releases its
-- identifier.
pub mod Kept
pub mod Once
mod Examples
use minimq.Outbound.{VecOps, any}
use minimq.Outbound.View.{packets}
use minimq.Prelude.{
  Bool, List, [], err, false, if◌then◌else◌, ok, some, true, ℕ, ◌&&◌, ◌+◌, ◌==◌, ◌∷◌,
}
use minimq.Session.{Client}
use minimq.Session.Inbound.{Handled, HandledPacket, handle_packet, pub_rel, publish}
use minimq.Wire.{exactly_once}

unfoldable pub delivers : Handled → Bool
delivers (c, ok true) = true
delivers (c, ok false) = false
delivers (c, err e) = false

-- The packet is the PUBREL of this identifier, or a QoS 2 publication under it.
unfoldable pub releases : ℕ → HandledPacket → Bool
releases packet_id (pub_rel id) = id == packet_id
releases packet_id packet = false

unfoldable pub publishes : ℕ → HandledPacket → Bool
publishes packet_id (publish exactly_once (some id)) = id == packet_id
publishes packet_id packet = false

-- The identifier waits for its release.
unfoldable pub awaits : ℕ → Client → Bool
awaits packet_id c = any (λ id. id == packet_id) c.session.pending_server_packet_ids

-- How often a sequence of received packets delivers a QoS 2 publication under this identifier.
unfoldable pub deliveries : VecOps → ℕ → Client → List HandledPacket → ℕ
unfolding delivers publishes handle_packet
deliveries v packet_id c [] = 0
deliveries v packet_id c (packet ∷ packets) =
    let h = handle_packet v c packet in
    let rest = deliveries v packet_id h.0 packets in
    if delivers h && publishes packet_id packet then rest + 1 else rest
