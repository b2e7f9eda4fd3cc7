-- ===== src/Session/PacketId.antt =====
-- minimq/src/mqtt_client/session/state.rs: `next_packet_id`. The loop has fuel; Session/PacketId/Free
-- shows that 17 rounds are enough, since at most 16 identifiers are in use.
pub mod Free
mod Examples
use minimq.Outbound.{Outbound, has_pending_release, has_retained}
use minimq.Prelude.{
  Bool, Option, if◌then◌else◌, none, some, suc, zero, ℕ, ◌%◌, ◌+◌, ◌==◌, ◌^◌, ◌||◌,
}
use minimq.Session.{SessionData}

-- `NonZeroU16::new(packet_id.wrapping_add(1)).unwrap_or(NonZeroU16::MIN)`.
unfoldable pub following : ℕ → ℕ
following packet_id = let next = (packet_id + 1) % 2 ^ 16 in if next == 0 then 1 else next

unfoldable pub in_use : ℕ → Outbound → Bool
unfolding has_retained has_pending_release
in_use packet_id o = has_retained packet_id o || has_pending_release packet_id o

-- The state that follows, and the identifier; `none` is the end of the fuel.
unfoldable pub next_packet_id : ℕ → SessionData → SessionData × Option ℕ
unfolding following in_use
next_packet_id zero d = (d, none)
next_packet_id (suc fuel) d =
    let advanced = record d { packet_id = following d.packet_id } in
    let rest = next_packet_id fuel advanced in
    if in_use d.packet_id d.outbound then rest else (advanced, some d.packet_id)
