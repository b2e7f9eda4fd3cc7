-- ===== src/Session.antt =====
-- minimq/src/mqtt_client/session/state.rs: what a session keeps, across connections (`SessionData`)
-- and for the present one (`RuntimeState`).
pub mod Inbound
pub mod PacketId
use minimq.Outbound.{Outbound, clear_inflight, new_outbound}
use minimq.Prelude.{
  Bool, List, Option, [], false, if◌then◌else◌, min, none, some, true, ℕ, ◌%◌, ◌+◌, ◌-◌, ◌/◌, ◌==◌,
  ◌^◌,
}
use minimq.Wire.{QoS}

abbrev pub round_trip_timeout_ms : ℕ
round_trip_timeout_ms = 5000

abbrev pub max_inbound_qos2 : ℕ
max_inbound_qos2 = 8

-- Times and durations are milliseconds.
pub record RuntimeState : Type 0 where
  pub session_resumed : Bool
  pub keepalive_interval : ℕ
  pub send_quota : ℕ
  pub max_send_quota : ℕ
  pub maximum_packet_size : Option ℕ
  pub max_qos : Option QoS
  pub next_ping : Option ℕ
  pub ping_timeout : Option ℕ

unfoldable pub new_runtime : ℕ → RuntimeState
new_runtime keepalive_interval = record {
  session_resumed = false;
  keepalive_interval = keepalive_interval;
  send_quota = 65535;
  max_send_quota = 65535;
  maximum_packet_size = none;
  max_qos = none;
  next_ping = none;
  ping_timeout = none;
}

unfoldable pub reset_transport : RuntimeState → RuntimeState
reset_transport r = record r { session_resumed = false; next_ping = none; ping_timeout = none }

unfoldable pub keepalive_send_interval : RuntimeState → Option ℕ
keepalive_send_interval r =
    if r.keepalive_interval == 0
    then none
    else some (r.keepalive_interval - min round_trip_timeout_ms (r.keepalive_interval / 2))

deadline_after : ℕ → Option ℕ → Option ℕ
deadline_after now none = none
deadline_after now (some interval) = some (now + interval)

unfoldable pub note_outbound_activity : ℕ → RuntimeState → RuntimeState
unfolding keepalive_send_interval deadline_after
note_outbound_activity now r = record r {
  next_ping = deadline_after now (keepalive_send_interval r);
}

earlier : Option ℕ → Option ℕ → Option ℕ
earlier (some a) (some b) = some (min a b)
earlier (some a) none = some a
earlier none (some b) = some b
earlier none none = none

unfoldable pub next_deadline : RuntimeState → Option ℕ
unfolding earlier
next_deadline r = earlier r.next_ping r.ping_timeout

pub record SessionData : Type 0 where
  pub packet_id : ℕ
  pub generation : ℕ
  pub outbound : Outbound
  pub pending_server_packet_ids : List ℕ
  pub session_present : Bool

unfoldable pub new_session : List ℕ → SessionData
unfolding new_outbound
new_session buf = record {
  packet_id = 1;
  generation = 0;
  outbound = new_outbound buf;
  pending_server_packet_ids = [];
  session_present = false;
}

unfoldable pub mark_session_present : SessionData → SessionData
mark_session_present d = record d { session_present = true }

unfoldable pub reset_session : SessionData → SessionData
unfolding clear_inflight
reset_session d = record {
  packet_id = 1;
  generation = (d.generation + 1) % 2 ^ 32;
  outbound = clear_inflight d.outbound;
  pending_server_packet_ids = [];
  session_present = false;
}

-- What a received packet acts on.
pub record Client : Type 0 where
  pub session : SessionData
  pub runtime : RuntimeState

unfoldable pub with_outbound : Client → Outbound → Client
with_outbound c o = record c { session = record c.session { outbound = o } }

unfoldable pub with_pending : Client → List ℕ → Client
with_pending c ids = record c { session = record c.session { pending_server_packet_ids = ids } }
