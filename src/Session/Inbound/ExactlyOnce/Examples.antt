-- ===== src/Session/Inbound/ExactlyOnce/Examples.antt =====
-- Runs of the theorems on received packets.
use minimq.Outbound.ListVec.{list_vec}
use minimq.Prelude.{List, [], arith, false, none, refl, replicate, some, true, ◌∷◌, ◌≤◌}
use minimq.Session.{Client}
use minimq.Session.Inbound.{HandledPacket, handle_packet, ping_resp, publish}
use minimq.Session.Inbound.ExactlyOnce.{deliveries, releases}
use minimq.Session.Inbound.ExactlyOnce.Once.{deliveries_le_one}
use minimq.Session.Inbound.Quota.{Quota, handle_packet-Quota}
use minimq.Wire.{exactly_once}

abbrev empty_client : Client
empty_client = record {
  session = record {
    packet_id = 1;
    generation = 0;
    outbound = record {
      buf = replicate 32 0;
      connect_workspace = 0;
      pending_control = [];
      retained = [];
      pending_release = [];
    };
    pending_server_packet_ids = [];
    session_present = true;
  };
  runtime = record {
    session_resumed = false;
    keepalive_interval = 0;
    send_quota = 3;
    max_send_quota = 4;
    maximum_packet_size = none;
    max_qos = none;
    next_ping = none;
    ping_timeout = none;
  };
}

-- The publication comes twice.
abbrev repeated : List HandledPacket
repeated = publish exactly_once (some 7) ∷ ping_resp ∷ publish exactly_once (some 7) ∷ []

deliveries_le_one_example : deliveries list_vec 7 empty_client repeated ≤ 1
unfolding releases
deliveries_le_one_example =
    deliveries_le_one list_vec 7 empty_client repeated (refl, (refl, (refl, tt)))

handle_packet-Quota_example :
    Quota (handle_packet list_vec empty_client (publish exactly_once (some 7))).0
handle_packet-Quota_example =
    handle_packet-Quota list_vec empty_client (publish exactly_once (some 7)) (omega arith)
