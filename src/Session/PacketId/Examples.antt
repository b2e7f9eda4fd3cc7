-- ===== src/Session/PacketId/Examples.antt =====
-- A run of the theorem: the counter stands at the last identifier, which is in use.
use minimq.Outbound.{has_pending_release, has_retained, subscribe_op, write}
use minimq.Outbound.View.{IsValid}
use minimq.Prelude.{[], arith, refl, replicate, some, true, ◌∷◌, ◌≡◌}
use minimq.Reason.{success}
use minimq.Session.{SessionData}
use minimq.Session.PacketId.{following, in_use, next_packet_id}
use minimq.Session.PacketId.Free.{Finds, next_packet_id-Finds}

abbrev wrapping_session : SessionData
wrapping_session = record {
  packet_id = 65535;
  generation = 0;
  outbound = record {
    buf = replicate 16 0;
    connect_workspace = 0;
    pending_control = [];
    retained = record { kind = subscribe_op; packet_id = 65535; len = 5; state = write 0 } ∷ [];
    pending_release = record { packet_id = 1; reason = success; state = write 0 } ∷ [];
  };
  pending_server_packet_ids = [];
  session_present = true;
}

wrapping_session-IsValid : IsValid wrapping_session.outbound
wrapping_session-IsValid = record {
  inside = omega arith;
  non_empty = (omega arith, tt);
  retained_bound = omega arith;
  control_bound = omega arith;
  release_bound = omega arith;
}

-- It wraps past 1, which a pending PUBREL has.
wrapping_skips : (next_packet_id 17 wrapping_session).1 ≡ some 2
unfolding next_packet_id following in_use has_retained has_pending_release
wrapping_skips = refl

next_packet_id-Finds_example : Finds 17 wrapping_session
next_packet_id-Finds_example =
    next_packet_id-Finds wrapping_session wrapping_session-IsValid (omega arith) (omega arith)
