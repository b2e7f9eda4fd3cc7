-- ===== src/Handshake/Examples.antt =====
-- A CONNACK that names the client and lowers the receive maximum.
use minimq.Handshake.{PeerSession, answer_received}
use minimq.Handshake.Limits.{Granted, accepted-Granted}
use minimq.Prelude.{[], false, none, ok, refl, replicate, ℕ, ◌∷◌, ◌≡◌}
use minimq.Properties.Collection.{slice}
use minimq.Properties.Value.{Property}
use minimq.Reason.{success}
use minimq.Received.{ReceivedPacket}
use minimq.Session.{new_runtime, new_session}
use minimq.Staging.{connected}

abbrev unnamed : PeerSession
unnamed = record {
  client = record { session = new_session (replicate 64 0); runtime = new_runtime 10000 };
  reader = record { buffer = []; read_bytes = 0; packet_length = none };
  client_id = [];
}

abbrev welcome : ReceivedPacket
welcome = ReceivedPacket.conn_ack (record {
  session_present = false;
  reason_code = success;
  properties = slice (
      Property.receive_maximum 3
      ∷ Property.assigned_client_identifier (97 ∷ 98 ∷ [])
      ∷ Property.server_keep_alive 30
      ∷ []);
})

welcomed : (answer_received {E = ℕ} 20 500 unnamed (ok welcome)).1 ≡ ok connected
unfolding answer_received new_session
welcomed = refl

window_agreed :
    (answer_received {E = ℕ} 20 500 unnamed (ok welcome)).0.client.runtime.send_quota ≡ 3
unfolding answer_received new_session
window_agreed = refl

named_by_broker : (answer_received {E = ℕ} 20 500 unnamed (ok welcome)).0.client_id ≡ 97 ∷ 98 ∷ []
unfolding answer_received new_session
named_by_broker = refl

accepted-Granted_example : Granted (answer_received {E = ℕ} 20 500 unnamed (ok welcome)).0
accepted-Granted_example = accepted-Granted ℕ 20 500 unnamed (ok welcome) connected welcomed
