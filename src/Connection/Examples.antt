-- ===== src/Connection/Examples.antt =====
-- A transport that fails, and a publication in the reader.
use mathlib.Core.Path.{subst}
use minimq.Connection.{ConnectionState, flushing, handle_disconnect}
use minimq.Connection.Dead.{is_fatal, service-live}
use minimq.Connection.Decoded.{process-decode}
use minimq.Connection.Receive.{decode_inbound_publish, inbound_of, process_received_packet}
use minimq.Connection.Status.{
  Op, is_op_complete, is_op_invalidated, is_op_pending, reset-invalidates,
}
use minimq.Connection.Untouched.{service_dead-transport}
use minimq.Connection.Write.{service, service_outbound_once}
use minimq.De.Fields.{is_utf8}
use minimq.Errors.{transport}
use minimq.Outbound.{subscribe_op}
use minimq.Outbound.ListVec.{list_vec}
use minimq.Prelude.{
  List, Result, [], ap, arith, err, false, length, ok, refl, replicate, some, take, true, ℕ, ◌∷◌,
  ◌≡◌, ◌≤◌,
}
use minimq.Reader.{packet_available, take_packet}
use minimq.Received.{Publish, ReceivedPacket}
use minimq.Received.Parse.{from_buffer}
use minimq.Session.{new_runtime, new_session, reset_session}
use minimq.Staging.Rules.Chunk.{ok_same}
use minimq.Transport.{Io}

nothing_read :
    (t t' n : ℕ) (bs : List ℕ)
    → ◌≡◌ {A = ℕ × Result ℕ (List ℕ)} (t, ok []) (t', ok bs)
    → length bs ≤ n
nothing_read t t' n bs e = subst (λ l. length l ≤ n) (ok_same [] bs (ap (λ r. r.1) e)) (omega arith)

nothing_written :
    (t t' n : ℕ) (bs : List ℕ) → ◌≡◌ {A = ℕ × Result ℕ ℕ} (t, err 7) (t', ok n) → n ≤ length bs
nothing_written t t' n bs e = absurd (cc)

abbrev broken : Io
broken = record {
  Transport = ℕ;
  IoError = ℕ;
  read = λ t n. (t, ok []);
  write = λ t bs. (t, err 7);
  flush = λ t. (t, err 7);
  read-le = λ t t' n bs e. nothing_read t t' n bs e;
  write-le = λ t t' bs n e. nothing_written t t' n bs e;
}

abbrev hello_packet : List ℕ
hello_packet = 48 ∷ 5 ∷ 0 ∷ 1 ∷ 97 ∷ 0 ∷ 104 ∷ []

abbrev half_flushed : ConnectionState broken
half_flushed = record {
  client = record { session = new_session (replicate 9 0); runtime = new_runtime 10000 };
  reader = record { buffer = hello_packet; read_bytes = 7; packet_length = some 7 };
  transport_state = 0;
  live = true;
  flush_state = flushing;
}

flush_fails : (service list_vec half_flushed 5 6).1 ≡ err (transport 7)
unfolding service service_outbound_once new_runtime
flush_fails = refl

service-live_example : (service list_vec half_flushed 5 6).0.live ≡ false
unfolding is_fatal
service-live_example = service-live list_vec broken half_flushed 5 6 (transport 7) flush_fails refl

service_dead-transport_example :
    (service list_vec (handle_disconnect half_flushed) 5 6).0.transport_state
    ≡ (handle_disconnect half_flushed).transport_state
unfolding handle_disconnect
service_dead-transport_example =
    service_dead-transport list_vec broken (handle_disconnect half_flushed) 5 6 refl

-- An operation of the last generation before the count of resets wrapped.
abbrev old_op : Op
old_op = record { generation = 4294967295; kind = subscribe_op; packet_id = 3 }

reset-invalidates_example :
    (is_op_invalidated (reset_session (new_session (replicate 9 0))) old_op ≡ true)
    × (is_op_pending (reset_session (new_session (replicate 9 0))) old_op ≡ false)
    × (is_op_complete (reset_session (new_session (replicate 9 0))) old_op ≡ false)
unfolding new_session
reset-invalidates_example =
    reset-invalidates (new_session (replicate 9 0)) old_op 1 (omega arith) (omega arith) refl

announced_seven : (process_received_packet list_vec half_flushed).1 ≡ ok (some 7)
unfolding process_received_packet packet_available take_packet is_utf8
announced_seven = refl

process-decode_example :
    (m : Publish) × (from_buffer (take 7 hello_packet) ≡ ok (ReceivedPacket.publish m))
    × (decode_inbound_publish (process_received_packet list_vec half_flushed).0.reader 7
        ≡ ok (inbound_of m))
process-decode_example = process-decode list_vec broken half_flushed 7 (omega arith) announced_seven
