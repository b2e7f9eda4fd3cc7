-- ===== src/Handshake.antt =====
-- minimq/src/mqtt_client/session/handshake.rs: what the answer to CONNECT does to the session.
-- `workspace_len` is the room that the encoded CONNECT took and `now` the time of its acceptance.
pub mod Limits
mod Examples
use minimq.Errors.{
  Error, PeerError, ProtocolError, ResourceError, as_result, disconnected, from_protocol,
  invalid_packet, peer, resource,
}
use minimq.Outbound.{Outbound, max_inflight, set_connect_workspace}
use minimq.Outbound.Send.{arm_replay}
use minimq.Prelude.{
  Bool, List, Option, Result, [], err, false, if◌then◌else◌, length, ltb, min, none, not, ok, some,
  true, ℕ, ◌*◌, ◌+◌, ◌==◌, ◌>>=◌, ◌||◌, ◌∷◌,
}
use minimq.Properties.Collection.{iter}
use minimq.Properties.Value.{Property}
use minimq.Reader.{PacketReader, reset}
use minimq.Received.{ConnAck, ReceivedPacket}
use minimq.Session.{
  Client, mark_session_present, note_outbound_activity, reset_session, reset_transport,
  with_outbound,
}
use minimq.Staging.{ConnectEvent, connected, reconnected}
use minimq.Wire.{QoS, qos_from_u8}

abbrev pub client_id_capacity : ℕ
client_id_capacity = 64

-- The parts of a `Session` that the answer changes.
pub record PeerSession : Type 0 where
  pub client : Client
  pub reader : PacketReader
  pub client_id : List ℕ

-- What the properties of CONNACK say.
pub record Negotiated : Type 0 where
  pub send_quota : ℕ
  pub max_send_quota : ℕ
  pub max_qos : Option QoS
  pub maximum_packet_size : Option ℕ
  pub keepalive_interval : ℕ
  pub assigned_client_id : Option (List ℕ)

unfoldable pub default_limits : ℕ → Negotiated
unfolding max_inflight
default_limits keepalive_interval = record {
  send_quota = max_inflight;
  max_send_quota = max_inflight;
  max_qos = none;
  maximum_packet_size = none;
  keepalive_interval = keepalive_interval;
  assigned_client_id = none;
}

assign_id : Bool → List ℕ → Option (List ℕ) → Negotiated → Result PeerError Negotiated
assign_id named id (some old) l = err invalid_packet
assign_id named id none l =
    if named || ltb client_id_capacity (length id)
    then err invalid_packet
    else ok (record l { assigned_client_id = some id })

limit_quota : ℕ → Negotiated → Result PeerError Negotiated
unfolding max_inflight
limit_quota max l =
    if max == 0
    then err invalid_packet
    else ok (record l { send_quota = min max max_inflight; max_send_quota = min max max_inflight })

limit_qos : Option QoS → Negotiated → Result PeerError Negotiated
limit_qos none l = err invalid_packet
limit_qos (some qos) l = ok (record l { max_qos = some qos })

-- `named`: the client has sent an identifier of its own.
unfoldable pub apply_property : Bool → Property → Negotiated → Result PeerError Negotiated
unfolding assign_id limit_quota limit_qos qos_from_u8
apply_property named (Property.maximum_packet_size value) l =
    ok (record l { maximum_packet_size = some value })
apply_property named (Property.assigned_client_identifier text) l =
    assign_id named text l.assigned_client_id l
apply_property named (Property.server_keep_alive value) l =
    ok (record l { keepalive_interval = value * 1000 })
apply_property named (Property.receive_maximum value) l = limit_quota value l
apply_property named (Property.maximum_qos value) l = limit_qos (qos_from_u8 value) l
apply_property named p l = ok l

unfoldable pub apply_properties :
    Bool → List (Result PeerError Property) → Negotiated → Result PeerError Negotiated
unfolding apply_property
apply_properties named [] l = ok l
apply_properties named (err e ∷ ps) l = err e
apply_properties named (ok p ∷ ps) l = apply_property named p l >>= apply_properties named ps

-- `Session::handle_disconnect`.
unfoldable pub drop_transport : PeerSession → PeerSession
unfolding arm_replay reset_transport reset
drop_transport s = record s {
  client = record {
    session = record s.client.session { outbound = arm_replay s.client.session.outbound };
    runtime = reset_transport s.client.runtime;
  };
  reader = reset s.reader;
}

abbrev pub Answered : Type 0 → Type 0
Answered E = PeerSession × Result (Error E) ConnectEvent

unfoldable pub connect_event : Bool → ConnectEvent
connect_event true = reconnected
connect_event false = connected

unfoldable pub begin_session : ℕ → PeerSession → PeerSession
unfolding mark_session_present note_outbound_activity
begin_session now s = record s {
  client = record {
    session = mark_session_present s.client.session;
    runtime = record (note_outbound_activity now s.client.runtime) { ping_timeout = none };
  };
}

unfoldable pub put_limits : Bool → Negotiated → PeerSession → PeerSession
put_limits resumed l s = record s {
  client = record s.client {
    runtime = record s.client.runtime {
      session_resumed = resumed;
      keepalive_interval = l.keepalive_interval;
      send_quota = l.send_quota;
      max_send_quota = l.max_send_quota;
      max_qos = l.max_qos;
      maximum_packet_size = l.maximum_packet_size;
    };
  };
}

unfoldable pub fresh_unless : Bool → PeerSession → PeerSession
unfolding reset_session
fresh_unless true s = s
fresh_unless false s = record s {
  client = record s.client { session = reset_session s.client.session };
}

module _ {E : Type 0} where
  unfoldable pub workspace_set :
      ℕ → Bool → List ℕ → PeerSession → Outbound × Result ResourceError (Unit {0}) → Answered E
  unfolding with_outbound begin_session connect_event
  workspace_set now resumed id s (o, err e) =
      (record s { client = with_outbound s.client o }, err (resource e))
  workspace_set now resumed id s (o, ok u) = (
    begin_session now (record s { client = with_outbound s.client o; client_id = id }),
    ok (connect_event resumed),
  )

  unfoldable pub take_id : ℕ → ℕ → Bool → Option (List ℕ) → PeerSession → Answered E
  unfolding workspace_set begin_session connect_event set_connect_workspace
  take_id workspace_len now resumed none s = (begin_session now s, ok (connect_event resumed))
  take_id workspace_len now resumed (some id) s =
      workspace_set now resumed id s
        (set_connect_workspace (workspace_len + length id) s.client.session.outbound)

  unfoldable pub limits_applied :
      ℕ → ℕ → Bool → PeerSession → Result PeerError Negotiated → Answered E
  unfolding drop_transport take_id put_limits
  limits_applied workspace_len now resumed s (err e) = (drop_transport s, err (peer e))
  limits_applied workspace_len now resumed s (ok l) =
      take_id workspace_len now resumed l.assigned_client_id (put_limits resumed l s)

  unfoldable pub judged : ℕ → ℕ → ConnAck → PeerSession → Result PeerError (Unit {0}) → Answered E
  unfolding limits_applied fresh_unless apply_properties iter default_limits
  judged workspace_len now ack s (err e) = (s, err (peer e))
  judged workspace_len now ack s (ok u) =
      limits_applied workspace_len now ack.session_present (fresh_unless ack.session_present s) (
        apply_properties (not (length s.client_id == 0)) (iter ack.properties)
          (default_limits s.client.runtime.keepalive_interval))

  -- The packet that the reader holds after CONNECT was sent.
  unfoldable pub answer_received :
      ℕ → ℕ → PeerSession → Result ProtocolError ReceivedPacket → Answered E
  unfolding judged as_result drop_transport from_protocol
  answer_received workspace_len now s (err e) = (drop_transport s, err (from_protocol e))
  answer_received workspace_len now s (ok (ReceivedPacket.conn_ack ack)) =
      judged workspace_len now ack s (as_result ack.reason_code)
  answer_received workspace_len now s (ok (ReceivedPacket.disconnect d)) =
      (drop_transport s, err disconnected)
  answer_received workspace_len now s (ok p) = (drop_transport s, err (peer invalid_packet))
