-- ===== src/Connection/Write.antt =====
-- minimq/src/mqtt_client/session/drive.rs: one write or flush of what is queued, and the keep alive.
-- `now` is the time at the start of a call and `after` the time behind its write or flush.
use minimq.Connection.{
  ConnectionState, FlushState, clean, dirty, flushing, handle_disconnect, outbound_of, put_outbound,
  put_runtime,
}
use minimq.Control.{
  ControlAction, check_control_packet_size, require_packet_size, serialize_control_packet,
  serialize_pubrel, workspace,
}
use minimq.Errors.{Error, ProtocolError, disconnected, from_protocol, transport, write_zero}
use minimq.Outbound.{
  Outbound, OutboundStep, VecOps, control_step, has_pending_pingreq, release_step, retained_step,
}
use minimq.Outbound.Queues.{queue_control}
use minimq.Outbound.Send.{
  complete_flush, next_step, retained_packet, set_control_written, set_release_written,
  set_retained_written,
}
use minimq.Prelude.{
  Bool, List, Option, Result, drop, err, false, if◌then◌else◌, leb, length, map_err, none, not, ok,
  some, true, ℕ, ◌&&◌, ◌+◌, ◌==◌, ◌>>=◌, ◌>>◌,
}
use minimq.Session.{note_outbound_activity, round_trip_timeout_ms}
use minimq.Staging.Drive.{step}
use minimq.Transport.{Io}

pub data Packet : Type 0 where
  control_packet_at : ℕ → Packet
  release_packet_of retained_packet_of : ℕ → Packet

pub record WriteStep : Type 0 where
  pub packet : Packet
  pub bytes : List ℕ
  pub written : ℕ
  pub len : ℕ

unfoldable pub is_ping_step : OutboundStep → Bool
is_ping_step (control_step index ControlAction.ping_req written) = true
is_ping_step step = false

small_step : Packet → ℕ → List ℕ → WriteStep
small_step packet written bytes = record {
  packet = packet;
  bytes = bytes;
  written = written;
  len = length bytes;
}

-- The bytes of the step, by the peer's maximum packet size.
unfoldable pub write_step :
    {E : Type 0} → Option ℕ → Outbound → OutboundStep → Result (Error E) WriteStep
unfolding small_step workspace serialize_control_packet serialize_pubrel require_packet_size
    from_protocol retained_packet
write_step maximum o (control_step index action written) = do
  bytes ← serialize_control_packet workspace action maximum
  ok (small_step (control_packet_at index) written bytes)
write_step maximum o (release_step packet_id reason written) = do
  bytes ← serialize_pubrel workspace packet_id reason maximum
  ok (small_step (release_packet_of packet_id) written bytes)
write_step maximum o (retained_step packet_id start len written) = do
  map_err from_protocol (require_packet_size maximum len)
  ok (record {
    packet = retained_packet_of packet_id;
    bytes = retained_packet start len o;
    written = written;
    len = len;
  })

unfoldable pub put_written : Packet → ℕ → ℕ → Outbound → Outbound
unfolding set_control_written set_release_written set_retained_written
put_written (control_packet_at index) written len o = (set_control_written index written len o).0
put_written (release_packet_of packet_id) written len o =
    (set_release_written packet_id written len o).0
put_written (retained_packet_of packet_id) written len o =
    (set_retained_written packet_id written len o).0

abbrev pub Driven : Io → Type 0 → Type 0
Driven io A = ConnectionState io × Result (Error io.IoError) A

-- `write_current`: a write of nothing is an error.
unfoldable pub write_current : {T E : Type 0} → T × Result E ℕ → T × Result (Error E) ℕ
write_current (t, err e) = (t, err (transport e))
write_current (t, ok count) = (t, if count == 0 then err write_zero else ok count)

unfoldable pub reached : ℕ → Option ℕ → Bool
reached now none = false
reached now (some deadline) = leb deadline now

module _ {io : Io} where
  open io use {Transport, IoError}

  unfoldable pub ping_sent : Bool → ℕ → ConnectionState io → ConnectionState io
  unfolding put_runtime
  ping_sent true after c =
      put_runtime c
        (record c.client.runtime { ping_timeout = some (after + round_trip_timeout_ms) })
  ping_sent false after c = c

  unfoldable pub written_step :
      ConnectionState io
      → Bool
      → ℕ
      → WriteStep
      → Transport × Result (Error IoError) ℕ
      → Driven io Bool
  unfolding handle_disconnect put_outbound put_written ping_sent outbound_of
  written_step c ping after w (t, err (transport e)) =
      (handle_disconnect (record c { transport_state = t }), err (transport e))
  written_step c ping after w (t, err write_zero) =
      (handle_disconnect (record c { transport_state = t }), err write_zero)
  written_step c ping after w (t, err e) = (record c { transport_state = t }, err e)
  written_step c ping after w (t, ok count) =
      let written = w.written + count in
      let c' = record c { transport_state = t; flush_state = dirty } in
      (
        ping_sent (ping && written == w.len) after
            (put_outbound c' (put_written w.packet written w.len (outbound_of c'))),
        ok true,
      )

  unfoldable pub perform_with :
      ConnectionState io → Bool → ℕ → Result (Error IoError) WriteStep → Driven io Bool
  unfolding written_step write_current
  perform_with c ping after (err e) = (c, err e)
  perform_with c ping after (ok w) =
      let sent_bytes =
        written_step c ping after w
          (write_current (io.write c.transport_state (drop w.written w.bytes))) in
      if c.live then sent_bytes else (c, err disconnected)

  unfoldable pub perform_outbound_step : ConnectionState io → ℕ → OutboundStep → Driven io Bool
  unfolding perform_with write_step is_ping_step outbound_of
  perform_outbound_step c after step =
      perform_with c (is_ping_step step) after
        (write_step c.client.runtime.maximum_packet_size (outbound_of c) step)

  unfoldable pub flushed_with :
      ConnectionState io → ℕ → Transport × Result IoError (Unit {0}) → Driven io Bool
  unfolding handle_disconnect note_outbound_activity complete_flush
  flushed_with c after (t, err e) = (
    handle_disconnect (record c { transport_state = t; flush_state = flushing }),
    err (transport e),
  )
  flushed_with c after (t, ok u) = (
    record c {
      transport_state = t;
      flush_state = clean;
      client = record {
        session = record c.client.session { outbound = complete_flush c.client.session.outbound };
        runtime = note_outbound_activity after c.client.runtime;
      };
    },
    ok true,
  )

  -- `flush_current`, with the `Ok(true)` of its callers.
  unfoldable pub flush_current : ConnectionState io → ℕ → Driven io Bool
  unfolding flushed_with
  flush_current c after =
      let flushed_now = flushed_with c after (io.flush c.transport_state) in
      if c.live then flushed_now else (c, err disconnected)

  unfoldable pub should_queue_pingreq : ConnectionState io → ℕ → Bool
  unfolding reached has_pending_pingreq outbound_of
  should_queue_pingreq c now =
      elim c.client.runtime.ping_timeout [ none ↦ true | some deadline ↦ false ]
      && (reached now c.client.runtime.next_ping && not (has_pending_pingreq (outbound_of c)))

  -- The next step, or what there is to do without one.
  unfoldable pub step_or :
      ConnectionState io → ℕ → Option OutboundStep → Driven io Bool → Driven io Bool
  unfolding perform_outbound_step
  step_or c after (some step) otherwise = perform_outbound_step c after step
  step_or c after none otherwise = otherwise

module _ (v : VecOps) {io : Io} where
  open io use {Transport, IoError}

  unfoldable pub queued_ping :
      ConnectionState io
      → Outbound × Result ProtocolError (Unit {0})
      → ConnectionState io × Result (Error IoError) (Unit {0})
  unfolding put_outbound from_protocol
  queued_ping c (o, r) = (put_outbound c o, map_err from_protocol r)

  unfoldable pub checked_ping :
      ConnectionState io
      → Result ProtocolError (Unit {0})
      → ConnectionState io × Result (Error IoError) (Unit {0})
  unfolding queued_ping queue_control outbound_of from_protocol
  checked_ping c (err e) = (c, err (from_protocol e))
  checked_ping c (ok u) = queued_ping c (queue_control v ControlAction.ping_req (outbound_of c))

  unfoldable pub maybe_queue_pingreq :
      ConnectionState io → ℕ → ConnectionState io × Result (Error IoError) (Unit {0})
  unfolding checked_ping check_control_packet_size should_queue_pingreq
  maybe_queue_pingreq c now =
      if should_queue_pingreq c now
      then checked_ping c
          (check_control_packet_size c.client.runtime.maximum_packet_size ControlAction.ping_req)
      else (c, ok tt)

  unfoldable pub after_ping :
      ℕ → ConnectionState io × Result (Error IoError) (Unit {0}) → Driven io Bool
  unfolding step_or next_step outbound_of
  after_ping after (c, err e) = (c, err e)
  after_ping after (c, ok u) = step_or c after (next_step (outbound_of c)) (c, ok false)

  unfoldable pub when_drained : ConnectionState io → ℕ → ℕ → FlushState → Driven io Bool
  unfolding flush_current after_ping maybe_queue_pingreq
  when_drained c now after dirty = flush_current c after
  when_drained c now after clean = after_ping after (maybe_queue_pingreq c now)
  when_drained c now after flushing = flush_current c after

  unfoldable pub service_with : ConnectionState io → ℕ → ℕ → FlushState → Driven io Bool
  unfolding flush_current step_or when_drained next_step outbound_of
  service_with c now after flushing = flush_current c after
  service_with c now after clean =
      step_or c after (next_step (outbound_of c)) (when_drained c now after clean)
  service_with c now after dirty =
      step_or c after (next_step (outbound_of c)) (when_drained c now after dirty)

  unfoldable pub service_outbound_once : ConnectionState io → ℕ → ℕ → Driven io Bool
  unfolding service_with
  service_outbound_once c now after = service_with c now after c.flush_state

  unfoldable pub service : ConnectionState io → ℕ → ℕ → Driven io Bool
  unfolding reached handle_disconnect service_outbound_once
  service c now after =
      let served = service_outbound_once c now after in
      if reached now c.client.runtime.ping_timeout
      then (handle_disconnect c, err disconnected)
      else served
