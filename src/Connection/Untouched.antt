-- ===== src/Connection/Untouched.antt =====
-- A connection that is lost stays away from its transport.
use minimq.Connection.{
  ConnectionState, FlushState, clean, dirty, flushing, handle_disconnect, outbound_of, put_outbound,
}
use minimq.Connection.Write.{
  Driven, WriteStep, after_ping, checked_ping, flush_current, flushed_with, is_ping_step,
  maybe_queue_pingreq, perform_outbound_step, perform_with, queued_ping, reached, service,
  service_outbound_once, service_with, should_queue_pingreq, step_or, when_drained, write_step,
}
use minimq.Control.{ControlAction, check_control_packet_size}
use minimq.Errors.{Error, ProtocolError, disconnected}
use minimq.Outbound.{OutboundStep, VecOps}
use minimq.Outbound.Send.{next_step}
use minimq.Prelude.{
  Bool, Option, Result, arith, err, false, if◌then◌else◌, none, ok, refl, some, true, ℕ, ◌∙◌, ◌≡◌,
}
use minimq.Staging.Drive.{step}
use minimq.Transport.{Io}

module _ {io : Io} where
  -- The transport is as it was.
  abbrev Kept : {A : Type 0} → ConnectionState io → Driven io A → Type 0
  Kept c r = r.0.transport_state ≡ c.transport_state

  if_dead-Kept :
      {A : Type 0} (c : ConnectionState io) (b : Bool) (r : Driven io A)
      → b ≡ false
      → Kept c (if b then r else (c, err disconnected))
  if_dead-Kept c true r e = absurd (ground arith)
  if_dead-Kept c false r e = refl

  step_or-Kept :
      (c c' : ConnectionState io) (after : ℕ) (step : Option OutboundStep)
      (otherwise : Driven io Bool)
      → c'.live ≡ false
      → c'.transport_state ≡ c.transport_state
      → Kept c otherwise
      → Kept c (step_or c' after step otherwise)
  unfolding step_or perform_outbound_step
  step_or-Kept c c' after none otherwise dead same h = h
  step_or-Kept c c' after (some step) otherwise dead same h =
      performed (write_step c'.client.runtime.maximum_packet_size (outbound_of c') step) ∙ same
    where
      performed :
          (r : Result (Error io.IoError) WriteStep)
          → Kept c' (perform_with c' (is_ping_step step) after r)
      performed (err e) = unfold perform_with in refl
      performed (ok w) = unfold perform_with in if_dead-Kept c' c'.live _ dead

  flush-Kept :
      (c : ConnectionState io) (after : ℕ) → c.live ≡ false → Kept c (flush_current c after)
  unfolding flush_current
  flush-Kept c after dead =
      if_dead-Kept c c.live (flushed_with c after (io.flush c.transport_state)) dead

module _ (v : VecOps) {io : Io} where
  maybe_queue-Kept :
      (c : ConnectionState io) (now : ℕ)
      → ((maybe_queue_pingreq v c now).0.live ≡ c.live)
        × ((maybe_queue_pingreq v c now).0.transport_state ≡ c.transport_state)
  unfolding maybe_queue_pingreq checked_ping queued_ping
  maybe_queue-Kept c now = through (should_queue_pingreq c now)
    where
      asked :
          Result ProtocolError (Unit {0})
          → ConnectionState io × Result (Error io.IoError) (Unit {0})
      asked r = checked_ping v c r

      same :
          (r : Result ProtocolError (Unit {0}))
          → ((asked r).0.live ≡ c.live) × ((asked r).0.transport_state ≡ c.transport_state)
      same (err e) = unfold checked_ping in (refl, refl)
      same (ok u) = unfold checked_ping queued_ping put_outbound in (refl, refl)

      through :
          (b : Bool)
          → let r =
              if b
              then asked (
                  check_control_packet_size c.client.runtime.maximum_packet_size
                    ControlAction.ping_req)
              else (c, ok tt) in
            (r.0.live ≡ c.live) × (r.0.transport_state ≡ c.transport_state)
      through true =
          same
            (check_control_packet_size c.client.runtime.maximum_packet_size ControlAction.ping_req)
      through false = (refl, refl)

  after_ping-Kept :
      (c : ConnectionState io) (after : ℕ)
      (r : ConnectionState io × Result (Error io.IoError) (Unit {0}))
      → r.0.live ≡ false
      → r.0.transport_state ≡ c.transport_state
      → Kept c (after_ping v after r)
  unfolding after_ping
  after_ping-Kept c after (c', err e) dead same = same
  after_ping-Kept c after (c', ok u) dead same =
      step_or-Kept c c' after (next_step (outbound_of c')) (c', ok false) dead same same

  service_with-Kept :
      (c : ConnectionState io) (now after : ℕ) (f : FlushState)
      → c.live ≡ false
      → Kept c (service_with v c now after f)
  unfolding service_with when_drained
  service_with-Kept c now after flushing dead = flush-Kept c after dead
  service_with-Kept c now after dirty dead =
      step_or-Kept c c after (next_step (outbound_of c)) (flush_current c after) dead refl
        (flush-Kept c after dead)
  service_with-Kept c now after clean dead =
      let (live_same, transport_same) = maybe_queue-Kept c now in
      step_or-Kept c c after (next_step (outbound_of c))
        (after_ping v after (maybe_queue_pingreq v c now)) dead refl
        (after_ping-Kept c after (maybe_queue_pingreq v c now) (live_same ∙ dead) transport_same)

-- A service call on a connection that is not live leaves the transport alone: it neither writes nor
-- flushes, whatever is queued.
pub service_dead-transport :
    (v : VecOps) (io : Io) (c : ConnectionState io) (now after : ℕ)
    → c.live ≡ false
    → (service v c now after).0.transport_state ≡ c.transport_state
unfolding service service_outbound_once
service_dead-transport v io c now after dead = through (reached now c.client.runtime.ping_timeout)
  where
    through :
        (b : Bool)
        → (if b
            then (handle_disconnect c, err disconnected)
            else service_with v c now after c.flush_state).0.transport_state
          ≡ c.transport_state
    through true = unfold handle_disconnect in refl
    through false = service_with-Kept v c now after c.flush_state dead
