-- ===== src/Connection/Dead.antt =====
-- The errors that lose a connection.
use minimq.Connection.{
  ConnectionState, FlushState, clean, dirty, flushing, handle_disconnect, outbound_of,
}
use minimq.Connection.Write.{
  Driven, WriteStep, after_ping, checked_ping, flush_current, flushed_with, is_ping_step,
  maybe_queue_pingreq, perform_outbound_step, perform_with, queued_ping, reached, service,
  service_outbound_once, service_with, should_queue_pingreq, step_or, when_drained, write_current,
  write_step, written_step,
}
use minimq.Control.{
  ControlAction, check_control_packet_size, encode_control_packet, encode_pubrel, exceeds,
  require_packet_size, serialize_control_packet, serialize_pubrel, too_large_for, workspace,
}
use minimq.Errors.{
  Error, ProtocolError, ResourceError, custom, deserialization, disconnected, encode, from_protocol,
  inflight_metadata_exhausted, insufficient_memory, resource, response_too_large, transport,
  unexpected_packet, write_zero,
}
use minimq.Outbound.{Outbound, OutboundStep, VecOps, control_step, release_step, retained_step}
use minimq.Outbound.Queues.{queue_control}
use minimq.Outbound.Send.{next_step}
use minimq.Prelude.{
  Bool, List, Option, Result, ap, arith, drop, err, false, if◌then◌else◌, length, map_err, none, ok,
  refl, some, true, ℕ, ◌==◌, ◌>>=◌, ◌∙◌, ◌≡◌,
}
use minimq.Staging.Drive.{step}
use minimq.Transport.{Io}

-- The errors after which the transport is of no more use.
unfoldable pub is_fatal : {E : Type 0} → Error E → Bool
is_fatal (transport e) = true
is_fatal write_zero = true
is_fatal disconnected = true
is_fatal e = false

abbrev Mild : {E A : Type 0} → Result (Error E) A → Type 0
Mild (ok a) = Unit {0}
Mild (err e) = is_fatal e ≡ false

Mild-bind :
    {E A B : Type 0} (m : Result (Error E) A) (k : A → Result (Error E) B)
    → Mild m
    → ((a : A) → Mild (k a))
    → Mild (m >>= k)
Mild-bind (ok a) k hm hk = hk a
Mild-bind (err e) k hm hk = hm

Mild-from_protocol :
    {A : Type 0} (E : Type 0) (r : Result ProtocolError A)
    → Mild (map_err (from_protocol {E = E}) r)
unfolding from_protocol is_fatal
Mild-from_protocol E (ok a) = tt
Mild-from_protocol E (err unexpected_packet) = refl
Mild-from_protocol E (err ProtocolError.malformed_packet) = refl
Mild-from_protocol E (err inflight_metadata_exhausted) = refl
Mild-from_protocol E (err response_too_large) = refl
Mild-from_protocol E (err (encode insufficient_memory)) = refl
Mild-from_protocol E (err (encode custom)) = refl
Mild-from_protocol E (err (deserialization e)) = refl

too_large_for-Mild :
    (E : Type 0) (maximum : Option ℕ) (bytes : List ℕ) → Mild (too_large_for {E = E} maximum bytes)
unfolding too_large_for is_fatal
too_large_for-Mild E maximum bytes = through (exceeds maximum (length bytes))
  where
    through :
        (b : Bool)
        → Mild {E = E} (if b then err (resource ResourceError.packet_too_large) else ok bytes)
    through true = refl
    through false = tt

write_step-Mild :
    (E : Type 0) (maximum : Option ℕ) (o : Outbound) (step : OutboundStep)
    → Mild (write_step {E = E} maximum o step)
unfolding write_step serialize_control_packet serialize_pubrel
write_step-Mild E maximum o (control_step index action written) =
    Mild-bind _ _
      (Mild-bind _ (too_large_for maximum)
        (Mild-from_protocol E (encode_control_packet workspace action))
        (too_large_for-Mild E maximum))
      (λ bytes. tt)
write_step-Mild E maximum o (release_step packet_id reason written) =
    Mild-bind _ _
      (Mild-bind _ (too_large_for maximum)
        (Mild-from_protocol E (encode_pubrel workspace packet_id reason))
        (too_large_for-Mild E maximum))
      (λ bytes. tt)
write_step-Mild E maximum o (retained_step packet_id start len written) =
    Mild-bind _ _ (Mild-from_protocol E (require_packet_size maximum len)) (λ u. tt)

if_false : {A : Type 0} (b : Bool) (x y : A) → b ≡ false → (if b then x else y) ≡ y
if_false true x y e = absurd (ground arith)
if_false false x y e = refl

module _ {io : Io} where
  -- A fatal error leaves a connection that is not live.
  abbrev pub Dies : {A : Type 0} → Driven io A → Type 0
  Dies (c, ok a) = Unit {0}
  Dies (c, err e) = is_fatal e ≡ true → c.live ≡ false

  unless_live :
      {A : Type 0} (c : ConnectionState io) (b : Bool) (r : Driven io A)
      → c.live ≡ b
      → Dies r
      → Dies (if b then r else (c, err disconnected))
  unless_live c true r e h = h
  unless_live c false r e h = λ f. e

  written_step-Dies :
      (c : ConnectionState io) (ping : Bool) (after : ℕ) (w : WriteStep)
      (r : io.Transport × Result io.IoError ℕ)
      → Dies (written_step c ping after w (write_current r))
  unfolding written_step write_current handle_disconnect
  written_step-Dies c ping after w (t, err e) = λ f. refl
  written_step-Dies c ping after w (t, ok count) = through (count == 0)
    where
      through :
          (b : Bool)
          → Dies (written_step c ping after w (t, if b then err write_zero else ok count))
      through true = λ f. refl
      through false = tt

  perform_with-Dies :
      (c : ConnectionState io) (ping : Bool) (after : ℕ) (r : Result (Error io.IoError) WriteStep)
      → Mild r
      → Dies (perform_with c ping after r)
  unfolding perform_with
  perform_with-Dies c ping after (err e) h = λ f. absurd (cc)
  perform_with-Dies c ping after (ok w) h =
      unless_live c c.live
        (written_step c ping after w
          (write_current (io.write c.transport_state (drop w.written w.bytes))))
        refl
        (written_step-Dies c ping after w (io.write c.transport_state (drop w.written w.bytes)))

  perform-Dies :
      (c : ConnectionState io) (after : ℕ) (step : OutboundStep)
      → Dies (perform_outbound_step c after step)
  unfolding perform_outbound_step
  perform-Dies c after step =
      perform_with-Dies c (is_ping_step step) after
        (write_step c.client.runtime.maximum_packet_size (outbound_of c) step)
        (write_step-Mild io.IoError c.client.runtime.maximum_packet_size (outbound_of c) step)

  flushed_with-Dies :
      (c : ConnectionState io) (after : ℕ) (r : io.Transport × Result io.IoError (Unit {0}))
      → Dies (flushed_with c after r)
  unfolding flushed_with handle_disconnect
  flushed_with-Dies c after (t, err e) = λ f. refl
  flushed_with-Dies c after (t, ok u) = tt

  flush-Dies : (c : ConnectionState io) (after : ℕ) → Dies (flush_current c after)
  unfolding flush_current
  flush-Dies c after =
      unless_live c c.live (flushed_with c after (io.flush c.transport_state)) refl
        (flushed_with-Dies c after (io.flush c.transport_state))

  step_or-Dies :
      (c : ConnectionState io) (after : ℕ) (step : Option OutboundStep) (otherwise : Driven io Bool)
      → Dies otherwise
      → Dies (step_or c after step otherwise)
  unfolding step_or
  step_or-Dies c after none otherwise h = h
  step_or-Dies c after (some step) otherwise h = perform-Dies c after step

module _ (v : VecOps) {io : Io} where
  abbrev MildPair : ConnectionState io × Result (Error io.IoError) (Unit {0}) → Type 0
  MildPair r = Mild r.1

  checked_ping-Mild :
      (c : ConnectionState io) (r : Result ProtocolError (Unit {0})) → MildPair (checked_ping v c r)
  unfolding checked_ping queued_ping
  checked_ping-Mild c (err e) = Mild-from_protocol {A = Unit {0}} io.IoError (err e)
  checked_ping-Mild c (ok u) =
      Mild-from_protocol io.IoError (queue_control v ControlAction.ping_req (outbound_of c)).1

  maybe_queue-Mild : (c : ConnectionState io) (now : ℕ) → MildPair (maybe_queue_pingreq v c now)
  unfolding maybe_queue_pingreq
  maybe_queue-Mild c now = through (should_queue_pingreq c now)
    where
      asked : ConnectionState io × Result (Error io.IoError) (Unit {0})
      asked =
          checked_ping v c
            (check_control_packet_size c.client.runtime.maximum_packet_size ControlAction.ping_req)

      through : (b : Bool) → MildPair (if b then asked else (c, ok tt))
      through true =
          checked_ping-Mild c
            (check_control_packet_size c.client.runtime.maximum_packet_size ControlAction.ping_req)
      through false = tt

  after_ping-Dies :
      (after : ℕ) (r : ConnectionState io × Result (Error io.IoError) (Unit {0}))
      → MildPair r
      → Dies (after_ping v after r)
  unfolding after_ping
  after_ping-Dies after (c, err e) h = λ f. absurd (cc)
  after_ping-Dies after (c, ok u) h =
      step_or-Dies c after (next_step (outbound_of c)) (c, ok false) tt

  service_with-Dies :
      (c : ConnectionState io) (now after : ℕ) (f : FlushState)
      → Dies (service_with v c now after f)
  unfolding service_with when_drained
  service_with-Dies c now after flushing = flush-Dies c after
  service_with-Dies c now after dirty =
      step_or-Dies c after (next_step (outbound_of c)) (flush_current c after) (flush-Dies c after)
  service_with-Dies c now after clean =
      step_or-Dies c after (next_step (outbound_of c))
        (after_ping v after (maybe_queue_pingreq v c now))
        (after_ping-Dies after (maybe_queue_pingreq v c now) (maybe_queue-Mild c now))

  service-Dies : (c : ConnectionState io) (now after : ℕ) → Dies (service v c now after)
  unfolding service service_outbound_once
  service-Dies c now after = through (reached now c.client.runtime.ping_timeout)
    where
      through :
          (b : Bool)
          → Dies (
              if b
              then (handle_disconnect c, err disconnected)
              else service_with v c now after c.flush_state)
      through true = unfold handle_disconnect in λ f. refl
      through false = service_with-Dies c now after c.flush_state

module _ {io : Io} where
  lost :
      {A : Type 0} (r : Driven io A) (e : Error io.IoError)
      → Dies r
      → r.1 ≡ err e
      → is_fatal e ≡ true
      → r.0.live ≡ false
  lost (c, ok a) e h same f = absurd (cc)
  lost (c, err e') e h same f = h (ap is_fatal (err_same e' e same) ∙ f)
    where
      err_same : {E A : Type 0} (x y : E) → ◌≡◌ {A = Result E A} (err x) (err y) → x ≡ y
      err_same x y g = cc

-- Whatever is queued and however far it is written: when the service call fails because the
-- transport failed, took no byte of a write, or the keep alive ran out, the connection is no longer
-- live.
pub service-live :
    (v : VecOps) (io : Io) (c : ConnectionState io) (now after : ℕ) (e : Error io.IoError)
    → (service v c now after).1 ≡ err e
    → is_fatal e ≡ true
    → (service v c now after).0.live ≡ false
service-live v io c now after e same f =
    lost (service v c now after) e (service-Dies v c now after) same f
