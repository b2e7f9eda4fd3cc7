-- ===== src/Handshake/Limits.antt =====
-- minimq/src/mqtt_client/session/handshake.rs: the send window that an accepted CONNACK leaves.
use minimq.Errors.{PeerError, ProtocolError, ResourceError, as_result, invalid_packet}
use minimq.Handshake.{
  Answered, Negotiated, PeerSession, answer_received, apply_properties, apply_property, assign_id,
  begin_session, client_id_capacity, default_limits, fresh_unless, judged, limit_qos, limit_quota,
  limits_applied, put_limits, take_id, workspace_set,
}
use minimq.Outbound.{Outbound, max_inflight, set_connect_workspace}
use minimq.Prelude.{
  Bool, List, Option, Result, [], arith, err, false, if◌then◌else◌, length, ltb, min, none, ok,
  refl, some, true, ℕ, ◌+◌, ◌<◌, ◌==◌, ◌>>=◌, ◌||◌, ◌∷◌, ◌≡◌, ◌≤◌,
}
use minimq.Properties.Collection.{iter}
use minimq.Properties.Value.{Property}
use minimq.Received.{ConnAck, ReceivedPacket}
use minimq.Session.{mark_session_present, note_outbound_activity, with_outbound}
use minimq.Staging.{ConnectEvent}
use minimq.Wire.{QoS, qos_from_u8}

abbrev pub Bounded : Negotiated → Type 0
Bounded l = (l.send_quota ≡ l.max_send_quota) × ((0 < l.send_quota) × (l.send_quota ≤ max_inflight))

abbrev pub Fits : Result PeerError Negotiated → Type 0
Fits (ok l) = Bounded l
Fits (err e) = Unit {0}

-- The window is open and within what the outbound buffer can retain, and the session can be resumed.
abbrev pub Granted : PeerSession → Type 0
Granted s =
    (s.client.runtime.send_quota ≡ s.client.runtime.max_send_quota)
    × ((0 < s.client.runtime.send_quota)
        × ((s.client.runtime.send_quota ≤ max_inflight)
            × ((s.client.runtime.ping_timeout ≡ none) × (s.client.session.session_present ≡ true))))

default-Bounded : (k : ℕ) → Bounded (default_limits k)
unfolding default_limits max_inflight
default-Bounded k = (refl, (ground arith, ground arith))

refused_or :
    (b : Bool) (l : Negotiated)
    → (b ≡ false → Bounded l)
    → Fits (if b then err invalid_packet else ok l)
refused_or true l h = tt
refused_or false l h = h refl

assign_id-Fits :
    (named : Bool) (id : List ℕ) (old : Option (List ℕ)) (l : Negotiated)
    → Bounded l
    → Fits (assign_id named id old l)
unfolding assign_id
assign_id-Fits named id (some x) l h = tt
assign_id-Fits named id none l h =
    refused_or (named || ltb client_id_capacity (length id)) _ (λ e. h)

min_open :
    (max : ℕ) → (0 < max) → (0 < min max max_inflight) × (min max max_inflight ≤ max_inflight)
unfolding max_inflight
min_open max h = (ground arith, ground arith)

limit_quota-Fits : (max : ℕ) (l : Negotiated) → Bounded l → Fits (limit_quota max l)
unfolding limit_quota max_inflight
limit_quota-Fits max l h = refused_or (max == 0) _ (λ e. (refl, min_open max (ground arith)))

limit_qos-Fits : (q : Option QoS) (l : Negotiated) → Bounded l → Fits (limit_qos q l)
unfolding limit_qos
limit_qos-Fits none l h = tt
limit_qos-Fits (some q) l h = h

apply_property-Fits :
    (named : Bool) (p : Property) (l : Negotiated) → Bounded l → Fits (apply_property named p l)
unfolding apply_property
apply_property-Fits named (Property.maximum_packet_size value) l h = h
apply_property-Fits named (Property.assigned_client_identifier text) l h =
    assign_id-Fits named text l.assigned_client_id l h
apply_property-Fits named (Property.server_keep_alive value) l h = h
apply_property-Fits named (Property.receive_maximum value) l h = limit_quota-Fits value l h
apply_property-Fits named (Property.maximum_qos value) l h = limit_qos-Fits (qos_from_u8 value) l h
apply_property-Fits named p l h = h

Fits-bind :
    (r : Result PeerError Negotiated) (k : Negotiated → Result PeerError Negotiated)
    → Fits r
    → ((l : Negotiated) → Bounded l → Fits (k l))
    → Fits (r >>= k)
Fits-bind (ok l) k h f = f l h
Fits-bind (err e) k h f = tt

apply_properties-Fits :
    (named : Bool) (ps : List (Result PeerError Property)) (l : Negotiated)
    → Bounded l
    → Fits (apply_properties named ps l)
unfolding apply_properties
apply_properties-Fits named [] l h = h
apply_properties-Fits named (err e ∷ ps) l h = tt
apply_properties-Fits named (ok p ∷ ps) l h =
    Fits-bind (apply_property named p l) (apply_properties named ps)
      (apply_property-Fits named p l h) (λ m g. apply_properties-Fits named ps m g)

abbrev Quotas : PeerSession → Type 0
Quotas s =
    (s.client.runtime.send_quota ≡ s.client.runtime.max_send_quota)
    × ((0 < s.client.runtime.send_quota) × (s.client.runtime.send_quota ≤ max_inflight))

begin_session-Granted : (now : ℕ) (s : PeerSession) → Quotas s → Granted (begin_session now s)
unfolding begin_session mark_session_present note_outbound_activity
begin_session-Granted now s (h, (g, k)) = (h, (g, (k, (refl, refl))))

abbrev Opens : {E : Type 0} → Answered E → Type 0
Opens (s, ok event) = Granted s
Opens (s, err e) = Unit {0}

module _ (E : Type 0) where
  workspace_set-Opens :
      (now : ℕ) (resumed : Bool) (id : List ℕ) (s : PeerSession)
      (r : Outbound × Result ResourceError (Unit {0}))
      → Quotas s
      → Opens (workspace_set {E = E} now resumed id s r)
  unfolding workspace_set with_outbound
  workspace_set-Opens now resumed id s (o, err e) h = tt
  workspace_set-Opens now resumed id s (o, ok u) h =
      begin_session-Granted now (record s { client = with_outbound s.client o; client_id = id }) h

  take_id-Opens :
      (w now : ℕ) (resumed : Bool) (id : Option (List ℕ)) (s : PeerSession)
      → Quotas s
      → Opens (take_id {E = E} w now resumed id s)
  unfolding take_id
  take_id-Opens w now resumed none s h = begin_session-Granted now s h
  take_id-Opens w now resumed (some id) s h =
      workspace_set-Opens now resumed id s
        (set_connect_workspace (w + length id) s.client.session.outbound) h

  limits_applied-Opens :
      (w now : ℕ) (resumed : Bool) (s : PeerSession) (r : Result PeerError Negotiated)
      → Fits r
      → Opens (limits_applied {E = E} w now resumed s r)
  unfolding limits_applied put_limits
  limits_applied-Opens w now resumed s (err e) h = tt
  limits_applied-Opens w now resumed s (ok l) h =
      take_id-Opens w now resumed l.assigned_client_id (put_limits resumed l s) h

  judged-Opens :
      (w now : ℕ) (ack : ConnAck) (s : PeerSession) (r : Result PeerError (Unit {0}))
      → Opens (judged {E = E} w now ack s r)
  unfolding judged
  judged-Opens w now ack s (err e) = tt
  judged-Opens w now ack s (ok u) =
      limits_applied-Opens w now ack.session_present (fresh_unless ack.session_present s) _ (
        apply_properties-Fits _ (iter ack.properties) _
          (default-Bounded s.client.runtime.keepalive_interval))

  answer_received-Opens :
      (w now : ℕ) (s : PeerSession) (p : Result ProtocolError ReceivedPacket)
      → Opens (answer_received {E = E} w now s p)
  unfolding answer_received
  answer_received-Opens w now s (err e) = tt
  answer_received-Opens w now s (ok (ReceivedPacket.conn_ack ack)) =
      judged-Opens w now ack s (as_result ack.reason_code)
  answer_received-Opens w now s (ok (ReceivedPacket.disconnect d)) = tt
  answer_received-Opens w now s (ok p) = tt

  opened : (r : Answered E) (event : ConnectEvent) → r.1 ≡ ok event → Opens r → Granted r.0
  opened (s, ok event) c e h = h
  opened (s, err x) c e h = absurd (cc)

  -- When the answer to CONNECT is accepted, the send quota stands at its maximum, is at least one
  -- and at most the number of packets the outbound buffer can hold in flight, no ping is awaited,
  -- and the session counts as present.
  pub accepted-Granted :
      (w now : ℕ) (s : PeerSession) (p : Result ProtocolError ReceivedPacket) (event : ConnectEvent)
      → (answer_received {E = E} w now s p).1 ≡ ok event
      → Granted (answer_received {E = E} w now s p).0
  accepted-Granted w now s p event e =
      opened (answer_received {E = E} w now s p) event e (answer_received-Opens w now s p)
