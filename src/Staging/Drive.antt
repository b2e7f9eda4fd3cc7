-- ===== src/Staging/Drive.antt =====
-- mqtt-staging/src/lib.rs: the queued MQTT work of the service, one operation at a time.
-- What the service asks of the client's `Connection`, with the operations that it starts, and the
-- rendering of a status by the crate serde_json_core, which fails when it does not fit the buffer.
use minimq.Errors.{
  Error, buffer_too_small, disconnected, inflight_exhausted, invalid_request, not_ready, resource,
}
use minimq.Prelude.{
  Bool, Option, Result, err, false, if◌then◌else◌, none, not, ok, some, true, ℕ, ◌++◌,
}
use minimq.Staging.{
  Action, Bytes, Service, Status, StatusCode, manifest_suffix, publish, queue, status_suffix,
  status_with, subscribe, transfer_id,
}
use minimq.Staging.Inbound.{chunk_topic}

pub record Mqtt : Type 1 where
  pub Connection : Type 0
  pub Op : Type 0
  pub IoError : Type 0
  pub max_rx_packet_size : Connection → ℕ
  pub is_pending : Connection → Op → Bool
  pub is_invalidated : Connection → Op → Bool
  pub is_publish_quiescent : Connection → Bool
  -- subscribes to the topics of manifests and of chunks
  pub subscribe_to : Connection → Bytes → Bytes → Connection × Result (Error IoError) Op
  -- topic, payload, response topic, correlation data and the offset property
  pub publish_to :
      Connection
      → Bytes
      → Bytes
      → Bytes
      → Bytes
      → ℕ
      → Connection × Result (Error IoError) (Option Op)
  pub to_json : Status → Option Bytes

pub data Step : Type 0 where
  quiescent still_pending : Step

module _ (mqtt : Mqtt) where
  open mqtt use {Connection, Op, IoError}

  published :
      Connection × Result (Error IoError) (Option Op) → Connection × Result (Error IoError) Op
  published (c, ok (some op)) = (c, ok op)
  published (c, ok none) = (c, err invalid_request)
  published (c, err e) = (c, err e)

  publish_rendered :
      Connection → Service Op → Status → Option Bytes → Connection × Result (Error IoError) Op
  unfolding published chunk_topic
  publish_rendered c s st none = (c, err (resource buffer_too_small))
  publish_rendered c s st (some payload) = published (
      mqtt.publish_to c (s.prefix ++ status_suffix) payload (chunk_topic s) (transfer_id s.transfer)
        st.next_offset)

  unfoldable pub publish_status :
      Connection → Service Op → StatusCode → Connection × Result (Error IoError) Op
  unfolding publish_rendered status_with
  publish_status c s code = let st = status_with code s in publish_rendered c s st (mqtt.to_json st)

  unfoldable pub start_action :
      Connection → Service Op → Action → Connection × Result (Error IoError) Op
  unfolding publish_status chunk_topic
  start_action c s subscribe = mqtt.subscribe_to c (s.prefix ++ manifest_suffix) (chunk_topic s)
  start_action c s (publish code) = publish_status c s code

  -- The errors after which the action is tried again.
  unfoldable pub try_later : Connection → Error IoError → Bool
  try_later c not_ready = true
  try_later c (resource inflight_exhausted) = true
  try_later c (resource buffer_too_small) = not (mqtt.is_publish_quiescent c)
  try_later c e = false

  unfoldable pub started :
      Service Op
      → Action
      → Connection × Result (Error IoError) Op
      → Service Op × Connection × Result (Error IoError) Step
  unfolding try_later
  started s action (c, ok op) =
      (record s { pending = none; inflight = some (action, op) }, c, ok still_pending)
  started s action (c, err e) = (s, c, if try_later c e then ok still_pending else err e)

  unfoldable pub start_pending :
      Connection
      → Service Op
      → Option Action
      → Service Op × Connection × Result (Error IoError) Step
  unfolding started start_action
  start_pending c s none = (s, c, ok quiescent)
  start_pending c s (some action) = started s action (start_action c s action)

  -- The replay that waited for the subscription.
  unfoldable pub release_startup : Option StatusCode → Service Op → Service Op
  unfolding queue
  release_startup none s = s
  release_startup (some code) s = queue (publish code) (record s { startup_publish = none })

  unfoldable pub acknowledged : Action → Service Op → Service Op
  unfolding release_startup
  acknowledged subscribe s = release_startup s.startup_publish (record s { subscribed = true })
  acknowledged (publish code) s = s

  unfoldable pub settle :
      Connection
      → Service Op
      → Option (Action × Op)
      → Service Op × Connection × Result (Error IoError) Step
  unfolding start_pending acknowledged queue
  settle c s none = start_pending c s s.pending
  settle c s (some (action, op)) =
      let taken = record s { inflight = none } in
      let after = acknowledged action taken in
      if mqtt.is_pending c op
      then (s, c, ok still_pending)
      else if mqtt.is_invalidated c op
      then (queue action taken, c, err disconnected)
      else start_pending c after after.pending

  unfoldable pub step :
      Connection → Service Op → Service Op × Connection × Result (Error IoError) Step
  unfolding settle
  step c s =
      let s' = record s { max_rx_packet_size = mqtt.max_rx_packet_size c } in
      settle c s' s'.inflight
