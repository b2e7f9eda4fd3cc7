-- ===== src/Staging/Inbound.antt =====
-- mqtt-staging/src/lib.rs: what an inbound MQTT publication does to the service.
use minimq.Prelude.{
  Bool, Option, Result, err, false, if◌then◌else◌, ltb, none, not, ok, some, ℕ, ◌&&◌, ◌++◌, ◌==◌,
  ◌||◌,
}
use minimq.Properties.Collection.{Properties}
use minimq.Staging.{
  Bytes, Handle, PendingRequest, Service, StagingRequest, State, StatusCode, Transfer, accepted,
  chunk_suffix, consumed, current_code, is_idle, manifest_suffix, mtu, oversize, preparing, publish,
  queue, ready, request, topic, unhandled, writing,
}
use minimq.Staging.Rules.{
  ChunkError, ManifestReader, chunk_properties, eq_bytes, fail_code, parse_manifest, queue_code,
  required_rx_bytes, strip_prefix, validate_chunk,
}

unfoldable pub same_transfer : Transfer → Option Transfer → Bool
same_transfer m none = false
same_transfer m (some t) = eq_bytes t.id m.id && (t.size == m.size && t.fnv1a64 == m.fnv1a64)

unfoldable pub is_suffix : Option Bytes → Bytes → Bool
is_suffix none expected = false
is_suffix (some suffix) expected = eq_bytes suffix expected

module _ {Op : Type 0} where
  unfoldable pub chunk_topic : Service Op → Bytes
  chunk_topic s = s.prefix ++ chunk_suffix

  -- A manifest in the idle state.
  unfoldable pub accept_manifest : Transfer → Service Op → Service Op × Handle
  unfolding queue required_rx_bytes chunk_topic
  accept_manifest manifest s =
      if manifest.size == 0
      then (queue (publish StatusCode.error) s, consumed)
      else if ltb s.capacity manifest.size
      then (queue (publish oversize) s, consumed)
      else if ltb s.max_rx_packet_size
          (required_rx_bytes (chunk_topic s) manifest.id s.max_chunk_size)
      then (queue (publish mtu) s, consumed)
      else (
        record (queue (publish accepted)
            (record s { transfer = some manifest; state = preparing })) {
              request = some PendingRequest.prepare;
            },
        request (StagingRequest.prepare manifest.size),
      )

  unfoldable pub manifest_read : Option Transfer → Service Op → Service Op × Handle
  unfolding queue accept_manifest current_code is_idle same_transfer
  manifest_read none s =
      (if is_idle s.state then queue (publish StatusCode.error) s else s, consumed)
  manifest_read (some manifest) s = if is_idle s.state then accept_manifest manifest s else (
    if same_transfer manifest s.transfer then queue (publish (current_code s)) s else s,
    consumed,
  )

  unfoldable pub handle_manifest : ManifestReader → Bytes → Service Op → Service Op × Handle
  unfolding manifest_read parse_manifest
  handle_manifest reader payload s = manifest_read (parse_manifest reader payload) s

  -- A chunk that has been tested.
  unfoldable pub chunk_validated :
      Transfer → ℕ → Bytes → Result ChunkError ℕ → Service Op → Service Op × Handle
  unfolding queue
  chunk_validated t start payload (err (queue_code code)) s = (queue (publish code) s, consumed)
  chunk_validated t start payload (err (fail_code code)) s =
      (queue (publish code) (record s { state = State.error }), consumed)
  chunk_validated t start payload (ok next_offset) s =
      let final_chunk = next_offset == t.size in
      (
        record s { state = writing; request = some (PendingRequest.write next_offset final_chunk) },
        request (
            StagingRequest.write (record {
              offset = start;
              payload = payload;
              size = t.size;
              fnv1a64 = if final_chunk then some t.fnv1a64 else none;
            })),
      )

  unfoldable pub chunk_in : State → Transfer → ℕ → Bytes → Service Op → Service Op × Handle
  unfolding queue chunk_validated validate_chunk current_code
  chunk_in preparing t start payload s = (s, consumed)
  chunk_in State.complete t start payload s = (queue (publish (current_code s)) s, consumed)
  chunk_in State.error t start payload s = (queue (publish (current_code s)) s, consumed)
  chunk_in writing t start payload s = (s, consumed)
  chunk_in State.idle t start payload s = (queue (publish StatusCode.idle) s, consumed)
  chunk_in ready t start payload s =
      chunk_validated t start payload
        (validate_chunk t start payload s.capacity s.max_chunk_size s.write_size) s

  unfoldable pub chunk_for : Option Transfer → Bytes → ℕ → Bytes → Service Op → Service Op × Handle
  unfolding queue chunk_in
  chunk_for none id start payload s = (queue (publish StatusCode.idle) s, consumed)
  chunk_for (some t) id start payload s =
      if eq_bytes id t.id then chunk_in s.state t start payload s else (s, consumed)

  unfoldable pub handle_chunk : Bytes → ℕ → Bytes → Service Op → Service Op × Handle
  unfolding chunk_for
  handle_chunk id start payload s = chunk_for s.transfer id start payload s

  unfoldable pub chunk_with : Option (Bytes × ℕ) → Bytes → Service Op → Service Op × Handle
  unfolding handle_chunk
  chunk_with none payload s = (s, consumed)
  chunk_with (some (id, start)) payload s = handle_chunk id start payload s

  -- `handle` and `handle_publish_with_properties`.
  unfoldable pub handle_publish :
      ManifestReader → Bytes → Bytes → Properties → Bool → Service Op → Service Op × Handle
  unfolding strip_prefix handle_manifest chunk_with chunk_properties is_suffix
  handle_publish reader topic payload properties retained s =
      let suffix = strip_prefix s.prefix topic in
      if not (is_suffix suffix manifest_suffix || is_suffix suffix chunk_suffix)
      then (s, unhandled)
      else if retained
      then (s, consumed)
      else if is_suffix suffix manifest_suffix
      then handle_manifest reader payload s
      else chunk_with (chunk_properties properties) payload s
