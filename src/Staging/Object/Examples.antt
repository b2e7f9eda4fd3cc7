-- ===== src/Staging/Object/Examples.antt =====
-- One object of three bytes, in two chunks, for a service that writes two bytes at a time.
-- The client's operations are done at once.
use native.Mathlib.Decide.{dec_lt}
use minimq.Packets.{PublishHeader}
use minimq.Prelude.{
  List, [], arith, drop, false, length, none, ok, refl, some, take, true, ℕ, ◌<◌, ◌==◌, ◌∷◌, ◌≡◌,
  ◌≤◌,
}
use minimq.Prelude.Order.{lt_wf}
use minimq.Properties.Collection.{Properties, encoded_block, slice}
use minimq.Received.Publication.{publication_bytes}
use minimq.Staging.{
  Bytes, Config, Service, StagingRequest, StagingWrite, State, Transfer, chunk_suffix,
  complete_request, connected, initial, manifest_suffix, multiple_of, new_service, ready, request,
  topic,
}
use minimq.Staging.Drive.{Mqtt}
use minimq.Staging.Inbound.{handle_chunk}
use minimq.Staging.Object.{
  Event, World, advance, connection_made, driven, inbound, reported, run, start_world,
}
use minimq.Staging.Object.Advances.{After, chunk-advances}
use minimq.Staging.Object.Assembled.{Continues, complete-assembled, write-contiguous}
use minimq.Staging.Rules.{
  ManifestReader, all, chunk_end, erased, payload_padding, required_rx_bytes, validate_chunk,
}
use minimq.Staging.Rules.Chunk.{Ends, validate_chunk-Ends}
use minimq.Staging.Rules.Size.{chunk_property_list, publication_bytes-le}
use minimq.Wire.{at_least_once, not_retained}

abbrev broker : Mqtt
broker = record {
  Connection = ℕ;
  Op = ℕ;
  IoError = ℕ;
  max_rx_packet_size = λ c. c;
  is_pending = λ c op. false;
  is_invalidated = λ c op. false;
  is_publish_quiescent = λ c. true;
  subscribe_to = λ c a b. (c, ok 1);
  publish_to = λ c a b d e n. (c, ok (some 2));
  to_json = λ s. some [];
}

-- Reads the whole payload as one manifest.
abbrev one_manifest : ManifestReader
one_manifest payload = some (record { id = 65 ∷ []; size = 3; fnv1a64 = 7 }, length payload)

abbrev config : Config
config = record { capacity = 4; max_chunk_size = 2; write_size = 2 }

-- Correlation data "A" and the user property "offset", as they are encoded.
abbrev offset_text : ℕ → Properties
offset_text digit =
    encoded_block
      (9 ∷ 0 ∷ 1 ∷ 65 ∷ 38 ∷ 0 ∷ 6 ∷ 111 ∷ 102 ∷ 102 ∷ 115 ∷ 101 ∷ 116 ∷ 0 ∷ 1 ∷ digit ∷ [])

abbrev manifest_in : Event broker
manifest_in = inbound (112 ∷ manifest_suffix) (123 ∷ []) (encoded_block []) false

abbrev chunk_event : ℕ → Bytes → Event broker
chunk_event digit payload = inbound (112 ∷ chunk_suffix) payload (offset_text digit) false

abbrev first_chunk : List (Event broker)
first_chunk =
    connection_made connected
    ∷ driven 200
    ∷ manifest_in
    ∷ reported true
    ∷ chunk_event 48 (65 ∷ 66 ∷ [])
    ∷ []

abbrev whole_object : List (Event broker)
whole_object =
    connection_made connected
    ∷ driven 200
    ∷ manifest_in
    ∷ reported true
    ∷ chunk_event 48 (65 ∷ 66 ∷ [])
    ∷ reported true
    ∷ chunk_event 50 (67 ∷ 255 ∷ [])
    ∷ reported true
    ∷ []

created : new_service {Op = ℕ} (112 ∷ []) config ≡ ok (initial (112 ∷ []) config)
unfolding new_service initial multiple_of topic
created = refl

abbrev last_world : World ℕ
last_world = run broker one_manifest (start_world (initial (112 ∷ []) config)) whole_object

last_complete : last_world.service.state ≡ State.complete
unfolding run advance initial start_world minimq.Prelude.Order.lt_wf native.Mathlib.Decide.dec_lt
last_complete = refl

complete-assembled_example :
    (t : Transfer) × (last_world.service.transfer ≡ some t)
    × (t.size ≤ last_world.service.capacity)
    × (length (take t.size last_world.stored) ≡ t.size)
    × (all (λ b. b == 255) (drop t.size last_world.stored) ≡ true)
complete-assembled_example =
    complete-assembled broker one_manifest (112 ∷ []) config (initial (112 ∷ []) config)
      whole_object created (omega arith) last_complete

abbrev first_world : World ℕ
first_world = run broker one_manifest (start_world (initial (112 ∷ []) config)) first_chunk

abbrev first_write : StagingWrite
first_write = record { offset = 0; payload = 65 ∷ 66 ∷ []; size = 3; fnv1a64 = none }

first_outstanding : first_world.outstanding ≡ some first_write
unfolding run advance initial start_world minimq.Prelude.Order.lt_wf native.Mathlib.Decide.dec_lt
first_outstanding = refl

write-contiguous_example : Continues first_world first_write
write-contiguous_example =
    write-contiguous broker one_manifest (112 ∷ []) config (initial (112 ∷ []) config) first_chunk
      first_write created (omega arith) first_outstanding

abbrev half_way : Transfer
half_way = record { id = 65 ∷ []; size = 3; next_offset = 2; fnv1a64 = 7 }

-- The second chunk: one byte of the object and an erased one.
validate_chunk-Ends_example :
    (2 ≡ half_way.next_offset) × (half_way.next_offset < 3) × Ends 3 half_way (67 ∷ 255 ∷ [])
unfolding validate_chunk chunk_end erased payload_padding multiple_of
validate_chunk-Ends_example =
    validate_chunk-Ends half_way 2 (67 ∷ 255 ∷ []) 4 2 2 3 (omega arith) (omega arith) refl

-- The second chunk of the object, without padding, for a service that writes single bytes.
abbrev waiting : Service ℕ
waiting =
    record (initial (112 ∷ []) (record { capacity = 4; max_chunk_size = 2; write_size = 1 })) {
      state = ready;
      transfer = some half_way;
    }

chunk-advances_example :
    (w : StagingWrite) × ((handle_chunk (65 ∷ []) 2 (67 ∷ []) waiting).1
      ≡ request (StagingRequest.write w))
    × (w.offset ≡ 2)
    × (w.payload ≡ 67 ∷ [])
    × After 3 half_way (complete_request true (handle_chunk (65 ∷ []) 2 (67 ∷ []) waiting).0)
unfolding initial multiple_of
chunk-advances_example =
    chunk-advances waiting half_way (65 ∷ []) (67 ∷ []) refl refl refl
      (omega arith, omega arith, refl, omega arith) (omega arith) (omega arith)

abbrev chunk_header : PublishHeader
chunk_header = record {
  topic = 112 ∷ chunk_suffix;
  packet_id = some 7;
  properties = slice (chunk_property_list (65 ∷ []) (50 ∷ []));
  retain = not_retained;
  qos = at_least_once;
  dup = false;
}

publication_bytes-le_example :
    length
      (publication_bytes chunk_header (chunk_property_list (65 ∷ []) (50 ∷ [])) (67 ∷ 255 ∷ []))
    ≤ required_rx_bytes (112 ∷ chunk_suffix) (65 ∷ []) 2
publication_bytes-le_example =
    publication_bytes-le chunk_header (65 ∷ []) (50 ∷ []) (67 ∷ 255 ∷ []) 2 (omega arith)
      (omega arith) (omega arith) (omega arith) (omega arith)
