-- ===== src/Outbound/Send.antt =====
-- minimq/src/mqtt_client/outbound.rs: encoding into the transmit buffer, the choice of the next
-- write, its progress, and the replay after a reconnect.
pub mod Order
pub mod Publish
use minimq.Errors.{
  ProtocolError, ResourceError, SerError, buffer_too_small, encode, insufficient_memory,
}
use minimq.Outbound.{
  Outbound, OutboundStep, PendingControl, PendingRelease, RetainedPacket, SendState, control_step,
  copy_within, filter, flush_pending, has_pending_release, has_pending_state, has_retained,
  is_flush, is_publish, modify_at, modify_first, release_step, retained_bytes, retained_capacity,
  retained_step, scratch_space, sent, set_written, write, write_offset,
}
use minimq.Prelude.{
  Bool, List, Option, Result, [], drop, err, false, if◌then◌else◌, length, ltb, map, none, not, ok,
  some, suc, take, true, ℕ, ◌++◌, ◌+◌, ◌-◌, ◌==◌, ◌∷◌,
}
use minimq.Ser.{Encoded, Serialize, encode_with_offset}
use minimq.Wire.{mark_publish_duplicate}

-- `pack_encoded`: the packet at `offset` of the scratch space moves to its front.
unfoldable pub pack_encoded : ℕ → ℕ → Outbound → Outbound × Result ResourceError (Unit {0})
unfolding retained_bytes retained_capacity
pack_encoded offset len o =
    let start = retained_bytes o in
    if ltb (retained_capacity o - start) len
    then (o, err buffer_too_small)
    else (record o { buf = copy_within (start + offset) (start + offset + len) start o.buf }, ok tt)

unfoldable pub packed :
    ℕ → Outbound × Result ResourceError (Unit {0}) → Outbound × Result ProtocolError ℕ
packed len (o, ok u) = (o, ok len)
packed len (o, err e) = (o, err (encode insufficient_memory))

-- The scratch space that the serializer has written, back in the buffer.
unfoldable pub put_scratch : Outbound → List ℕ → Outbound
unfolding retained_bytes
put_scratch o scratch = record o { buf = take (retained_bytes o) o.buf ++ scratch }

unfoldable pub pack_result :
    Outbound → List ℕ × Result SerError Encoded → Outbound × Result ProtocolError ℕ
unfolding packed pack_encoded put_scratch
pack_result o (scratch, err e) = (put_scratch o scratch, err (encode e))
pack_result o (scratch, ok e) = packed e.len (pack_encoded e.offset e.len (put_scratch o scratch))

-- The packet with this fixed header and these fields.
unfoldable pub encode_packet : ℕ → Serialize → Outbound → Outbound × Result ProtocolError ℕ
unfolding pack_result scratch_space encode_with_offset
encode_packet header fields o = pack_result o (encode_with_offset header fields (scratch_space o))

unfoldable pub retained_packet : ℕ → ℕ → Outbound → List ℕ
retained_packet offset len o = take len (drop offset o.buf)

unfoldable pub flushed : SendState → SendState
flushed flush_pending = sent
flushed s = s

unfoldable pub complete_flush : Outbound → Outbound
unfolding is_flush flushed
complete_flush o = record o {
  pending_control = filter (λ p. not (is_flush p.state)) o.pending_control;
  pending_release =
      map {A = PendingRelease} (λ p. record p { state = flushed p.state }) o.pending_release;
  retained = map {A = RetainedPacket} (λ p. record p { state = flushed p.state }) o.retained;
}

unfoldable pub map_option : {A B : Type 0} → (A → B) → Option A → Option B
map_option f none = none
map_option f (some a) = some (f a)

-- `or_else`: the first of two.
unfoldable pub first_of {ℓ} : {A : Type ℓ} → Option A → Option A → Option A
first_of (some a) b = some a
first_of none b = b

unfoldable pub control_scan : Bool → ℕ → List PendingControl → Option OutboundStep
unfolding first_of map_option write_offset
control_scan in_progress index [] = none
control_scan in_progress index (e ∷ es) =
    first_of (map_option (control_step index e.action) (write_offset e.state in_progress))
      (control_scan in_progress (suc index) es)

unfoldable pub release_scan : Bool → List PendingRelease → Option OutboundStep
unfolding first_of map_option write_offset
release_scan in_progress [] = none
release_scan in_progress (e ∷ es) =
    first_of (map_option (release_step e.packet_id e.reason) (write_offset e.state in_progress))
      (release_scan in_progress es)

unfoldable pub retained_scan : Bool → ℕ → List RetainedPacket → Option OutboundStep
unfolding first_of map_option write_offset
retained_scan in_progress offset [] = none
retained_scan in_progress offset (e ∷ es) =
    first_of
      (map_option (retained_step e.packet_id offset e.len) (write_offset e.state in_progress))
      (retained_scan in_progress (offset + e.len) es)

unfoldable pub scan : Bool → Outbound → Option OutboundStep
unfolding control_scan release_scan retained_scan
scan in_progress o =
    first_of (control_scan in_progress 0 o.pending_control) (
      first_of (release_scan in_progress o.pending_release)
        (retained_scan in_progress 0 o.retained))

-- What is in progress first, then what has not been started.
unfoldable pub next_step : Outbound → Option OutboundStep
unfolding scan
next_step o = first_of (scan true o) (scan false o)

unfoldable pub set_control_written : ℕ → ℕ → ℕ → Outbound → Outbound × Bool
unfolding set_written
set_control_written index written len o = (
  record o {
    pending_control =
        modify_at index (λ p. record p { state = set_written written len }) o.pending_control;
  },
  ltb index (length o.pending_control),
)

unfoldable pub set_retained_written : ℕ → ℕ → ℕ → Outbound → Outbound × Bool
unfolding set_written has_retained
set_retained_written packet_id written len o = (
  record o {
    retained =
        modify_first (λ e. e.packet_id == packet_id)
          (λ p. record p { state = set_written written len }) o.retained;
  },
  has_retained packet_id o,
)

unfoldable pub set_release_written : ℕ → ℕ → ℕ → Outbound → Outbound × Bool
unfolding set_written has_pending_release
set_release_written packet_id written len o = (
  record o {
    pending_release =
        modify_first (λ e. e.packet_id == packet_id)
          (λ p. record p { state = set_written written len }) o.pending_release;
  },
  has_pending_release packet_id o,
)

-- `mark_publish_duplicate(&mut buf[offset])`; an offset past the end would panic.
unfoldable pub mark_at : ℕ → List ℕ → List ℕ
unfolding mark_publish_duplicate
mark_at offset buf = modify_at offset mark_publish_duplicate buf

unfoldable pub mark_loop : List RetainedPacket → ℕ → List ℕ → List ℕ
unfolding is_publish mark_at
mark_loop [] offset buf = buf
mark_loop (e ∷ es) offset buf =
    mark_loop es (offset + e.len) (if is_publish e.kind then mark_at offset buf else buf)

unfoldable pub mark_publish_dup : Outbound → Outbound
unfolding mark_loop
mark_publish_dup o = record o { buf = mark_loop o.retained 0 o.buf }

-- Every entry is to be written from its start.
unfoldable pub rewind : Outbound → Outbound
rewind o = record o {
  pending_control = map {A = PendingControl} (λ p. record p { state = write 0 }) o.pending_control;
  retained = map {A = RetainedPacket} (λ p. record p { state = write 0 }) o.retained;
  pending_release = map {A = PendingRelease} (λ p. record p { state = write 0 }) o.pending_release;
}

unfoldable pub arm_replay : Outbound → Outbound
unfolding has_pending_state mark_publish_dup rewind
arm_replay o = if has_pending_state o then rewind (mark_publish_dup o) else o
