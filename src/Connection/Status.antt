-- ===== src/Connection/Status.antt =====
-- minimq/src/mqtt_client/session/mod.rs: whether an operation is still under way.
use minimq.Outbound.{
  OpKind, Outbound, can_retain, has_pending_release, has_retained, publish_exactly_once,
  scratch_len,
}
use minimq.Prelude.{
  Bool, ap, arith, false, if◌then◌else◌, leb, not, true, ℕ, ◌%◌, ◌&&◌, ◌+◌, ◌<◌, ◌==◌, ◌^◌, ◌||◌,
  ◌≡◌,
}
use minimq.Ser.{max_fixed_header_size}
use minimq.Session.{Client, SessionData, reset_session}
use minimq.Staging.Drive.{started}
use minimq.Wire.{QoS, at_most_once}

pub record Op : Type 0 where
  pub generation : ℕ
  pub kind : OpKind
  pub packet_id : ℕ

pub data OpStatus : Type 0 where
  op_pending op_complete op_invalidated : OpStatus

unfoldable pub op_held : OpKind → ℕ → Outbound → Bool
unfolding has_retained has_pending_release
op_held publish_exactly_once packet_id o =
    has_retained packet_id o || has_pending_release packet_id o
op_held kind packet_id o = has_retained packet_id o

unfoldable pub op_status : SessionData → Op → OpStatus
unfolding op_held
op_status d op =
    if not (op.generation == d.generation)
    then op_invalidated
    else if op_held op.kind op.packet_id d.outbound
    then op_pending
    else op_complete

abbrev is_pending_status : OpStatus → Bool
is_pending_status op_pending = true
is_pending_status s = false

abbrev is_complete_status : OpStatus → Bool
is_complete_status op_complete = true
is_complete_status s = false

abbrev is_invalidated_status : OpStatus → Bool
is_invalidated_status op_invalidated = true
is_invalidated_status s = false

unfoldable pub is_op_pending : SessionData → Op → Bool
unfolding op_status
is_op_pending d op = is_pending_status (op_status d op)

unfoldable pub is_op_complete : SessionData → Op → Bool
unfolding op_status
is_op_complete d op = is_complete_status (op_status d op)

unfoldable pub is_op_invalidated : SessionData → Op → Bool
unfolding op_status
is_op_invalidated d op = is_invalidated_status (op_status d op)

-- `Session::can_publish`.
unfoldable pub can_publish : Client → QoS → Bool
unfolding scratch_len can_retain
can_publish c at_most_once = leb max_fixed_header_size (scratch_len c.session.outbound)
can_publish c qos = not (c.runtime.send_quota == 0) && can_retain c.session.outbound

op_status_other :
    (d : SessionData) (op : Op)
    → (op.generation == d.generation) ≡ false
    → op_status d op ≡ op_invalidated
unfolding op_status
op_status_other d op e =
    ap
      (λ b.
        if not b
        then op_invalidated
        else if op_held op.kind op.packet_id d.outbound
        then op_pending
        else op_complete)
      e

-- A session's generation is the number of its resets as 32 bits. A reset invalidates each operation
-- that was started in this generation or in one of the 2^32 - 2 before it, `age` resets ago: neither
-- a pending one nor a completed one is reported as such afterwards.
pub reset-invalidates :
    (d : SessionData) (op : Op) (age : ℕ)
    → op.generation < 2 ^ 32
    → age + 1 < 2 ^ 32
    → d.generation ≡ (op.generation + age) % 2 ^ 32
    → (is_op_invalidated (reset_session d) op ≡ true)
      × (is_op_pending (reset_session d) op ≡ false)
      × (is_op_complete (reset_session d) op ≡ false)
unfolding is_op_invalidated is_op_pending is_op_complete
reset-invalidates d op age small young started =
    (ap is_invalidated_status gone, ap is_pending_status gone, ap is_complete_status gone)
  where
    later : op.generation ≡ (d.generation + 1) % 2 ^ 32 → ⊥
    later e = omega (arith, e, small, young, started)

    other : (op.generation == (reset_session d).generation) ≡ false
    other = unfold reset_session in ground (arith, later)

    gone : op_status (reset_session d) op ≡ op_invalidated
    gone = op_status_other (reset_session d) op other
