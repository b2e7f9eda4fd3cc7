-- ===== src/Outbound/View/Valid.antt =====
-- The transmit buffer stays well formed under every sequence of its operations.
-- One call of an operation that changes the buffer. A packet or a publication is encoded, where the
-- encoder may fail and what it has written is left, or encoded and then retained with the length that
-- the encoder has given. Fields and payloads are any that keep the size of the slice that they get.
use minimq.Control.{ControlAction}
use minimq.Outbound.{
  OpKind, Outbound, VecOps, clear_inflight, new_outbound, set_connect_workspace, set_written,
}
use minimq.Outbound.Queues.{ack_packet, ack_release, queue_control, queue_release, retain_packet}
use minimq.Outbound.Send.{
  arm_replay, complete_flush, encode_packet, set_control_written, set_release_written,
  set_retained_written,
}
use minimq.Outbound.Send.Publish.{encode_publish}
use minimq.Outbound.View.{IsValid}
use minimq.Outbound.View.Bounds.{
  clear-IsValid, control_bound-IsValid, length-modify_at, length-modify_first,
  non_empty-modify_first, queue_control-IsValid, queue_release-IsValid, release_bound-IsValid,
  retained_bound-IsValid, total-modify_first, workspace-IsValid,
}
use minimq.Outbound.View.Encoded.{
  Packed-IsValid, Packed-retained, encode_packet-Packed, encode_publish-Packed,
}
use minimq.Outbound.View.Preserved.{
  ack_packet-IsValid, ack_release-IsValid, flush-IsValid, replay-IsValid,
}
use minimq.Prelude.{List, Result, arith, ok, refl, ℕ, ◌==◌, ◌≡◌}
use minimq.Reason.{ReasonCode}
use minimq.Ser.{Serialize}
use minimq.Ser.Sized.{KeepsSize, PayloadKeepsSize}

pub data Step (v : VecOps) (P E : Type 0) : Outbound → Outbound → Type 0 where
  workspace_set : {o : Outbound} (len : ℕ) → Step v P E o (set_connect_workspace len o).0
  cleared : {o : Outbound} → Step v P E o (clear_inflight o)
  control_queued :
      {o : Outbound} (action : ControlAction) → Step v P E o (queue_control v action o).0
  release_queued :
      {o : Outbound} (packet_id : ℕ) (reason : ReasonCode)
      → Step v P E o (queue_release v packet_id reason o).0
  packet_acked :
      {o : Outbound} (kind : OpKind) (packet_id : ℕ)
      → Step v P E o (ack_packet v kind packet_id o).0
  release_acked : {o : Outbound} (packet_id : ℕ) → Step v P E o (ack_release v packet_id o).0
  packet_encoded :
      {o : Outbound} (header : ℕ) (fields : Serialize)
      → KeepsSize fields
      → Step v P E o (encode_packet header fields o).0
  packet_retained :
      {o : Outbound} (kind : OpKind) (packet_id header : ℕ) (fields : Serialize) (len : ℕ)
      → KeepsSize fields
      → (encode_packet header fields o).1 ≡ ok len
      → Step v P E o (retain_packet v kind packet_id len (encode_packet header fields o).0).0
  publication_encoded :
      {o : Outbound} (header : ℕ) (fields : Serialize) (payload : List ℕ → List ℕ × Result P ℕ)
      → KeepsSize fields
      → PayloadKeepsSize payload
      → Step v P E o (encode_publish {E = E} header fields payload o).0
  publication_retained :
      {o : Outbound} (kind : OpKind) (packet_id header : ℕ) (fields : Serialize)
      (payload : List ℕ → List ℕ × Result P ℕ) (len : ℕ)
      → KeepsSize fields
      → PayloadKeepsSize payload
      → (encode_publish {E = E} header fields payload o).1 ≡ ok len
      → Step v P E o
          (retain_packet v kind packet_id len (encode_publish {E = E} header fields payload o).0).0
  flush_completed : {o : Outbound} → Step v P E o (complete_flush o)
  control_written :
      {o : Outbound} (index written len : ℕ)
      → Step v P E o (set_control_written index written len o).0
  retained_written :
      {o : Outbound} (packet_id written len : ℕ)
      → Step v P E o (set_retained_written packet_id written len o).0
  release_written :
      {o : Outbound} (packet_id written len : ℕ)
      → Step v P E o (set_release_written packet_id written len o).0
  replay_armed : {o : Outbound} → Step v P E o (arm_replay o)

pub data Reaches (v : VecOps) (P E : Type 0) : Outbound → Outbound → Type 0 where
  here : {o : Outbound} → Reaches v P E o o
  further : {o p q : Outbound} → Reaches v P E o p → Step v P E p q → Reaches v P E o q

Step-IsValid : (v : VecOps) (P E : Type 0) (o p : Outbound) → Step v P E o p → IsValid o → IsValid p
unfolding set_control_written set_retained_written set_release_written
Step-IsValid v P E o _ (workspace_set len) valid = workspace-IsValid len o valid
Step-IsValid v P E o _ cleared valid = clear-IsValid o valid
Step-IsValid v P E o _ (control_queued action) valid = queue_control-IsValid v action o valid
Step-IsValid v P E o _ (release_queued packet_id reason) valid =
    queue_release-IsValid v packet_id reason o valid
Step-IsValid v P E o _ (packet_acked kind packet_id) valid =
    ack_packet-IsValid v kind packet_id o valid
Step-IsValid v P E o _ (release_acked packet_id) valid = ack_release-IsValid v packet_id o valid
Step-IsValid v P E o _ (packet_encoded header fields keeps) valid =
    Packed-IsValid (encode_packet header fields o)
      (encode_packet-Packed header fields o keeps valid)
Step-IsValid v P E o _ (packet_retained kind packet_id header fields len keeps e) valid =
    Packed-retained v kind packet_id len (encode_packet header fields o) e
      (encode_packet-Packed header fields o keeps valid)
Step-IsValid v P E o _ (publication_encoded header fields payload keeps payload_keeps) valid =
    Packed-IsValid (encode_publish {E = E} header fields payload o)
      (encode_publish-Packed P E header fields payload o keeps payload_keeps valid)
Step-IsValid v P E o _
      (publication_retained kind packet_id header fields payload len keeps payload_keeps e) valid =
    Packed-retained v kind packet_id len (encode_publish {E = E} header fields payload o) e
      (encode_publish-Packed P E header fields payload o keeps payload_keeps valid)
Step-IsValid v P E o _ flush_completed valid = flush-IsValid o valid
Step-IsValid v P E o _ (control_written index written len) valid = control_bound-IsValid o _ valid (
    omega (
      arith,
      valid.control_bound,
      length-modify_at index (λ p. record p { state = set_written written len }) o.pending_control,
    ))
Step-IsValid v P E o _ (retained_written packet_id written len) valid =
    retained_bound-IsValid o _ valid
      (total-modify_first (λ p. record p { state = set_written written len }) (λ e. refl) _
        o.retained)
      (non_empty-modify_first (λ p. record p { state = set_written written len }) (λ e. refl) _
        o.retained valid.non_empty)
      (length-modify_first _ (λ p. record p { state = set_written written len }) o.retained)
Step-IsValid v P E o _ (release_written packet_id written len) valid =
    release_bound-IsValid o _ valid (
      omega (
        arith,
        valid.release_bound,
        length-modify_first (λ p. p.packet_id == packet_id)
            (λ p. record p { state = set_written written len }) o.pending_release,
      ))
Step-IsValid v P E o _ replay_armed valid = replay-IsValid o valid

-- From a new buffer, every sequence of operations, encodings that fail among them, leaves a buffer in
-- which the retained packets lie in front of the room kept for CONNECT, no packet is empty, and each
-- queue holds at most eight entries, as long as the fields and payloads that are encoded keep the
-- size of the slice they write into.
pub Reaches-IsValid :
    (v : VecOps) (P E : Type 0) (buf : List ℕ) (o : Outbound)
    → Reaches v P E (new_outbound buf) o
    → IsValid o
unfolding new_outbound
Reaches-IsValid v P E buf _ here = record {
  inside = omega arith;
  non_empty = tt;
  retained_bound = omega arith;
  control_bound = omega arith;
  release_bound = omega arith;
}
Reaches-IsValid v P E buf q (further {p = p} before step) =
    Step-IsValid v P E p q step (Reaches-IsValid v P E buf p before)
