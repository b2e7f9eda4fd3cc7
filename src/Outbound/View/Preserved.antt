-- ===== src/Outbound/View/Preserved.antt =====
-- The invariant under the operations on the buffer: acknowledgements, flushes, replays and encoding.
use mathlib.Core.Path.{subst}
use minimq.Outbound.{
  OpKind, Outbound, PendingControl, PendingRelease, RetainedPacket, VecOps, copy_within,
  has_pending_state, holds_op, is_flush, is_publish, max_pending_release, max_retained, modify_at,
  retained_bytes, total, write,
}
use minimq.Outbound.Queues.{
  ack_at, ack_found, ack_packet, ack_release, len_at, release_found, retain_packet, retained_pushed,
}
use minimq.Outbound.Send.{
  arm_replay, complete_flush, flushed, mark_at, mark_loop, mark_publish_dup, rewind,
}
use minimq.Outbound.View.{IsValid, absent, find, found, total-append}
use minimq.Outbound.View.Ack.{len_at-append}
use minimq.Outbound.View.Bounds.{
  All-append, All-remove, length-copy_within, length-filter, length-map, length-modify_at,
  non_empty-map, pushed-bound, release_bound-IsValid, swap_remove-bound, total-map,
}
use minimq.Outbound.View.Replay.{restarted}
use minimq.Prelude.{
  All, Bool-cases, List, Option-cases, [], ap, arith, inl, inr, length, length-append, not, refl,
  sym, take, take-append_left, ℕ, ◌++◌, ◌+◌, ◌<◌, ◌==◌, ◌∙◌, ◌∷◌, ◌≡◌, ◌≤◌,
}
use minimq.Staging.{queue}
use minimq.Wire.{mark_publish_duplicate}

ack_at-IsValid :
    (v : VecOps) (o : Outbound) (front back : List RetainedPacket) (x : RetainedPacket)
    → o.retained ≡ front ++ (x ∷ back)
    → IsValid o
    → IsValid (ack_at v (length front) o)
unfolding ack_at retained_bytes
ack_at-IsValid v o front back x eq valid = record {
  inside = omega (
    arith,
    valid.inside,
    offset,
    gap,
    ap total kept,
    ap total eq,
    total-append front (x ∷ back),
    total-append front back,
    whole,
  );
  non_empty =
      subst (All (λ e. 0 < e.len)) (sym kept) (
        All-remove (λ e. 0 < e.len) front back x (subst (All (λ e. 0 < e.len)) eq valid.non_empty));
  retained_bound = omega (
    arith,
    valid.retained_bound,
    ap length kept,
    ap length eq,
    length-append front (x ∷ back),
    length-append front back,
  );
  control_bound = valid.control_bound;
  release_bound = valid.release_bound;
}
  where
    kept : v.remove (length front) o.retained ≡ front ++ back
    kept = ap (v.remove (length front)) eq ∙ v.remove_at front back x

    offset : total (take (length front) o.retained) ≡ total front
    offset =
        ap (λ es. total (take (length front) es)) eq ∙ ap total (take-append_left front (x ∷ back))

    gap : len_at v (length front) o.retained ≡ x.len
    gap = ap (len_at v (length front)) eq ∙ len_at-append v front back x

    whole :
        length (
          copy_within
            (total (take (length front) o.retained) + len_at v (length front) o.retained)
            (total o.retained)
            (total (take (length front) o.retained))
            o.buf)
        ≡ length o.buf
    whole =
        length-copy_within
          (total (take (length front) o.retained) + len_at v (length front) o.retained)
          (total o.retained) (total (take (length front) o.retained)) o.buf
          (omega (arith, valid.inside, offset, gap, ap total eq, total-append front (x ∷ back)))

pub ack_packet-IsValid :
    (v : VecOps) (kind : OpKind) (packet_id : ℕ) (o : Outbound)
    → IsValid o
    → IsValid (ack_packet v kind packet_id o).0
unfolding ack_packet ack_found
ack_packet-IsValid v kind packet_id o valid = elim (find (holds_op kind packet_id) o.retained) [
  | absent none_of e ↦ rw e valid
  | found front back x eq none_of hit e ↦ rw e (ack_at-IsValid v o front back x eq valid)
]

pub ack_release-IsValid :
    (v : VecOps) (packet_id : ℕ) (o : Outbound) → IsValid o → IsValid (ack_release v packet_id o).0
unfolding ack_release release_found
ack_release-IsValid v packet_id o valid =
    elim (find (λ p. p.packet_id == packet_id) o.pending_release) [
      | absent none_of e ↦ rw e valid
      | found front back x eq none_of hit e ↦ rw e (
          release_bound-IsValid o (v.swap_remove (length front) o.pending_release) valid (
            subst (λ xs. length (v.swap_remove (length front) xs) ≤ max_pending_release) (sym eq)
              (omega (arith, swap_remove-bound v front back x, ap length eq, valid.release_bound))))
    ]

pub flush-IsValid : (o : Outbound) → IsValid o → IsValid (complete_flush o)
unfolding complete_flush
flush-IsValid o valid = record {
  inside = omega (arith, valid.inside, total-map settle (λ e. refl) o.retained);
  non_empty = non_empty-map settle (λ e. refl) o.retained valid.non_empty;
  retained_bound = omega (arith, valid.retained_bound, length-map settle o.retained);
  control_bound =
      omega
        (arith, valid.control_bound, length-filter (λ p. not (is_flush p.state)) o.pending_control);
  release_bound = omega (
    arith,
    valid.release_bound,
    length-map {A = PendingRelease} (λ p. record p { state = flushed p.state }) o.pending_release,
  );
}
  where
    settle : RetainedPacket → RetainedPacket
    settle e = record e { state = flushed e.state }

length-mark_loop :
    (es : List RetainedPacket) (i : ℕ) (b : List ℕ) → length (mark_loop es i b) ≡ length b
unfolding mark_loop mark_at
length-mark_loop [] i b = refl
length-mark_loop (e ∷ es) i b = elim (Bool-cases (is_publish e.kind)) [
  | inl c ↦ rw c (
      length-mark_loop es (i + e.len) (modify_at i mark_publish_duplicate b)
      ∙ length-modify_at i mark_publish_duplicate b)
  | inr c ↦ rw c (length-mark_loop es (i + e.len) b)
]

pub replay-IsValid : (o : Outbound) → IsValid o → IsValid (arm_replay o)
unfolding arm_replay rewind mark_publish_dup
replay-IsValid o valid = elim (Bool-cases (has_pending_state o)) [
  | inr c ↦ rw c valid
  | inl c ↦ rw c (record {
    inside = omega (
      arith,
      valid.inside,
      total-map restarted (λ e. refl) o.retained,
      length-mark_loop o.retained 0 o.buf,
    );
    non_empty = non_empty-map restarted (λ e. refl) o.retained valid.non_empty;
    retained_bound = omega (arith, valid.retained_bound, length-map restarted o.retained);
    control_bound = omega (
      arith,
      valid.control_bound,
      length-map {A = PendingControl} (λ p. record p { state = write 0 }) o.pending_control,
    );
    release_bound = omega (
      arith,
      valid.release_bound,
      length-map {A = PendingRelease} (λ p. record p { state = write 0 }) o.pending_release,
    );
  })
]

pub buffer-IsValid :
    (o : Outbound) (buffer : List ℕ)
    → IsValid o
    → length buffer ≡ length o.buf
    → IsValid (record o { buf = buffer })
buffer-IsValid o buffer valid same = record {
  inside = omega (arith, valid.inside, same);
  non_empty = valid.non_empty;
  retained_bound = valid.retained_bound;
  control_bound = valid.control_bound;
  release_bound = valid.release_bound;
}

pub retain-IsValid :
    (v : VecOps) (kind : OpKind) (packet_id len : ℕ) (o : Outbound)
    → IsValid o
    → 0 < len
    → total o.retained + len + o.connect_workspace ≤ length o.buf
    → IsValid (retain_packet v kind packet_id len o).0
unfolding retain_packet retained_pushed
retain-IsValid v kind packet_id len o valid pos room =
    elim (Option-cases (v.vec_push max_retained entry o.retained)) [
      | inl e ↦ rw e valid
      | inr (queue, e) ↦ rw e (
          let (same, bound) =
            pushed-bound v max_retained entry o.retained queue e valid.retained_bound in
          record {
            inside = omega (arith, room, ap total same, total-append o.retained (entry ∷ []));
            non_empty =
                subst (All (λ e. 0 < e.len)) (sym same)
                  (All-append (λ e. 0 < e.len) o.retained (entry ∷ []) valid.non_empty (pos, tt));
            retained_bound = bound;
            control_bound = valid.control_bound;
            release_bound = valid.release_bound;
          })
    ]
  where
    entry : RetainedPacket
    entry = record { kind = kind; packet_id = packet_id; len = len; state = write 0 }
