-- ===== src/Outbound/View/Ack.antt =====
-- An acknowledgement removes its packet and moves the packets behind it: every other packet keeps
-- its bytes.
-- The list without the first element that matches.
use mathlib.Core.Path.{ap₂}
use minimq.Outbound.{
  OpKind, Outbound, RetainedPacket, VecOps, any, copy_within, holds_op, retained_bytes, total,
}
use minimq.Outbound.Queues.{ack_at, ack_found, ack_packet, len_at}
use minimq.Outbound.View.{
  IsValid, absent, find, found, packets, segments, segments-append, segments_same, total-append,
}
use minimq.Prelude.{
  All, Bool, Bool-cases, List, [], ap, arith, drop, drop-append_left, drop-drop, false,
  if◌then◌else◌, inl, inr, length, length-drop, length-take_le, refl, sym, take, take-append_left,
  true, ℕ, ◌++◌, ◌+◌, ◌-◌, ◌∙◌, ◌∷◌, ◌≡◌, ◌≤◌,
}

abbrev pub remove_first {ℓ} : {A : Type ℓ} → (A → Bool) → List A → List A
remove_first p [] = []
remove_first p (x ∷ xs) = let rest = remove_first p xs in if p x then xs else x ∷ rest

remove_first-segments :
    (p : RetainedPacket → Bool) (es : List RetainedPacket) (b : List ℕ)
    (rest : List (RetainedPacket × List ℕ))
    → All (λ y. p y ≡ false) es
    → remove_first (λ s. p s.0) (segments es b ++ rest)
      ≡ segments es b ++ remove_first (λ s. p s.0) rest
unfolding segments
remove_first-segments p [] b rest h = refl
remove_first-segments p (e ∷ es) b rest (miss, h) =
    rw miss (ap (◌∷◌ (e, take e.len b)) (remove_first-segments p es (drop e.len b) rest h))

remove_first_absent :
    (p : RetainedPacket → Bool) (es : List RetainedPacket) (b : List ℕ)
    → All (λ y. p y ≡ false) es
    → segments es b ≡ remove_first (λ s. p s.0) (segments es b)
unfolding segments
remove_first_absent p [] b h = refl
remove_first_absent p (e ∷ es) b (miss, h) =
    rw miss (ap (◌∷◌ (e, take e.len b)) (remove_first_absent p es (drop e.len b) h))

remove_first_found :
    (p : RetainedPacket → Bool) (front back : List RetainedPacket) (x : RetainedPacket) (b : List ℕ)
    → All (λ y. p y ≡ false) front
    → p x ≡ true
    → remove_first (λ s. p s.0) (segments (front ++ (x ∷ back)) b)
      ≡ segments front b ++ segments back (drop (total front + x.len) b)
unfolding segments
remove_first_found p front back x b h hit =
    rw
      (
        segments-append front (x ∷ back) b,
        remove_first-segments p front b (segments (x ∷ back) (drop (total front) b)) h,
        hit,
      )
      (ap (λ l. segments front b ++ segments back l) (drop-drop (total front) x.len b))

any_none :
    (p : RetainedPacket → Bool) (es : List RetainedPacket)
    → All (λ y. p y ≡ false) es
    → any p es ≡ false
any_none p [] h = refl
any_none p (e ∷ es) (miss, h) = rw miss (any_none p es h)

any_found :
    (p : RetainedPacket → Bool) (front back : List RetainedPacket) (x : RetainedPacket)
    → p x ≡ true
    → any p (front ++ (x ∷ back)) ≡ true
any_found p [] back x hit = rw hit refl
any_found p (y ∷ front) back x hit = elim (Bool-cases (p y)) [
  | inl e ↦ rw e refl
  | inr e ↦ rw e (any_found p front back x hit)
]

pub len_at-append :
    (v : VecOps) (front back : List RetainedPacket) (x : RetainedPacket)
    → len_at v (length front) (front ++ (x ∷ back)) ≡ x.len
unfolding len_at
len_at-append v [] back x = refl
len_at-append v (y ∷ front) back x = len_at-append v front back x

-- Moving the last part over the middle one.
copy-segments :
    (front back : List RetainedPacket) (n gap : ℕ) (b : List ℕ)
    → n ≡ total front
    → n + gap + total back ≤ length b
    → segments (front ++ back) (copy_within (n + gap) (n + gap + total back) n b)
      ≡ segments front b ++ segments back (drop (n + gap) b)
copy-segments front back n gap b e h =
    segments-append front back moved
    ∙ ap₂ ◌++◌ (segments_same front moved b kept_front)
        (segments_same back (drop (total front) moved) (drop (n + gap) b) kept_back)
  where
    piece : List ℕ
    piece = take (n + gap + total back - (n + gap)) (drop (n + gap) b)

    moved : List ℕ
    moved = copy_within (n + gap) (n + gap + total back) n b

    width : n + gap + total back - (n + gap) ≡ total back
    width = omega arith

    size : length piece ≡ total back
    size =
        length-take_le (n + gap + total back - (n + gap)) (drop (n + gap) b)
          (omega (arith, length-drop (n + gap) b))
        ∙ width

    head : length (take n b) ≡ n
    head = length-take_le n b (omega arith)

    kept_front : take (total front) moved ≡ take (total front) b
    kept_front =
        ap (λ k. take k moved) (sym e ∙ sym head)
        ∙ take-append_left (take n b) (piece ++ drop (n + length piece) b)
        ∙ ap (λ k. take k b) e

    kept_back : take (total back) (drop (total front) moved) ≡ take (total back) (drop (n + gap) b)
    kept_back =
        ap (λ k. take (total back) (drop k moved)) (sym e ∙ sym head)
        ∙ ap (take (total back)) (drop-append_left (take n b) (piece ++ drop (n + length piece) b))
        ∙ ap (λ k. take k (piece ++ drop (n + length piece) b)) (sym size)
        ∙ take-append_left piece (drop (n + length piece) b)
        ∙ ap (λ k. take k (drop (n + gap) b)) width

ack_at-packets :
    (v : VecOps) (o : Outbound) (front back : List RetainedPacket) (x : RetainedPacket)
    → o.retained ≡ front ++ (x ∷ back)
    → total o.retained ≤ length o.buf
    → packets (ack_at v (length front) o)
      ≡ segments front o.buf ++ segments back (drop (total front + x.len) o.buf)
unfolding packets ack_at retained_bytes
ack_at-packets v o front back x eq h =
    ap after eq
    ∙ rw
        (
          v.remove_at front back x,
          take-append_left front (x ∷ back),
          len_at-append v front back x,
          whole,
        )
        (copy-segments front back (total front) x.len o.buf refl
          (omega (arith, whole, ap total eq)))
  where
    after : List RetainedPacket → List (RetainedPacket × List ℕ)
    after es =
        let offset = total (take (length front) es) in
        segments (v.remove (length front) es)
          (copy_within (offset + len_at v (length front) es) (total es) offset o.buf)

    whole : total (front ++ (x ∷ back)) ≡ total front + x.len + total back
    whole = omega (arith, total-append front (x ∷ back))

-- `ack_packet` reports whether a packet of this kind and identifier was held; it removes the first
-- such packet and leaves every other packet, its order and its bytes as they were.
pub ack_packet-packets :
    (v : VecOps) (kind : OpKind) (packet_id : ℕ) (o : Outbound)
    → IsValid o
    → (packets (ack_packet v kind packet_id o).0
        ≡ remove_first (λ s. holds_op kind packet_id s.0) (packets o))
      × ((ack_packet v kind packet_id o).1 ≡ any (holds_op kind packet_id) o.retained)
unfolding ack_packet ack_found packets
ack_packet-packets v kind packet_id o valid = elim (find (holds_op kind packet_id) o.retained) [
  | absent none_of e ↦ rw e (
    remove_first_absent (holds_op kind packet_id) o.retained o.buf none_of,
    sym (any_none (holds_op kind packet_id) o.retained none_of),
  )
  | found front back x eq none_of hit e ↦ rw e (
    ack_at-packets v o front back x eq (omega (arith, valid.inside))
        ∙ sym (
            ap (λ es. remove_first (λ s. holds_op kind packet_id s.0) (segments es o.buf)) eq
            ∙ remove_first_found (holds_op kind packet_id) front back x o.buf none_of hit),
    sym (any_found (holds_op kind packet_id) front back x hit)
        ∙ ap (any (holds_op kind packet_id)) (sym eq),
  )
]
