-- ===== src/Outbound/View/Replay.antt =====
-- A replay sends every retained packet again from its start, the publications marked as duplicates.
-- What a replay makes of a retained packet.
use mathlib.Core.Path.{ap₂}
use minimq.Outbound.{
  OpKind, Outbound, RetainedPacket, has_pending_state, is_empty, is_publish, modify_at,
  publish_at_least_once, publish_exactly_once, subscribe_op, total, unsubscribe_op, write,
}
use minimq.Outbound.Send.{arm_replay, mark_at, mark_loop, mark_publish_dup, rewind}
use minimq.Outbound.View.{IsValid, packets, segments}
use minimq.Prelude.{
  All, Bool-cases, List, [], ap, arith, drop, drop-append_left, false, if◌then◌else◌, inl, inr,
  length, length-drop, length-take_le, map, refl, suc, sym, take, take-append-drop,
  take-append_left, true, zero, ℕ, ◌%◌, ◌*◌, ◌++◌, ◌+◌, ◌/◌, ◌<◌, ◌∙◌, ◌∷◌, ◌≡◌, ◌≤◌,
}
use minimq.Prelude.Bits.{set_bit_three}
use minimq.Wire.{mark_publish_duplicate}

abbrev pub replayed : RetainedPacket × List ℕ → RetainedPacket × List ℕ
replayed s = (
  record s.0 { state = write 0 },
  if is_publish s.0.kind then modify_at 0 mark_publish_duplicate s.1 else s.1,
)

modify_at-append :
    (f : ℕ → ℕ) (a b : List ℕ) (i n : ℕ)
    → i ≡ length a + n
    → modify_at i f (a ++ b) ≡ a ++ modify_at n f b
modify_at-append f [] b i n h = ap (λ k. modify_at k f b) (omega (arith, h))
modify_at-append f (x ∷ a) b zero n h = absurd (omega arith)
modify_at-append f (x ∷ a) b (suc i) n h = ap (◌∷◌ x) (modify_at-append f a b i n (omega arith))

modify_at_front :
    (f : ℕ → ℕ) (a b : List ℕ) → 0 < length a → modify_at 0 f (a ++ b) ≡ modify_at 0 f a ++ b
modify_at_front f [] b h = absurd (omega arith)
modify_at_front f (x ∷ a) b h = refl

length-modify_at : (f : ℕ → ℕ) (i : ℕ) (a : List ℕ) → length (modify_at i f a) ≡ length a
length-modify_at f i [] = refl
length-modify_at f zero (x ∷ a) = refl
length-modify_at f (suc i) (x ∷ a) = omega (arith, length-modify_at f i a)

-- The marks behind the first bytes do not touch them.
mark_loop-append :
    (es : List RetainedPacket) (a b : List ℕ) (i n : ℕ)
    → i ≡ length a + n
    → mark_loop es i (a ++ b) ≡ a ++ mark_loop es n b
unfolding mark_loop mark_at
mark_loop-append [] a b i n h = refl
mark_loop-append (e ∷ es) a b i n h = elim (Bool-cases (is_publish e.kind)) [
  | inl p ↦
      rw (p, modify_at-append mark_publish_duplicate a b i n h)
        (mark_loop-append es a (modify_at n mark_publish_duplicate b) (i + e.len) (n + e.len)
          (omega arith))
  | inr p ↦ rw p (mark_loop-append es a b (i + e.len) (n + e.len) (omega arith))
]

segments_step :
    (e : RetainedPacket) (es : List RetainedPacket) (a b : List ℕ)
    → length a ≡ e.len
    → segments (e ∷ es) (a ++ b) ≡ (e, a) ∷ segments es b
unfolding segments
segments_step e es a b h =
    ap₂ (λ x l. (e, x) ∷ l) (ap (λ n. take n (a ++ b)) (sym h) ∙ take-append_left a b)
      (ap (λ n. segments es (drop n (a ++ b))) (sym h) ∙ ap (segments es) (drop-append_left a b))

-- The first packet is marked by itself.
mark_step :
    (e : RetainedPacket) (es : List RetainedPacket) (a b : List ℕ)
    → length a ≡ e.len
    → 0 < e.len
    → mark_loop (e ∷ es) 0 (a ++ b) ≡ (replayed (e, a)).1 ++ mark_loop es 0 b
unfolding mark_loop mark_at
mark_step e es a b h pos = elim (Bool-cases (is_publish e.kind)) [
  | inl p ↦
      rw (p, modify_at_front mark_publish_duplicate a b (omega arith))
        (mark_loop-append es (modify_at 0 mark_publish_duplicate a) b (0 + e.len) 0
          (omega (arith, length-modify_at mark_publish_duplicate 0 a)))
  | inr p ↦ rw p (mark_loop-append es a b (0 + e.len) 0 (omega arith))
]

length-replayed : (e : RetainedPacket) (a : List ℕ) → length (replayed (e, a)).1 ≡ length a
length-replayed e a = elim (Bool-cases (is_publish e.kind)) [
  | inl p ↦ rw p (length-modify_at mark_publish_duplicate 0 a)
  | inr p ↦ rw p refl
]

abbrev pub restarted : RetainedPacket → RetainedPacket
restarted e = record e { state = write 0 }

mark_loop-replayed :
    (es : List RetainedPacket) (b : List ℕ)
    → All (λ e. 0 < e.len) es
    → total es ≤ length b
    → segments (map restarted es) (mark_loop es 0 b) ≡ map replayed (segments es b)
unfolding segments
mark_loop-replayed [] b pos h = refl
mark_loop-replayed (e ∷ es) b (p, pos) h =
    ap (λ l. segments (map restarted (e ∷ es)) (mark_loop (e ∷ es) 0 l))
      (sym (take-append-drop e.len b))
    ∙ ap (segments (map restarted (e ∷ es))) (mark_step e es (take e.len b) (drop e.len b) size p)
    ∙ segments_step (restarted e) (map restarted es) (replayed (e, take e.len b)).1
        (mark_loop es 0 (drop e.len b)) (length-replayed e (take e.len b) ∙ size)
    ∙ ap (◌∷◌ (replayed (e, take e.len b)))
        (mark_loop-replayed es (drop e.len b) pos (omega (arith, length-drop e.len b)))
  where
    size : length (take e.len b) ≡ e.len
    size = length-take_le e.len b (omega arith)

no_pending-nil : (o : Outbound) → has_pending_state o ≡ false → o.retained ≡ []
unfolding has_pending_state
no_pending-nil o h = elim (Bool-cases (is_empty o.retained)) [
  | inl e ↦ nil o.retained e
  | inr e ↦ absurd (elim (Bool-cases (is_empty o.pending_control)) [
    | inl c ↦ ground (arith, h, e, c)
    | inr c ↦ ground (arith, h, c)
  ])
]
  where
    nil : (xs : List RetainedPacket) → is_empty xs ≡ true → xs ≡ []
    nil [] e = refl
    nil (x ∷ xs) e = absurd (ground (arith, e))

arm_replay-replayed : (o : Outbound) → IsValid o → packets (arm_replay o) ≡ map replayed (packets o)
unfolding packets arm_replay mark_publish_dup rewind segments
arm_replay-replayed o valid = elim (Bool-cases (has_pending_state o)) [
  | inl e ↦ rw e (mark_loop-replayed o.retained o.buf valid.non_empty (omega (arith, valid.inside)))
  | inr e ↦ rw e (
      ap after (no_pending-nil o e)
      ∙ sym (ap (λ es. map replayed (segments es o.buf)) (no_pending-nil o e)))
]
  where
    after : List RetainedPacket → List (RetainedPacket × List ℕ)
    after es = segments es o.buf

-- A packet sent again: from its first byte on, with the bit of value 8 of that byte set, the
-- duplicate flag, where it is a publication.
abbrev pub as_duplicate : OpKind → List ℕ → List ℕ
as_duplicate publish_at_least_once (byte ∷ bytes) = (byte / 16 * 16 + 8 + byte % 8) ∷ bytes
as_duplicate publish_exactly_once (byte ∷ bytes) = (byte / 16 * 16 + 8 + byte % 8) ∷ bytes
as_duplicate kind bytes = bytes

abbrev pub resent : RetainedPacket × List ℕ → RetainedPacket × List ℕ
resent (e, bytes) = (restarted e, as_duplicate e.kind bytes)

marked :
    (kind : OpKind) (bytes : List ℕ)
    → (if is_publish kind then modify_at 0 mark_publish_duplicate bytes else bytes)
      ≡ as_duplicate kind bytes
unfolding is_publish mark_publish_duplicate
marked publish_at_least_once [] = refl
marked publish_at_least_once (byte ∷ bytes) = ap (λ b. b ∷ bytes) (set_bit_three byte)
marked publish_exactly_once [] = refl
marked publish_exactly_once (byte ∷ bytes) = ap (λ b. b ∷ bytes) (set_bit_three byte)
marked subscribe_op bytes = refl
marked unsubscribe_op bytes = refl

map-resent : (xs : List (RetainedPacket × List ℕ)) → map replayed xs ≡ map resent xs
map-resent [] = refl
map-resent ((e, bytes) ∷ xs) =
    ap₂ (λ a l. (restarted e, a) ∷ l) (marked e.kind bytes) (map-resent xs)

-- `arm_replay` makes every retained packet start again, in order, and sets the bit of value 8 in
-- the first byte of the publications, whatever it was, and changes no other bit.
pub arm_replay-resent : (o : Outbound) → IsValid o → packets (arm_replay o) ≡ map resent (packets o)
arm_replay-resent o valid = arm_replay-replayed o valid ∙ map-resent (packets o)
