-- ===== src/Outbound/View.antt =====
-- The abstract view of the transmit buffer: the retained packets in order, each with its bytes.
pub mod Ack
pub mod Bounds
pub mod Encode
mod Examples
pub mod Preserved
pub mod Encoded
pub mod Replay
pub mod Valid
use mathlib.Core.Path.{ap₂}
use minimq.Outbound.{
  Outbound, RetainedPacket, max_pending_control, max_pending_release, max_retained, position, total,
}
use minimq.Prelude.{
  All, Bool, Bool-cases, List, [], ap, arith, drop, drop-drop, drop-take, false, inl, inr, length,
  none, refl, some, sym, take, take-take, true, ℕ, ◌++◌, ◌+◌, ◌-◌, ◌<◌, ◌∙◌, ◌∷◌, ◌≡◌, ◌≤◌,
}

unfoldable pub segments : List RetainedPacket → List ℕ → List (RetainedPacket × List ℕ)
segments [] b = []
segments (e ∷ es) b = (e, take e.len b) ∷ segments es (drop e.len b)

-- What is held for retransmission.
unfoldable pub packets : Outbound → List (RetainedPacket × List ℕ)
unfolding segments
packets o = segments o.retained o.buf

-- The retained packets are inside the part of the buffer that is not kept for CONNECT, no packet is
-- empty, and the queues are within their capacities.
pub record IsValid (o : Outbound) : Type 0 where
  pub inside : total o.retained + o.connect_workspace ≤ length o.buf
  pub non_empty : All (λ e. 0 < e.len) o.retained
  pub retained_bound : length o.retained ≤ max_retained
  pub control_bound : length o.pending_control ≤ max_pending_control
  pub release_bound : length o.pending_release ≤ max_pending_release

pub total-append : (xs ys : List RetainedPacket) → total (xs ++ ys) ≡ total xs + total ys
total-append [] ys = omega arith
total-append (x ∷ xs) ys = omega (arith, total-append xs ys)

pub segments-append :
    (xs ys : List RetainedPacket) (b : List ℕ)
    → segments (xs ++ ys) b ≡ segments xs b ++ segments ys (drop (total xs) b)
unfolding segments
segments-append [] ys b = refl
segments-append (x ∷ xs) ys b = ap (◌∷◌ (x, take x.len b)) (
    segments-append xs ys (drop x.len b)
    ∙ ap (λ l. segments xs (drop x.len b) ++ segments ys l) (drop-drop x.len (total xs) b))

-- Only the bytes of the entries matter.
pub segments-take :
    (es : List RetainedPacket) (n : ℕ) (b : List ℕ)
    → total es ≤ n
    → segments es (take n b) ≡ segments es b
unfolding segments
segments-take [] n b h = refl
segments-take (e ∷ es) n b h =
    ap₂ (λ x l. (e, x) ∷ l) (take-take e.len n b (omega arith))
      (ap (λ m. segments es (drop e.len (take m b))) split
        ∙ ap (segments es) (drop-take e.len (n - e.len) b)
        ∙ segments-take es (n - e.len) (drop e.len b) (omega arith))
  where
    split : n ≡ e.len + (n - e.len)
    split = omega arith

pub segments_same :
    (es : List RetainedPacket) (b c : List ℕ)
    → take (total es) b ≡ take (total es) c
    → segments es b ≡ segments es c
segments_same es b c h =
    sym (segments-take es (total es) b (omega arith))
    ∙ ap (segments es) h
    ∙ segments-take es (total es) c (omega arith)

-- A search splits the list at the element that it finds.
pub data Found {ℓ} {A : Type ℓ} (p : A → Bool) : List A → Type ℓ where
  absent : {xs : List A} → All (λ y. p y ≡ false) xs → position p xs ≡ none → Found p xs
  found :
      {xs : List A} (front back : List A) (x : A)
      → xs ≡ front ++ (x ∷ back)
      → All (λ y. p y ≡ false) front
      → p x ≡ true
      → position p xs ≡ some (length front)
      → Found p xs

pub find {ℓ} : {A : Type ℓ} (p : A → Bool) (xs : List A) → Found p xs
find p [] = absent tt refl
find p (x ∷ xs) = elim (Bool-cases (p x)) [
  | inl hit ↦ found [] xs x refl tt hit (rw hit refl)
  | inr miss ↦ elim (find p xs) [
    | absent none_of e ↦ absent (miss, none_of) (rw (miss, e) refl)
    | found front back y eq none_of hit e ↦
        found (x ∷ front) back y (ap (◌∷◌ x) eq) (miss, none_of) hit (rw (miss, e) refl)
  ]
]
