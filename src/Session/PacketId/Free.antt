-- ===== src/Session/PacketId/Free.antt =====
-- A free packet identifier is found: the identifiers that are tried differ, and there are more of
-- them than identifiers in use.
use mathlib.Core.Path.{ap₂}
use minimq.Outbound.{
  Outbound, PendingRelease, RetainedPacket, any, has_pending_release, has_retained,
}
use minimq.Outbound.View.{IsValid}
use minimq.Outbound.View.Ack.{remove_first}
use minimq.Outbound.View.Bounds.{length-map}
use minimq.Prelude.{
  Bool, Bool-cases, List, [], ap, arith, false, if◌then◌else◌, inl, inr, leb, length, length-append,
  map, refl, some, suc, sym, true, zero, ℕ, ◌++◌, ◌+◌, ◌-◌, ◌<◌, ◌==◌, ◌||◌, ◌∙◌, ◌∷◌, ◌≡◌, ◌≢◌,
  ◌≤◌,
}
use minimq.Session.{SessionData}
use minimq.Session.Inbound.ExactlyOnce.Kept.{any-append}
use minimq.Session.PacketId.{following, in_use, next_packet_id}

abbrev member : ℕ → List ℕ → Bool
member id = any (λ i. i == id)

remove_id : ℕ → List ℕ → List ℕ
remove_id id = remove_first (λ i. i == id)

length-remove_id :
    (id : ℕ) (xs : List ℕ) → member id xs ≡ true → length (remove_id id xs) + 1 ≡ length xs
unfolding remove_id
length-remove_id id [] h = absurd (ground arith)
length-remove_id id (x ∷ xs) h = elim (Bool-cases (x == id)) [
  | inl e ↦ rw e (omega arith)
  | inr e ↦ rw e (omega (arith, length-remove_id id xs (sym (ap (λ b. b || member id xs) e) ∙ h)))
]

member-remove_id :
    (id other : ℕ) (xs : List ℕ)
    → other ≢ id
    → member other xs ≡ true
    → member other (remove_id id xs) ≡ true
unfolding remove_id
member-remove_id id other [] differ h = h
member-remove_id id other (x ∷ xs) differ h = elim (Bool-cases (x == id)) [
  | inl e ↦ rw e (ground (arith, e, h, differ))
  | inr e ↦ rw e (elim (Bool-cases (x == other)) [
    | inl f ↦ rw f refl
    | inr f ↦
        rw f (member-remove_id id other xs differ (sym (ap (λ b. b || member other xs) f) ∙ h))
  ])
]

-- The identifier tried after `k` others.
candidate : ℕ → ℕ → ℕ
candidate id k = if leb (id + k) 65535 then id + k else id + k - 65535

following-bound : (id : ℕ) → 0 < id → id ≤ 65535 → (0 < following id) × (following id ≤ 65535)
unfolding following
following-bound id pos le = ground arith

candidate-following :
    (id k : ℕ) → 0 < id → id ≤ 65535 → k < 17 → candidate (following id) k ≡ candidate id (k + 1)
unfolding candidate following
candidate-following id k pos le small = ground arith

candidate_zero : (id : ℕ) → id ≤ 65535 → candidate id 0 ≡ id
unfolding candidate
candidate_zero id le = ground arith

candidate_differs : (id k : ℕ) → 0 < id → id ≤ 65535 → k < 17 → candidate id (k + 1) ≢ id
unfolding candidate
candidate_differs id k pos le small = ground arith

-- The identifiers in use.
held_ids : Outbound → List ℕ
held_ids o =
    map {A = RetainedPacket} (λ e. e.packet_id) o.retained
    ++ map {A = PendingRelease} (λ p. p.packet_id) o.pending_release

any-map :
    {A : Type 0} (f : A → ℕ) (id : ℕ) (xs : List A) → member id (map f xs) ≡ any (λ x. f x == id) xs
any-map f id [] = refl
any-map f id (x ∷ xs) = ap (λ b. (f x == id) || b) (any-map f id xs)

member-held_ids : (id : ℕ) (o : Outbound) → in_use id o ≡ member id (held_ids o)
unfolding in_use held_ids has_retained has_pending_release
member-held_ids id o = sym (
    any-append (λ i. i == id) (map {A = RetainedPacket} (λ e. e.packet_id) o.retained)
      (map {A = PendingRelease} (λ p. p.packet_id) o.pending_release)
    ∙ ap₂ ◌||◌ (any-map (λ e. e.packet_id) id o.retained)
        (any-map (λ p. p.packet_id) id o.pending_release))

-- The search gives an identifier that may be used, and keeps the outbound state.
abbrev pub Finds : ℕ → SessionData → Type 0
Finds fuel d =
    (id : ℕ) × (d' : SessionData) × (next_packet_id fuel d ≡ (d', some id))
    × (0 < id)
    × (id ≤ 65535)
    × (has_retained id d.outbound ≡ false)
    × (has_pending_release id d.outbound ≡ false)
    × (d'.outbound ≡ d.outbound)

free_unused :
    (id : ℕ) (o : Outbound)
    → in_use id o ≡ false
    → (has_retained id o ≡ false) × (has_pending_release id o ≡ false)
unfolding in_use
free_unused id o h = elim (Bool-cases (has_retained id o)) [
  | inl e ↦ absurd (ground (arith, e, h))
  | inr e ↦ (e, sym (ap (λ b. b || has_pending_release id o) e) ∙ h)
]

search :
    (fuel : ℕ) (d : SessionData) (left : List ℕ)
    → length left < fuel
    → fuel ≤ 17
    → 0 < d.packet_id
    → d.packet_id ≤ 65535
    → ((k : ℕ)
        → k < fuel
        → in_use (candidate d.packet_id k) d.outbound ≡ true
        → member (candidate d.packet_id k) left ≡ true)
    → Finds fuel d
unfolding next_packet_id
search zero d left short small pos le inv = absurd (omega arith)
search (suc fuel) d left short small pos le inv =
    elim (Bool-cases (in_use d.packet_id d.outbound)) [
      | inr e ↦
          let (unheld, unreleased) = free_unused d.packet_id d.outbound e in
          (
            d.packet_id,
            record d { packet_id = following d.packet_id },
            rw e refl,
            pos,
            le,
            unheld,
            unreleased,
            refl,
          )
      | inl e ↦
          let bound = following-bound d.packet_id pos le in
          rw e (
            search fuel (record d { packet_id = following d.packet_id })
              (remove_id d.packet_id left)
              (omega (arith, short, length-remove_id d.packet_id left (here e))) (omega arith)
              bound.0 bound.1 later)
    ]
  where
    at_once : candidate d.packet_id 0 ≡ d.packet_id
    at_once = candidate_zero d.packet_id le

    here : in_use d.packet_id d.outbound ≡ true → member d.packet_id left ≡ true
    here e =
        sym (ap (λ i. member i left) at_once)
        ∙ inv 0 (omega arith) (ap (λ i. in_use i d.outbound) at_once ∙ e)

    later :
        (k : ℕ)
        → k < fuel
        → in_use (candidate (following d.packet_id) k) d.outbound ≡ true
        → member (candidate (following d.packet_id) k) (remove_id d.packet_id left) ≡ true
    later k h used =
        let step = candidate-following d.packet_id k pos le (omega arith) in
        ap (λ i. member i (remove_id d.packet_id left)) step
        ∙ member-remove_id d.packet_id (candidate d.packet_id (k + 1)) left
            (candidate_differs d.packet_id k pos le (omega arith))
            (inv (k + 1) (omega arith) (sym (ap (λ i. in_use i d.outbound) step) ∙ used))

length-held_ids : (o : Outbound) → IsValid o → length (held_ids o) < 17
unfolding held_ids
length-held_ids o valid = omega (
  arith,
  valid.retained_bound,
  valid.release_bound,
  length-append (map {A = RetainedPacket} (λ e. e.packet_id) o.retained)
      (map {A = PendingRelease} (λ p. p.packet_id) o.pending_release),
  length-map {A = RetainedPacket} (λ e. e.packet_id) o.retained,
  length-map {A = PendingRelease} (λ p. p.packet_id) o.pending_release,
)

-- With a valid outbound state and a counter between 1 and 65535, 17 rounds of `next_packet_id` are
-- enough. They give an identifier between 1 and 65535 that no held packet and no pending PUBREL
-- has, and leave the outbound state as it is.
pub next_packet_id-Finds :
    (d : SessionData) → IsValid d.outbound → 0 < d.packet_id → d.packet_id ≤ 65535 → Finds 17 d
next_packet_id-Finds d valid pos le =
    search 17 d (held_ids d.outbound) (length-held_ids d.outbound valid) (omega arith) pos le
      (λ k h used. sym (member-held_ids (candidate d.packet_id k) d.outbound) ∙ used)
