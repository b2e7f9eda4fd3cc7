-- ===== src/Outbound/View/Bounds.antt =====
-- The sizes of the queues and of the retained packets under the list operations, and the invariant
-- under the operations that change one queue.
use minimq.Control.{ControlAction}
use minimq.Outbound.{
  Outbound, PendingControl, PendingRelease, RetainedPacket, VecOps, clear_inflight, copy_within,
  filter, max_pending_control, max_pending_release, modify_at, modify_first, retained_bytes,
  set_connect_workspace, total, write,
}
use minimq.Outbound.Queues.{control_pushed, queue_control, queue_release, release_pushed}
use minimq.Outbound.View.{IsValid}
use minimq.Prelude.{
  All, Bool, Bool-cases, List, Option-cases, [], ap, arith, drop, inl, inr, length, length-append,
  length-write_at, ltb, ltb→lt, map, refl, some, suc, take, zero, ℕ, ◌++◌, ◌+◌, ◌-◌, ◌<◌, ◌∷◌, ◌≡◌,
  ◌≤◌, ◌⊎◌,
}
use minimq.Reason.{ReasonCode}

module _ {A : Type 0} where
  pub pushed-bound :
      (v : VecOps) (n : ℕ) (x : A) (xs ys : List A)
      → v.vec_push n x xs ≡ some ys
      → length xs ≤ n
      → (ys ≡ xs ++ (x ∷ [])) × (length ys ≤ n)
  pushed-bound v n x xs ys e h = elim (Bool-cases (ltb (length xs) n)) [
    | inl room ↦
        let same : ys ≡ xs ++ (x ∷ []) =
          ground (arith, e, v.vec_push_room n x xs (ltb→lt _ _ room)) in
        (same, omega (arith, ap length same, length-append xs (x ∷ []), ltb→lt _ _ room))
    | inr full ↦ absurd (ground (arith, e, v.vec_push_full n x xs (ground arith)))
  ]

  pub length-filter : (p : A → Bool) (xs : List A) → length (filter p xs) ≤ length xs
  length-filter p [] = omega arith
  length-filter p (x ∷ xs) = ground (arith, length-filter p xs)

  pub length-map : {B : Type 0} (f : A → B) (xs : List A) → length (map f xs) ≡ length xs
  length-map f [] = refl
  length-map f (x ∷ xs) = omega (arith, length-map f xs)

  pub length-modify_first :
      (p : A → Bool) (f : A → A) (xs : List A) → length (modify_first p f xs) ≡ length xs
  length-modify_first p f [] = refl
  length-modify_first p f (x ∷ xs) = elim (Bool-cases (p x)) [
    | inl e ↦ rw e refl
    | inr e ↦ rw e (omega (arith, length-modify_first p f xs))
  ]

  pub length-modify_at : (i : ℕ) (f : A → A) (xs : List A) → length (modify_at i f xs) ≡ length xs
  length-modify_at i f [] = refl
  length-modify_at zero f (x ∷ xs) = refl
  length-modify_at (suc i) f (x ∷ xs) = omega (arith, length-modify_at i f xs)

module _ (f : RetainedPacket → RetainedPacket)
    (same : (e : RetainedPacket) → (f e).len ≡ e.len) where
  pub total-map : (es : List RetainedPacket) → total (map f es) ≡ total es
  total-map [] = refl
  total-map (e ∷ es) = omega (arith, total-map es, same e)

  pub non_empty-map :
      (es : List RetainedPacket) → All (λ e. 0 < e.len) es → All (λ e. 0 < e.len) (map f es)
  non_empty-map [] h = tt
  non_empty-map (e ∷ es) (pos, h) = (omega (arith, same e), non_empty-map es h)

  pub total-modify_first :
      (p : RetainedPacket → Bool) (es : List RetainedPacket)
      → total (modify_first p f es) ≡ total es
  total-modify_first p [] = refl
  total-modify_first p (e ∷ es) = elim (Bool-cases (p e)) [
    | inl c ↦ rw c (omega (arith, same e))
    | inr c ↦ rw c (omega (arith, total-modify_first p es))
  ]

  pub non_empty-modify_first :
      (p : RetainedPacket → Bool) (es : List RetainedPacket)
      → All (λ e. 0 < e.len) es
      → All (λ e. 0 < e.len) (modify_first p f es)
  non_empty-modify_first p [] h = tt
  non_empty-modify_first p (e ∷ es) (pos, h) = elim (Bool-cases (p e)) [
    | inl c ↦ rw c (omega (arith, same e), h)
    | inr c ↦ rw c (pos, non_empty-modify_first p es h)
  ]

pub workspace-IsValid :
    (len : ℕ) (o : Outbound) → IsValid o → IsValid (set_connect_workspace len o).0
unfolding set_connect_workspace retained_bytes
workspace-IsValid len o valid = elim (Bool-cases (ltb (length o.buf) len)) [
  | inl c ↦ rw c valid
  | inr c ↦ elim (Bool-cases (ltb (length o.buf - len) (total o.retained))) [
    | inl d ↦ rw (c, d) valid
    | inr d ↦
        rw (c, d)
          (record {
            inside = ground (arith, c, d);
            non_empty = valid.non_empty;
            retained_bound = valid.retained_bound;
            control_bound = valid.control_bound;
            release_bound = valid.release_bound;
          })
  ]
]

pub clear-IsValid : (o : Outbound) → IsValid o → IsValid (clear_inflight o)
unfolding clear_inflight
clear-IsValid o valid = record {
  inside = omega (arith, valid.inside);
  non_empty = tt;
  retained_bound = omega arith;
  control_bound = omega arith;
  release_bound = omega arith;
}

pub control_bound-IsValid :
    (o : Outbound) (queue : List PendingControl)
    → IsValid o
    → length queue ≤ max_pending_control
    → IsValid (record o { pending_control = queue })
control_bound-IsValid o queue valid h = record {
  inside = valid.inside;
  non_empty = valid.non_empty;
  retained_bound = valid.retained_bound;
  control_bound = h;
  release_bound = valid.release_bound;
}

pub release_bound-IsValid :
    (o : Outbound) (queue : List PendingRelease)
    → IsValid o
    → length queue ≤ max_pending_release
    → IsValid (record o { pending_release = queue })
release_bound-IsValid o queue valid h = record {
  inside = valid.inside;
  non_empty = valid.non_empty;
  retained_bound = valid.retained_bound;
  control_bound = valid.control_bound;
  release_bound = h;
}

pub retained_bound-IsValid :
    (o : Outbound) (es : List RetainedPacket)
    → IsValid o
    → total es ≡ total o.retained
    → All (λ e. 0 < e.len) es
    → length es ≡ length o.retained
    → IsValid (record o { retained = es })
retained_bound-IsValid o es valid size pos count = record {
  inside = omega (arith, valid.inside, size);
  non_empty = pos;
  retained_bound = omega (arith, valid.retained_bound, count);
  control_bound = valid.control_bound;
  release_bound = valid.release_bound;
}

pub queue_control-IsValid :
    (v : VecOps) (action : ControlAction) (o : Outbound)
    → IsValid o
    → IsValid (queue_control v action o).0
unfolding queue_control control_pushed
queue_control-IsValid v action o valid =
    elim (Option-cases (
      v.vec_push max_pending_control (record { action = action; state = write 0 })
        o.pending_control)) [
          | inl e ↦ rw e valid
          | inr (queue, e) ↦ rw e (
              control_bound-IsValid o queue valid
                (pushed-bound v max_pending_control _ o.pending_control queue e
                  valid.control_bound).1)
        ]

pub queue_release-IsValid :
    (v : VecOps) (packet_id : ℕ) (reason : ReasonCode) (o : Outbound)
    → IsValid o
    → IsValid (queue_release v packet_id reason o).0
unfolding queue_release release_pushed
queue_release-IsValid v packet_id reason o valid =
    elim (Option-cases (
      v.vec_push max_pending_release
        (record { packet_id = packet_id; reason = reason; state = write 0 }) o.pending_release)) [
          | inl e ↦ rw e valid
          | inr (queue, e) ↦ rw e (
              release_bound-IsValid o queue valid
                (pushed-bound v max_pending_release _ o.pending_release queue e
                  valid.release_bound).1)
        ]

pub length-take_bound {ℓ} : {A : Type ℓ} (n : ℕ) (xs : List A) → length (take n xs) ≤ n
length-take_bound zero xs = omega arith
length-take_bound (suc n) [] = omega arith
length-take_bound (suc n) (x ∷ xs) = omega (arith, length-take_bound n xs)

pub length-copy_within :
    (src_start src_end dest : ℕ) (buf : List ℕ)
    → dest + (src_end - src_start) ≤ length buf
    → length (copy_within src_start src_end dest buf) ≡ length buf
length-copy_within src_start src_end dest buf h =
    length-write_at dest (take (src_end - src_start) (drop src_start buf)) buf
      (omega (arith, length-take_bound (src_end - src_start) (drop src_start buf)))

pub last_split {ℓ} :
    {A : Type ℓ} (xs : List A) → (xs ≡ []) ⊎ ((front : List A) × (y : A) × (xs ≡ front ++ (y ∷ [])))
last_split [] = inl refl
last_split (x ∷ xs) = elim (last_split xs) [
  | inl e ↦ inr ([], x, ap (◌∷◌ x) e)
  | inr (front, y, e) ↦ inr (x ∷ front, y, ap (◌∷◌ x) e)
]

pub swap_remove-bound :
    {A : Type 0} (v : VecOps) (front back : List A) (x : A)
    → length (v.swap_remove (length front) (front ++ (x ∷ back))) ≤ length (front ++ (x ∷ back))
swap_remove-bound v front back x = elim (last_split back) [
  | inl e ↦ rw (e, v.swap_remove_last front x) (omega (arith, length-append front (x ∷ [])))
  | inr (ys, y, e) ↦
      rw (e, v.swap_remove_inner front ys x y)
        (omega (
          arith,
          length-append front (y ∷ ys),
          length-append front (x ∷ (ys ++ (y ∷ []))),
          length-append ys (y ∷ []),
        ))
]

pub All-remove {ℓ κ} :
    {A : Type ℓ} (P : A → Type κ) (front back : List A) (x : A)
    → All P (front ++ (x ∷ back))
    → All P (front ++ back)
All-remove P [] back x h = h.1
All-remove P (y ∷ front) back x (hy, h) = (hy, All-remove P front back x h)

pub All-append {ℓ κ} :
    {A : Type ℓ} (P : A → Type κ) (xs ys : List A) → All P xs → All P ys → All P (xs ++ ys)
All-append P [] ys h g = g
All-append P (x ∷ xs) ys (hx, h) g = (hx, All-append P xs ys h g)
