-- ===== src/Staging/Object/Reported.antt =====
-- A report of the storage, and an abort, keep the state of the service and the stored bytes together.
use mathlib.Core.Path.{subst}
use minimq.Prelude.{
  Bool, Bool-cases, Option, [], ap, arith, drop, drop-append, false, inl, inr, length,
  length-append, none, refl, some, suc, sym, true, zero, ℕ, ◌++◌, ◌+◌, ◌-◌, ◌<◌, ◌==◌, ◌^◌, ◌∙◌,
  ◌∷◌, ◌≡◌, ◌≤◌,
}
use minimq.Staging.{
  Bytes, PendingRequest, Service, StagingWrite, State, StatusCode, Transfer, abort, accepted,
  complete_request, completed, finished, is_active, preparing, publish, ready, storage, writing,
}
use minimq.Staging.Object.{World, stop, stored_after}
use minimq.Staging.Object.Sound.{Bounded, CompleteAt, IsSound, Stage, WritingAt, keep}
use minimq.Staging.Rules.{all, erased}
use minimq.Staging.Rules.Chunk.{past}

stored_none : (result : Bool) (stored : Bytes) → stored_after result none stored ≡ stored
unfolding stored_after
stored_none true stored = refl
stored_none false stored = refl

all_none : (p : ℕ → Bool) (xs : Bytes) (n : ℕ) → length xs ≤ n → all p (drop n xs) ≡ true
all_none p [] zero h = refl
all_none p [] (suc n) h = refl
all_none p (x ∷ xs) zero h = absurd (omega arith)
all_none p (x ∷ xs) (suc n) h = all_none p xs n (omega arith)

-- What has been stored when the last chunk is written.
finished-CompleteAt :
    (capacity : ℕ) (m : Transfer) (chunk : StagingWrite) (end : ℕ) (stored : Bytes)
    → WritingAt capacity m chunk end true stored
    → CompleteAt capacity (record m { next_offset = m.size }) (stored ++ chunk.payload)
finished-CompleteAt capacity m chunk end stored ((small, fits), next, at, more, last, ends) = (
  refl,
  omega (arith, small),
  fits,
  elim ends [
    | inl (e, le) ↦ omega (arith, sum, e, next, is_end)
    | inr (e, past, erased) ↦ omega (arith, sum, next, past)
  ],
  elim ends [
    | inl (e, le) ↦
        all_none (λ b. b == 255) (stored ++ chunk.payload) m.size
          (omega (arith, sum, e, next, is_end))
    | inr (e, past, erased) ↦ ap (all (λ b. b == 255)) behind ∙ erased
  ],
)
  where
    sum : length (stored ++ chunk.payload) ≡ length stored + length chunk.payload
    sum = length-append stored chunk.payload

    is_end : end ≡ m.size
    is_end = ground (arith, last)

    behind : drop m.size (stored ++ chunk.payload) ≡ drop (m.size - m.next_offset) chunk.payload
    behind =
        ap (λ n. drop n (stored ++ chunk.payload)) (omega (arith, small, next))
        ∙ drop-append stored chunk.payload (m.size - m.next_offset)

active_transfer :
    (st : State) (c : ℕ) (r : Option PendingRequest) (t : Option Transfer)
    (chunk : Option StagingWrite) (stored : Bytes)
    → is_active st ≡ true
    → Stage c st r t chunk stored
    → (m : Transfer) × (t ≡ some m)
unfolding is_active
active_transfer preparing c r t chunk stored e (er, eo, el, (m, et, next, rest)) = (m, et)
active_transfer ready c r t chunk stored e (er, eo, (m, et, next, rest)) = (m, et)
active_transfer writing c r t chunk stored e (m, w, end, f, er, et, eo, rest) = (m, et)
active_transfer State.idle c r t chunk stored e h = absurd (ground arith)
active_transfer State.complete c r t chunk stored e h = absurd (ground arith)
active_transfer State.error c r t chunk stored e h = absurd (ground arith)

module _ {Op : Type 0} where
  -- What a report makes of the request and the outstanding write.
  abbrev Rep :
      Bool
      → Service Op
      → Option PendingRequest
      → Option Transfer
      → Option StagingWrite
      → Bytes
      → Type 0
  Rep result s r t chunk stored = IsSound (record {
    service = completed result r t s;
    outstanding = none;
    stored = stored_after result chunk stored;
  })

  nothing_requested :
      (result : Bool) (s : Service Op) (chunk : Option StagingWrite) (stored : Bytes)
      → s.request ≡ none
      → chunk ≡ none
      → IsSound (record { service = s; outstanding = chunk; stored = stored })
      → Rep result s s.request s.transfer chunk stored
  unfolding completed
  nothing_requested result s chunk stored er eo h =
      subst (λ r. Rep result s r s.transfer chunk stored) (sym er)
        (subst
          (λ o.
            IsSound
              (record { service = s; outstanding = none; stored = stored_after result o stored }))
          (sym eo)
          (subst (λ l. IsSound (record { service = s; outstanding = none; stored = l }))
            (sym (stored_none result stored))
            (subst (λ o. IsSound (record { service = s; outstanding = o; stored = stored })) eo h)))

  prepare_reported :
      (result : Bool) (s : Service Op) (m : Transfer)
      → s.max_chunk_size < 2 ^ 32
      → s.transfer ≡ some m
      → m.next_offset ≡ 0
      → Bounded s.capacity m
      → Rep result s (some PendingRequest.prepare) (some m) none []
  unfolding completed finished stored_after
  prepare_reported true s m wide et next bound =
      keep (publish accepted) (record s { request = none; state = ready }) none []
        (wide, (refl, refl, (m, et, next, bound)))
  prepare_reported false s m wide et next bound =
      keep (publish storage) (record s { request = none; state = State.error }) none []
        (wide, (refl, refl, (m, et)))

  write_reported :
      (result : Bool) (s : Service Op) (m : Transfer) (chunk : StagingWrite) (end : ℕ)
      (final_chunk : Bool) (stored : Bytes)
      → s.max_chunk_size < 2 ^ 32
      → s.transfer ≡ some m
      → WritingAt s.capacity m chunk end final_chunk stored
      → Rep result s (some (PendingRequest.write end final_chunk)) (some m) (some chunk) stored
  unfolding completed finished stored_after
  write_reported false s m chunk end final_chunk stored wide et h =
      keep (publish storage) (record s { request = none; state = State.error }) none stored
        (wide, (refl, refl, (m, et)))
  write_reported true s m chunk end true stored wide et h =
      keep (publish StatusCode.complete)
        (record s {
          request = none;
          transfer = some (record m { next_offset = m.size });
          state = State.complete;
        })
        none (stored ++ chunk.payload)
        (
          wide,
          (
            refl,
            refl,
            (
              record m { next_offset = m.size },
              refl,
              finished-CompleteAt s.capacity m chunk end stored h,
            ),
          ),
        )
  write_reported true s m chunk end false stored wide et
        ((small, fits), next, at, more, last, ends) =
      keep (publish accepted)
        (record s {
          request = none;
          transfer = some (record m { next_offset = end });
          state = ready;
        })
        none (stored ++ chunk.payload)
        (wide, (refl, refl, (record m { next_offset = end }, refl, reached.0, (reached.1, fits))))
    where
      inside : (end ≡ m.size) → ⊥
      inside e = ground (arith, last, e)

      reached : (end ≡ length (stored ++ chunk.payload)) × (end < m.size)
      reached = elim ends [
        | inl (e, le) ↦
            (omega (arith, length-append stored chunk.payload, e, next), omega (arith, le, inside))
        | inr (e, past, erased) ↦ absurd (inside e)
      ]

  reported-IsSound :
      (st : State) (result : Bool) (s : Service Op) (chunk : Option StagingWrite) (stored : Bytes)
      → s.max_chunk_size < 2 ^ 32
      → s.state ≡ st
      → Stage s.capacity st s.request s.transfer chunk stored
      → IsSound (record { service = s; outstanding = chunk; stored = stored })
      → Rep result s s.request s.transfer chunk stored
  reported-IsSound State.idle result s chunk stored wide es (er, et, eo) h =
      nothing_requested result s chunk stored er eo h
  reported-IsSound ready result s chunk stored wide es (er, eo, rest) h =
      nothing_requested result s chunk stored er eo h
  reported-IsSound State.complete result s chunk stored wide es (er, eo, rest) h =
      nothing_requested result s chunk stored er eo h
  reported-IsSound State.error result s chunk stored wide es (er, eo, rest) h =
      nothing_requested result s chunk stored er eo h
  reported-IsSound preparing result s chunk stored wide es (er, eo, el, (m, et, next, bound)) h =
      subst (λ r. Rep result s r s.transfer chunk stored) (sym er)
        (subst (λ t. Rep result s (some PendingRequest.prepare) t chunk stored) (sym et)
          (subst (λ o. Rep result s (some PendingRequest.prepare) (some m) o stored) (sym eo)
            (subst (λ l. Rep result s (some PendingRequest.prepare) (some m) none l) (sym el)
              (prepare_reported result s m wide et next bound))))
  reported-IsSound writing result s chunk stored wide es (m, w, end, final_chunk, er, et, eo, facts)
        h =
      subst (λ r. Rep result s r s.transfer chunk stored) (sym er)
        (subst (λ t. Rep result s (some (PendingRequest.write end final_chunk)) t chunk stored)
          (sym et)
          (subst (λ o. Rep result s (some (PendingRequest.write end final_chunk)) (some m) o stored)
            (sym eo) (write_reported result s m w end final_chunk stored wide et facts)))

  pub complete_request-IsSound :
      (result : Bool) (w : World Op)
      → IsSound w
      → IsSound (record {
        service = complete_request result w.service;
        outstanding = none;
        stored = stored_after result w.outstanding w.stored;
      })
  unfolding complete_request
  complete_request-IsSound result w h =
      reported-IsSound w.service.state result w.service w.outstanding w.stored h.0 refl h.1 h

  pub abort-IsSound : (w : World Op) → IsSound w → IsSound (stop w (abort w.service))
  unfolding abort stop
  abort-IsSound w h = elim (Bool-cases (is_active w.service.state)) [
    | inl e ↦
        let held =
          active_transfer w.service.state w.service.capacity w.service.request w.service.transfer
            w.outstanding w.stored e h.1 in
        rw e (
          keep (publish StatusCode.error) (record w.service { state = State.error; request = none })
            none w.stored (h.0, (refl, refl, held)))
    | inr e ↦ rw e h
  ]
