-- ===== src/Staging/Object/Advances.antt =====
-- A transfer that is ready makes progress with the chunk that it waits for.
-- The chunk that is expected next: not empty, no larger than agreed, aligned, inside the object.
use mathlib.Core.Path.{subst}
use minimq.Prelude.{
  Bool, ap, arith, false, if◌then◌else◌, leb, length, ltb, none, ok, refl, some, sym, true, ℕ, ◌%◌,
  ◌+◌, ◌<◌, ◌==◌, ◌^◌, ◌||◌, ◌∙◌, ◌≡◌, ◌≤◌,
}
use minimq.Staging.{
  Bytes, PendingRequest, Service, StagingRequest, StagingWrite, State, StatusCode, Transfer,
  accepted, complete_request, completed, consumed, finished, multiple_of, publish, ready, request,
  writing,
}
use minimq.Staging.Inbound.{chunk_for, chunk_in, chunk_validated, handle_chunk}
use minimq.Staging.Object.Sound.{through_queue}
use minimq.Staging.Rules.{chunk_end, eq_bytes, validate_chunk}

abbrev pub IsNext : ℕ → ℕ → Transfer → Bytes → Type 0
IsNext max_chunk_size write_size t payload =
    (0 < length payload)
    × (length payload ≤ max_chunk_size)
    × (multiple_of (length payload) write_size ≡ true)
    × (t.next_offset + length payload ≤ t.size)

chunk_end-next :
    (t : Transfer) (payload : Bytes) (capacity end : ℕ)
    → end ≤ t.size
    → t.size ≤ capacity
    → t.size < 2 ^ 32
    → chunk_end t t.next_offset payload capacity end ≡ ok end
unfolding chunk_end
chunk_end-next t payload capacity end inside fits wide = rw (narrow, held, within) refl
  where
    narrow : leb (2 ^ 32) end ≡ false
    narrow = ground arith

    held : ltb capacity end ≡ false
    held = ground arith

    within : leb end t.size ≡ true
    within = ground arith

validate_chunk-next :
    (t : Transfer) (payload : Bytes) (capacity max_chunk_size write_size : ℕ)
    → IsNext max_chunk_size write_size t payload
    → t.size ≤ capacity
    → t.size < 2 ^ 32
    → validate_chunk t t.next_offset payload capacity max_chunk_size write_size
      ≡ ok (t.next_offset + length payload)
unfolding validate_chunk
validate_chunk-next t payload capacity max_chunk_size write_size
      (some_bytes, small, aligned, inside) fits wide =
    rw (not_before, at, sized, aligned, whole)
      (chunk_end-next t payload capacity (t.next_offset + length payload) inside fits wide)
  where
    not_before : ltb t.next_offset t.next_offset ≡ false
    not_before = ground arith

    at : (t.next_offset == t.next_offset) ≡ true
    at = ground arith

    sized : (length payload == 0 || ltb max_chunk_size (length payload)) ≡ false
    sized = ground arith

    whole : length payload % 2 ^ 32 ≡ length payload
    whole = omega arith

-- Where the transfer stands after a chunk that ends at `end` is stored.
abbrev pub stage_after : ℕ → ℕ → State
stage_after end size = if end == size then State.complete else ready

module _ {Op : Type 0} where
  abbrev pub After : ℕ → Transfer → Service Op → Type 0
  After end t s =
      (s.transfer ≡ some (record t { next_offset = end })) × (s.state ≡ stage_after end t.size)

  finished-After :
      (end : ℕ) (t : Transfer) (s : Service Op) (final_chunk : Bool)
      → (end == t.size) ≡ final_chunk
      → After end t (finished (PendingRequest.write end final_chunk) t s)
  unfolding finished
  finished-After end t s true e =
      through_queue
        (λ c m st r o. (o ≡ some (record t { next_offset = end })) × (st ≡ stage_after end t.size))
        (publish StatusCode.complete)
        (record s { transfer = some (record t { next_offset = t.size }); state = State.complete })
        (ap (λ n. some (record t { next_offset = n })) (ground (arith, e)), rw e refl)
  finished-After end t s false e =
      through_queue
        (λ c m st r o. (o ≡ some (record t { next_offset = end })) × (st ≡ stage_after end t.size))
        (publish accepted)
        (record s { transfer = some (record t { next_offset = end }); state = ready })
        (refl, rw e refl)

  -- The next chunk of the object that is transferred leads to a request for the storage, and when
  -- the storage reports success the transfer has moved to the end of the chunk, and is complete
  -- exactly where that is the end of the object.
  pub chunk-advances :
      (s : Service Op) (t : Transfer) (id payload : Bytes)
      → s.state ≡ ready
      → s.transfer ≡ some t
      → eq_bytes id t.id ≡ true
      → IsNext s.max_chunk_size s.write_size t payload
      → t.size ≤ s.capacity
      → t.size < 2 ^ 32
      → (w : StagingWrite) × ((handle_chunk id t.next_offset payload s).1
          ≡ request (StagingRequest.write w))
        × (w.offset ≡ t.next_offset)
        × (w.payload ≡ payload)
        × After
            (t.next_offset + length payload)
            t
            (complete_request true (handle_chunk id t.next_offset payload s).0)
  unfolding handle_chunk complete_request completed
  chunk-advances s t id payload es et named next fits wide = (
    written,
    ap (λ r. r.1) accepted_chunk,
    refl,
    refl,
    subst (λ r. After end t (complete_request true r.0)) (sym accepted_chunk) after_report,
  )
    where
      end : ℕ
      end = t.next_offset + length payload

      written : StagingWrite
      written = record {
        offset = t.next_offset;
        payload = payload;
        size = t.size;
        fnv1a64 = if end == t.size then some t.fnv1a64 else none;
      }

      busy_service : Service Op
      busy_service = record s {
        state = writing;
        request = some (PendingRequest.write end (end == t.size));
      }

      accepted_chunk :
          handle_chunk id t.next_offset payload s
          ≡ (busy_service, request (StagingRequest.write written))
      accepted_chunk =
          ap (λ o. chunk_for o id t.next_offset payload s) et
          ∙ ap (λ b. if b then chunk_in s.state t t.next_offset payload s else (s, consumed)) named
          ∙ ap (λ st. chunk_in st t t.next_offset payload s) es
          ∙ ap (λ r. chunk_validated t t.next_offset payload r s)
              (validate_chunk-next t payload s.capacity s.max_chunk_size s.write_size next fits
                wide)

      after_report : After end t (complete_request true busy_service)
      after_report =
          subst
            (λ o.
              After end t
                (completed true (some (PendingRequest.write end (end == t.size))) o busy_service))
            (sym et)
            (finished-After end t (record busy_service { request = none }) (end == t.size) refl)
