-- ===== src/Staging/Object/Handled.antt =====
-- An inbound publication keeps the state of the service and the stored bytes together.
use mathlib.Core.Path.{subst}
use minimq.Prelude.{
  Bool, Bool-cases, Option, Result, [], arith, drop, err, if◌then◌else◌, inl, inr, length, ltb,
  none, not, ok, refl, some, ℕ, ◌<◌, ◌==◌, ◌^◌, ◌||◌, ◌∙◌, ◌≡◌,
}
use minimq.Properties.Collection.{Properties}
use minimq.Staging.{
  Bytes, PendingRequest, StagingWrite, State, StatusCode, Transfer, accepted, chunk_suffix,
  current_code, is_idle, manifest_suffix, mtu, oversize, preparing, publish, ready, writing,
}
use minimq.Staging.Inbound.{
  accept_manifest, chunk_for, chunk_in, chunk_topic, chunk_validated, chunk_with, handle_chunk,
  handle_manifest, handle_publish, is_suffix, manifest_read, same_transfer,
}
use minimq.Staging.Object.{World, noted}
use minimq.Staging.Object.Sound.{Bounded, Good, IsSound, Stage, keep, through_queue}
use minimq.Staging.Rules.{
  ChunkError, Manifest, ManifestReader, all, chunk_properties, eq_bytes, fail_code, is_whitespace,
  parse_manifest, parsed, queue_code, required_rx_bytes, strip_prefix, valid_id, validate_chunk,
}
use minimq.Staging.Rules.Chunk.{Ends, validate_chunk-Ends}

same_transfer_of : (a b : Transfer) (o : Option Transfer) → o ≡ some a → o ≡ some b → a ≡ b
same_transfer_of a b o e f = cc

parsed_fresh :
    (reader : ManifestReader) (payload : Bytes) (m : Transfer)
    → parse_manifest reader payload ≡ some m
    → m.next_offset ≡ 0
unfolding parse_manifest parsed
parsed_fresh reader payload m e = at (reader payload) e
  where
    at : (o : Option (Manifest × ℕ)) → parsed payload o ≡ some m → m.next_offset ≡ 0
    at none h = absurd (cc)
    at (some (read, used)) h =
        elim (Bool-cases (not (valid_id read.id) || not (all is_whitespace (drop used payload)))) [
          | inl f ↦ absurd (ground (arith, f, h))
          | inr f ↦ ground (arith, f, h)
        ]

module _ {Op : Type 0} where
  accept_manifest-IsSound :
      (m : Transfer) (w : World Op)
      → m.next_offset ≡ 0
      → IsSound w
      → IsSound (noted (accept_manifest m w.service) w)
  unfolding accept_manifest noted
  accept_manifest-IsSound m w start h = elim (Bool-cases (m.size == 0)) [
    | inl e ↦ rw e (keep (publish StatusCode.error) w.service w.outstanding w.stored h)
    | inr e ↦ elim (Bool-cases (ltb w.service.capacity m.size)) [
      | inl f ↦ rw (e, f) (keep (publish oversize) w.service w.outstanding w.stored h)
      | inr f ↦
          elim (Bool-cases (
            ltb w.service.max_rx_packet_size
              (required_rx_bytes (chunk_topic w.service) m.id w.service.max_chunk_size))) [
                | inl g ↦ rw (e, f, g) (keep (publish mtu) w.service w.outstanding w.stored h)
                | inr g ↦
                    rw (e, f, g)
                      (through_queue
                        (λ c n st r t. Good c n st (some PendingRequest.prepare) t none [])
                        (publish accepted)
                        (record w.service { transfer = some m; state = preparing })
                        (
                          h.0,
                          (
                            refl,
                            refl,
                            refl,
                            (m, refl, start, (ground (arith, start, e), ground (arith, f))),
                          ),
                        ))
              ]
    ]
  ]

  validated-IsSound :
      (t : Transfer) (start : ℕ) (payload : Bytes) (w : World Op) (r : Result ChunkError ℕ)
      → w.service.max_chunk_size < 2 ^ 32
      → w.service.request ≡ none
      → w.outstanding ≡ none
      → w.service.transfer ≡ some t
      → t.next_offset ≡ length w.stored
      → Bounded w.service.capacity t
      → IsSound w
      → ((end : ℕ)
          → r ≡ ok end
          → (start ≡ t.next_offset) × (t.next_offset < end) × Ends end t payload)
      → IsSound (noted (chunk_validated t start payload r w.service) w)
  unfolding chunk_validated noted
  validated-IsSound t start payload w (err (queue_code code)) wide er eo et next bound h ends =
      keep (publish code) w.service w.outstanding w.stored h
  validated-IsSound t start payload w (err (fail_code code)) wide er eo et next bound h ends =
      keep (publish code) (record w.service { state = State.error }) w.outstanding w.stored
        (wide, (er, eo, (t, et)))
  validated-IsSound t start payload w (ok end) wide er eo et next bound h ends =
      let (at, more, ending) = ends end refl in
      let chunk : StagingWrite = record {
        offset = start;
        payload = payload;
        size = t.size;
        fnv1a64 = if end == t.size then some t.fnv1a64 else none;
      } in
      (
        wide,
        (
          t,
          chunk,
          end,
          (end == t.size),
          refl,
          et,
          refl,
          (bound, next, at ∙ next, more, refl, ending),
        ),
      )

  chunk_in-IsSound :
      (st : State) (t : Transfer) (start : ℕ) (payload : Bytes) (w : World Op)
      → w.service.state ≡ st
      → w.service.transfer ≡ some t
      → IsSound w
      → IsSound (noted (chunk_in st t start payload w.service) w)
  unfolding chunk_in noted
  chunk_in-IsSound preparing t start payload w es et h = h
  chunk_in-IsSound writing t start payload w es et h = h
  chunk_in-IsSound State.complete t start payload w es et h =
      keep (publish _) w.service w.outstanding w.stored h
  chunk_in-IsSound State.error t start payload w es et h =
      keep (publish _) w.service w.outstanding w.stored h
  chunk_in-IsSound State.idle t start payload w es et h =
      keep (publish _) w.service w.outstanding w.stored h
  chunk_in-IsSound ready t start payload w es et h =
      let (er, eo, (m, em, next, bound)) =
        subst
          (λ st.
            Stage w.service.capacity st w.service.request w.service.transfer w.outstanding w.stored)
          es h.1 in
      let same = same_transfer_of m t w.service.transfer em et in
      let here : t.next_offset ≡ length w.stored =
        subst (λ x. x.next_offset ≡ length w.stored) same next in
      let bounded : Bounded w.service.capacity t = subst (Bounded w.service.capacity) same bound in
      validated-IsSound t start payload w
        (validate_chunk t start payload w.service.capacity w.service.max_chunk_size
          w.service.write_size)
        h.0 er eo et here bounded h
        (λ end e.
          validate_chunk-Ends t start payload w.service.capacity w.service.max_chunk_size
            w.service.write_size end bounded.0 h.0 e)

  handle_chunk-IsSound :
      (o : Option Transfer) (id : Bytes) (start : ℕ) (payload : Bytes) (w : World Op)
      → w.service.transfer ≡ o
      → IsSound w
      → IsSound (noted (chunk_for o id start payload w.service) w)
  unfolding chunk_for noted
  handle_chunk-IsSound none id start payload w e h =
      keep (publish StatusCode.idle) w.service w.outstanding w.stored h
  handle_chunk-IsSound (some t) id start payload w e h = elim (Bool-cases (eq_bytes id t.id)) [
    | inl f ↦ rw f (chunk_in-IsSound w.service.state t start payload w refl e h)
    | inr f ↦ rw f h
  ]

  manifest_read-IsSound :
      (o : Option Transfer) (w : World Op)
      → ((m : Transfer) → o ≡ some m → m.next_offset ≡ 0)
      → IsSound w
      → IsSound (noted (manifest_read o w.service) w)
  unfolding manifest_read noted
  manifest_read-IsSound none w fresh h = elim (Bool-cases (is_idle w.service.state)) [
    | inl e ↦ rw e (keep (publish StatusCode.error) w.service w.outstanding w.stored h)
    | inr e ↦ rw e h
  ]
  manifest_read-IsSound (some m) w fresh h = elim (Bool-cases (is_idle w.service.state)) [
    | inl e ↦ rw e (accept_manifest-IsSound m w (fresh m refl) h)
    | inr e ↦ elim (Bool-cases (same_transfer m w.service.transfer)) [
      | inl f ↦
          rw (e, f) (keep (publish (current_code w.service)) w.service w.outstanding w.stored h)
      | inr f ↦ rw (e, f) h
    ]
  ]

  pub handle_publish-IsSound :
      (reader : ManifestReader) (topic_bytes payload : Bytes) (properties : Properties)
      (retained : Bool) (w : World Op)
      → IsSound w
      → IsSound (noted (handle_publish reader topic_bytes payload properties retained w.service) w)
  unfolding handle_publish noted handle_manifest chunk_with handle_chunk
  handle_publish-IsSound reader topic_bytes payload properties retained w h =
      elim (Bool-cases (is_suffix suffix manifest_suffix || is_suffix suffix chunk_suffix)) [
        | inr e ↦ rw e h
        | inl e ↦ elim (Bool-cases retained) [
          | inl f ↦ rw (e, f) h
          | inr f ↦ elim (Bool-cases (is_suffix suffix manifest_suffix)) [
            | inl g ↦
                rw (e, f, g)
                  (manifest_read-IsSound (parse_manifest reader payload) w
                    (parsed_fresh reader payload) h)
            | inr g ↦ rw (e, f, g) (with_chunk (chunk_properties properties))
          ]
        ]
      ]
    where
      suffix : Option Bytes
      suffix = strip_prefix w.service.prefix topic_bytes

      with_chunk : (o : Option (Bytes × ℕ)) → IsSound (noted (chunk_with o payload w.service) w)
      with_chunk none = h
      with_chunk (some (id, start)) =
          handle_chunk-IsSound w.service.transfer id start payload w refl h
