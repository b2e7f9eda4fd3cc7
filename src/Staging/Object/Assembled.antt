-- ===== src/Staging/Object/Assembled.antt =====
-- The object that a completed transfer leaves in the storage.
use mathlib.Core.Path.{subst}
use minimq.De.Reads.{at}
use minimq.Errors.{buffer_too_small}
use minimq.Prelude.{
  List, Option, Result, [], arith, drop, err, fail_if, inl, inr, length, length-take_le, ltb,
  map_err, not, ok, refl, some, sym, take, true, ℕ, ◌<◌, ◌==◌, ◌>>=◌, ◌^◌, ◌||◌, ◌∙◌, ◌∷◌, ◌≡◌, ◌≤◌,
}
use minimq.Staging.{
  Bytes, Config, Service, StagingWrite, State, Transfer, chunk_suffix, initial, manifest_suffix,
  max_topic_bytes, multiple_of, new_service, preparing, ready, status_suffix, topic, topic_error,
  writing,
}
use minimq.Staging.Drive.{Mqtt}
use minimq.Staging.Object.{
  Event, World, aborted, advance, connection_made, driven, inbound, reported, run, start_world,
}
use minimq.Staging.Object.Driven.{begin_startup-Of, step-Of}
use minimq.Staging.Object.Handled.{handle_publish-IsSound}
use minimq.Staging.Object.Reported.{abort-IsSound, complete_request-IsSound}
use minimq.Staging.Object.Sound.{Good, IsSound, Stage}
use minimq.Staging.Rules.{ManifestReader, all, erased}
use minimq.Staging.Rules.Chunk.{Ends, ok_same, past}

module _ (mqtt : Mqtt) (reader : ManifestReader) where
  advance-IsSound :
      (w : World mqtt.Op) (e : Event mqtt) → IsSound w → IsSound (advance mqtt reader w e)
  unfolding advance
  advance-IsSound w (inbound topic_bytes payload properties retained) h =
      handle_publish-IsSound reader topic_bytes payload properties retained w h
  advance-IsSound w (reported result) h = complete_request-IsSound result w h
  advance-IsSound w aborted h = abort-IsSound w h
  advance-IsSound w (connection_made event) h =
      begin_startup-Of (λ c m st r t. Good c m st r t w.outstanding w.stored) event w.service h
  advance-IsSound w (driven c) h =
      step-Of mqtt (λ c m st r t. Good c m st r t w.outstanding w.stored) c w.service h

  run-IsSound :
      (w : World mqtt.Op) (es : List (Event mqtt)) → IsSound w → IsSound (run mqtt reader w es)
  unfolding run
  run-IsSound w [] h = h
  run-IsSound w (e ∷ es) h = run-IsSound (advance mqtt reader w e) es (advance-IsSound w e h)

done_ok :
    {E A B : Type 0} (r : Result E A) (k : A → Result E B) (b : B)
    → r >>= k ≡ ok b
    → (a : A) × (r ≡ ok a) × (k a ≡ ok b)
done_ok (ok a) k b h = (a, refl, h)
done_ok (err e) k b h = absurd (cc)

initial-IsSound :
    {Op : Type 0} (prefix : Bytes) (config : Config) (s : Service Op)
    → new_service prefix config ≡ ok s
    → config.max_chunk_size < 2 ^ 32
    → IsSound (start_world s)
unfolding new_service start_world initial
initial-IsSound prefix config s e wide =
    let (sized, h1) =
      past
        (config.write_size == 0
          || (config.max_chunk_size == 0
              || not (multiple_of config.max_chunk_size config.write_size)))
        _ _ _ e in
    let (u0, e0, h2) =
      done_ok (fail_if (ltb max_topic_bytes (length prefix)) (topic_error buffer_too_small)) _ s
        h1 in
    let (u1, e1, h3) = done_ok (map_err topic_error (topic prefix manifest_suffix)) _ s h2 in
    let (u2, e2, h4) = done_ok (map_err topic_error (topic prefix status_suffix)) _ s h3 in
    let (u3, e3, h5) = done_ok (map_err topic_error (topic prefix chunk_suffix)) _ s h4 in
    subst (λ x. IsSound (start_world x)) (ok_same (initial prefix config) s h5)
      (wide, (refl, refl, refl))

-- A write goes on where the stored bytes end, inside the object that is transferred: its bytes reach
-- to a later place of the object, or to its end with nothing but erased bytes behind it.
abbrev pub Continues : {Op : Type 0} → World Op → StagingWrite → Type 0
Continues w chunk =
    (t : Transfer) × (end : ℕ) × (w.service.transfer ≡ some t)
    × (chunk.offset ≡ length w.stored)
    × (t.next_offset ≡ chunk.offset)
    × (chunk.offset < end)
    × (end ≤ t.size)
    × (t.size ≤ w.service.capacity)
    × Ends end t chunk.payload

end_inside : (end : ℕ) (t : Transfer) (payload : Bytes) → Ends end t payload → end ≤ t.size
end_inside end t payload (inl (at, le)) = le
end_inside end t payload (inr (at, past_end, erased_rest)) = omega (arith, at)

outstanding-next :
    {Op : Type 0} (w : World Op) (st : State) (chunk : StagingWrite)
    → w.outstanding ≡ some chunk
    → Stage w.service.capacity st w.service.request w.service.transfer w.outstanding w.stored
    → Continues w chunk
outstanding-next w State.idle chunk e (er, et, eo) = absurd (cc)
outstanding-next w preparing chunk e (er, eo, el, rest) = absurd (cc)
outstanding-next w ready chunk e (er, eo, rest) = absurd (cc)
outstanding-next w State.complete chunk e (er, eo, rest) = absurd (cc)
outstanding-next w State.error chunk e (er, eo, rest) = absurd (cc)
outstanding-next w writing chunk e
      (m, c, end, f, er, et, eo, ((open_end, fits), next, at, more, last, ends)) =
    subst (Continues w) (some_same c chunk (sym eo ∙ e)) (
      m,
      end,
      et,
      at,
      next ∙ sym at,
      omega (arith, at, next, more),
      end_inside end m c.payload ends,
      fits,
      ends,
    )
  where
    some_same : (a b : StagingWrite) → ◌≡◌ {A = Option StagingWrite} (some a) (some b) → a ≡ b
    some_same a b h = cc

-- A service whose chunks are shorter than 4 GiB, driven by any events from its creation: when a
-- transfer is complete, the writes that the storage has reported form the object, as long as its
-- manifest says and within the capacity, with nothing but erased bytes behind it.
pub complete-assembled :
    (mqtt : Mqtt) (reader : ManifestReader) (prefix : Bytes) (config : Config) (s : Service mqtt.Op)
    (es : List (Event mqtt))
    → new_service prefix config ≡ ok s
    → config.max_chunk_size < 2 ^ 32
    → (run mqtt reader (start_world s) es).service.state ≡ State.complete
    → (t : Transfer) × ((run mqtt reader (start_world s) es).service.transfer ≡ some t)
      × (t.size ≤ (run mqtt reader (start_world s) es).service.capacity)
      × (length (take t.size (run mqtt reader (start_world s) es).stored) ≡ t.size)
      × (all (λ b. b == 255) (drop t.size (run mqtt reader (start_world s) es).stored) ≡ true)
complete-assembled mqtt reader prefix config s es e wide done =
    let w = run mqtt reader (start_world s) es in
    let sound =
      run-IsSound mqtt reader (start_world s) es (initial-IsSound prefix config s e wide) in
    let (er, eo, (t, et, facts)) =
      subst
        (λ st.
          Stage w.service.capacity st w.service.request w.service.transfer w.outstanding w.stored)
        done sound.1 in
    let (next, pos, fits, enough, erased) = facts in
    (t, et, fits, length-take_le t.size w.stored enough, erased)

-- A service whose chunks are shorter than 4 GiB, driven by any events from its creation: every write
-- that the storage is given starts where the bytes that it has stored end, inside the object that is
-- transferred, and its bytes reach to a later place of the object, or to its end and then behind it
-- with erased bytes only.
pub write-contiguous :
    (mqtt : Mqtt) (reader : ManifestReader) (prefix : Bytes) (config : Config) (s : Service mqtt.Op)
    (es : List (Event mqtt)) (chunk : StagingWrite)
    → new_service prefix config ≡ ok s
    → config.max_chunk_size < 2 ^ 32
    → (run mqtt reader (start_world s) es).outstanding ≡ some chunk
    → Continues (run mqtt reader (start_world s) es) chunk
write-contiguous mqtt reader prefix config s es chunk e wide outstanding =
    let w = run mqtt reader (start_world s) es in
    let sound =
      run-IsSound mqtt reader (start_world s) es (initial-IsSound prefix config s e wide) in
    outstanding-next w w.service.state chunk outstanding sound.1
