-- ===== src/Staging/Object/Sound.antt =====
-- How the state of the service, its request and the stored bytes belong together.
use minimq.Prelude.{
  Bool, Bool-cases, Option, [], drop, inl, inr, length, none, some, true, ℕ, ◌<◌, ◌==◌, ◌^◌, ◌||◌,
  ◌≡◌, ◌≤◌,
}
use minimq.Staging.{
  Action, Bytes, PendingRequest, Service, StagingWrite, State, Transfer, deferred,
  inflight_subscribe, preparing, publish, queue, ready, some_subscribe, subscribe, writing,
}
use minimq.Staging.Object.{World}
use minimq.Staging.Rules.{all}
use minimq.Staging.Rules.Chunk.{Ends}

abbrev pub Bounded : ℕ → Transfer → Type 0
Bounded capacity t = (t.next_offset < t.size) × (t.size ≤ capacity)

abbrev pub WritingAt : ℕ → Transfer → StagingWrite → ℕ → Bool → Bytes → Type 0
WritingAt capacity t chunk end final_chunk stored =
    Bounded capacity t
    × (t.next_offset ≡ length stored)
    × (chunk.offset ≡ length stored)
    × (t.next_offset < end)
    × (final_chunk ≡ (end == t.size))
    × Ends end t chunk.payload

abbrev pub CompleteAt : ℕ → Transfer → Bytes → Type 0
CompleteAt capacity t stored =
    (t.next_offset ≡ t.size)
    × (0 < t.size)
    × (t.size ≤ capacity)
    × (t.size ≤ length stored)
    × (all (λ b. b == 255) (drop t.size stored) ≡ true)

abbrev pub Stage :
    ℕ → State → Option PendingRequest → Option Transfer → Option StagingWrite → Bytes → Type 0
Stage capacity State.idle r t chunk stored = (r ≡ none) × (t ≡ none) × (chunk ≡ none)
Stage capacity preparing r t chunk stored =
    (r ≡ some PendingRequest.prepare)
    × (chunk ≡ none)
    × (stored ≡ [])
    × ((m : Transfer) × (t ≡ some m) × (m.next_offset ≡ 0) × Bounded capacity m)
Stage capacity ready r t chunk stored =
    (r ≡ none)
    × (chunk ≡ none)
    × ((m : Transfer) × (t ≡ some m) × (m.next_offset ≡ length stored) × Bounded capacity m)
Stage capacity writing r t chunk stored =
    (m : Transfer) × (w : StagingWrite) × (end : ℕ) × (final_chunk : Bool) × (r
      ≡ some (PendingRequest.write end final_chunk))
    × (t ≡ some m)
    × (chunk ≡ some w)
    × WritingAt capacity m w end final_chunk stored
Stage capacity State.complete r t chunk stored =
    (r ≡ none) × (chunk ≡ none) × ((m : Transfer) × (t ≡ some m) × CompleteAt capacity m stored)
Stage capacity State.error r t chunk stored =
    (r ≡ none) × (chunk ≡ none) × ((m : Transfer) × (t ≡ some m))

abbrev pub Good :
    ℕ → ℕ → State → Option PendingRequest → Option Transfer → Option StagingWrite → Bytes → Type 0
Good capacity max_chunk_size st r t chunk stored =
    (max_chunk_size < 2 ^ 32) × Stage capacity st r t chunk stored

module _ {Op : Type 0} where
  abbrev pub IsSound : World Op → Type 0
  IsSound w =
      Good w.service.capacity w.service.max_chunk_size w.service.state w.service.request
        w.service.transfer w.outstanding w.stored

  -- Queueing touches none of this.
  pub through_queue :
      (P : ℕ → ℕ → State → Option PendingRequest → Option Transfer → Type 0) (action : Action)
      (s : Service Op)
      → P s.capacity s.max_chunk_size s.state s.request s.transfer
      → (let q = queue action s in P q.capacity q.max_chunk_size q.state q.request q.transfer)
  unfolding queue deferred
  through_queue P action s h =
      elim (Bool-cases (some_subscribe s.pending || inflight_subscribe s.inflight)) [
        | inl e ↦ rw e (later action)
        | inr e ↦ rw e h
      ]
    where
      later :
          (a : Action)
          → (let q = deferred a s in P q.capacity q.max_chunk_size q.state q.request q.transfer)
      later (publish code) = h
      later subscribe = h

  -- A status that is queued, whatever the storage has.
  pub keep :
      (action : Action) (s : Service Op) (chunk : Option StagingWrite) (stored : Bytes)
      → IsSound (record { service = s; outstanding = chunk; stored = stored })
      → IsSound (record { service = queue action s; outstanding = chunk; stored = stored })
  keep action s chunk stored h =
      through_queue (λ c m st r t. Good c m st r t chunk stored) action s h
