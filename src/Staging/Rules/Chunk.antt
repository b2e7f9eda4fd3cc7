-- ===== src/Staging/Rules/Chunk.antt =====
-- What an accepted chunk is: it starts at the offset that is expected, is not empty, and ends in the
-- object or goes past it with erased bytes only.
use minimq.Prelude.{
  Bool, Bool-cases, Result, ap, arith, drop, err, false, if◌then◌else◌, inl, inr, leb, leb→le,
  length, ltb, not, ok, refl, sym, true, ℕ, ◌%◌, ◌+◌, ◌-◌, ◌<◌, ◌==◌, ◌^◌, ◌||◌, ◌∙◌, ◌≡◌, ◌≤◌, ◌⊎◌,
}
use minimq.Staging.{Bytes, Transfer, multiple_of, oversize}
use minimq.Staging.Rules.{all, chunk_end, erased, fail_code, payload_padding, validate_chunk}

-- The end of an accepted write: the end of the chunk, or the end of the object with nothing but
-- erased bytes behind it.
abbrev pub Ends : ℕ → Transfer → Bytes → Type 0
Ends end t payload =
    ((end ≡ t.next_offset + length payload) × (end ≤ t.size))
    ⊎ ((end ≡ t.size)
        × (t.size < t.next_offset + length payload)
        × (all (λ b. b == 255) (drop (t.size - t.next_offset) payload) ≡ true))

pub ok_same : {E A : Type 0} (a b : A) → ◌≡◌ {A = Result E A} (ok a) (ok b) → a ≡ b
ok_same a b h = cc

-- A test that leads to an error has not held of what is accepted.
pub past :
    {E A : Type 0} (b : Bool) (e : E) (k : Result E A) (a : A)
    → (if b then err e else k) ≡ ok a
    → (b ≡ false) × (k ≡ ok a)
past true e k a h = absurd (cc)
past false e k a h = (refl, h)

first_branch : {A : Type 0} (b : Bool) (x y r : A) → b ≡ true → (if b then x else y) ≡ r → x ≡ r
first_branch true x y r e h = h
first_branch false x y r e h = absurd (ground arith)

second_branch : {A : Type 0} (b : Bool) (x y r : A) → b ≡ false → (if b then x else y) ≡ r → y ≡ r
second_branch true x y r e h = absurd (ground arith)
second_branch false x y r e h = h

erased-Ends :
    (t : Transfer) (payload : Bytes) (end : ℕ)
    → t.next_offset < t.size
    → t.size < t.next_offset + length payload
    → erased (payload_padding payload (t.size - t.next_offset)) t.size ≡ ok end
    → Ends end t payload
unfolding erased payload_padding
erased-Ends t payload end small past h = elim (Bool-cases (all (λ b. b == 255) rest)) [
  | inl e ↦ inr (sym (ok_same _ _ (sym (value e) ∙ h)), past, e)
  | inr e ↦ absurd (refused e)
]
  where
    rest : Bytes
    rest = drop (t.size - t.next_offset) payload

    longer : ltb (t.size - t.next_offset) (length payload) ≡ true
    longer = ground arith

    value :
        all (λ b. b == 255) rest ≡ true
        → erased (payload_padding payload (t.size - t.next_offset)) t.size ≡ ok t.size
    value e = rw (longer, e) refl

    refused : all (λ b. b == 255) rest ≡ false → ⊥
    refused e =
        let failed : erased (payload_padding payload (t.size - t.next_offset)) t.size
            ≡ err (fail_code oversize) =
          rw (longer, e) refl in
        cc

chunk_end-Ends :
    (t : Transfer) (start : ℕ) (payload : Bytes) (capacity sum_end end : ℕ)
    → t.next_offset < t.size
    → start ≡ t.next_offset
    → sum_end ≡ t.next_offset + length payload
    → chunk_end t start payload capacity sum_end ≡ ok end
    → Ends end t payload
unfolding chunk_end
chunk_end-Ends t start payload capacity sum_end end small at sum h =
    let (within, h1) = past (leb (2 ^ 32) sum_end) _ _ _ h in
    let (fits, h2) = past (ltb capacity sum_end) _ _ _ h1 in
    elim (Bool-cases (leb sum_end t.size)) [
      | inl g ↦
          let same = ok_same sum_end end (first_branch (leb sum_end t.size) _ _ _ g h2) in
          inl (sym same ∙ sum, omega (arith, same, leb→le _ _ g))
      | inr g ↦ erased-Ends t payload end small (ground (arith, sum, g)) (
          ap (λ n. erased (payload_padding payload (t.size - n)) t.size) (sym at)
          ∙ second_branch (leb sum_end t.size) _ _ _ g h2)
    ]

-- Where a transfer is not finished and chunks are shorter than 4 GiB, a chunk that passes the tests
-- starts where the next one is expected; it advances the transfer and ends in the object, or covers
-- its end with nothing but erased bytes behind it.
pub validate_chunk-Ends :
    (t : Transfer) (start : ℕ) (payload : Bytes) (capacity max_chunk_size write_size end : ℕ)
    → t.next_offset < t.size
    → max_chunk_size < 2 ^ 32
    → validate_chunk t start payload capacity max_chunk_size write_size ≡ ok end
    → (start ≡ t.next_offset) × (t.next_offset < end) × Ends end t payload
unfolding validate_chunk
validate_chunk-Ends t start payload capacity max_chunk_size write_size end small wide h =
    let (not_before, h1) = past (ltb start t.next_offset) _ _ _ h in
    let (not_behind, h2) = past (not (start == t.next_offset)) _ _ _ h1 in
    let (sized, h3) = past (length payload == 0 || ltb max_chunk_size (length payload)) _ _ _ h2 in
    let (aligned, h4) = past (not (multiple_of (length payload) write_size)) _ _ _ h3 in
    let at : start ≡ t.next_offset = ground (arith, not_behind) in
    let short : length payload ≤ max_chunk_size = ground (arith, sized) in
    let some_bytes : 0 < length payload = ground (arith, sized) in
    let ends =
      chunk_end-Ends t start payload capacity (start + length payload % 2 ^ 32) end small at
        (omega (arith, at, short)) h4 in
    (at, omega (arith, ends, some_bytes), ends)
