-- ===== src/De/Reads.antt =====
-- What the deserializer reads from bytes that are a field, wherever they stand and whatever follows.
use mathlib.Core.List.{append_assoc}
use minimq.De.{
  Deserialize, MqttDeserializer, bytes_left, deserialize_u32, from_be_bytes, pop, popped, read_as,
  read_then, read_u16, then_deserialize, try_take_array, try_take_n, varint_group, varint_rounds,
}
use minimq.Errors.{DeError}
use minimq.Prelude.{
  Bool, List, Option, Result, [], ap, arith, bit_and, bit_or, drop, drop-append_left, err, fail_if,
  false, get_elem?, if◌then◌else◌, inl, length, length-append, ltb, none, not, ok, refl, some, suc,
  sym, take, take-append_left, true, zero, ℕ, ◌%◌, ◌&&◌, ◌*◌, ◌++◌, ◌+◌, ◌-◌, ◌/◌, ◌==◌, ◌>>◌, ◌^◌,
  ◌∙◌, ◌∷◌, ◌≡◌, ◌≤◌,
}
use minimq.Varint.{ProbeError, incomplete, invalid, mqtt_varint_max, probe_byte, read_loop}
use minimq.Varint.Decode.{get_elem?-append, read-canonical}
use minimq.Varint.Encode.{canonical}

-- Behind `front`, with `rest` to come.
abbrev pub at : List ℕ → List ℕ → MqttDeserializer
at front rest = record { buf = front ++ rest; index = length front; next_bytes_len = none }

-- The bytes `ys` are read as `a`.
abbrev pub Parses : {A : Type 0} → Deserialize A → List ℕ → A → Type 0
Parses m ys a = (front rest : List ℕ) → m (at front (ys ++ rest)) ≡ (at (front ++ ys) rest, ok a)

moved :
    (front ys rest : List ℕ)
    → ◌≡◌ {A = MqttDeserializer}
        (record {
          buf = front ++ (ys ++ rest);
          index = length front + length ys;
          next_bytes_len = none;
        })
        (at (front ++ ys) rest)
moved front ys rest = λ i. record {
  buf = sym (append_assoc front ys rest) i;
  index = sym (length-append front ys) i;
  next_bytes_len = none;
}

-- After a field that is read the next one is.
pub Parses-next :
    {A B : Type 0} (m : Deserialize A) (k : A → Deserialize B) (ys zs : List ℕ) (a : A)
    → Parses m ys a
    → (front rest : List ℕ)
    → read_then m k (at front ((ys ++ zs) ++ rest)) ≡ k a (at (front ++ ys) (zs ++ rest))
unfolding read_then then_deserialize
Parses-next m k ys zs a hm front rest =
    ap (λ l. then_deserialize k (m (at front l))) (append_assoc ys zs rest)
    ∙ ap (then_deserialize k) (hm front (zs ++ rest))

pub Parses-then :
    {A B : Type 0} (m : Deserialize A) (k : A → Deserialize B) (ys zs : List ℕ) (a : A) (b : B)
    → Parses m ys a
    → Parses (k a) zs b
    → Parses (read_then m k) (ys ++ zs) b
Parses-then m k ys zs a b hm hk front rest =
    Parses-next m k ys zs a hm front rest
    ∙ hk (front ++ ys) rest
    ∙ ap (λ l. (at l rest, ok b)) (append_assoc front ys zs)

pub Parses-as :
    {A B : Type 0} (f : A → B) (m : Deserialize A) (ys : List ℕ) (a : A)
    → Parses m ys a
    → Parses (read_as f m) ys (f a)
unfolding read_as read_then then_deserialize
Parses-as f m ys a h front rest = ap (then_deserialize (λ x d. (d, ok (f x)))) (h front rest)

behind :
    (front ys rest : List ℕ) → take (length ys) (drop (length front) (front ++ (ys ++ rest))) ≡ ys
behind front ys rest =
    ap (take (length ys)) (drop-append_left front (ys ++ rest)) ∙ take-append_left ys rest

pub Parses-try_take_n : (n : ℕ) (ys : List ℕ) → n ≡ length ys → Parses (try_take_n n) ys ys
unfolding try_take_n bytes_left
Parses-try_take_n n ys e front rest =
    rw (e, enough) (λ i. (moved front ys rest i, ok (behind front ys rest i)))
  where
    enough : ltb (length (front ++ (ys ++ rest)) - length front) (length ys) ≡ false
    enough = ground (arith, length-append front (ys ++ rest), length-append ys rest)

pub Parses-try_take_array : (n : ℕ) (ys : List ℕ) → n ≡ length ys → Parses (try_take_array n) ys ys
unfolding try_take_array
Parses-try_take_array n ys e front rest =
    rw (e, enough) (λ i. (moved front ys rest i, ok (behind front ys rest i)))
  where
    enough : ltb (length (drop (length front) (front ++ (ys ++ rest)))) (length ys) ≡ false
    enough = rw (drop-append_left front (ys ++ rest)) (ground (arith, length-append ys rest))

pub Parses-pop : (b : ℕ) → Parses pop (b ∷ []) b
unfolding pop popped
Parses-pop b front rest =
    rw (get_elem?-append front b rest) (λ i. (moved front (b ∷ []) rest i, ok b))

pub Parses-u16 : (v : ℕ) → Parses read_u16 (v / 256 ∷ v % 256 ∷ []) v
unfolding read_u16 from_be_bytes
Parses-u16 v front rest =
    Parses-as (from_be_bytes 0) (try_take_array 2) (v / 256 ∷ v % 256 ∷ []) (v / 256 ∷ v % 256 ∷ [])
      (Parses-try_take_array 2 (v / 256 ∷ v % 256 ∷ []) refl) front rest
    ∙ ap (λ n. (at (front ++ (v / 256 ∷ v % 256 ∷ [])) rest, ok n)) same
  where
    same : (0 * 256 + v / 256) * 256 + v % 256 ≡ v
    same = omega arith

abbrev pub be_u32 : ℕ → List ℕ
be_u32 v = v / 16777216 ∷ v / 65536 % 256 ∷ v / 256 % 256 ∷ v % 256 ∷ []

pub Parses-u32 : (v : ℕ) → Parses deserialize_u32 (be_u32 v) v
unfolding deserialize_u32 from_be_bytes
Parses-u32 v front rest =
    Parses-as (from_be_bytes 0) (try_take_array 4) (be_u32 v) (be_u32 v)
      (Parses-try_take_array 4 (be_u32 v) refl) front rest
    ∙ ap (λ n. (at (front ++ be_u32 v) rest, ok n)) same
  where
    same :
        (((0 * 256 + v / 16777216) * 256 + v / 65536 % 256) * 256 + v / 256 % 256) * 256 + v % 256
        ≡ v
    same = omega arith

-- One round of the loop over a buffer.
abbrev round_of : (ℕ → Result ProbeError (ℕ × ℕ)) → ℕ → ℕ → ℕ → ℕ → Result ProbeError (ℕ × ℕ)
round_of more byte shift value index = do
  fail_if (ltb mqtt_varint_max (bit_or value (bit_and byte 127 * 2 ^ shift))) invalid
  if bit_and byte 128 == 0
      then if not (shift == 0) && (bit_and byte 127 == 0)
        then err invalid
        else ok (bit_or value (bit_and byte 127 * 2 ^ shift), index)
      else more (bit_or value (bit_and byte 127 * 2 ^ shift))

cursor : List ℕ → ℕ → MqttDeserializer
cursor buf index = record { buf = buf; index = index; next_bytes_len = none }

pair_same :
    (x index v n : ℕ)
    → ◌≡◌ {A = Result ProbeError (ℕ × ℕ)} (ok (x, index)) (ok (v, n))
    → (x ≡ v) × (index ≡ n)
pair_same x index v n h = (cc, cc)

-- The same tests give the same answer.
same_tests :
    (bad : DeError) (a b c : Bool) (x : ℕ) (buf : List ℕ) (index n v : ℕ)
    (more : Result ProbeError (ℕ × ℕ)) (next : MqttDeserializer × Result DeError ℕ)
    → (more ≡ ok (v, n) → next ≡ (cursor buf n, ok v))
    → (fail_if a invalid >> (if b then if c then err invalid else ok (x, index) else more))
      ≡ ok (v, n)
    → (if a
        then (cursor buf index, err bad)
        else if b
        then (if c then (cursor buf index, err bad) else (cursor buf index, ok x))
        else next)
      ≡ (cursor buf n, ok v)
same_tests bad true b c x buf index n v more next ih h = absurd (cc)
same_tests bad false true true x buf index n v more next ih h = absurd (cc)
same_tests bad false true false x buf index n v more next ih h =
    let (ex, en) = pair_same x index v n h in λ i. (cursor buf (en i), ok (ex i))
same_tests bad false false c x buf index n v more next ih h = ih h

varint_group-round_of :
    (bad : DeError) (shift value byte : ℕ) (buf : List ℕ) (index n v : ℕ)
    (more : ℕ → Result ProbeError (ℕ × ℕ)) (next : ℕ → Deserialize ℕ)
    → ((x : ℕ) → more x ≡ ok (v, n) → next x (cursor buf index) ≡ (cursor buf n, ok v))
    → round_of more byte shift value index ≡ ok (v, n)
    → varint_group bad shift value next byte (cursor buf index) ≡ (cursor buf n, ok v)
unfolding varint_group
varint_group-round_of bad shift value byte buf index n v more next ih h =
    let x = bit_or value (bit_and byte 127 * 2 ^ shift) in
    same_tests bad (ltb mqtt_varint_max x) (bit_and byte 128 == 0)
      (not (shift == 0) && (bit_and byte 127 == 0)) x buf index n v (more x)
      (next x (cursor buf index)) (ih x) h

-- A number that the closure over a buffer reads is read by the deserializer.
varint_rounds-read_loop :
    (bad : DeError) (rounds shift value : ℕ) (buf : List ℕ) (index n v : ℕ)
    → read_loop (probe_byte buf) invalid rounds shift value index ≡ ok (v, n)
    → varint_rounds bad rounds shift value (cursor buf index) ≡ (cursor buf n, ok v)
unfolding varint_rounds read_then then_deserialize pop popped read_loop probe_byte cursor
varint_rounds-read_loop bad zero shift value buf index n v h = absurd (cc)
varint_rounds-read_loop bad (suc rounds) shift value buf index n v h =
    byte_read (get_elem? buf index) refl
      (λ x g. varint_rounds-read_loop bad rounds (shift + 7) x buf (index + 1) n v g)
  where
    byte_read :
        (o : Option ℕ)
        → get_elem? buf index ≡ o
        → ((x : ℕ)
            → read_loop (probe_byte buf) invalid rounds (shift + 7) x (index + 1) ≡ ok (v, n)
            → varint_rounds bad rounds (shift + 7) x (cursor buf (index + 1))
              ≡ (cursor buf n, ok v))
        → varint_rounds bad (suc rounds) shift value (cursor buf index) ≡ (cursor buf n, ok v)
    byte_read none e ih =
        let stopped : read_loop (probe_byte buf) invalid (suc rounds) shift value index
            ≡ err incomplete =
          rw e refl in
        absurd (cc)
    byte_read (some byte) e ih =
        let went_on : read_loop (probe_byte buf) invalid (suc rounds) shift value index
            ≡ round_of (λ x. read_loop (probe_byte buf) invalid rounds (shift + 7) x (index + 1))
                byte shift value (index + 1) =
          rw e refl in
        ap
          (λ o.
            then_deserialize (varint_group bad shift value (varint_rounds bad rounds (shift + 7)))
              (popped (cursor buf index) o))
          e
        ∙ varint_group-round_of bad shift value byte buf (index + 1) n v
            (λ x. read_loop (probe_byte buf) invalid rounds (shift + 7) x (index + 1))
            (varint_rounds bad rounds (shift + 7)) ih (sym went_on ∙ h)

pub Parses-varint :
    (bad : DeError) (v : ℕ)
    → v ≤ mqtt_varint_max
    → Parses (varint_rounds bad 4 0 0) (canonical 3 v) v
unfolding cursor
Parses-varint bad v h front rest =
    varint_rounds-read_loop bad 4 0 0 (front ++ (canonical 3 v ++ rest)) (length front)
      (length front + length (canonical 3 v)) v
      (read-canonical 3 0 0 v front rest (omega arith) (omega arith) (omega arith) (inl refl)
        ∙ ap (λ x. ok (x, length front + length (canonical 3 v))) whole)
    ∙ (λ i. (moved front (canonical 3 v) rest i, ok v))
  where
    whole : 0 + v * 2 ^ 0 ≡ v
    whole = omega arith
