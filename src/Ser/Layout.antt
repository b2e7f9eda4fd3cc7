-- ===== src/Ser/Layout.antt =====
-- What the serializer's buffer holds: fields from position 5 on, then the finished packet.
use mathlib.Core.List.{append_assoc}
use minimq.Errors.{insufficient_memory}
use minimq.Prelude.{
  List, [], ap, arith, drop, drop-drop, err, false, length, length-append, length-drop,
  length-take_le, ltb, ok, set-write_at, sym, take, take-append-drop, true, write_at,
  write_at_middle, ℕ, ◌++◌, ◌+◌, ◌-◌, ◌<◌, ◌∙◌, ◌∷◌, ◌≡◌, ◌≤◌,
}
use minimq.Ser.{
  MqttSerializer, Serialize, and_then, new_serializer, push_bytes, push_u8, then_serialize,
}

-- The buffer `b` after the fields `xs` have been pushed.
unfoldable pub filled : List ℕ → List ℕ → MqttSerializer
filled b xs = record { buf = take 5 b ++ (xs ++ drop (5 + length xs) b); index = 5 + length xs }

pub new-filled : (b : List ℕ) → new_serializer b ≡ filled b []
unfolding filled new_serializer
new-filled b = λ i. record { buf = sym (take-append-drop 5 b) i; index = 5 }

pub length-filled : (b xs : List ℕ) → 5 + length xs ≤ length b → length (filled b xs).buf ≡ length b
unfolding filled
length-filled b xs h = omega (
  arith,
  length-append (take 5 b) (xs ++ drop (5 + length xs) b),
  length-append xs (drop (5 + length xs) b),
  length-take_le 5 b (omega arith),
  length-drop (5 + length xs) b,
)

write_at-filled :
    (b xs ys : List ℕ)
    → 5 + length xs + length ys ≤ length b
    → write_at (5 + length xs) ys (filled b xs).buf ≡ (filled b (xs ++ ys)).buf
unfolding filled
write_at-filled b xs ys h =
    ap (write_at (5 + length xs) ys) split
    ∙ write_at_middle (front ++ xs) middle ys tail (5 + length xs) size same
    ∙ append_assoc front xs (ys ++ tail)
    ∙ ap (λ l. front ++ l) (sym (append_assoc xs ys tail))
    ∙ ap (λ n. front ++ ((xs ++ ys) ++ drop n b)) (omega (arith, length-append xs ys))
  where
    front : List ℕ
    front = take 5 b

    middle : List ℕ
    middle = take (length ys) (drop (5 + length xs) b)

    tail : List ℕ
    tail = drop (5 + length xs + length ys) b

    size : 5 + length xs ≡ length (front ++ xs)
    size = omega (arith, length-append (take 5 b) xs, length-take_le 5 b (omega arith))

    same : length ys ≡ length middle
    same = sym (
        length-take_le (length ys) (drop (5 + length xs) b)
          (omega (arith, length-drop (5 + length xs) b)))

    split : front ++ (xs ++ drop (5 + length xs) b) ≡ (front ++ xs) ++ (middle ++ tail)
    split =
        sym (append_assoc front xs (drop (5 + length xs) b))
        ∙ ap (λ l. (front ++ xs) ++ l)
            (sym (take-append-drop (length ys) (drop (5 + length xs) b))
              ∙ ap (λ l. middle ++ l) (drop-drop (5 + length xs) (length ys) b))

-- A field that fits is appended.
pub push_bytes-filled :
    (b xs ys : List ℕ)
    → 5 + length xs + length ys ≤ length b
    → push_bytes ys (filled b xs) ≡ (filled b (xs ++ ys), ok tt)
unfolding push_bytes filled
push_bytes-filled b xs ys h =
    rw room (λ i. (record { buf = write_at-filled b xs ys h i; index = next i }, ok tt))
  where
    room : ltb (length (filled b xs).buf - (filled b xs).index) (length ys) ≡ false
    room = unfold filled in ground (arith, length-filled b xs (omega arith))

    next : (filled b xs).index + length ys ≡ (filled b (xs ++ ys)).index
    next = unfold filled in omega (arith, length-append xs ys)

-- One that does not fit is refused and changes nothing.
pub push_bytes_full :
    (b xs ys : List ℕ)
    → 5 + length xs ≤ length b
    → length b < 5 + length xs + length ys
    → push_bytes ys (filled b xs) ≡ (filled b xs, err insufficient_memory)
unfolding push_bytes filled
push_bytes_full b xs ys h over = rw full
  where
    full : ltb (length (filled b xs).buf - (filled b xs).index) (length ys) ≡ true
    full = unfold filled in ground (arith, length-filled b xs h)

pub push_u8-push_bytes : (byte : ℕ) (s : MqttSerializer) → push_u8 byte s ≡ push_bytes (byte ∷ []) s
unfolding push_u8 push_bytes
push_u8-push_bytes byte s = ground (arith, set-write_at s.buf s.index byte)

-- After a field that is written the next one is.
pub and_then-ok :
    (m k : Serialize) (s s' : MqttSerializer) → m s ≡ (s', ok tt) → and_then m k s ≡ k s'
unfolding and_then then_serialize
and_then-ok m k s s' e = ap (then_serialize k) e
