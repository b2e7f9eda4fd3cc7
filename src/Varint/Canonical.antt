-- ===== src/Varint/Canonical.antt =====
-- What a successful `read_mqtt_u32_varint` has read: the canonical encoding of its value.
-- A successful read from `bs` at position `start`, with `k + 1` rounds: a canonical encoding
-- stands at the front.
use mathlib.Core.List.{append-nil, append_assoc}
use native.Mathlib.Nat.{mod-eq_of_lt, one-le-pow, pow-suc}
use minimq.Prelude.{
  All, Bool-cases, List, [], ap, arith, inl, inr, length, length-append, ltb, ltb→lt, ok, refl, suc,
  zero, ℕ, ◌%◌, ◌*◌, ◌++◌, ◌+◌, ◌-◌, ◌/◌, ◌<◌, ◌^◌, ◌∙◌, ◌∷◌, ◌≡◌, ◌≤◌, ◌⊎◌,
}
use minimq.Varint.{invalid, mqtt_varint_max, probe_byte, read_loop}
use minimq.Varint.Decode.{add_group_fits, read_end, round, split_group}
use minimq.Varint.Encode.{IsByte, canonical}

pub record Reads (k s value start : ℕ) (bs : List ℕ) (u end : ℕ) : Type 0 where
  pub number : ℕ
  pub rest : List ℕ
  pub front : bs ≡ canonical k number ++ rest
  pub result : u ≡ value + number * 2 ^ s
  pub used : end ≡ start + length (canonical k number)
  pub fits : number < 128 ^ suc k
  pub shortest : (s ≡ 0) ⊎ (0 < number)
  pub bounded : u ≤ mqtt_varint_max

-- What a round that leads to success has seen: the last byte, or one with more to come.
abbrev Last : ℕ → ℕ → ℕ → List ℕ → ℕ → ℕ → Type 0
Last s value b pre u end =
    (b < 128)
    × (u ≡ value + b * 2 ^ s)
    × (end ≡ length pre + 1)
    × ((s ≡ 0) ⊎ (0 < b))
    × (u ≤ mqtt_varint_max)

abbrev More : ℕ → ℕ → ℕ → ℕ → List ℕ → List ℕ → ℕ → ℕ → Type 0
More k s value b pre bs u end =
    (128 ≤ b)
    × (read_loop (probe_byte ((pre ++ (b ∷ [])) ++ bs)) invalid k (s + 7) (value + b % 128 * 2 ^ s)
          (length (pre ++ (b ∷ [])))
        ≡ ok (u, end))

round_ok :
    (k s value b u end : ℕ) (pre bs : List ℕ)
    → IsByte b
    → value < 2 ^ s
    → read_loop (probe_byte (pre ++ (b ∷ bs))) invalid (suc k) s value (length pre) ≡ ok (u, end)
    → Last s value b pre u end ⊎ More k s value b pre bs u end
round_ok k s value b u end pre bs hb h e = elim (Bool-cases (ltb b 128)) [
  | inl last ↦ inl (
      ground (
        arith,
        round k s value b pre bs,
        mod-eq_of_lt (ltb→lt b 128 last),
        length-append pre (b ∷ []),
      ))
  | inr more ↦
      inr (ground arith, ground (arith, round k s value b pre bs, append_assoc pre (b ∷ []) bs))
]

canonical_small : (k v : ℕ) → v < 128 → canonical k v ≡ v ∷ []
unfolding canonical
canonical_small zero v h = refl
canonical_small (suc k) v h = ground arith

canonical_large :
    (k b w : ℕ)
    → 128 ≤ b
    → IsByte b
    → 0 < w
    → canonical (suc k) (b - 128 + 128 * w) ≡ b ∷ canonical k w
unfolding canonical
canonical_large k b w h hb hw =
    let e : (b - 128 + 128 * w) / 128 ≡ w = omega arith in rw e (ground arith)

small_fits : (k b : ℕ) → b < 128 → b < 128 ^ suc k
small_fits k b h = omega (arith, pow-suc 128 k, one-le-pow k 128)

-- The groups above and below join.
join_group :
    (s value b w : ℕ)
    → 128 ≤ b
    → IsByte b
    → value + b % 128 * 2 ^ s + w * 2 ^ (s + 7) ≡ value + (b - 128 + 128 * w) * 2 ^ s
join_group s value b w h hb =
    let e : (b - 128 + 128 * w) % 128 ≡ b % 128 = omega arith in
    let q : (b - 128 + 128 * w) / 128 ≡ w = omega arith in
    rw (split_group (b - 128 + 128 * w) s, e, q) (omega arith)

More-Reads :
    (k s value u end : ℕ) (pre : List ℕ) (b : ℕ) (bs : List ℕ)
    → 128 ≤ b
    → IsByte b
    → Reads k (s + 7) (value + b % 128 * 2 ^ s) (length (pre ++ (b ∷ []))) bs u end
    → Reads (suc k) s value (length pre) (b ∷ bs) u end
More-Reads k s value u end pre b bs h hb r = record {
  number = b - 128 + 128 * r.number;
  rest = r.rest;
  front = rw large (ap (◌∷◌ b) r.front);
  result = r.result ∙ join_group s value b r.number h hb;
  used = rw large (omega (arith, r.used, length-append pre (b ∷ [])));
  fits = omega (arith, r.fits, pow-suc 128 (suc k));
  shortest = inr (omega (arith, positive));
  bounded = r.bounded;
}
  where
    positive : 0 < r.number
    positive = omega (arith, r.shortest)

    large : canonical (suc k) (b - 128 + 128 * r.number) ≡ b ∷ canonical k r.number
    large = canonical_large k b r.number h hb positive

Last-Reads :
    (k s value b u end : ℕ) (pre bs : List ℕ)
    → Last s value b pre u end
    → Reads k s value (length pre) (b ∷ bs) u end
Last-Reads k s value b u end pre bs (small, r, m, first, le) = record {
  number = b;
  rest = bs;
  front = rw (canonical_small k b small);
  result = r;
  used = rw (canonical_small k b small) m;
  fits = small_fits k b small;
  shortest = first;
  bounded = le;
}

-- Whatever is read successfully was the canonical encoding of its value.
pub read-Reads :
    (k s value u end : ℕ) (pre bs : List ℕ)
    → All IsByte bs
    → value < 2 ^ s
    → read_loop (probe_byte (pre ++ bs)) invalid (suc k) s value (length pre) ≡ ok (u, end)
    → Reads k s value (length pre) bs u end
read-Reads k s value u end pre [] hb h e = cc (
  ap (λ l. read_loop (probe_byte l) invalid (suc k) s value (length pre)) (append-nil pre),
  read_end k s value pre,
)
read-Reads zero s value u end pre (b ∷ bs) (hb, hbs) h e =
    elim (round_ok zero s value b u end pre bs hb h e) [
      | inl last ↦ Last-Reads zero s value b u end pre bs last
      | inr (large, more) ↦ unfold read_loop in cc more
    ]
read-Reads (suc k) s value u end pre (b ∷ bs) (hb, hbs) h e =
    elim (round_ok (suc k) s value b u end pre bs hb h e) [
      | inl last ↦ Last-Reads (suc k) s value b u end pre bs last
      | inr (large, more) ↦ More-Reads k s value u end pre b bs large hb (
          read-Reads k (s + 7) (value + b % 128 * 2 ^ s) u end (pre ++ (b ∷ [])) bs hbs
            (add_group_fits value b s h) more)
    ]
