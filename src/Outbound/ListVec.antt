-- ===== src/Outbound/ListVec.antt =====
-- The vector operations on lists, with the behaviour that is asked of them.
use mathlib.Core.List.{append_assoc}
use minimq.Outbound.{VecOps}
use minimq.Prelude.{
  List, Option, [], ap, arith, if◌then◌else◌, length, ltb, lt→ltb, none, refl, set, set-append,
  some, suc, sym, zero, ℕ, ◌++◌, ◌<◌, ◌∙◌, ◌∷◌, ◌≡◌, ◌≤◌,
}

abbrev pub list_push : {A : Type 0} → ℕ → A → List A → Option (List A)
list_push n x xs = if ltb (length xs) n then some (xs ++ (x ∷ [])) else none

abbrev pub list_remove : {A : Type 0} → ℕ → List A → List A
list_remove n [] = []
list_remove zero (x ∷ xs) = xs
list_remove (suc n) (x ∷ xs) = x ∷ list_remove n xs

module _ {A : Type 0} where
  abbrev pub initial : A → List A → List A
  initial x [] = []
  initial x (y ∷ ys) = x ∷ initial y ys

  abbrev pub last_of : A → List A → A
  last_of x [] = x
  last_of x (y ∷ ys) = last_of y ys

  abbrev pub list_swap_remove : ℕ → List A → List A
  list_swap_remove n [] = []
  list_swap_remove n (x ∷ xs) = set (initial x xs) n (last_of x xs)

  pub remove-append : (xs ys : List A) (x : A) → list_remove (length xs) (xs ++ (x ∷ ys)) ≡ xs ++ ys
  remove-append [] ys x = refl
  remove-append (y ∷ xs) ys x = ap (◌∷◌ y) (remove-append xs ys x)

  initial-append : (x : A) (xs : List A) (y : A) → initial x (xs ++ (y ∷ [])) ≡ x ∷ xs
  initial-append x [] y = refl
  initial-append x (z ∷ xs) y = ap (◌∷◌ x) (initial-append z xs y)

  last_of-append : (x : A) (xs : List A) (y : A) → last_of x (xs ++ (y ∷ [])) ≡ y
  last_of-append x [] y = refl
  last_of-append x (z ∷ xs) y = last_of-append z xs y

  swap_whole : (n : ℕ) (xs : List A) (y : A) → list_swap_remove n (xs ++ (y ∷ [])) ≡ set xs n y
  swap_whole n [] y = refl
  swap_whole n (x ∷ xs) y = rw (initial-append x xs y, last_of-append x xs y) refl

  set_past : (xs : List A) (y : A) → set xs (length xs) y ≡ xs
  set_past [] y = refl
  set_past (x ∷ xs) y = ap (◌∷◌ x) (set_past xs y)

  pub swap_inner :
      (xs ys : List A) (x y : A)
      → list_swap_remove (length xs) (xs ++ (x ∷ (ys ++ (y ∷ [])))) ≡ xs ++ (y ∷ ys)
  swap_inner xs ys x y =
      ap (list_swap_remove (length xs)) (sym (append_assoc xs (x ∷ ys) (y ∷ [])))
      ∙ swap_whole (length xs) (xs ++ (x ∷ ys)) y
      ∙ set-append xs ys x y

  pub push_room :
      (n : ℕ) (x : A) (xs : List A) → length xs < n → list_push n x xs ≡ some (xs ++ (x ∷ []))
  push_room n x xs h = rw (lt→ltb (length xs) n h) refl

  pub push_full : (n : ℕ) (x : A) (xs : List A) → n ≤ length xs → list_push n x xs ≡ none
  push_full n x xs h = ground arith

  pub swap_last : (xs : List A) (x : A) → list_swap_remove (length xs) (xs ++ (x ∷ [])) ≡ xs
  swap_last xs x = swap_whole (length xs) xs x ∙ set_past xs x

abbrev pub list_vec : VecOps
list_vec = record {
  vec_push = list_push;
  remove = list_remove;
  swap_remove = list_swap_remove;
  vec_push_room = push_room;
  vec_push_full = push_full;
  remove_at = remove-append;
  swap_remove_last = swap_last;
  swap_remove_inner = swap_inner;
}
