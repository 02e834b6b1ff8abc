-- ===== src/Prelude/Lists.antt =====
-- Lists measured by native numbers, the array operations that the sources call, and predicates
-- over lists by recursion.
use Prim.Native.Nat.{ℕ, zero, suc, ◌+◌, min}
use Prim.Native.Char.{code}
use Prim.Native.String.{String}
use mathlib.Core.Path.{◌≡◌, refl, ap}
use mathlib.Core.Logic.{◌⊎◌}
use mathlib.Core.Bool.{Bool, true, false, ◌&&◌, ◌||◌}
use mathlib.Core.List.{List, [], ◌∷◌, ◌++◌, map}
use mathlib.Core.Option.{Option, none, some}
use native.Mathlib.Omega.{arith}
use low_latency_matching_eng.Prelude.Tests.{◌==◌}

module _ {ℓ} {A : Type ℓ} where
  abbrev pub length : List A → ℕ
  length [] = 0
  length (x ∷ xs) = suc (length xs)

  -- `xs.slice(0, n)`
  abbrev pub take : ℕ → List A → List A
  take zero xs = []
  take (suc n) [] = []
  take (suc n) (x ∷ xs) = x ∷ take n xs

  abbrev pub drop : ℕ → List A → List A
  drop zero xs = xs
  drop (suc n) [] = []
  drop (suc n) (x ∷ xs) = drop n xs

  -- `xs.some(p)`
  abbrev pub any : (A → Bool) → List A → Bool
  any p [] = false
  any p (x ∷ xs) = p x || any p xs

  -- `xs.find(p)`, `none` for `undefined`
  abbrev pub find? : (A → Bool) → List A → Option A
  find? p [] = none
  find? p (x ∷ xs) = elim (p x) [ true ↦ some x | false ↦ find? p xs ]

  pub find?_hit : (p : A → Bool) (x : A) (xs : List A) → p x ≡ true → find? p (x ∷ xs) ≡ some x
  find?_hit p x xs e = rw (e, find?) refl

  pub find?_miss :
      (p : A → Bool) (x : A) (xs : List A) → p x ≡ false → find? p (x ∷ xs) ≡ find? p xs
  find?_miss p x xs e = rw (e, find?) refl

  pub find?_absent : (p : A → Bool) (xs : List A) → any p xs ≡ false → find? p xs ≡ none
  find?_absent p [] h = refl
  find?_absent p (x ∷ xs) h = ground (arith, find?_absent p xs)

  -- `xs.findIndex(p)`, `none` for -1
  abbrev pub find_index_from : ℕ → (A → Bool) → List A → Option ℕ
  find_index_from i p [] = none
  find_index_from i p (x ∷ xs) = elim (p x) [ true ↦ some i | false ↦ find_index_from (suc i) p xs ]

  abbrev pub find_index : (A → Bool) → List A → Option ℕ
  find_index p xs = find_index_from 0 p xs

  pub length-append : (xs ys : List A) → length (xs ++ ys) ≡ length xs + length ys
  length-append [] ys = omega arith
  length-append (x ∷ xs) ys = omega (arith, length-append xs ys)

  pub length-take : (n : ℕ) (xs : List A) → length (take n xs) ≡ min n (length xs)
  length-take zero xs = omega arith
  length-take (suc n) [] = omega arith
  length-take (suc n) (x ∷ xs) = omega (arith, length-take n xs)

  pub take-append : (xs ys : List A) → take (length xs) (xs ++ ys) ≡ xs
  take-append [] ys = refl
  take-append (x ∷ xs) ys = ap (λ t. x ∷ t) (take-append xs ys)

  pub drop-append : (xs ys : List A) → drop (length xs) (xs ++ ys) ≡ ys
  drop-append [] ys = refl
  drop-append (x ∷ xs) ys = drop-append xs ys

  pub take-take : (n : ℕ) (x : A) (xs : List A) → take n (x ∷ take n xs) ≡ take n (x ∷ xs)
  take-take zero x xs = refl
  take-take (suc zero) x xs = refl
  take-take (suc (suc n)) x [] = refl
  take-take (suc (suc n)) x (y ∷ ys) = ap (λ t. x ∷ t) (take-take (suc n) y ys)

  -- The items of the first list in front of the second, the last of them first.
  abbrev pub rev_onto : List A → List A → List A
  rev_onto [] ys = ys
  rev_onto (x ∷ xs) ys = rev_onto xs (x ∷ ys)

  pub rev_onto-append : (xs ys zs : List A) → rev_onto (xs ++ ys) zs ≡ rev_onto ys (rev_onto xs zs)
  rev_onto-append [] ys zs = refl
  rev_onto-append (x ∷ xs) ys zs = rev_onto-append xs ys (x ∷ zs)

module _ {ℓ κ} {A : Type ℓ} {B : Type κ} where
  pub map-take : (n : ℕ) (f : A → B) (xs : List A) → map f (take n xs) ≡ take n (map f xs)
  map-take zero f xs = refl
  map-take (suc n) f [] = refl
  map-take (suc n) f (x ∷ xs) = ap (λ t. f x ∷ t) (map-take n f xs)

module _ {ℓ κ} {A : Type ℓ} where
  abbrev pub All : (A → Type κ) → List A → Type κ
  All P [] = Unit
  All P (x ∷ xs) = P x × All P xs

-- A text is the list of its code units; the literals of the sources are ASCII.
abbrev pub Text : Type 0
Text = List ℕ

abbrev pub codes : String → Text
codes String.[] = []
codes (String.◌∷◌ c s) = code c ∷ codes s

module _ {ℓ κ} {A : Type ℓ} where
  pub All-map : {P Q : A → Type κ} (f : (a : A) → P a → Q a) (xs : List A) → All P xs → All Q xs
  All-map f [] h = tt
  All-map f (x ∷ xs) (p, h) = (f x p, All-map f xs h)

  pub All-take : (P : A → Type κ) (n : ℕ) (xs : List A) → All P xs → All P (take n xs)
  All-take P zero xs h = tt
  All-take P (suc n) [] h = tt
  All-take P (suc n) (x ∷ xs) (p, h) = (p, All-take P n xs h)

  pub All-rev_onto :
      (P : A → Type κ) (xs ys : List A) → All P xs → All P ys → All P (rev_onto xs ys)
  All-rev_onto P [] ys h k = k
  All-rev_onto P (x ∷ xs) ys (p, h) k = All-rev_onto P xs (x ∷ ys) h (p, k)

  pub All-append_left : (P : A → Type κ) (xs ys : List A) → All P (xs ++ ys) → All P xs
  All-append_left P [] ys h = tt
  All-append_left P (x ∷ xs) ys (p, h) = (p, All-append_left P xs ys h)

  pub All-append_right : (P : A → Type κ) (xs ys : List A) → All P (xs ++ ys) → All P ys
  All-append_right P [] ys h = h
  All-append_right P (x ∷ xs) ys (p, h) = All-append_right P xs ys h

module _ {ℓ} {A : Type ℓ} where
  abbrev pub Any : (A → Type 0) → List A → Type 0
  Any P [] = ⊥
  Any P (x ∷ xs) = P x ⊎ Any P xs

abbrev pub text_eq : Text → Text → Bool
text_eq [] [] = true
text_eq (a ∷ s) (b ∷ t) = a == b && text_eq s t
text_eq _ _ = false

pub text_eq_refl : (s : Text) → text_eq s s ≡ true
text_eq_refl [] = refl
text_eq_refl (a ∷ s) = ground (arith, text_eq_refl s)

pub text_eq_sound : (s t : Text) → text_eq s t ≡ true → s ≡ t
text_eq_sound [] [] h = refl
text_eq_sound [] (b ∷ t) h = cc
text_eq_sound (a ∷ s) [] h = cc
text_eq_sound (a ∷ s) (b ∷ t) h = ground (arith, text_eq_sound s t)
