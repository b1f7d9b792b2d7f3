-- ===== src/Prelude/Slices.antt =====
-- Elements of slices by their index.
use Prim.Native.Nat.{ℕ, zero, suc, ◌+◌, ◌-◌, ◌<◌, ◌≤◌, min}
use mathlib.Core.Path.{◌≡◌, refl, ap, ap₂, ◌∙◌}
use mathlib.Core.Bool.{Bool, false}
use mathlib.Core.List.{List, [], ◌∷◌, ◌++◌}
use mathlib.Core.Option.{Option, none, some}
use mathlib.Core.Option
use native.Mathlib.Omega.{arith}
use agentapi.Prelude.Tests.{if◌then◌else◌, ltb, ◌==◌}
use agentapi.Prelude.Lists.{length, get_elem?, take, drop, index_func, modify_at}

module _ {ℓ} {A : Type ℓ} where
  -- Go's xs[i:j].
  abbrev pub slice : ℕ → ℕ → List A → List A
  slice i j xs = take (j - i) (drop i xs)

  pub get_elem?-append :
      (xs ys : List A) (i : ℕ)
      → get_elem? (xs ++ ys) i
        ≡ (if ltb i (length xs) then get_elem? xs i else get_elem? ys (i - length xs))
  get_elem?-append [] ys i = ground arith
  get_elem?-append (x ∷ xs) ys zero = ground arith
  get_elem?-append (x ∷ xs) ys (suc i) = ground (arith, get_elem?-append xs ys i)

  pub get_elem?-take :
      (n : ℕ) (xs : List A) (i : ℕ)
      → get_elem? (take n xs) i ≡ (if ltb i n then get_elem? xs i else none)
  get_elem?-take zero xs i = ground arith
  get_elem?-take (suc n) [] i = ground arith
  get_elem?-take (suc n) (x ∷ xs) zero = ground arith
  get_elem?-take (suc n) (x ∷ xs) (suc i) = ground (arith, get_elem?-take n xs i)

  pub get_elem?-drop :
      (n : ℕ) (xs : List A) (i : ℕ) → get_elem? (drop n xs) i ≡ get_elem? xs (n + i)
  get_elem?-drop zero xs i = ground arith
  get_elem?-drop (suc n) [] i = ground arith
  get_elem?-drop (suc n) (x ∷ xs) i = ground (arith, get_elem?-drop n xs i)

  pub get_elem?-out : (xs : List A) (i : ℕ) → length xs ≤ i → get_elem? xs i ≡ none
  get_elem?-out [] i h = refl
  get_elem?-out (x ∷ xs) zero h = elim h [ ]
  get_elem?-out (x ∷ xs) (suc i) h = get_elem?-out xs i (omega arith)

  pub length-take : (n : ℕ) (xs : List A) → length (take n xs) ≡ min n (length xs)
  length-take zero xs = omega arith
  length-take (suc n) [] = omega arith
  length-take (suc n) (x ∷ xs) = omega (arith, length-take n xs)

  pub drop-append : (n : ℕ) (xs ys : List A) → n ≤ length xs → drop n (xs ++ ys) ≡ drop n xs ++ ys
  drop-append zero xs ys h = refl
  drop-append (suc n) [] ys h = elim h [ ]
  drop-append (suc n) (x ∷ xs) ys h = drop-append n xs ys (omega arith)

  pub drop-nil : (n : ℕ) → drop {A = A} n [] ≡ []
  drop-nil zero = refl
  drop-nil (suc n) = refl

  pub drop-drop : (m n : ℕ) (xs : List A) → drop m (drop n xs) ≡ drop (n + m) xs
  drop-drop m zero xs = ground arith
  drop-drop m (suc n) [] = ground (arith, drop-nil m, drop-nil (suc n + m))
  drop-drop m (suc n) (x ∷ xs) =
      let e : suc (n + m) ≡ suc n + m = omega arith in
      drop-drop m n xs ∙ ap (λ k. drop k (x ∷ xs)) e

  -- Lists with the same elements at the same places are equal.
  pub get_elem?-ext : (xs ys : List A) → ((i : ℕ) → get_elem? xs i ≡ get_elem? ys i) → xs ≡ ys
  get_elem?-ext [] [] h = refl
  get_elem?-ext [] (y ∷ ys) h = cc (h 0)
  get_elem?-ext (x ∷ xs) [] h = cc (h 0)
  get_elem?-ext (x ∷ xs) (y ∷ ys) h =
      let same : x ≡ y = cc (h 0) in
      ap₂ (λ z zs. z ∷ zs) same (get_elem?-ext xs ys (λ i. h (suc i)))

  pub index_func-append :
      (p : A → Bool) (xs ys : List A)
      → index_func p (xs ++ ys) ≡ elim (index_func p xs) [
        | some i ↦ some i
        | none ↦ Option.map (λ i. length xs + i) (index_func p ys)
      ]
  index_func-append p [] ys = ground (arith)
  index_func-append p (x ∷ xs) ys = ground (arith, index_func-append p xs ys)

  -- A search may leave out a part without a match.
  pub index_func-skip :
      (p : A → Bool) (k : ℕ) (xs : List A)
      → k ≤ length xs
      → ((i : ℕ) → i < k → (x : A) → get_elem? xs i ≡ some x → p x ≡ false)
      → index_func p xs ≡ Option.map (λ i. k + i) (index_func p (drop k xs))
  index_func-skip p zero xs h e = ground arith
  index_func-skip p (suc k) [] h e = elim h [ ]
  index_func-skip p (suc k) (x ∷ xs) h e = ground (
    arith,
    e 0 (omega arith) x refl,
    index_func-skip p k xs (omega arith) (λ i lt. e (suc i) (omega arith)),
  )

  pub index_func-none :
      (p : A → Bool) (xs : List A) (i : ℕ) (x : A)
      → index_func p xs ≡ none
      → get_elem? xs i ≡ some x
      → p x ≡ false
  index_func-none p [] i x e h = cc
  index_func-none p (y ∷ xs) zero x e h = ground arith
  index_func-none p (y ∷ xs) (suc i) x e h = ground (arith, index_func-none p xs i x)

  pub index_func-lt :
      (p : A → Bool) (xs : List A) (i : ℕ) → index_func p xs ≡ some i → i < length xs
  index_func-lt p [] i e = cc
  index_func-lt p (x ∷ xs) i e = ground (arith, index_func-lt p xs (i - 1))

  pub get_elem?-modify_at :
      (i : ℕ) (f : A → A) (xs : List A) (j : ℕ)
      → get_elem? (modify_at i f xs) j
        ≡ (if i == j then Option.map f (get_elem? xs j) else get_elem? xs j)
  get_elem?-modify_at i f [] j = ground arith
  get_elem?-modify_at zero f (x ∷ xs) zero = ground arith
  get_elem?-modify_at zero f (x ∷ xs) (suc j) = ground arith
  get_elem?-modify_at (suc i) f (x ∷ xs) zero = ground arith
  get_elem?-modify_at (suc i) f (x ∷ xs) (suc j) = ground (arith, get_elem?-modify_at i f xs j)
