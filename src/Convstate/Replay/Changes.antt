-- ===== src/Convstate/Replay/Changes.antt =====
-- A value that is added at the end, or changes in its place, with the next number.
use agentapi.Prelude.{
  ℕ, zero, suc, ◌≤◌, ◌≡◌, refl, sym, ◌∙◌, ap, true, false, not, ◌&&◌, ◌||◌, List, [], ◌∷◌, ◌++◌,
  Option, none, some, arith, lt→ltb, Eq, index_func, modify_at, get_elem?, inl, inr, Bool-cases,
}
use mathlib.Core.Option
use agentapi.Convstate.Replay.{Numbered, Numbered-le, has_key, distinct, Follows}

module _ {A : Type 0} (n : ℕ) where
  pub Numbered-append :
      (x : A) (xs : List A) (seqs : List ℕ)
      → Numbered n xs seqs
      → Numbered (suc n) (xs ++ x ∷ []) (seqs ++ suc n ∷ [])
  Numbered-append x [] [] h = (omega arith, omega arith, tt)
  Numbered-append x [] (s ∷ seqs) h = absurd h
  Numbered-append x (y ∷ xs) [] h = absurd h
  Numbered-append x (y ∷ xs) (s ∷ seqs) (pos, bound, rest) =
      (pos, omega arith, Numbered-append x xs seqs rest)

  pub Numbered-modify :
      (f : A → A) (i : ℕ) (xs : List A) (seqs : List ℕ)
      → Numbered n xs seqs
      → Numbered (suc n) (modify_at i f xs) (modify_at i (λ s. suc n) seqs)
  Numbered-modify f i [] [] h = tt
  Numbered-modify f i [] (s ∷ seqs) h = absurd h
  Numbered-modify f i (x ∷ xs) [] h = absurd h
  Numbered-modify f zero (x ∷ xs) (s ∷ seqs) (pos, bound, rest) =
      (omega arith, omega arith, Numbered-le n (suc n) xs seqs (omega arith) rest)
  Numbered-modify f (suc i) (x ∷ xs) (s ∷ seqs) (pos, bound, rest) =
      (pos, omega arith, Numbered-modify f i xs seqs rest)

pred_index : (o : Option ℕ) (i : ℕ) → Option.map suc o ≡ some (suc i) → o ≡ some i
pred_index none i h = cc
pred_index (some j) i h = ground arith

module _ {K A : Type 0} ⦃e : Eq K⦄ (key : A → K) where
  pub index_func-has_key :
      (k : K) (xs : List A) → index_func (λ x. e.beq (key x) k) xs ≡ none → has_key key k xs ≡ false
  index_func-has_key k [] h = refl
  index_func-has_key k (x ∷ xs) h = ground (arith, index_func-has_key k xs)

  -- A value found by its key.
  pub index_func-key :
      (k : K) (xs : List A) (i : ℕ)
      → index_func (λ x. e.beq (key x) k) xs ≡ some i
      → (x : A) → get_elem? xs i ≡ some x
      → key x ≡ k
  index_func-key k [] i h x at = cc
  index_func-key k (y ∷ xs) zero h x at = ground (arith, e.beq_iff (key y) k)
  index_func-key k (y ∷ xs) (suc i) h x at = elim (Bool-cases (e.beq (key y) k)) [
    | inl here ↦ absurd (ground arith)
    | inr on ↦
        index_func-key k xs i (pred_index (index_func (λ z. e.beq (key z) k) xs) i (rw on at h)) x
          at
  ]

  has_key-append_one :
      (k : K) (xs : List A) (x : A)
      → has_key key k (xs ++ x ∷ []) ≡ (has_key key k xs || e.beq (key x) k)
  has_key-append_one k [] x = ground arith
  has_key-append_one k (y ∷ xs) x = ground (arith, has_key-append_one k xs x)

  pub distinct-append :
      (x : A) (xs : List A)
      → has_key key (key x) xs ≡ false
      → distinct key xs ≡ true
      → distinct key (xs ++ x ∷ []) ≡ true
  distinct-append x [] h d = refl
  distinct-append x (y ∷ xs) h d = ground (
    arith,
    distinct-append x xs,
    has_key-append_one (key y) xs x,
    e.beq_iff (key x) (key y),
    e.beq_iff (key y) (key x),
  )

  pub Follows-append :
      (since n : ℕ) (x : A) (copies xs : List A) (seqs : List ℕ)
      → since ≤ n
      → Follows key since copies xs seqs
      → Follows key since copies (xs ++ x ∷ []) (seqs ++ suc n ∷ [])
  Follows-append since n x [] [] [] le f = (omega arith, tt)
  Follows-append since n x [] [] (s ∷ seqs) le f = absurd f
  Follows-append since n x [] (y ∷ xs) [] le f = absurd f
  Follows-append since n x [] (y ∷ xs) (s ∷ seqs) le (lt, rest) =
      (lt, Follows-append since n x [] xs seqs le rest)
  Follows-append since n x (c ∷ copies) [] seqs le f = absurd f
  Follows-append since n x (c ∷ copies) (y ∷ xs) [] le f = absurd f
  Follows-append since n x (c ∷ copies) (y ∷ xs) (s ∷ seqs) le (same, kept, rest) =
      (same, kept, Follows-append since n x copies xs seqs le rest)

  module _ (x : A) where
    -- A value may be replaced by one with its key.
    abbrev pub SameKeyAt : ℕ → List A → Type 0
    SameKeyAt i xs = (y : A) → get_elem? xs i ≡ some y → key y ≡ key x

    has_key-modify :
        (k : K) (i : ℕ) (xs : List A)
        → SameKeyAt i xs
        → has_key key k (modify_at i (λ y. x) xs) ≡ has_key key k xs
    has_key-modify k i [] h = refl
    has_key-modify k zero (y ∷ xs) h = ap (λ j. e.beq j k || has_key key k xs) (sym (h y refl))
    has_key-modify k (suc i) (y ∷ xs) h = ap (λ b. e.beq (key y) k || b) (has_key-modify k i xs h)

    pub distinct-modify :
        (i : ℕ) (xs : List A)
        → SameKeyAt i xs
        → distinct key (modify_at i (λ y. x) xs) ≡ distinct key xs
    distinct-modify i [] h = refl
    distinct-modify zero (y ∷ xs) h =
        ap (λ k. not (has_key key k xs) && distinct key xs) (sym (h y refl))
    distinct-modify (suc i) (y ∷ xs) h =
        ground (arith, has_key-modify (key y) i xs h, distinct-modify i xs h)

    pub Follows-modify :
        (since n i : ℕ) (copies xs : List A) (seqs : List ℕ)
        → since ≤ n
        → SameKeyAt i xs
        → Follows key since copies xs seqs
        → Follows key since copies (modify_at i (λ y. x) xs) (modify_at i (λ s. suc n) seqs)
    Follows-modify since n i [] [] [] le h f = tt
    Follows-modify since n i [] [] (s ∷ seqs) le h f = absurd f
    Follows-modify since n i [] (y ∷ xs) [] le h f = absurd f
    Follows-modify since n zero [] (y ∷ xs) (s ∷ seqs) le h (lt, rest) = (omega arith, rest)
    Follows-modify since n (suc i) [] (y ∷ xs) (s ∷ seqs) le h (lt, rest) =
        (lt, Follows-modify since n i [] xs seqs le h rest)
    Follows-modify since n i (c ∷ copies) [] seqs le h f = absurd f
    Follows-modify since n i (c ∷ copies) (y ∷ xs) [] le h f = absurd f
    Follows-modify since n zero (c ∷ copies) (y ∷ xs) (s ∷ seqs) le h (same, kept, rest) =
        (same ∙ h y refl, λ old. absurd (cc (old, lt→ltb since (suc n) (omega arith))), rest)
    Follows-modify since n (suc i) (c ∷ copies) (y ∷ xs) (s ∷ seqs) le h (same, kept, rest) =
        (same, kept, Follows-modify since n i copies xs seqs le h rest)
