-- ===== src/Convstate/Replay.antt =====
-- Values that are stored with the sequence number of their latest change, and what a client makes
-- of the changes after a number: it replaces the value with the same key, or adds the new one.
pub mod Changes
use agentapi.Prelude.{
  ℕ, ◌≤◌, ◌<◌, ◌≡◌, refl, sym, ◌∙◌, ap, Bool, true, false, not, ◌&&◌, ◌||◌, List, [], ◌∷◌, ◌++◌,
  arith, ltb, if◌then◌else◌, Eq, append-nil, append_assoc, lt→ltb, inl, inr, Bool-cases,
}

module _ {A : Type 0} where
  -- The values whose latest change came after `since`.
  abbrev pub changes_since : ℕ → List A → List ℕ → List A
  changes_since since [] seqs = []
  changes_since since (x ∷ xs) [] = []
  changes_since since (x ∷ xs) (s ∷ seqs) =
      let rest = changes_since since xs seqs in if ltb since s then x ∷ rest else rest

  -- Each value has a number, from 1 up to `seq`.
  abbrev pub Numbered : ℕ → List A → List ℕ → Type 0
  Numbered seq [] [] = Unit {0}
  Numbered seq [] (s ∷ seqs) = ⊥
  Numbered seq (x ∷ xs) [] = ⊥
  Numbered seq (x ∷ xs) (s ∷ seqs) = (0 < s) × (s ≤ seq) × Numbered seq xs seqs

  pub Numbered-le :
      (n m : ℕ) (xs : List A) (seqs : List ℕ) → n ≤ m → Numbered n xs seqs → Numbered m xs seqs
  Numbered-le n m [] [] le h = tt
  Numbered-le n m [] (s ∷ seqs) le h = h
  Numbered-le n m (x ∷ xs) [] le h = h
  Numbered-le n m (x ∷ xs) (s ∷ seqs) le (pos, bound, rest) =
      (pos, omega arith, Numbered-le n m xs seqs le rest)

  -- Since 0 everything changed.
  pub changes_since-zero :
      (n : ℕ) (xs : List A) (seqs : List ℕ) → Numbered n xs seqs → changes_since 0 xs seqs ≡ xs
  changes_since-zero n [] [] h = refl
  changes_since-zero n [] (s ∷ seqs) h = absurd h
  changes_since-zero n (x ∷ xs) [] h = absurd h
  changes_since-zero n (x ∷ xs) (s ∷ seqs) (pos, bound, rest) =
      rw (lt→ltb 0 s pos) (ap (λ ys. x ∷ ys) (changes_since-zero n xs seqs rest))

module _ {K A : Type 0} ⦃e : Eq K⦄ (key : A → K) where
  abbrev pub has_key : K → List A → Bool
  has_key k [] = false
  has_key k (x ∷ xs) = e.beq (key x) k || has_key k xs

  -- The keys are different.
  abbrev pub distinct : List A → Bool
  distinct [] = true
  distinct (x ∷ xs) = not (has_key (key x) xs) && distinct xs

  abbrev pub upsert : A → List A → List A
  upsert x [] = x ∷ []
  upsert x (y ∷ ys) = let rest = upsert x ys in if e.beq (key y) (key x) then x ∷ ys else y ∷ rest

  abbrev pub upsert_all : List A → List A → List A
  upsert_all [] ys = ys
  upsert_all (x ∷ xs) ys = upsert_all xs (upsert x ys)

  -- The values `olds` became the values `xs`: each stayed in its place, with its key, and is the
  -- same unless its number is after `since`; the new values, at the end, have such numbers.
  abbrev pub Follows : ℕ → List A → List A → List ℕ → Type 0
  Follows since [] [] [] = Unit {0}
  Follows since [] [] (s ∷ seqs) = ⊥
  Follows since [] (x ∷ xs) [] = ⊥
  Follows since [] (x ∷ xs) (s ∷ seqs) = (since < s) × Follows since [] xs seqs
  Follows since (o ∷ olds) [] seqs = ⊥
  Follows since (o ∷ olds) (x ∷ xs) [] = ⊥
  Follows since (o ∷ olds) (x ∷ xs) (s ∷ seqs) =
      (key o ≡ key x) × (ltb since s ≡ false → o ≡ x) × Follows since olds xs seqs

  pub Follows-refl :
      (since n : ℕ) (xs : List A) (seqs : List ℕ) → Numbered n xs seqs → Follows since xs xs seqs
  Follows-refl since n [] [] h = tt
  Follows-refl since n [] (s ∷ seqs) h = absurd h
  Follows-refl since n (x ∷ xs) [] h = absurd h
  Follows-refl since n (x ∷ xs) (s ∷ seqs) (pos, bound, rest) =
      (refl, λ old. refl, Follows-refl since n xs seqs rest)

  has_key-append : (k : K) (xs ys : List A) → has_key k (xs ++ ys) ≡ (has_key k xs || has_key k ys)
  has_key-append k [] ys = refl
  has_key-append k (x ∷ xs) ys = ground (arith, has_key-append k xs ys)

  -- The key of a value behind others with different keys.
  distinct-prefix :
      (pre : List A) (x : A) (xs : List A)
      → distinct (pre ++ x ∷ xs) ≡ true
      → has_key (key x) pre ≡ false
  distinct-prefix [] x xs d = refl
  distinct-prefix (p ∷ pre) x xs d = ground (
    arith,
    has_key-append (key p) pre (x ∷ xs),
    distinct-prefix pre x xs,
    e.beq_iff (key p) (key x),
    e.beq_iff (key x) (key p),
  )

  upsert-new : (x : A) (pre : List A) → has_key (key x) pre ≡ false → upsert x pre ≡ pre ++ x ∷ []
  upsert-new x [] h = refl
  upsert-new x (p ∷ pre) h = ground (arith, upsert-new x pre)

  upsert-old :
      (x o : A) (pre olds : List A)
      → has_key (key x) pre ≡ false
      → key o ≡ key x
      → upsert x (pre ++ o ∷ olds) ≡ pre ++ x ∷ olds
  upsert-old x o [] olds h same = ground (arith, e.beq_iff (key o) (key x))
  upsert-old x o (p ∷ pre) olds h same = ground (arith, upsert-old x o pre olds)

  step_prefix :
      (pre : List A) (x : A) (xs : List A)
      → distinct (pre ++ x ∷ xs) ≡ true
      → distinct ((pre ++ x ∷ []) ++ xs) ≡ true
  step_prefix pre x xs d = ap distinct (append_assoc pre (x ∷ []) xs) ∙ d

  -- The changes after `since` bring a client that has the values at `since` up to date.
  catch_up :
      (since : ℕ) (pre olds xs : List A) (seqs : List ℕ)
      → Follows since olds xs seqs
      → distinct (pre ++ xs) ≡ true
      → upsert_all (changes_since since xs seqs) (pre ++ olds) ≡ pre ++ xs
  catch_up since pre [] [] [] f d = refl
  catch_up since pre [] [] (s ∷ seqs) f d = absurd f
  catch_up since pre [] (x ∷ xs) [] f d = absurd f
  catch_up since pre [] (x ∷ xs) (s ∷ seqs) (lt, rest) d =
      let ch = changes_since since xs seqs in
      let fresh = distinct-prefix pre x xs d in
      rw (lt→ltb since s lt) (
        ap (upsert_all ch) (
          ap (upsert x) (append-nil pre)
          ∙ upsert-new x pre fresh
          ∙ sym (append-nil (pre ++ x ∷ [])))
        ∙ catch_up since (pre ++ x ∷ []) [] xs seqs rest (step_prefix pre x xs d)
        ∙ append_assoc pre (x ∷ []) xs)
  catch_up since pre (o ∷ olds) [] seqs f d = absurd f
  catch_up since pre (o ∷ olds) (x ∷ xs) [] f d = absurd f
  catch_up since pre (o ∷ olds) (x ∷ xs) (s ∷ seqs) (same, kept, rest) d =
      let ch = changes_since since xs seqs in
      let fresh = distinct-prefix pre x xs d in
      let later =
        catch_up since (pre ++ x ∷ []) olds xs seqs rest (step_prefix pre x xs d)
        ∙ append_assoc pre (x ∷ []) xs in
      elim (Bool-cases (ltb since s)) [
        | inl new ↦ rw new (
            ap (upsert_all ch)
              (upsert-old x o pre olds fresh same ∙ sym (append_assoc pre (x ∷ []) olds))
            ∙ later)
        | inr old ↦ rw old (
            ap (λ y. upsert_all ch (pre ++ y ∷ olds)) (kept old)
            ∙ ap (upsert_all ch) (sym (append_assoc pre (x ∷ []) olds))
            ∙ later)
      ]

  -- A client with the values at `since` has them all once it applied the later changes.
  pub upsert_all-changes_since :
      (since : ℕ) (olds xs : List A) (seqs : List ℕ)
      → Follows since olds xs seqs
      → distinct xs ≡ true
      → upsert_all (changes_since since xs seqs) olds ≡ xs
  upsert_all-changes_since since olds xs seqs = catch_up since [] olds xs seqs
