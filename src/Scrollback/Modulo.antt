-- ===== src/Scrollback/Modulo.antt =====
-- Places in a ring of a positive size.
use agentapi.Prelude.{
  ℕ, ◌+◌, ◌-◌, ◌%◌, ◌≤◌, ◌<◌, ◌≡◌, sym, ◌∙◌, arith, ltb, if◌then◌else◌, inl, inr, Bool-cases,
  ltb→lt, ◌≢◌,
}
use native.Mathlib.Nat.{mod-add-mod, mod-eq_of_lt, mod-eq-sub-mod}

module _ (size : ℕ) (positive : 0 < size) where
  pub mod-bound : (o : ℕ) → o % size < size
  mod-bound o = omega arith

  -- The place `k` further on, for a `k` of at most the size.
  pub mod-add :
      (o k : ℕ)
      → k ≤ size
      → (o + k) % size ≡ (if ltb (o % size + k) size then o % size + k else o % size + k - size)
  mod-add o k le = elim (Bool-cases (ltb (o % size + k) size)) [
    | inl lt ↦ rw lt (sym (mod-add-mod o size k) ∙ mod-eq_of_lt (ltb→lt _ _ lt))
    | inr wide ↦ rw wide (
        let wrapped : size ≤ o % size + k = ground arith in
        elim (Bool-cases (ltb (o % size + k - size) size)) [
          | inl lt ↦
              sym (mod-add-mod o size k) ∙ mod-eq-sub-mod wrapped ∙ mod-eq_of_lt (ltb→lt _ _ lt)
          | inr far ↦ absurd (ground (arith, mod-bound o))
        ])
  ]

  -- Two offsets less than the size apart lie at different places.
  pub mod_ne : (o k : ℕ) → 0 < k → k < size → o % size ≢ (o + k) % size
  mod_ne o k pos lt e = ground (arith, mod-add o k (omega arith), mod-bound o)
