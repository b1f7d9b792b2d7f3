-- ===== src/Origins/Wildcard.antt =====
-- A pattern with one star stands for all texts with its prefix and its suffix that don't overlap.
use agentapi.Prelude.{
  ◌+◌, ◌-◌, ◌≤◌, ◌≡◌, refl, sym, ◌∙◌, ap, ap₂, Bool, true, false, ◌||◌, List, [], ◌∷◌, ◌++◌, none,
  some, Text, text_eq_iff, arith, ◌==◌, length, take, drop, contains_func, inl, inr, Bool-cases,
  Option-cases, length-append, take-append-drop, drop-drop, append_assoc,
}
use agentapi.Origins.{star, cut_star, has_prefix, has_suffix, fits_pattern}

abbrev pub has_star : Text → Bool
has_star = contains_func (λ c. c == star)

-- Cutting finds the first star.
pub cut_star-none : (t : Text) → cut_star t ≡ none → has_star t ≡ false
unfolding cut_star
cut_star-none [] e = refl
cut_star-none (c ∷ t) e = ground (arith, cut_star-none t)

pub cut_star-some :
    (t : Text) (p s : Text) → cut_star t ≡ some (p, s) → (t ≡ p ++ star ∷ s) × (has_star p ≡ false)
unfolding cut_star
cut_star-some [] p s e = cc
cut_star-some (c ∷ t) p s e = elim (Bool-cases (c == star)) [
  | inl here ↦
      let none_before : p ≡ [] = ground arith in
      let rest : t ≡ s = ground arith in
      let is_star : c ≡ star = ground arith in
      (
        ap₂ (λ d u. d ∷ u) is_star rest ∙ ap (λ q. q ++ star ∷ s) (sym none_before),
        ap has_star none_before,
      )
  | inr on ↦ elim (Option-cases (cut_star t)) [
    | inl e' ↦ absurd (ground arith)
    | inr (parts, e') ↦
        let (whole, free) = cut_star-some t parts.0 parts.1 e' in
        let before : c ∷ parts.0 ≡ p = ground arith in
        let rest : parts.1 ≡ s = ground arith in
        (
          ap (λ u. c ∷ u) whole ∙ ap₂ (λ q r. q ++ star ∷ r) before rest,
          ap has_star (sym before) ∙ ap₂ (λ a b. a || b) on free,
        )
  ]
]

take-append_self {ℓ} : {A : Type ℓ} (xs ys : List A) → take (length xs) (xs ++ ys) ≡ xs
take-append_self [] ys = refl
take-append_self (x ∷ xs) ys = ap (λ zs. x ∷ zs) (take-append_self xs ys)

drop-append_self {ℓ} : {A : Type ℓ} (xs ys : List A) → drop (length xs) (xs ++ ys) ≡ ys
drop-append_self [] ys = refl
drop-append_self (x ∷ xs) ys = drop-append_self xs ys

pub fits_pattern-split :
    (o p s : Text) → fits_pattern o (p, s) ≡ true → (mid : Text) × (o ≡ p ++ (mid ++ s))
unfolding fits_pattern has_prefix has_suffix
fits_pattern-split o p s h =
    let n = length p in
    let k = length o - length s - n in
    let fits : n + length s ≤ length o = ground arith in
    let start : take n o ≡ p = ground (arith, text_eq_iff (take n o) p) in
    let stop : drop (length o - length s) o ≡ s =
      ground (arith, text_eq_iff (drop (length o - length s) o) s) in
    let place : n + k ≡ length o - length s = omega arith in
    let rest : drop k (drop n o) ≡ s = drop-drop k n o ∙ ap (λ i. drop i o) place ∙ stop in
    (
      take k (drop n o),
      sym (take-append-drop n o)
          ∙ ap₂ (λ xs ys. xs ++ ys) start
              (sym (take-append-drop k (drop n o)) ∙ ap (λ ys. take k (drop n o) ++ ys) rest),
    )

pub fits_pattern-join : (p mid s : Text) → fits_pattern (p ++ (mid ++ s)) (p, s) ≡ true
unfolding fits_pattern has_prefix has_suffix
fits_pattern-join p mid s =
    let o = p ++ (mid ++ s) in
    let total : length o ≡ length p + length mid + length s =
      omega (arith, length-append p (mid ++ s), length-append mid s) in
    let place : length o - length s ≡ length (p ++ mid) =
      omega (arith, total, length-append p mid) in
    let start : take (length p) o ≡ p = take-append_self p (mid ++ s) in
    let stop : drop (length o - length s) o ≡ s =
      ap (λ i. drop i o) place
      ∙ ap (drop (length (p ++ mid))) (sym (append_assoc p mid s))
      ∙ drop-append_self (p ++ mid) s in
    ground (
      arith,
      total,
      text_eq_iff (take (length p) o) p,
      text_eq_iff (drop (length o - length s) o) s,
    )
