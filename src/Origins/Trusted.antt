-- ===== src/Origins/Trusted.antt =====
-- What the list of trusted origins lets through.
use agentapi.Prelude.{
  ◌≡◌, ◌≢◌, ◌↔◌, ◌⊎◌, refl, sym, ◌∙◌, ap, Bool, true, false, ◌||◌, List, [], ◌∷◌, ◌++◌, Option,
  none, some, str_eq, Text, text_eq, text_eq_iff, is_empty, codes, arith, if◌then◌else◌,
  contains_func, inl, inr, Bool-cases, Option-cases,
}
use agentapi.Origins.{
  Request, TrustedOrigins, star, cut_star, add_origin, add_origins, trusted_origins, fits_pattern,
  matches, is_safe, cross_origin_allowed,
}
use agentapi.Origins.Wildcard.{
  has_star, cut_star-none, cut_star-some, fits_pattern-split, fits_pattern-join,
}

-- Whether an origin is one that a trusted origin stands for: itself or, if it has a star, any text
-- with what is before and after the first star at its ends, without overlap. A star alone stands for none.
abbrev pub StandsFor : Text → Text → Type 0
StandsFor t o =
    (t ≢ codes "*")
    × (((has_star t ≡ false) × (o ≡ t))
        ⊎ ((p : Text) × (mid : Text) × (s : Text) × (has_star p ≡ false)
            × (t ≡ p ++ star ∷ s)
            × (o ≡ p ++ (mid ++ s))))

-- Whether one of the trusted origins, in lower case, stands for an origin.
abbrev pub TrustedBy : (Text → Text) → List Text → Text → Type 0
TrustedBy lower [] o = ⊥
TrustedBy lower (t ∷ trusted) o = StandsFor (lower t) o ⊎ TrustedBy lower trusted o

-- The test that one trusted origin adds.
accepts_one : Text → Text → Bool
accepts_one t o =
    if text_eq t (codes "*")
    then false
    else elim (cut_star t) [ some parts ↦ fits_pattern o parts | none ↦ text_eq t o ]

accepts : TrustedOrigins → Text → Bool
accepts t o = contains_func (λ e. text_eq e o) t.exact || contains_func (fits_pattern o) t.patterns

contains_func-append_one {ℓ} :
    {A : Type ℓ} (p : A → Bool) (xs : List A) (x : A)
    → contains_func p (xs ++ x ∷ []) ≡ (contains_func p xs || p x)
contains_func-append_one p [] x = ground arith
contains_func-append_one p (y ∷ xs) x = ground (arith, contains_func-append_one p xs x)

add_origin-accepts :
    (t : Text) (acc : TrustedOrigins) (o : Text)
    → accepts (add_origin t acc) o ≡ (accepts acc o || accepts_one t o)
unfolding add_origin accepts accepts_one
add_origin-accepts t acc o = elim (Bool-cases (text_eq t (codes "*"))) [
  | inl any ↦ rw (any, add_origin, accepts_one) (ground arith)
  | inr one ↦ elim (Option-cases (cut_star t)) [
    | inl e ↦
        rw (one, e, add_origin, accepts_one)
          (ground (arith, contains_func-append_one (λ x. text_eq x o) acc.exact t))
    | inr (parts, e) ↦
        rw (one, e, add_origin, accepts_one)
          (ground (arith, contains_func-append_one (fits_pattern o) acc.patterns parts))
  ]
]

accepts_any : (Text → Text) → List Text → Text → Bool
accepts_any lower trusted o = contains_func (λ t. accepts_one (lower t) o) trusted

add_origins-accepts :
    (lower : Text → Text) (trusted : List Text) (acc : TrustedOrigins) (o : Text)
    → accepts (add_origins lower trusted acc) o ≡ (accepts acc o || accepts_any lower trusted o)
unfolding add_origins accepts_any
add_origins-accepts lower [] acc o = ground arith
add_origins-accepts lower (t ∷ trusted) acc o = ground (
  arith,
  add_origins-accepts lower trusted (add_origin (lower t) acc) o,
  add_origin-accepts (lower t) acc o,
)

has_star-middle : (p s : Text) → has_star (p ++ star ∷ s) ≡ true
has_star-middle [] s = refl
has_star-middle (c ∷ p) s = ground (arith, has_star-middle p s)

-- The first star is where the text without a star before it ends.
cut_star-middle : (p s : Text) → has_star p ≡ false → cut_star (p ++ star ∷ s) ≡ some (p, s)
unfolding cut_star
cut_star-middle [] s free = refl
cut_star-middle (c ∷ p) s free = ground (arith, cut_star-middle p s)

cut_star-free : (t : Text) → has_star t ≡ false → cut_star t ≡ none
unfolding cut_star
cut_star-free [] free = refl
cut_star-free (c ∷ t) free = ground (arith, cut_star-free t)

accepts_one_sound : (t o : Text) → accepts_one t o ≡ true → StandsFor t o
unfolding accepts_one
accepts_one_sound t o h = elim (Bool-cases (text_eq t (codes "*"))) [
  | inl any ↦ absurd (ground (arith, any))
  | inr one ↦
      let other : t ≢ codes "*" = λ e. cc (one, (text_eq_iff t (codes "*")).1 e) in
      elim (Option-cases (cut_star t)) [
        | inl e ↦
            let same : text_eq t o ≡ true = rw (one, e, accepts_one) at h in
            (other, inl (cut_star-none t e, sym ((text_eq_iff t o).0 same)))
        | inr (parts, e) ↦
            let fits : fits_pattern o parts ≡ true = rw (one, e, accepts_one) at h in
            let (mid, whole) = fits_pattern-split o parts.0 parts.1 fits in
            let (cut, free) = cut_star-some t parts.0 parts.1 e in
            (other, inr (parts.0, mid, parts.1, free, cut, whole))
      ]
]

accepts_one_complete : (t o : Text) → StandsFor t o → accepts_one t o ≡ true
unfolding accepts_one
accepts_one_complete t o (other, how) =
    let one : text_eq t (codes "*") ≡ false = ground (arith, text_eq_iff t (codes "*")) in
    elim how [
      | inl (free, same) ↦
          rw (one, cut_star-free t free, accepts_one) ((text_eq_iff t o).1 (sym same))
      | inr (p, mid, s, free, cut, whole) ↦
          let parts : cut_star t ≡ some (p, s) = ap cut_star cut ∙ cut_star-middle p s free in
          rw (one, parts, accepts_one)
            (ap (λ x. fits_pattern x (p, s)) whole ∙ fits_pattern-join p mid s)
    ]

accepts_any_sound :
    (lower : Text → Text) (trusted : List Text) (o : Text)
    → accepts_any lower trusted o ≡ true
    → TrustedBy lower trusted o
unfolding accepts_any
accepts_any_sound lower [] o h = cc
accepts_any_sound lower (t ∷ trusted) o h = elim (Bool-cases (accepts_one (lower t) o)) [
  | inl this ↦ inl (accepts_one_sound (lower t) o this)
  | inr on ↦ inr (accepts_any_sound lower trusted o (rw on at h))
]

accepts_any_complete :
    (lower : Text → Text) (trusted : List Text) (o : Text)
    → TrustedBy lower trusted o
    → accepts_any lower trusted o ≡ true
unfolding accepts_any
accepts_any_complete lower [] o h = absurd h
accepts_any_complete lower (t ∷ trusted) o (inl this) =
    ground (arith, accepts_one_complete (lower t) o this)
accepts_any_complete lower (t ∷ trusted) o (inr later) =
    ground (arith, accepts_any_complete lower trusted o later)

matches-accepts :
    (lower : Text → Text) (trusted : List Text) (origin : Text)
    → matches lower (trusted_origins lower trusted) origin
      ≡ (if is_empty (lower origin) then false else accepts_any lower trusted (lower origin))
unfolding matches trusted_origins accepts
matches-accepts lower trusted origin =
    ap (λ b. if is_empty (lower origin) then false else b)
      (add_origins-accepts lower trusted (record { exact = []; patterns = [] }) (lower origin))

-- A request that changes something, and that a browser sent for a page of another origin, by its
-- Sec-Fetch-Site, is let through exactly if its origin, in lower case, is not empty and one of the
-- trusted origins stands for it; "*" alone stands for none.
pub cross_origin_allowed_iff :
    (lower : Text → Text) (host_of : Text → Option Text) (trusted : List Text) (r : Request)
    → is_safe r.method ≡ false
    → str_eq r.sec_fetch_site "same-origin" ≡ false
    → str_eq r.sec_fetch_site "none" ≡ false
    → str_eq r.sec_fetch_site "" ≡ false
    → (cross_origin_allowed lower host_of (trusted_origins lower trusted) r ≡ true)
      ↔ ((is_empty (lower r.origin) ≡ false) × TrustedBy lower trusted (lower r.origin))
unfolding cross_origin_allowed
cross_origin_allowed_iff lower host_of trusted r unsafe other_site typed marked =
    let o = lower r.origin in
    let judged : cross_origin_allowed lower host_of (trusted_origins lower trusted) r
        ≡ (if is_empty o then false else accepts_any lower trusted o) =
      ground (arith, matches-accepts lower trusted r.origin) in
    (
      λ h. elim (Bool-cases (is_empty o)) [
        | inl none_given ↦ absurd (ground arith)
        | inr given ↦ (given, accepts_any_sound lower trusted o (ground arith))
      ],
      λ both. ground (arith, both.0, accepts_any_complete lower trusted o both.1),
    )
