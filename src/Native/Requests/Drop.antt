-- ===== src/Native/Requests/Drop.antt =====
-- Deleting the closed requests at rising indexes (`trim` of lib/native/requests.go).
use agentapi.Prelude.{
  ℕ, zero, suc, ◌+◌, ◌-◌, ◌≤◌, ◌≡◌, refl, ap, ◌∙◌, false, List, [], ◌∷◌, some, arith, length, keep,
  get_elem?, delete_at, nat_eq,
}
use agentapi.Native.Requests.{RequestState, is_pending, delete_all}

-- Indexes that rise from `lo` on.
abbrev pub Rising : ℕ → List ℕ → Type 0
Rising lo [] = Unit {0}
Rising lo (i ∷ is) = (lo ≤ i) × Rising (suc i) is

pub Rising-lower : (lo lo' : ℕ) (is : List ℕ) → lo ≤ lo' → Rising lo' is → Rising lo is
Rising-lower lo lo' [] le h = tt
Rising-lower lo lo' (i ∷ is) le h = (omega (arith, h.0), h.1)

-- At each index, less the `n` entries deleted before, stands a closed request.
abbrev pub ClosedAt : ℕ → List ℕ → List RequestState → Type 0
ClosedAt n [] rs = Unit {0}
ClosedAt n (i ∷ is) rs =
    ((r : RequestState) × (get_elem? rs (i - n) ≡ some r) × (is_pending r ≡ false))
    × ClosedAt n is rs

pub delete_at-pending :
    (i : ℕ) (rs : List RequestState) (r : RequestState)
    → get_elem? rs i ≡ some r
    → is_pending r ≡ false
    → (keep is_pending (delete_at i rs) ≡ keep is_pending rs)
      × (suc (length (delete_at i rs)) ≡ length rs)
delete_at-pending i [] r e p = absurd (ground arith)
delete_at-pending zero (x ∷ xs) r e p = ground (arith, e, p)
delete_at-pending (suc i) (x ∷ xs) r e p = ground (arith, delete_at-pending i xs r e p)

pub get-delete_at :
    (i k : ℕ) (rs : List RequestState) → i ≤ k → get_elem? (delete_at i rs) k ≡ get_elem? rs (suc k)
get-delete_at i k [] le = ground arith
get-delete_at zero k (x ∷ xs) le = refl
get-delete_at (suc i) zero (x ∷ xs) le = absurd (omega arith)
get-delete_at (suc i) (suc k) (x ∷ xs) le = get-delete_at i k xs (omega arith)

pub ClosedAt-delete :
    (n i : ℕ) (is : List ℕ) (rs : List RequestState)
    → n ≤ i
    → Rising (suc i) is
    → ClosedAt n is rs
    → ClosedAt (suc n) is (delete_at (i - n) rs)
ClosedAt-delete n i [] rs le rise c = tt
ClosedAt-delete n i (j ∷ is) rs le rise ((r, e, p), c) =
    let same : suc (j - suc n) ≡ j - n = omega (arith, rise.0) in
    (
      (
        r,
        get-delete_at (i - n) (j - suc n) rs (omega (arith, rise.0)) ∙ ap (get_elem? rs) same ∙ e,
        p,
      ),
      ClosedAt-delete n i is rs le (Rising-lower (suc i) (suc j) is (omega (arith, rise.0)) rise.1)
          c,
    )

pub delete_all-counts :
    (n : ℕ) (is : List ℕ) (rs : List RequestState)
    → Rising n is
    → ClosedAt n is rs
    → (keep is_pending (delete_all n is rs) ≡ keep is_pending rs)
      × (length (delete_all n is rs) + length is ≡ length rs)
unfolding delete_all
delete_all-counts n [] rs rise c = (refl, omega arith)
delete_all-counts n (i ∷ is) rs rise ((r, e, p), c) =
    let (pending, shorter) = delete_at-pending (i - n) rs r e p in
    let (pending', shorter') =
      delete_all-counts (suc n) is (delete_at (i - n) rs)
        (Rising-lower (suc n) (suc i) is (omega (arith, rise.0)) rise.1)
        (ClosedAt-delete n i is rs rise.0 rise.1 c) in
    (pending' ∙ pending, omega (arith, shorter, shorter'))
