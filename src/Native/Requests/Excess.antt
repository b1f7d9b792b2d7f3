-- ===== src/Native/Requests/Excess.antt =====
-- The indexes of the closed requests, and sorting them (`ExcessClosed` of lib/native/requests.go).
use agentapi.Prelude.{
  ℕ, zero, suc, ◌+◌, ◌-◌, ◌≤◌, ◌<◌, ◌≡◌, refl, false, List, [], ◌∷◌, map, some, arith, leb, ==_refl,
  length, keep, take, get_elem?, count, nat_eq, Bool-cases, inl, inr,
}
use agentapi.Native.Requests.{
  RequestState, is_pending, closed_from, insert_by_time, sort_by_time, insert, sort,
}
use agentapi.Native.Requests.Drop.{Rising, ClosedAt}

-- The indexes of the entries, with their times.
abbrev pub indexes : List (ℕ × ℕ) → List ℕ
indexes cs = map (λ c. c.0) cs

count-insert : (a i : ℕ) (is : List ℕ) → count a (insert i is) ≡ count a (i ∷ is)
unfolding insert
count-insert a i [] = refl
count-insert a i (j ∷ is) = ground (arith, count-insert a i is)

pub count-sort : (a : ℕ) (is : List ℕ) → count a (sort is) ≡ count a is
unfolding sort
count-sort a [] = refl
count-sort a (i ∷ is) = ground (arith, count-insert a i (sort is), count-sort a is)

length-insert : (i : ℕ) (is : List ℕ) → length (insert i is) ≡ suc (length is)
unfolding insert
length-insert i [] = refl
length-insert i (j ∷ is) = ground (arith, length-insert i is)

pub length-sort : (is : List ℕ) → length (sort is) ≡ length is
unfolding sort
length-sort [] = refl
length-sort (i ∷ is) = ground (arith, length-insert i (sort is), length-sort is)

count-insert_by_time :
    (a i t : ℕ) (cs : List (ℕ × ℕ))
    → count a (indexes (insert_by_time (i, t) cs)) ≡ count a (i ∷ indexes cs)
unfolding insert_by_time
count-insert_by_time a i t [] = refl
count-insert_by_time a i t ((j, u) ∷ cs) = ground (arith, count-insert_by_time a i t cs)

pub count-sort_by_time :
    (a : ℕ) (cs : List (ℕ × ℕ)) → count a (indexes (sort_by_time cs)) ≡ count a (indexes cs)
unfolding sort_by_time
count-sort_by_time a [] = refl
count-sort_by_time a ((i, t) ∷ cs) =
    ground (arith, count-insert_by_time a i t (sort_by_time cs), count-sort_by_time a cs)

length-insert_by_time :
    (i t : ℕ) (cs : List (ℕ × ℕ)) → length (insert_by_time (i, t) cs) ≡ suc (length cs)
unfolding insert_by_time
length-insert_by_time i t [] = refl
length-insert_by_time i t ((j, u) ∷ cs) = ground (arith, length-insert_by_time i t cs)

pub length-sort_by_time : (cs : List (ℕ × ℕ)) → length (sort_by_time cs) ≡ length cs
unfolding sort_by_time
length-sort_by_time [] = refl
length-sort_by_time ((i, t) ∷ cs) =
    ground (arith, length-insert_by_time i t (sort_by_time cs), length-sort_by_time cs)

pub count-take :
    (a k : ℕ) (cs : List (ℕ × ℕ)) → count a (indexes (take k cs)) ≤ count a (indexes cs)
count-take a zero cs = ground arith
count-take a (suc k) [] = ground arith
count-take a (suc k) (c ∷ cs) = ground (arith, count-take a k cs)

pub length-take : (k : ℕ) (cs : List (ℕ × ℕ)) → k ≤ length cs → length (indexes (take k cs)) ≡ k
length-take zero cs le = ground arith
length-take (suc k) [] le = absurd (omega arith)
length-take (suc k) (c ∷ cs) le = ground (arith, length-take k cs)

insert-Rising :
    (lo i : ℕ) (is : List ℕ) → lo ≤ i → count i is ≡ 0 → Rising lo is → Rising lo (insert i is)
unfolding insert
insert-Rising lo i [] le z h = (le, tt)
insert-Rising lo i (j ∷ is) le z h = elim (Bool-cases (leb i j)) [
  | inl e ↦ rw (e, insert) (le, (ground (arith, e, z), h.1))
  | inr e ↦
      rw (e, insert) (h.0, insert-Rising (suc j) i is (ground (arith, e)) (ground (arith, z)) h.1)
]

pub sort-Rising : (is : List ℕ) → ((a : ℕ) → count a is ≤ 1) → Rising 0 (sort is)
unfolding sort
sort-Rising [] d = tt
sort-Rising (i ∷ is) d =
    insert-Rising 0 i (sort is) (omega arith) (ground (arith, d i, count-sort i is, ==_refl i))
      (sort-Rising is (λ a. ground (arith, d a)))

pub count-closed_from :
    (a i : ℕ) (rs : List RequestState)
    → (count a (indexes (closed_from i rs)) ≤ 1)
      × (a < i → count a (indexes (closed_from i rs)) ≡ 0)
unfolding closed_from
count-closed_from a i [] = (omega arith, λ lt. refl)
count-closed_from a i (r ∷ rs) = (
  ground (arith, count-closed_from a (suc i) rs),
  λ lt. ground (arith, count-closed_from a (suc i) rs),
)

pub length-closed_from :
    (i : ℕ) (rs : List RequestState)
    → length (closed_from i rs) + length (keep is_pending rs) ≡ length rs
unfolding closed_from
length-closed_from i [] = refl
length-closed_from i (r ∷ rs) = ground (arith, length-closed_from (suc i) rs)

-- The entry `n` places before an index of the list is a closed request.
abbrev pub IsClosed : ℕ → List RequestState → Type 0
IsClosed k rs = (r : RequestState) × (get_elem? rs k ≡ some r) × (is_pending r ≡ false)

pub closed_from-IsClosed :
    (k i : ℕ) (rs : List RequestState)
    → 1 ≤ count (k + i) (indexes (closed_from i rs))
    → IsClosed k rs
unfolding closed_from
closed_from-IsClosed k i [] h = absurd (ground (arith, h))
closed_from-IsClosed zero i (r ∷ rs) h = elim (Bool-cases (is_pending r)) [
  | inl p ↦ absurd (ground (arith, h, p, (count-closed_from i (suc i) rs).1))
  | inr p ↦ (r, refl, p)
]
closed_from-IsClosed (suc k) i (r ∷ rs) h =
    let same : k + suc i ≡ suc k + i = omega arith in
    closed_from-IsClosed k (suc i) rs (rw same (ground (arith, h)))

pub ClosedAt-all :
    (is : List ℕ) (rs : List RequestState)
    → ((a : ℕ) → 1 ≤ count a is → IsClosed a rs)
    → ClosedAt 0 is rs
ClosedAt-all [] rs f = tt
ClosedAt-all (i ∷ is) rs f =
    let here : i - 0 ≡ i = omega arith in
    (rw here (f i (ground (arith, ==_refl i))), ClosedAt-all is rs (λ a h. f a (ground (arith, h))))
