-- ===== src/Queue/Pick.antt =====
-- The map by ID that `Reorder` of lib/httpapi/queue.go fills, and the loop that empties it again.
use agentapi.Prelude.{
  ℕ, suc, ◌+◌, ◌≡◌, refl, List, [], ◌∷◌, Option, none, some, arith, ◌==◌, if◌then◌else◌, length,
  ◌≤◌, dict_get, dict_put, dict_delete, keys, count, count-delete, nat_eq, dict_get-delete,
  Option-cases, inl, inr,
}
use agentapi.Queue.{QueuedMessage, ById, by_id_from, pick}

-- The IDs of the queued messages, in order.
abbrev pub ids_of : List QueuedMessage → List ℕ
ids_of [] = []
ids_of (m ∷ ms) = m.id ∷ ids_of ms

-- The first message with an ID.
abbrev pub find_id : ℕ → List QueuedMessage → Option QueuedMessage
find_id id [] = none
find_id id (m ∷ ms) = if m.id == id then some m else find_id id ms

-- No ID stands twice.
abbrev pub Distinct : List ℕ → Type 0
Distinct xs = (a : ℕ) → count a xs ≤ 1

-- `ids` lists what `xs` lists, each as often.
abbrev pub SameIds : List ℕ → List ℕ → Type 0
SameIds ids xs = (a : ℕ) → count a ids ≡ count a xs

abbrev or_else {ℓ} : {A : Type ℓ} → Option A → Option A → Option A
or_else none o = o
or_else (some a) o = some a

-- Each value stands under its own ID.
abbrev pub Keyed : ById → Type 0
Keyed [] = Unit {0}
Keyed ((k, v) ∷ m) = (v.id ≡ k) × Keyed m

delete-Keyed : (k : ℕ) (m : ById) → Keyed m → Keyed (dict_delete k m)
delete-Keyed k [] h = tt
delete-Keyed k ((j, v) ∷ m) h = ground (arith, delete-Keyed k m h.1)

get-Keyed : (k : ℕ) (m : ById) (v : QueuedMessage) → Keyed m → dict_get k m ≡ some v → v.id ≡ k
get-Keyed k [] v h e = cc
get-Keyed k ((j, w) ∷ m) v h e = ground (arith, get-Keyed k m v h.1)

pub by_id-Keyed : (m : ById) (xs : List QueuedMessage) → Keyed m → Keyed (by_id_from m xs)
unfolding by_id_from
by_id-Keyed m [] h = h
by_id-Keyed m (x ∷ xs) h = by_id-Keyed (dict_put x.id x m) xs (refl, delete-Keyed x.id m h)

-- A key of the map stands there once, and is an ID of the map before or of the messages.
pub count-by_id :
    (a : ℕ) (m : ById) (xs : List QueuedMessage)
    → count a (keys m) + count a (ids_of xs) ≤ 1
    → count a (keys (by_id_from m xs)) ≡ count a (keys m) + count a (ids_of xs)
unfolding by_id_from
count-by_id a m [] h = omega arith
count-by_id a m (x ∷ xs) h =
    ground (arith, count-by_id a (dict_put x.id x m) xs, count-delete x.id a m)

find_id-absent : (a : ℕ) (xs : List QueuedMessage) → count a (ids_of xs) ≡ 0 → find_id a xs ≡ none
find_id-absent a [] h = refl
find_id-absent a (x ∷ xs) h = ground (arith, find_id-absent a xs)

get-by_id :
    (a : ℕ) (m : ById) (xs : List QueuedMessage)
    → count a (keys m) + count a (ids_of xs) ≤ 1
    → dict_get a (by_id_from m xs) ≡ or_else (find_id a xs) (dict_get a m)
unfolding by_id_from
get-by_id a m [] h = refl
get-by_id a m (x ∷ xs) h = ground (
  arith,
  get-by_id a (dict_put x.id x m) xs,
  count-delete x.id a m,
  dict_get-delete x.id a m,
  find_id-absent a xs,
)

delete-absent : (k : ℕ) (m : ById) → count k (keys m) ≡ 0 → dict_delete k m ≡ m
delete-absent k [] h = refl
delete-absent k ((j, v) ∷ m) h = ground (arith, delete-absent k m)

length-delete :
    (k : ℕ) (m : ById) → count k (keys m) ≡ 1 → length m ≡ suc (length (dict_delete k m))
length-delete k [] h = absurd (omega arith)
length-delete k ((j, v) ∷ m) h = ground (arith, length-delete k m, delete-absent k m)

-- What a successful `pick` of one more ID did.
pick_inv :
    (id : ℕ) (ids : List ℕ) (m : ById) (reordered : List QueuedMessage) (rest : ById)
    → pick (id ∷ ids) m ≡ some (reordered, rest)
    → (v : QueuedMessage) × (more : List QueuedMessage) × (dict_get id m ≡ some v)
      × (pick ids (dict_delete id m) ≡ some (more, rest))
      × (reordered ≡ v ∷ more)
unfolding pick
pick_inv id ids m reordered rest h = elim (Option-cases (dict_get id m)) [
  | inl e ↦ absurd (ground arith)
  | inr (v, e) ↦ elim (Option-cases (pick ids (dict_delete id m))) [
    | inl e' ↦ absurd (ground arith)
    | inr ((more, rest'), e') ↦ (v, more, e, ground arith, ground arith)
  ]
]

get-count : (k : ℕ) (m : ById) (v : QueuedMessage) → dict_get k m ≡ some v → 1 ≤ count k (keys m)
get-count k [] v h = absurd (ground arith)
get-count k ((j, w) ∷ m) v h = ground (arith, get-count k m v)

pub record Picked (ids : List ℕ) (m : ById) (reordered : List QueuedMessage) (rest : ById)
    : Type 0 where
  pub ids_kept : ids_of reordered ≡ ids
  pub counted : (a : ℕ) → count a (keys m) ≡ count a ids + count a (keys rest)
  pub measured : length m ≡ length ids + length rest
  pub found : (a : ℕ) → dict_get a m ≡ or_else (find_id a reordered) (dict_get a rest)

delete-Distinct : (k : ℕ) (m : ById) → Distinct (keys m) → Distinct (keys (dict_delete k m))
delete-Distinct k m d a = ground (arith, count-delete k a m, d a)

pick_step :
    (id : ℕ) (ids : List ℕ) (m : ById) (v : QueuedMessage) (more : List QueuedMessage) (rest : ById)
    (reordered : List QueuedMessage)
    → Keyed m
    → Distinct (keys m)
    → dict_get id m ≡ some v
    → reordered ≡ v ∷ more
    → Picked ids (dict_delete id m) more rest
    → Picked (id ∷ ids) m reordered rest
pick_step id ids m v more rest reordered k d e r p = record {
  ids_kept = ground (arith, get-Keyed id m v);
  counted = λ a. ground (arith, p.counted a, count-delete id a m, d id, get-count id m v);
  measured = ground (arith, length-delete id m, d id, get-count id m v);
  found = λ a. ground (arith, p.found a, dict_get-delete id a m, get-Keyed id m v);
}

pub pick-Picked :
    (ids : List ℕ) (m : ById) (reordered : List QueuedMessage) (rest : ById)
    → Keyed m
    → Distinct (keys m)
    → pick ids m ≡ some (reordered, rest)
    → Picked ids m reordered rest
unfolding pick
pick-Picked [] m reordered rest k d h = record {
  ids_kept = ground arith;
  counted = λ a. ground arith;
  measured = ground arith;
  found = λ a. ground arith;
}
pick-Picked (id ∷ ids) m reordered rest k d h =
    let (v, more, e, e', r) = pick_inv id ids m reordered rest h in
    pick_step id ids m v more rest reordered k d e r (
      pick-Picked ids (dict_delete id m) more rest (delete-Keyed id m k) (delete-Distinct id m d)
        e')

pub length-by_id :
    (m : ById) (xs : List QueuedMessage)
    → ((a : ℕ) → count a (keys m) + count a (ids_of xs) ≤ 1)
    → length (by_id_from m xs) ≡ length m + length xs
unfolding by_id_from
length-by_id m [] h = omega arith
length-by_id m (x ∷ xs) h = ground (
  arith,
  length-by_id (dict_put x.id x m) xs (λ a. ground (arith, h a, count-delete x.id a m)),
  delete-absent x.id m,
  h x.id,
)

-- The map of the queue's messages by ID.
pub by_id_picked :
    (xs : List QueuedMessage) (ids : List ℕ) (reordered : List QueuedMessage) (rest : ById)
    → Distinct (ids_of xs)
    → length ids ≡ length xs
    → pick ids (by_id_from [] xs) ≡ some (reordered, rest)
    → SameIds ids (ids_of xs)
      × (ids_of reordered ≡ ids)
      × ((a : ℕ) → find_id a reordered ≡ find_id a xs)
by_id_picked xs ids reordered rest d l h = from_empty rest p left
  where
    p : Picked ids (by_id_from [] xs) reordered rest
    p =
        pick-Picked ids (by_id_from [] xs) reordered rest (by_id-Keyed [] xs tt)
          (λ a. ground (arith, count-by_id a [] xs, d a)) h

    left : length rest ≡ 0
    left = omega (arith, p.measured, length-by_id [] xs (λ a. omega (arith, d a)))

    from_empty :
        (rest : ById)
        → Picked ids (by_id_from [] xs) reordered rest
        → length rest ≡ 0
        → SameIds ids (ids_of xs)
          × (ids_of reordered ≡ ids)
          × ((a : ℕ) → find_id a reordered ≡ find_id a xs)
    from_empty [] found z = (
      λ a. ground (arith, found.counted a, count-by_id a [] xs, d a),
      found.ids_kept,
      λ a. ground (arith, found.found a, get-by_id a [] xs, d a),
    )
    from_empty (r ∷ rs) found z = absurd (omega arith)

get-none-count : (k : ℕ) (m : ById) → dict_get k m ≡ none → count k (keys m) ≡ 0
get-none-count k [] h = refl
get-none-count k ((j, w) ∷ m) h = ground (arith, get-none-count k m)

pub pick_total :
    (ids : List ℕ) (m : ById)
    → Distinct (keys m)
    → ((a : ℕ) → count a ids ≤ count a (keys m))
    → (r : List QueuedMessage × ById) × (pick ids m ≡ some r)
unfolding pick
pick_total [] m d h = (([], m), refl)
pick_total (id ∷ ids) m d h = elim (Option-cases (dict_get id m)) [
  | inl e ↦ absurd (ground (arith, h id, get-none-count id m))
  | inr (v, e) ↦
      let ((more, rest), e') =
        pick_total ids (dict_delete id m) (delete-Distinct id m d)
          (λ a. ground (arith, h a, count-delete id a m, d a)) in
      ((v ∷ more, rest), rw (e, pick) (rw (e', pick)))
]

-- A map without keys is empty.
pub no_keys : (m : ById) → ((a : ℕ) → count a (keys m) ≡ 0) → m ≡ []
no_keys [] h = refl
no_keys ((k, v) ∷ m) h = absurd (ground (arith, h k))
