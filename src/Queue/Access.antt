-- ===== src/Queue/Access.antt =====
-- What `Get`, `Update` and `Remove` of lib/httpapi/queue.go do to the messages, in terms of the
-- messages themselves rather than of their positions.
use agentapi.Prelude.{
  ℕ, zero, suc, ◌≤◌, ◌≡◌, refl, Bool, not, keep, List, [], ◌∷◌, map, Option, none, some, arith,
  ◌==◌, if◌then◌else◌, count, nat_eq, Text, index_func, delete_at, modify_at, Option-cases,
  get_elem?, is_some, inl, inr, sym,
}
use agentapi.Queue.{QueuedMessage, MessageQueue, changed, get, update, remove, index}
use agentapi.Queue.Pick.{ids_of, find_id, Distinct}

abbrev with_id : ℕ → QueuedMessage → Bool
with_id id m = m.id == id

position : ℕ → List QueuedMessage → Option QueuedMessage
position id xs = elim (index_func (with_id id) xs) [ none ↦ none | some i ↦ get_elem? xs i ]

position_find : (id : ℕ) (xs : List QueuedMessage) → position id xs ≡ find_id id xs
unfolding position
position_find id [] = refl
position_find id (x ∷ xs) = ground (arith, position_find id xs)

get-find_id : (q : MessageQueue) (id : ℕ) → get q id ≡ find_id id q.messages
unfolding get position
get-find_id q id = position_find id q.messages

index-find_id :
    (id : ℕ) (xs : List QueuedMessage)
    → is_some (index_func (with_id id) xs) ≡ is_some (find_id id xs)
index-find_id id [] = refl
index-find_id id (x ∷ xs) = ground (arith, index-find_id id xs)

keep-absent :
    (id : ℕ) (xs : List QueuedMessage)
    → count id (ids_of xs) ≡ 0
    → keep (λ m. not (with_id id m)) xs ≡ xs
keep-absent id [] h = refl
keep-absent id (x ∷ xs) h = ground (arith, keep-absent id xs)

delete_at-keep :
    (id i : ℕ) (xs : List QueuedMessage)
    → count id (ids_of xs) ≤ 1
    → index_func (with_id id) xs ≡ some i
    → delete_at i xs ≡ keep (λ m. not (with_id id m)) xs
delete_at-keep id i [] h e = refl
delete_at-keep id zero (x ∷ xs) h e = ground (arith, keep-absent id xs)
delete_at-keep id (suc i) (x ∷ xs) h e = ground (arith, delete_at-keep id i xs)

index-absent :
    (id : ℕ) (xs : List QueuedMessage)
    → index_func (with_id id) xs ≡ none
    → count id (ids_of xs) ≡ 0
index-absent id [] e = refl
index-absent id (x ∷ xs) e = ground (arith, index-absent id xs)

-- With distinct IDs in the queue, `Remove` takes out the message with the ID and keeps the others
-- in their order; it reports whether there was one.
pub remove_exact :
    (q : MessageQueue) (id : ℕ)
    → Distinct (ids_of q.messages)
    → ((remove q id).0.messages ≡ keep (λ m. not (m.id == id)) q.messages)
      × ((remove q id).1 ≡ is_some (find_id id q.messages))
unfolding remove changed
remove_exact q id d = elim (Option-cases (index q id)) [
  | inl e ↦
      rw (e, remove)
        (
          sym (keep-absent id q.messages (index-absent id q.messages e)),
          rw (← index-find_id id q.messages) (rw e),
        )
  | inr (i, e) ↦
      rw (e, remove)
        (delete_at-keep id i q.messages (d id) e, rw (← index-find_id id q.messages) (rw e))
]

-- The message with its content replaced, if it has the ID.
abbrev pub edited : ℕ → Text → QueuedMessage → QueuedMessage
edited id content m = if m.id == id then record m { content = content } else m

map-absent :
    (id : ℕ) (content : Text) (xs : List QueuedMessage)
    → count id (ids_of xs) ≡ 0
    → map (edited id content) xs ≡ xs
map-absent id content [] h = refl
map-absent id content (x ∷ xs) h = ground (arith, map-absent id content xs)

modify_at-map :
    (id : ℕ) (content : Text) (i : ℕ) (xs : List QueuedMessage)
    → count id (ids_of xs) ≤ 1
    → index_func (with_id id) xs ≡ some i
    → modify_at i (λ m. record m { content = content }) xs ≡ map (edited id content) xs
modify_at-map id content i [] h e = refl
modify_at-map id content zero (x ∷ xs) h e = ground (arith, map-absent id content xs)
modify_at-map id content (suc i) (x ∷ xs) h e = ground (arith, modify_at-map id content i xs)

-- With distinct IDs in the queue, `Update` replaces the content of the message with the ID, where
-- it stands, and nothing else; it reports whether there was one.
pub update_exact :
    (q : MessageQueue) (id : ℕ) (content : Text)
    → Distinct (ids_of q.messages)
    → ((update q id content).0.messages ≡ map (edited id content) q.messages)
      × ((update q id content).1 ≡ is_some (find_id id q.messages))
unfolding update changed
update_exact q id content d = elim (Option-cases (index q id)) [
  | inl e ↦
      rw (e, update)
        (
          sym (map-absent id content q.messages (index-absent id q.messages e)),
          rw (← index-find_id id q.messages) (rw e),
        )
  | inr (i, e) ↦
      rw (e, update)
        (modify_at-map id content i q.messages (d id) e, rw (← index-find_id id q.messages) (rw e))
]
