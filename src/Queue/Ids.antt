-- ===== src/Queue/Ids.antt =====
-- The IDs of queued messages: lib/httpapi/queue.go promises that a client which still has the ID of
-- a message that went out cannot edit or delete a newer one.
use agentapi.Prelude.{
  ℕ, zero, suc, ◌≤◌, ◌<◌, max, ◌≡◌, refl, Bool, List, [], ◌∷◌, ◌++◌, arith, count, nat_eq, Text,
  delete_at, modify_at, Bool-cases, inl, inr, Option-cases,
}
use agentapi.Queue.{
  QueuedMessage, MessageQueue, changed, push, update, remove, reorder, failed, clear, restore,
  highest_id, index,
}
use agentapi.Queue.Pick.{ids_of, Distinct}
use agentapi.Queue.Order.{reorder_sound, reorder_refused}

-- No two queued messages share an ID, and none has an ID above the last one given out.
pub record IsValid (q : MessageQueue) : Type 0 where
  pub distinct : Distinct (ids_of q.messages)
  pub bounded : (a : ℕ) → q.last_id < a → count a (ids_of q.messages) ≡ 0

pub count-append :
    (a : ℕ) (xs : List QueuedMessage) (m : QueuedMessage)
    → count a (ids_of (xs ++ m ∷ [])) ≡ count a (ids_of (m ∷ xs))
count-append a [] m = refl
count-append a (x ∷ xs) m = ground (arith, count-append a xs m)

pub push-IsValid :
    (q : MessageQueue) (content : Text) (at : ℕ) (front : Bool)
    → IsValid q
    → IsValid (push q content at front).0
unfolding push changed
push-IsValid q content at front v = record {
  distinct = λ a.
      ground
        (arith, v.distinct a, v.bounded a, count-append a q.messages (push q content at front).1);
  bounded =
      λ a h. ground (arith, v.bounded a, count-append a q.messages (push q content at front).1);
}

pub count-delete_at :
    (a i : ℕ) (xs : List QueuedMessage) → count a (ids_of (delete_at i xs)) ≤ count a (ids_of xs)
count-delete_at a i [] = ground arith
count-delete_at a zero (x ∷ xs) = ground arith
count-delete_at a (suc i) (x ∷ xs) = ground (arith, count-delete_at a i xs)

pub ids_of-modify :
    (i : ℕ) (content : Text) (xs : List QueuedMessage)
    → ids_of (modify_at i (λ m. record m { content = content }) xs) ≡ ids_of xs
ids_of-modify i content [] = ground arith
ids_of-modify zero content (x ∷ xs) = refl
ids_of-modify (suc i) content (x ∷ xs) = ground (arith, ids_of-modify i content xs)

pub remove-IsValid : (q : MessageQueue) (id : ℕ) → IsValid q → IsValid (remove q id).0
unfolding remove changed
remove-IsValid q id v = elim (Option-cases (index q id)) [
  | inl e ↦ rw (e, remove) v
  | inr (i, e) ↦
      rw (e, remove)
        (record {
          distinct = λ a. ground (arith, v.distinct a, count-delete_at a i q.messages);
          bounded = λ a h. ground (arith, v.bounded a, count-delete_at a i q.messages);
        })
]

pub update-IsValid :
    (q : MessageQueue) (id : ℕ) (content : Text) → IsValid q → IsValid (update q id content).0
unfolding update changed
update-IsValid q id content v = elim (Option-cases (index q id)) [
  | inl e ↦ rw (e, update) v
  | inr (i, e) ↦
      rw (e, update)
        (record {
          distinct = λ a. rw (ids_of-modify i content q.messages) (v.distinct a);
          bounded = λ a. rw (ids_of-modify i content q.messages) (v.bounded a);
        })
]

pub count-reorder :
    (q : MessageQueue) (ids : List ℕ) (a : ℕ)
    → Distinct (ids_of q.messages)
    → count a (ids_of (reorder q ids).0.messages) ≡ count a (ids_of q.messages)
count-reorder q ids a d = elim (Bool-cases (reorder q ids).1) [
  | inl e ↦ let (same, order, _) = reorder_sound q ids d e in rw order (same a)
  | inr e ↦ rw (reorder_refused q ids e) refl
]

pub last_id-reorder : (q : MessageQueue) (ids : List ℕ) → (reorder q ids).0.last_id ≡ q.last_id
unfolding reorder changed
last_id-reorder q ids = ground arith

pub reorder-IsValid : (q : MessageQueue) (ids : List ℕ) → IsValid q → IsValid (reorder q ids).0
reorder-IsValid q ids v = record {
  distinct = λ a. rw (count-reorder q ids a v.distinct) (v.distinct a);
  bounded = λ a. rw (count-reorder q ids a v.distinct, last_id-reorder q ids) (v.bounded a);
}

pub clear-IsValid : (q : MessageQueue) → IsValid (clear q)
unfolding clear changed
clear-IsValid q = record { distinct = λ a. omega arith; bounded = λ a h. refl }

pub failed-IsValid : (q : MessageQueue) (id : ℕ) → IsValid q → IsValid (failed q id).0
unfolding failed
failed-IsValid q id v = ground (arith, v)

highest_id-bound :
    (n a : ℕ) (xs : List QueuedMessage) → highest_id n xs < a → (n < a) × (count a (ids_of xs) ≡ 0)
unfolding highest_id
highest_id-bound n a [] h = (h, refl)
highest_id-bound n a (x ∷ xs) h = ground (arith, highest_id-bound (max n x.id) a xs h)

-- A stored queue with distinct IDs is restored to a valid one, whatever last ID was stored with it.
pub restore-IsValid :
    (q : MessageQueue) (messages : List QueuedMessage) (last_id : ℕ)
    → Distinct (ids_of messages)
    → IsValid (restore q messages last_id)
unfolding restore changed
restore-IsValid q messages last_id d = record {
  distinct = d;
  bounded = λ a h. (highest_id-bound last_id a messages h).1;
}
