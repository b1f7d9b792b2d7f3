-- ===== src/Queue/Order.antt =====
-- The order in which queued messages go out: what `Reorder` of lib/httpapi/queue.go accepts, and
-- what it makes of the queue.
use agentapi.Prelude.{
  ℕ, ◌≡◌, true, false, List, [], some, arith, ◌==◌, length, keys, count, nat_eq, Option-cases,
  Bool-cases, inl, inr, ==_iff, ap,
}
use agentapi.Queue.{reorder, QueuedMessage, MessageQueue, MessageQueue, ById, by_id_from, pick}
use agentapi.Queue.Pick.{
  ids_of, find_id, Distinct, SameIds, by_id_picked, by_id-Keyed, count-by_id, length-by_id, Picked,
  pick-Picked, pick_total, no_keys,
}

-- With distinct IDs in the queue, `Reorder` succeeds only for a list of all the queued IDs, each
-- once; then the messages stand in that order, and each is the one that had its ID before.
pub reorder_sound :
    (q : MessageQueue) (ids : List ℕ)
    → Distinct (ids_of q.messages)
    → (reorder q ids).1 ≡ true
    → SameIds ids (ids_of q.messages)
      × (ids_of (reorder q ids).0.messages ≡ ids)
      × ((a : ℕ) → find_id a (reorder q ids).0.messages ≡ find_id a q.messages)
unfolding reorder
reorder_sound q ids d h = elim (Bool-cases (length ids == length q.messages)) [
  | inr no_length ↦ absurd (ground arith)
  | inl e ↦ elim (Option-cases (pick ids (by_id_from [] q.messages))) [
    | inl e' ↦ absurd (ground arith)
    | inr ((reordered, rest), e') ↦
        rw (e, e', reorder) (by_id_picked q.messages ids reordered rest d ((==_iff _ _).0 e) e')
  ]
]

-- With distinct IDs in the queue, any list of all the queued IDs, each once, is accepted.
pub reorder_complete :
    (q : MessageQueue) (ids : List ℕ)
    → Distinct (ids_of q.messages)
    → SameIds ids (ids_of q.messages)
    → (reorder q ids).1 ≡ true
unfolding reorder
reorder_complete q ids d same = accepted
  where
    xs : List QueuedMessage
    xs = q.messages

    counts : (a : ℕ) → count a (keys (by_id_from [] xs)) ≡ count a ids
    counts a = ground (arith, count-by_id a [] xs, d a, same a)

    d' : Distinct (keys (by_id_from [] xs))
    d' a = ground (arith, counts a, same a, d a)

    picked : (r : List QueuedMessage × ById) × (pick ids (by_id_from [] xs) ≡ some r)
    picked = pick_total ids (by_id_from [] xs) d' (λ a. omega (arith, counts a))

    p : Picked ids (by_id_from [] xs) picked.0.0 picked.0.1
    p = pick-Picked ids (by_id_from [] xs) picked.0.0 picked.0.1 (by_id-Keyed [] xs tt) d' picked.1

    empty : picked.0.1 ≡ []
    empty = no_keys picked.0.1 (λ a. omega (arith, p.counted a, counts a))

    same_length : length ids ≡ length xs
    same_length =
        omega (arith, p.measured, ap length empty, length-by_id [] xs (λ a. omega (arith, d a)))

    accepted : (reorder q ids).1 ≡ true
    accepted = rw ((==_iff _ _).1 same_length, reorder) (rw (picked.1, reorder))

-- A refused order changes nothing, and tells nobody.
pub reorder_refused :
    (q : MessageQueue) (ids : List ℕ) → (reorder q ids).1 ≡ false → (reorder q ids).0 ≡ q
unfolding reorder
reorder_refused q ids h = ground arith
