-- ===== src/Queue/History.antt =====
-- Histories of the message queue: any calls of the methods of lib/httpapi/queue.go that the server
-- makes while it runs, in any order. (`Restore` is called once, before the queue is used.)
use agentapi.Prelude.{
  ℕ, ◌≤◌, ◌≡◌, refl, Bool, List, [], ◌∷◌, Text, arith, count, nat_eq, ◌==◌, none, index_func,
  Option-cases, inl, inr, false,
}
use agentapi.Queue.{
  QueuedMessage, MessageQueue, changed, index, push, get, update, remove, reorder, failed, clear,
}
use agentapi.Queue.Pick.{ids_of}
use agentapi.Queue.Ids.{
  IsValid, push-IsValid, update-IsValid, remove-IsValid, reorder-IsValid, failed-IsValid,
  clear-IsValid, count-delete_at, ids_of-modify, count-reorder, last_id-reorder, count-append,
}

pub data Call : Type 0 where
  pushes : Text → ℕ → Bool → Call
  updates : ℕ → Text → Call
  removes : ℕ → Call
  reorders : List ℕ → Call
  fails : ℕ → Call
  clears : Call

unfoldable pub step : MessageQueue → Call → MessageQueue
step q (pushes content at front) = (push q content at front).0
step q (updates id content) = (update q id content).0
step q (removes id) = (remove q id).0
step q (reorders ids) = (reorder q ids).0
step q (fails id) = (failed q id).0
step q clears = clear q

unfoldable pub run : MessageQueue → List Call → MessageQueue
run q [] = q
run q (c ∷ cs) = run (step q c) cs

step-IsValid : (q : MessageQueue) (c : Call) → IsValid q → IsValid (step q c)
unfolding step
step-IsValid q (pushes content at front) v = push-IsValid q content at front v
step-IsValid q (updates id content) v = update-IsValid q id content v
step-IsValid q (removes id) v = remove-IsValid q id v
step-IsValid q (reorders ids) v = reorder-IsValid q ids v
step-IsValid q (fails id) v = failed-IsValid q id v
step-IsValid q clears v = clear-IsValid q

-- Any calls on a queue with distinct IDs, none above the last one given out, keep it so.
pub run-IsValid : (q : MessageQueue) (cs : List Call) → IsValid q → IsValid (run q cs)
unfolding run
run-IsValid q [] v = v
run-IsValid q (c ∷ cs) v = run-IsValid (step q c) cs (step-IsValid q c v)

-- An ID that was given out and is no longer queued.
abbrev pub IsGone : ℕ → MessageQueue → Type 0
IsGone a q = (a ≤ q.last_id) × (count a (ids_of q.messages) ≡ 0)

update-IsGone :
    (q : MessageQueue) (a id : ℕ) (content : Text) → IsGone a q → IsGone a (update q id content).0
unfolding update changed
update-IsGone q a id content g = elim (Option-cases (index q id)) [
  | inl e ↦ rw (e, update) g
  | inr (i, e) ↦ rw (e, update) (g.0, rw (ids_of-modify i content q.messages) g.1)
]

remove-IsGone : (q : MessageQueue) (a id : ℕ) → IsGone a q → IsGone a (remove q id).0
unfolding remove changed
remove-IsGone q a id g = elim (Option-cases (index q id)) [
  | inl e ↦ rw (e, remove) g
  | inr (i, e) ↦ rw (e, remove) (g.0, omega (arith, g.1, count-delete_at a i q.messages))
]

step-IsGone : (q : MessageQueue) (a : ℕ) (c : Call) → IsValid q → IsGone a q → IsGone a (step q c)
unfolding step
step-IsGone q a (pushes content at front) v g =
    unfold push changed in
    (omega (arith, g.0), ground (arith, g.1, count-append a q.messages (push q content at front).1))
step-IsGone q a (updates id content) v g = update-IsGone q a id content g
step-IsGone q a (removes id) v g = remove-IsGone q a id g
step-IsGone q a (reorders ids) v g =
    (rw (last_id-reorder q ids) g.0, rw (count-reorder q ids a v.distinct) g.1)
step-IsGone q a (fails id) v g = unfold failed in ground (arith, g)
step-IsGone q a clears v g = unfold clear changed in (g.0, refl)

run-IsGone :
    (q : MessageQueue) (a : ℕ) (cs : List Call) → IsValid q → IsGone a q → IsGone a (run q cs)
unfolding run
run-IsGone q a [] v g = g
run-IsGone q a (c ∷ cs) v g =
    run-IsGone (step q c) a cs (step-IsValid q c v) (step-IsGone q a c v g)

index-absent :
    (a : ℕ) (xs : List QueuedMessage)
    → count a (ids_of xs) ≡ 0
    → index_func (λ m. m.id == a) xs ≡ none
index-absent a [] h = refl
index-absent a (x ∷ xs) h = ground (arith, index-absent a xs)

-- In a queue with distinct IDs, none above the last one given out: an ID that was given out and is
-- no longer queued stays gone through any later calls. Get finds nothing by it, and Update and
-- Remove change nothing.
pub stale_id :
    (q : MessageQueue) (a : ℕ) (cs : List Call) (content : Text)
    → IsValid q
    → IsGone a q
    → (get (run q cs) a ≡ none)
      × (update (run q cs) a content ≡ (run q cs, false))
      × (remove (run q cs) a ≡ (run q cs, false))
unfolding get update remove
stale_id q a cs content v g =
    let e : index (run q cs) a ≡ none =
      index-absent a (run q cs).messages (run-IsGone q a cs v g).1 in
    (rw (e, get), rw (e, update), rw (e, remove))
