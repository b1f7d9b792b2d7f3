-- ===== src/Examples/Queue.antt =====
-- Examples of the theorems about the message queue of lib/httpapi/queue.go.
use agentapi.Prelude.{
  ℕ, ◌≡◌, refl, true, false, not, keep, is_some, [], ◌∷◌, map, none, ◌==◌, arith,
}
use agentapi.Queue.{pick, by_id_from, reorder, remove, update, get}
use agentapi.Queue.Pick.{ids_of, find_id, SameIds}
use agentapi.Queue.Order.{reorder_sound, reorder_complete}
use agentapi.Queue.Access.{remove_exact, update_exact, edited}
use agentapi.Queue.Ids.{IsValid}
use agentapi.Queue.History.{run, step, run-IsValid, stale_id, removes, pushes, IsGone}
use agentapi.Examples.{two_messages, two_messages-Distinct, two_messages-IsValid, fix_it}

swapped : (reorder two_messages (2 ∷ 1 ∷ [])).1 ≡ true
unfolding reorder pick by_id_from
swapped = refl

same_ids : SameIds (2 ∷ 1 ∷ []) (ids_of two_messages.messages)
same_ids a = ground arith

reorder_sound_example :
    SameIds (2 ∷ 1 ∷ []) (ids_of two_messages.messages)
    × (ids_of (reorder two_messages (2 ∷ 1 ∷ [])).0.messages ≡ 2 ∷ 1 ∷ [])
    × ((a : ℕ)
        → find_id a (reorder two_messages (2 ∷ 1 ∷ [])).0.messages
          ≡ find_id a two_messages.messages)
reorder_sound_example = reorder_sound two_messages (2 ∷ 1 ∷ []) two_messages-Distinct swapped

reorder_complete_example : (reorder two_messages (2 ∷ 1 ∷ [])).1 ≡ true
reorder_complete_example = reorder_complete two_messages (2 ∷ 1 ∷ []) two_messages-Distinct same_ids

remove_exact_example :
    ((remove two_messages 1).0.messages ≡ keep (λ m. not (m.id == 1)) two_messages.messages)
    × ((remove two_messages 1).1 ≡ is_some (find_id 1 two_messages.messages))
remove_exact_example = remove_exact two_messages 1 two_messages-Distinct

update_exact_example :
    ((update two_messages 2 fix_it).0.messages ≡ map (edited 2 fix_it) two_messages.messages)
    × ((update two_messages 2 fix_it).1 ≡ is_some (find_id 2 two_messages.messages))
update_exact_example = update_exact two_messages 2 fix_it two_messages-Distinct

run-IsValid_example : IsValid (run two_messages (removes 1 ∷ pushes fix_it 30 false ∷ []))
run-IsValid_example =
    run-IsValid two_messages (removes 1 ∷ pushes fix_it 30 false ∷ []) two_messages-IsValid

after_removal-IsGone : IsGone 1 (remove two_messages 1).0
unfolding remove
after_removal-IsGone = (ground arith, refl)

after_removal-IsValid : IsValid (remove two_messages 1).0
unfolding remove run step
after_removal-IsValid = run-IsValid two_messages (removes 1 ∷ []) two_messages-IsValid

stale_id_example :
    (get (run (remove two_messages 1).0 (pushes fix_it 30 true ∷ [])) 1 ≡ none)
    × (update (run (remove two_messages 1).0 (pushes fix_it 30 true ∷ [])) 1 fix_it
        ≡ (run (remove two_messages 1).0 (pushes fix_it 30 true ∷ []), false))
    × (remove (run (remove two_messages 1).0 (pushes fix_it 30 true ∷ [])) 1
        ≡ (run (remove two_messages 1).0 (pushes fix_it 30 true ∷ []), false))
stale_id_example =
    stale_id (remove two_messages 1).0 1 (pushes fix_it 30 true ∷ []) fix_it after_removal-IsValid
      after_removal-IsGone
