-- ===== src/Convstate/Tasks/Messages.antt =====
-- What a change of the messages does to the tasks: `messages` of lib/convstate/tasks.go.
use agentapi.Prelude.{
  ℕ, zero, suc, ◌-◌, min, Bool, true, false, not, ◌&&◌, ◌||◌, List, [], ◌∷◌, ◌++◌, map, Option,
  none, some, ltb, leb, ◌==◌, if◌then◌else◌, length, get_elem?, drop, nat_eq, dict_get, dict_put,
}
use agentapi.Native.MessageLog.{Message}
use agentapi.Convstate.Types.{Task}
use agentapi.Convstate.Tasks.{Positions, TaskTracker, is_user, positions}
use agentapi.Convstate.Tasks.Derive.{Changes, own, replies, derive}

-- Whether a message is one that holds a task, but not as the user's message that started it.
unfoldable pub taken_over : TaskTracker → Message → Bool
taken_over t m = elim (dict_get m.id t.owners) [
  | none ↦ false
  | some p ↦ elim (get_elem? t.tasks p) [
    | none ↦ false
    | some task ↦ (task.id == m.id) && (not (is_user m) || not (m.time == task.started_at))
  ]
]

-- Whether the messages, of which `ids` were there before, are more than added at the end; `prev` is
-- the ID before them.
unfoldable pub disturbed : TaskTracker → Option ℕ → List ℕ → List Message → Bool
disturbed t prev ids [] = false
disturbed t prev [] (m ∷ ms) =
    elim prev [ none ↦ false | some p ↦ leb m.id p ]
    || taken_over t m
    || disturbed t (some m.id) [] ms
disturbed t prev (id ∷ ids) (m ∷ ms) =
    not (m.id == id) || taken_over t m || disturbed t (some m.id) ids ms

-- How many of the first `k` tasks there are up to the last that started by the message `last`.
unfoldable pub tasks_by : Option ℕ → List Task → ℕ → ℕ
tasks_by last tasks zero = zero
tasks_by last tasks (suc k) =
    let rest = tasks_by last tasks k in
    if elim (get_elem? tasks k) [
      | none ↦ false
      | some task ↦ elim last [ none ↦ true | some id ↦ ltb id task.id ]
    ]
    then rest
    else suc k

-- The position of the message with an ID among the first `j`.
unfoldable pub find_back : ℕ → ℕ → List Message → Option ℕ
find_back zero id msgs = none
find_back (suc j) id msgs =
    let earlier = find_back j id msgs in
    if elim (get_elem? msgs j) [ none ↦ false | some m ↦ m.id == id ] then some j else earlier

-- The end of `messages`: the messages are those before and new ones, from `k` on in the tasks.
unfoldable pub extend : List Message → ℕ → ℕ → Positions → TaskTracker → Changes
extend msgs from k at t =
    let (t', changed) = replies msgs k at (own (drop from msgs) (t, [])) in
    (record t' { ids = t'.ids ++ map (λ m. m.id) (drop (length t'.ids) msgs) }, changed)

-- The task at position `k` is the one that the messages before `from` end in.
unfoldable pub extend_last : List Message → ℕ → ℕ → Positions → TaskTracker → Changes
extend_last msgs from k at t = elim (get_elem? t.tasks k) [
  | none ↦ derive msgs t
  | some task ↦ elim (find_back from task.id msgs) [
    | none ↦ derive msgs t
    | some j ↦ extend msgs from k (dict_put task.id j at) t
  ]
]

unfoldable pub messages : List Message → ℕ → TaskTracker → Changes
messages msgs changed_from t =
    let from = min (min changed_from (length t.ids)) (length msgs) in
    let last : Option ℕ = if from == 0 then none else id_of (get_elem? msgs (from - 1)) in
    let k = tasks_by last t.tasks (length t.tasks) in
    let at = positions from (drop from msgs) [] in
    if t.rederive || not t.in_order
    then derive msgs t
    else if (from == length msgs) && (from == length t.ids)
    then (t, [])
    else if ltb (length msgs) (length t.ids) || disturbed t last (drop from t.ids) (drop from msgs)
    then derive msgs t
    else if k == 0
    then extend msgs from 0 at t
    else extend_last msgs from (k - 1) at t
  where
    id_of : Option Message → Option ℕ
    id_of none = none
    id_of (some m) = some m.id
