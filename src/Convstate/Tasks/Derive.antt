-- ===== src/Convstate/Tasks/Derive.antt =====
-- The tasks derived from the messages: `own`, `replies` and `derive` of lib/convstate/tasks.go.
use agentapi.Prelude.{
  ℕ, zero, suc, ◌-◌, Bool, true, false, not, ◌&&◌, ◌||◌, List, [], ◌∷◌, ◌++◌, map, Option, none,
  some, is_empty, ltb, ◌==◌, if◌then◌else◌, length, get_elem?, slice, keep, contains_func,
  modify_at, nat_eq, dict_get, dict_put, is_some,
}
use agentapi.Native.MessageLog.{Message}
use agentapi.Convstate.Types.{AgentStatus, TaskStatus, Task, is_final, cut}
use agentapi.Convstate.Tasks.{
  Positions, TaskTracker, task_prompt_limit, is_user, positions, has_message, end_task, index,
}

-- What the methods pass on: the tracker, and the positions of the changed tasks.
abbrev pub Changes : Type 0
Changes = TaskTracker × List ℕ

unfoldable pub append_once : List ℕ → ℕ → List ℕ
append_once changed i = if contains_func (λ p. p == i) changed then changed else changed ++ i ∷ []

unfoldable pub add : Task → TaskTracker → TaskTracker
add task t = record t {
  in_order = t.in_order && in_front (length t.tasks - 1) t.tasks;
  owners = dict_put task.id (length t.tasks) t.owners;
  tasks = t.tasks ++ task ∷ [];
}
  where
    -- Whether the last task, at position `i`, has a smaller ID.
    in_front : ℕ → List Task → Bool
    in_front i tasks = elim (get_elem? tasks i) [ none ↦ true | some last ↦ ltb last.id task.id ]

-- `idle`: the agent neither works nor waits on an answer.
unfoldable pub idle : TaskTracker → Bool
idle t = elim t.status.status [
  | AgentStatus.stable ↦ t.status.pending_requests == 0
  | AgentStatus.running ↦ false
]

-- The task that a user's message starts.
unfoldable pub new_task : TaskStatus → Message → Task
new_task status m = record {
  id = m.id;
  status = status;
  prompt = cut m.text task_prompt_limit;
  started_at = m.time;
  ended_at = elim status [ TaskStatus.running ↦ none | _ ↦ some m.time ];
  reply_id = none;
  steered = [];
  errors = [];
  limit = none;
}

abbrev pub works : TaskTracker → Bool
works t = elim t.status.status [ AgentStatus.running ↦ true | AgentStatus.stable ↦ false ]

-- A message that comes in the grace period after an answer ends the running task.
unfoldable pub end_in_grace : Message → Changes → Changes
end_in_grace m (t, changed) = elim t.running_task [
  | none ↦ (t, changed)
  | some i ↦ if t.ran && idle t then (end_task i m.time t, append_once changed i) else (t, changed)
]

-- The message steers the running task, or starts one.
unfoldable pub steer_or_start : Message → Changes → Changes
steer_or_start m (t, changed) = elim t.running_task [
  | some i ↦ (
    record t {
      tasks = modify_at i (λ task. record task { steered = task.steered ++ m.id ∷ [] }) t.tasks;
      owners = dict_put m.id i t.owners;
    },
    append_once changed i,
  )
  | none ↦
      let t' = add (new_task TaskStatus.running m) t in
      let i = length t.tasks in
      (record t' { running_task = some i; ran = works t }, changed ++ i ∷ [])
]

unfoldable pub own_message : Message → Changes → Changes
own_message m (t, changed) =
    if not (is_user m) || is_some (dict_get m.id t.owners)
    then (t, changed)
    else if ltb m.time t.since
    then (add (new_task TaskStatus.completed m) t, changed ++ length t.tasks ∷ [])
    else steer_or_start m (end_in_grace m (t, changed))

unfoldable pub own : List Message → Changes → Changes
own [] c = c
own (m ∷ ms) c = own ms (own_message m c)

-- The agent's last message with text.
unfoldable pub last_reply : List Message → Option Message
last_reply [] = none
last_reply (m ∷ ms) =
    let later = last_reply ms in
    if is_some later
    then later
    else if not (is_user m) && not (is_empty m.text)
    then some m
    else none

-- The position of the message of the next task, or the end.
unfoldable pub next_start : ℕ → List Message → Positions → TaskTracker → ℕ
next_start i msgs at t = elim (get_elem? t.tasks (suc i)) [
  | none ↦ length msgs
  | some task ↦ elim (dict_get task.id at) [ none ↦ length msgs | some n ↦ n ]
]

-- A reply; a task of the history ends with it.
unfoldable pub set_reply : ℕ → Message → Task → Task
set_reply since m task =
    let replied : Task = record task { reply_id = some m.id } in
    let over : Bool = elim task.status [
      | TaskStatus.completed ↦ ltb task.started_at since
      | _ ↦ false
    ] in
    if over then record replied { ended_at = some m.time } else replied

-- Whether the reply is the one that the task has.
unfoldable pub replied : Option ℕ → Message → Bool
replied none m = false
replied (some id) m = id == m.id

-- One round of `replies`, at position `i`.
unfoldable pub reply_to : ℕ → List Message → Positions → Changes → Changes
reply_to i msgs at (t, changed) = elim (get_elem? t.tasks i) [
  | none ↦ (t, changed)
  | some task ↦ elim (dict_get task.id at) [
    | none ↦ (t, changed)
    | some from ↦ elim (last_reply (slice (suc from) (next_start i msgs at t) msgs)) [
      | none ↦ (t, changed)
      | some m ↦ if replied task.reply_id m then (t, changed) else (
        record t { tasks = modify_at i (set_reply t.since m) t.tasks },
        append_once changed i,
      )
    ]
  ]
]

-- The rounds of `replies`: `n` of them, from position `i` on.
unfoldable pub replies_from : ℕ → ℕ → List Message → Positions → Changes → Changes
replies_from zero i msgs at c = c
replies_from (suc n) i msgs at c = replies_from n (suc i) msgs at (reply_to i msgs at c)

unfoldable pub replies : List Message → ℕ → Positions → Changes → Changes
replies msgs k at (t, changed) = replies_from (length t.tasks - k) k msgs at (t, changed)

-- A task without the steering messages that are gone.
unfoldable pub still_steered : Positions → Task → Task
still_steered at task = record task { steered = keep (λ id. is_some (dict_get id at)) task.steered }

-- The positions, from `i` on, of the kept tasks that lost a steering message.
unfoldable pub lost_steering : ℕ → Positions → List Task → List ℕ
lost_steering i at [] = []
lost_steering i at (task ∷ tasks) =
    let rest = lost_steering (suc i) at tasks in
    if length (still_steered at task).steered == length task.steered then rest else i ∷ rest

-- The position of the last task, from `i` on, that is not final.
unfoldable pub last_running : ℕ → List Task → Option ℕ
last_running i [] = none
last_running i (task ∷ tasks) =
    let later = last_running (suc i) tasks in
    if is_some later then later else if is_final task then none else some i

-- Whether the IDs increase, from the ID before them on.
unfoldable pub increasing : Option ℕ → List Message → Bool
increasing prev [] = true
increasing prev (m ∷ ms) =
    elim prev [ none ↦ true | some p ↦ ltb p m.id ] && increasing (some m.id) ms

unfoldable pub derive : List Message → TaskTracker → Changes
derive msgs t =
    let at = positions 0 msgs [] in
    let kept = keep (has_message at msgs) t.tasks in
    let tasks = map (still_steered at) kept in
    let running = if length kept == length t.tasks then t.running_task else last_running 0 tasks in
    let t₁ = index (record t { tasks = tasks; running_task = running }) in
    let t₂ : TaskTracker = record t₁ {
      ids = map (λ m. m.id) msgs;
      in_order = t₁.in_order && increasing none msgs;
      rederive = false;
    } in
    replies msgs 0 at (own msgs (t₂, lost_steering 0 at kept))
