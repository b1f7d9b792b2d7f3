-- ===== src/Convstate/Tasks.antt =====
-- The tasks of a conversation: `taskTracker` of lib/convstate/tasks.go. A method returns the
-- tracker and the positions of the tasks that it changed.
pub mod Derive
pub mod Messages
pub mod Status
pub mod Running
pub mod Tracked
pub mod Keeps
pub mod Steps
pub mod Ends
pub mod Methods
use agentapi.Prelude.{
  ℕ, zero, suc, ◌+◌, ◌-◌, min, Bool, true, false, not, ◌&&◌, ◌||◌, List, [], ◌∷◌, ◌++◌, map, Option,
  none, some, String, Text, codes, is_empty, ltb, leb, ◌==◌, if◌then◌else◌, length, get_elem?, drop,
  slice, keep, contains_func, modify_at, nat_eq, dict_get, dict_put, is_some,
}
use agentapi.Native.Types.{Capabilities}
use agentapi.Native.State.{LimitStop, RetryWait, Level}
use agentapi.Native.MessageLog.{Message, Role}
use agentapi.Convstate.Types.{
  AgentStatus, LifecycleState, TaskStatus, StatusChangeBody, ErrorBody, Task, is_final, cut,
}

abbrev pub task_prompt_limit : ℕ
task_prompt_limit = 1024

-- Go's map from the IDs of messages to positions.
abbrev pub Positions : Type 0
Positions = List (ℕ × ℕ)

-- `running_task` is the field open, with `none` for -1.
pub record TaskTracker : Type 0 where
  pub tasks : List Task
  pub owners : Positions
  pub ids : List ℕ
  pub in_order : Bool
  pub rederive : Bool
  pub running_task : Option ℕ
  pub ran : Bool
  pub since : ℕ
  pub status : StatusChangeBody

abbrev pub is_user : Message → Bool
is_user m = elim m.role [ Role.user ↦ true | Role.agent ↦ false ]

unfoldable pub new_task_tracker : StatusChangeBody → ℕ → TaskTracker
new_task_tracker unset since = record {
  tasks = [];
  owners = [];
  ids = [];
  in_order = true;
  rederive = false;
  running_task = none;
  ran = false;
  since = since;
  status = unset;
}

unfoldable pub reset : ℕ → TaskTracker → TaskTracker
reset now t = record t {
  tasks = [];
  owners = [];
  ids = [];
  in_order = true;
  rederive = false;
  running_task = none;
  ran = false;
  since = now;
}

-- The positions of the messages from position `i` on, by their IDs.
unfoldable pub positions : ℕ → List Message → Positions → Positions
positions i [] at = at
positions i (m ∷ ms) at = positions (suc i) ms (dict_put m.id i at)

-- Whether the message of a task is still there, and the user's.
unfoldable pub has_message : Positions → List Message → Task → Bool
has_message at msgs task = elim (dict_get task.id at) [
  | none ↦ false
  | some i ↦ elim (get_elem? msgs i) [
    | none ↦ false
    | some m ↦ is_user m && (m.time == task.started_at)
  ]
]

-- The outcome of a task that ends.
unfoldable pub outcome : StatusChangeBody → ℕ → Task → Task
outcome s now task =
    let failed : Task = record task {
      ended_at = some now;
      status = elim task.errors [ [] ↦ TaskStatus.completed | _ ∷ _ ↦ TaskStatus.failed ];
    } in
    let retried : Task = elim s.retry_wait [
      | none ↦ failed
      | some retry ↦ if ltb retry.stopped_at task.started_at then failed else record task {
        ended_at = some now;
        status = TaskStatus.failed;
        errors = task.errors ++ retry.message ∷ [];
      }
    ] in
    elim s.limit_stop [
      | none ↦ retried
      | some limit ↦
          if ltb limit.stopped_at task.started_at
          then retried
          else record task { ended_at = some now; status = TaskStatus.limited; limit = some limit }
    ]

abbrev pub is_running_task : Option ℕ → ℕ → Bool
is_running_task none i = false
is_running_task (some o) i = o == i

-- `end`.
unfoldable pub end_task : ℕ → ℕ → TaskTracker → TaskTracker
end_task i now t =
    let t' : TaskTracker = record t { tasks = modify_at i (outcome t.status now) t.tasks } in
    if is_running_task t.running_task i then record t' { running_task = none; ran = false } else t'

-- The owners and the order of the tasks from position `i` on; `prev` is the ID before them.
index_from : ℕ → Option ℕ → List Task → Positions × Bool → Positions × Bool
index_from i prev [] r = r
index_from i prev (task ∷ tasks) (owners, in_order) = index_from (suc i) (some task.id) tasks (
  own_all i task.steered (dict_put task.id i owners),
  in_order && elim prev [ none ↦ true | some p ↦ ltb p task.id ],
)
  where
    own_all : ℕ → List ℕ → Positions → Positions
    own_all i [] owners = owners
    own_all i (id ∷ ids) owners = own_all i ids (dict_put id i owners)

unfoldable pub index : TaskTracker → TaskTracker
unfolding index_from
index t =
    let (owners, in_order) = index_from 0 none t.tasks ([], true) in
    record t { owners = owners; in_order = in_order }

is_unfinished : ℕ → TaskTracker → Bool
is_unfinished i t = elim (get_elem? t.tasks i) [ none ↦ false | some task ↦ not (is_final task) ]

-- The loop of `restore` that ends the tasks that are not final: `n` of them, from position `i` on.
unfoldable pub end_unfinished : ℕ → ℕ → ℕ → TaskTracker → TaskTracker × List ℕ
unfolding is_unfinished
end_unfinished zero i now t = (t, [])
end_unfinished (suc n) i now t =
    let unfinished = is_unfinished i t in
    let t₁ = if unfinished then end_task i now t else t in
    let (t₂, changed) = end_unfinished n (suc i) now t₁ in
    (t₂, if unfinished then i ∷ changed else changed)

unfoldable pub restore : List Task → List Message → ℕ → TaskTracker → TaskTracker × List ℕ
restore tasks msgs now t =
    let kept = keep (has_message (positions 0 msgs []) msgs) tasks in
    let t' =
      index
        (record t { tasks = kept; running_task = none; ran = false; ids = []; rederive = true }) in
    end_unfinished (length kept) 0 now t'
