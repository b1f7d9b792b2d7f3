-- ===== src/Convstate/Tasks/Status.antt =====
-- The tasks that the agent's status and its errors end or mark.
use agentapi.Prelude.{
  ℕ, Bool, true, false, ◌&&◌, List, [], ◌∷◌, ◌++◌, Option, none, some, Text, codes, leb,
  if◌then◌else◌, modify_at, get_elem?,
}
use agentapi.Native.State.{Level}
use agentapi.Convstate.Types.{AgentStatus, LifecycleState, StatusChangeBody, ErrorBody, Task}
use agentapi.Convstate.Tasks.{TaskTracker, end_task}
use agentapi.Convstate.Tasks.Derive.{Changes, idle}

unfoldable pub add_error : ℕ → Text → TaskTracker → TaskTracker
add_error i e t = record t {
  tasks = modify_at i (λ task. record task { errors = task.errors ++ e ∷ [] }) t.tasks;
}

-- Why a lifecycle ends the running task.
unfoldable pub ended_by : LifecycleState → Option Text
ended_by LifecycleState.exited = some (codes "the agent exited")
ended_by LifecycleState.failed = some (codes "the agent failed")
ended_by l = none

abbrev pub is_working : AgentStatus → Bool
is_working s = elim s [ AgentStatus.running ↦ true | AgentStatus.stable ↦ false ]

-- The cases of `statusChanged`, on the running task and why the agent is gone.
unfoldable pub ends_or_runs :
    Option ℕ → Option Text → StatusChangeBody → ℕ → TaskTracker → Changes × Bool
ends_or_runs none why next now t = ((record t { status = next }, []), false)
ends_or_runs (some i) (some why) next now t =
    ((end_task i now (add_error i why (record t { status = next })), i ∷ []), false)
ends_or_runs (some i) none next now t =
    let t' : TaskTracker = record t { status = next } in
    if is_working next.status
    then ((record t' { ran = true }, []), false)
    else if t.ran && idle t'
    then (if is_working t.status.status
        then ((end_task i now t', i ∷ []), false)
        else ((t', []), true))
    else ((t', []), false)

-- The second result is whether the task ends if the agent is still idle after the grace period.
unfoldable pub status_changed : StatusChangeBody → ℕ → TaskTracker → Changes × Bool
status_changed next now t = ends_or_runs t.running_task (ended_by next.lifecycle) next now t

unfoldable pub end_if_idle : ℕ → TaskTracker → Changes
end_if_idle now t = elim t.running_task [
  | none ↦ (t, [])
  | some i ↦ if t.ran && idle t then (end_task i now t, i ∷ []) else (t, [])
]

unfoldable pub agent_error : ErrorBody → TaskTracker → Changes
agent_error e t = elim t.running_task [
  | none ↦ (t, [])
  | some i ↦ elim e.level [
    | Level.error ↦ (add_error i e.message t, i ∷ [])
    | Level.warning ↦ (t, [])
  ]
]

-- The latest task that started by a time.
unfoldable pub started_by : ℕ → List Task → Option ℕ
started_by at [] = none
started_by at (task ∷ tasks) = elim (started_by at tasks) [
  | some id ↦ some id
  | none ↦ if leb task.started_at at then some task.id else none
]

unfoldable pub task_at : ℕ → TaskTracker → Option ℕ
task_at at t = elim t.running_task [
  | none ↦ started_by at t.tasks
  | some i ↦ elim (get_elem? t.tasks i) [ none ↦ none | some task ↦ some task.id ]
]
