-- ===== src/Convstate/Tasks/Methods.antt =====
-- The tracker's methods in any order: at most one task runs, and the agent's status ends it.
use agentapi.Prelude.{
  ℕ, ◌≡◌, refl, ap₂, ◌∙◌, true, false, List, [], ◌∷◌, none, some, arith, get_elem?,
  get_elem?-modify_at,
}
use agentapi.Native.MessageLog.{Message}
use agentapi.Convstate.Types.{StatusChangeBody, ErrorBody, Task}
use agentapi.Convstate.Tasks.{TaskTracker, new_task_tracker, reset, restore, outcome, end_task}
use agentapi.Convstate.Tasks.Derive.{idle}
use agentapi.Convstate.Tasks.Messages.{messages}
use agentapi.Convstate.Tasks.Status.{
  is_working, ended_by, ends_or_runs, status_changed, end_if_idle, agent_error,
}
use agentapi.Convstate.Tasks.Running.{count_running}
use agentapi.Convstate.Tasks.Tracked.{Tracked, Tracked-none, end_task-idle}
use agentapi.Convstate.Tasks.Steps.{messages-Tracked, agent_error-Tracked, end_if_idle-Tracked}
use agentapi.Convstate.Tasks.Ends.{restore-Tracked, status_changed-Tracked}

-- A call of a method, with its arguments.
pub data Method : Type 0 where
  resets : ℕ → Method
  restores : List Task → List Message → ℕ → Method
  takes_messages : List Message → ℕ → Method
  takes_status : StatusChangeBody → ℕ → Method
  takes_error : ErrorBody → Method
  ends_if_idle : ℕ → Method

unfoldable pub call : TaskTracker → Method → TaskTracker
call t (Method.resets now) = reset now t
call t (Method.restores tasks msgs now) = (restore tasks msgs now t).0
call t (Method.takes_messages msgs from) = (messages msgs from t).0
call t (Method.takes_status next now) = (status_changed next now t).0.0
call t (Method.takes_error e) = (agent_error e t).0
call t (Method.ends_if_idle now) = (end_if_idle now t).0

unfoldable pub call_all : TaskTracker → List Method → TaskTracker
call_all t [] = t
call_all t (m ∷ ms) = call_all (call t m) ms

reset-Tracked : (now : ℕ) (t : TaskTracker) → Tracked (reset now t)
unfolding reset
reset-Tracked now t = Tracked-none _ refl refl

call-Tracked : (m : Method) (t : TaskTracker) → Tracked t → Tracked (call t m)
unfolding call
call-Tracked (Method.resets now) t k = reset-Tracked now t
call-Tracked (Method.restores tasks msgs now) t k = restore-Tracked tasks msgs now t
call-Tracked (Method.takes_messages msgs from) t k = messages-Tracked msgs from t k
call-Tracked (Method.takes_status next now) t k = status_changed-Tracked next now t k
call-Tracked (Method.takes_error e) t k = agent_error-Tracked e t k
call-Tracked (Method.ends_if_idle now) t k = end_if_idle-Tracked now t k

call_all-kept : (ms : List Method) (t : TaskTracker) → Tracked t → Tracked (call_all t ms)
unfolding call_all
call_all-kept [] t k = k
call_all-kept (m ∷ ms) t k = call_all-kept ms (call t m) (call-Tracked m t k)

-- After any calls of a new tracker's methods: at most one task is not final, the running task is
-- its position, and while the agent works on one the tracker knows that it ran.
pub call_all-Tracked :
    (unset : StatusChangeBody) (since : ℕ) (ms : List Method)
    → Tracked (call_all (new_task_tracker unset since) ms)
unfolding new_task_tracker
call_all-Tracked unset since ms =
    call_all-kept ms (new_task_tracker unset since) (Tracked-none _ refl refl)

idle-status :
    (t : TaskTracker) (next : StatusChangeBody)
    → is_working next.status ≡ false
    → next.pending_requests ≡ 0
    → idle (record t { status = next }) ≡ true
unfolding idle
idle-status t next stops waits = ground arith

outcome-ended :
    (s : StatusChangeBody) (now : ℕ) (task : Task) → (outcome s now task).ended_at ≡ some now
unfolding outcome
outcome-ended s now task = ground arith

end_task-at :
    (i now : ℕ) (t : TaskTracker) (task : Task)
    → get_elem? t.tasks i ≡ some task
    → get_elem? (end_task i now t).tasks i ≡ some (outcome t.status now task)
unfolding end_task
end_task-at i now t task at = ground (arith, get_elem?-modify_at i (outcome t.status now) t.tasks i)

run_ends :
    (t : TaskTracker) (i : ℕ) (next : StatusChangeBody) (now : ℕ)
    → is_working next.status ≡ false
    → t.ran ≡ true
    → idle (record t { status = next }) ≡ true
    → is_working t.status.status ≡ true
    → ends_or_runs (some i) none next now t
      ≡ ((end_task i now (record t { status = next }), i ∷ []), false)
unfolding ends_or_runs
run_ends t i next now stops ran idles worked = ground arith

-- In a tracker whose running task is the task `i`, and the only one that is not final: when the
-- agent stops working and waits on nothing, without having gone, its task ends at that time, and no
-- task runs any more.
pub status_changed-ends :
    (t : TaskTracker) (i : ℕ) (task : Task) (next : StatusChangeBody) (now : ℕ)
    → Tracked t
    → t.running_task ≡ some i
    → get_elem? t.tasks i ≡ some task
    → is_working t.status.status ≡ true
    → is_working next.status ≡ false
    → next.pending_requests ≡ 0
    → ended_by next.lifecycle ≡ none
    → let ((t', changed), confirm) = status_changed next now t in
      (t'.running_task ≡ none)
      × (count_running t'.tasks ≡ 0)
      × (get_elem? t'.tasks i ≡ some (outcome next now task))
      × ((outcome next now task).ended_at ≡ some now)
      × (changed ≡ i ∷ [])
      × (confirm ≡ false)
unfolding status_changed ends_or_runs
status_changed-ends t i task next now k e at worked stops waits there =
    let t' : TaskTracker = record t { status = next } in
    let ends : status_changed next now t ≡ ((end_task i now t', i ∷ []), false) =
      ap₂ (λ o why. ends_or_runs o why next now t) e there
      ∙ run_ends t i next now stops (k.started i e worked) (idle-status t next stops waits)
          worked in
    let (gone, zero_left) = end_task-idle i now t' e k.running k.one in
    rw ends (gone, zero_left, end_task-at i now t' task at, outcome-ended next now task, refl, refl)
