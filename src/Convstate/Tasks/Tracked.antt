-- ===== src/Convstate/Tasks/Tracked.antt =====
-- The tracker's running task is the only task that is not final, after every method.
use agentapi.Prelude.{
  ℕ, ◌+◌, ◌≤◌, ◌≡◌, refl, sym, ◌∙◌, ap, true, none, some, arith, ==_refl, modify_at,
}
use agentapi.Convstate.Types.{StatusChangeBody, Task}
use agentapi.Convstate.Tasks.{TaskTracker, outcome, end_task}
use agentapi.Convstate.Tasks.Derive.{last_running}
use agentapi.Convstate.Tasks.Status.{is_working}
use agentapi.Convstate.Tasks.Running.{
  count_running, KeepsFinal, Ends, last_running-eq-none, count_running-zero, last_running-modify,
  count_running-modify, count_running-end,
}

pub record Tracked (t : TaskTracker) : Type 0 where
  pub running : t.running_task ≡ last_running 0 t.tasks
  pub one : count_running t.tasks ≤ 1
  pub started : (i : ℕ) → t.running_task ≡ some i → is_working t.status.status ≡ true → t.ran ≡ true

pub outcome-Ends : (s : StatusChangeBody) (now : ℕ) → Ends (outcome s now)
unfolding outcome
outcome-Ends s now task = ground arith

-- A tracker without a running task.
pub Tracked-none : (t : TaskTracker) → t.running_task ≡ none → count_running t.tasks ≡ 0 → Tracked t
Tracked-none t e z = record {
  running = e ∙ sym (last_running-eq-none 0 t.tasks z);
  one = omega arith;
  started = λ i e' w. cc;
}

pub Tracked-count :
    (t : TaskTracker) → Tracked t → t.running_task ≡ none → count_running t.tasks ≡ 0
Tracked-count t k e = count_running-zero 0 t.tasks (sym k.running ∙ e)

-- The tracker's other fields don't matter.
pub Tracked-same :
    (t t' : TaskTracker)
    → t'.running_task ≡ t.running_task
    → last_running 0 t'.tasks ≡ last_running 0 t.tasks
    → count_running t'.tasks ≡ count_running t.tasks
    → t'.ran ≡ t.ran
    → t'.status ≡ t.status
    → Tracked t
    → Tracked t'
Tracked-same t t' e l c r s k = record {
  running = e ∙ k.running ∙ sym l;
  one = omega (arith, k.one);
  started = λ i e' w.
      r ∙ k.started i (sym e ∙ e') (ap (λ (b : StatusChangeBody). is_working b.status) (sym s) ∙ w);
}

-- A change of a task that leaves its status alone.
pub Tracked-modify :
    (f : Task → Task) (keeps : KeepsFinal f) (i : ℕ) (t : TaskTracker)
    → Tracked t
    → Tracked (record t { tasks = modify_at i f t.tasks })
Tracked-modify f keeps i t =
    Tracked-same t (record t { tasks = modify_at i f t.tasks }) refl
      (last_running-modify f keeps 0 i t.tasks) (count_running-modify f keeps i t.tasks) refl refl

-- Ending the running task leaves none.
pub end_task-idle :
    (i now : ℕ) (t : TaskTracker)
    → t.running_task ≡ some i
    → t.running_task ≡ last_running 0 t.tasks
    → count_running t.tasks ≤ 1
    → ((end_task i now t).running_task ≡ none) × (count_running (end_task i now t).tasks ≡ 0)
unfolding end_task
end_task-idle i now t e running one =
    let place : i ≡ 0 + i = omega arith in
    let none_left =
      count_running-end (outcome t.status now) (outcome-Ends t.status now) 0 i t.tasks one
        (sym running ∙ e ∙ ap some place) in
    rw (e, ==_refl i) (refl, none_left)

pub end_task-Tracked :
    (i now : ℕ) (t : TaskTracker)
    → t.running_task ≡ some i
    → t.running_task ≡ last_running 0 t.tasks
    → count_running t.tasks ≤ 1
    → Tracked (end_task i now t)
end_task-Tracked i now t e running one =
    let (gone, zero_left) = end_task-idle i now t e running one in
    Tracked-none (end_task i now t) gone zero_left
