-- ===== src/Convstate/Tasks/Ends.antt =====
-- What ends the tasks: the agent's status, and a restart of the server.
use agentapi.Prelude.{
  ℕ, zero, suc, ◌+◌, ◌≤◌, ◌<◌, ◌≡◌, refl, ◌∙◌, ap, Bool, true, false, not, ◌&&◌, List, [], ◌∷◌,
  Option, none, some, arith, ◌==◌, if◌then◌else◌, inl, inr, Bool-cases, Option-cases, length, keep,
  get_elem?, modify_at, Text, get_elem?-modify_at, length-modify_at,
}
use agentapi.Native.MessageLog.{Message}
use agentapi.Convstate.Types.{StatusChangeBody, Task, is_final}
use agentapi.Convstate.Tasks.{
  TaskTracker, restore, index, has_message, positions, end_task, end_unfinished, is_unfinished,
  outcome,
}
use agentapi.Convstate.Tasks.Derive.{Changes, idle, last_running}
use agentapi.Convstate.Tasks.Status.{is_working, add_error, ended_by, ends_or_runs, status_changed}
use agentapi.Convstate.Tasks.Running.{count_running}
use agentapi.Convstate.Tasks.Tracked.{Tracked, Tracked-none, outcome-Ends, end_task-Tracked}
use agentapi.Convstate.Tasks.Steps.{add_error-Tracked}

-- The first `i` tasks are final.
abbrev Ended : ℕ → List Task → Type 0
Ended i tasks = (j : ℕ) (task : Task) → j < i → get_elem? tasks j ≡ some task → is_final task ≡ true

Ended-count : (tasks : List Task) → Ended (length tasks) tasks → count_running tasks ≡ 0
Ended-count [] e = refl
Ended-count (task ∷ tasks) e = ground (
  arith,
  e 0 task (omega arith) refl,
  Ended-count tasks (λ j t lt at. e (suc j) t (omega arith) at),
)

end_task-none :
    (i now : ℕ) (t : TaskTracker)
    → t.running_task ≡ none
    → ((end_task i now t).running_task ≡ none)
      × ((end_task i now t).tasks ≡ modify_at i (outcome t.status now) t.tasks)
unfolding end_task
end_task-none i now t e = simp (e, end_task) (refl, refl)

is_unfinished-at :
    (i : ℕ) (t : TaskTracker) (task : Task)
    → get_elem? t.tasks i ≡ some task
    → is_unfinished i t ≡ not (is_final task)
unfolding is_unfinished
is_unfinished-at i t task at = rw (at, is_unfinished)

-- A round of the loop leaves the tasks before it as they are.
end_round :
    (i now : ℕ) (t : TaskTracker)
    → t.running_task ≡ none
    → Ended i t.tasks
    → let t' = if is_unfinished i t then end_task i now t else t in
      (t'.running_task ≡ none) × (length t'.tasks ≡ length t.tasks) × Ended (suc i) t'.tasks
end_round i now t e ended =
    let (idle, changed) = end_task-none i now t e in
    elim (Bool-cases (is_unfinished i t)) [
      | inl unfinished ↦ rw unfinished (
        idle,
        ap length changed ∙ length-modify_at i (outcome t.status now) t.tasks,
        λ j task lt at. elim (Option-cases (get_elem? t.tasks j)) [
          | inl missing ↦ absurd (
              ground (
                arith,
                ap (λ ts. get_elem? ts j) changed,
                get_elem?-modify_at i (outcome t.status now) t.tasks j,
              ))
          | inr (old, there) ↦ ground (
            arith,
            ap (λ ts. get_elem? ts j) changed,
            get_elem?-modify_at i (outcome t.status now) t.tasks j,
            outcome-Ends t.status now old,
            ended j old,
          )
        ],
      )
      | inr finished ↦ rw finished (
        e,
        refl,
        λ j task lt at. elim (Bool-cases (i == j)) [
          | inl here ↦
              let ij : i ≡ j = ground arith in
              ground (arith, is_unfinished-at i t task (ap (get_elem? t.tasks) ij ∙ at))
          | inr before ↦ ended j task (ground arith) at
        ],
      )
    ]

-- After the loop no task runs.
end_unfinished-idle :
    (n i now : ℕ) (t : TaskTracker)
    → t.running_task ≡ none
    → n + i ≡ length t.tasks
    → Ended i t.tasks
    → ((end_unfinished n i now t).0.running_task ≡ none)
      × (count_running (end_unfinished n i now t).0.tasks ≡ 0)
unfolding end_unfinished
end_unfinished-idle zero i now t e len ended =
    (e, Ended-count t.tasks (λ j task lt at. ended j task (omega (arith, len)) at))
end_unfinished-idle (suc n) i now t e len ended =
    let (e', same, ended') = end_round i now t e ended in
    end_unfinished-idle n (suc i) now (if is_unfinished i t then end_task i now t else t) e'
      (omega (arith, len, same)) ended'

pub restore-Tracked :
    (tasks : List Task) (msgs : List Message) (now : ℕ) (t : TaskTracker)
    → Tracked (restore tasks msgs now t).0
unfolding restore index
restore-Tracked tasks msgs now t =
    let kept = keep (has_message (positions 0 msgs []) msgs) tasks in
    let (none_runs, zero_left) =
      end_unfinished-idle (length kept) 0 now
        (index
          (record t { tasks = kept; running_task = none; ran = false; ids = []; rederive = true }))
        refl (omega arith) (λ j task lt at. absurd (omega arith)) in
    Tracked-none _ none_runs zero_left

add_error-running :
    (i : ℕ) (why : Text) (t : TaskTracker) → (add_error i why t).running_task ≡ t.running_task
unfolding add_error
add_error-running i why t = refl

-- An error leaves the running task where it was, whatever the status.
error_kept :
    (i : ℕ) (why : Text) (next : StatusChangeBody) (t : TaskTracker)
    → Tracked t
    → let t' = add_error i why (record t { status = next }) in
      (t'.running_task ≡ last_running 0 t'.tasks) × (count_running t'.tasks ≤ 1)
unfolding add_error
error_kept i why next t k = let k' = add_error-Tracked i why t k in (k'.running, k'.one)

if_kept :
    (b : Bool) (c d : Changes × Bool)
    → Tracked c.0.0
    → Tracked d.0.0
    → Tracked (if b then c else d).0.0
if_kept true c d k l = k
if_kept false c d k l = l

ends_or_runs-Tracked :
    (running : Option ℕ) (why : Option Text) (next : StatusChangeBody) (now : ℕ) (t : TaskTracker)
    → t.running_task ≡ running
    → Tracked t
    → Tracked (ends_or_runs running why next now t).0.0
unfolding ends_or_runs
ends_or_runs-Tracked none why next now t e k = record {
  running = k.running;
  one = k.one;
  started = λ i e' w. cc;
}
ends_or_runs-Tracked (some i) (some why) next now t e k =
    let k' = error_kept i why next t k in
    end_task-Tracked i now (add_error i why (record t { status = next }))
      (add_error-running i why _ ∙ e) k'.0 k'.1
ends_or_runs-Tracked (some i) none next now t e k =
    let t' : TaskTracker = record t { status = next } in
    elim (Bool-cases (is_working next.status)) [
      | inl works ↦ rw works (record { running = k.running; one = k.one; started = λ j e' w. refl })
      | inr idles ↦
          let still : Tracked t' = record {
            running = k.running;
            one = k.one;
            started = λ j e' w. cc;
          } in
          rw idles (
            if_kept (t.ran && idle t') _ _
              (if_kept (is_working t.status.status) _ _
                (end_task-Tracked i now t' e k.running k.one) still)
              still)
    ]

pub status_changed-Tracked :
    (next : StatusChangeBody) (now : ℕ) (t : TaskTracker)
    → Tracked t
    → Tracked (status_changed next now t).0.0
unfolding status_changed
status_changed-Tracked next now t k =
    ends_or_runs-Tracked t.running_task (ended_by next.lifecycle) next now t refl k
