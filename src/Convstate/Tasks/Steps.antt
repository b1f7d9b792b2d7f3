-- ===== src/Convstate/Tasks/Steps.antt =====
-- The tracker's methods, in any order.
use agentapi.Prelude.{
  ℕ, ◌≡◌, refl, sym, ◌∙◌, ap, Bool, true, false, ◌&&◌, List, [], ◌∷◌, ◌++◌, map, arith, ◌==◌,
  if◌then◌else◌, inl, inr, Bool-cases, Option-cases, length, keep, Text, ◌⊎◌, get_elem?, drop,
  dict_put, nat_eq,
}
use agentapi.Native.MessageLog.{Message}
use agentapi.Native.State.{Level}
use agentapi.Convstate.Types.{ErrorBody}
use agentapi.Convstate.Tasks.{Positions, TaskTracker, has_message, positions}
use agentapi.Convstate.Tasks.Derive.{Changes, idle, own, last_running, still_steered, derive}
use agentapi.Convstate.Tasks.Messages.{extend, extend_last, messages, find_back}
use agentapi.Convstate.Tasks.Status.{add_error, end_if_idle, agent_error}
use agentapi.Convstate.Tasks.Running.{
  count_running, last_running-eq-none, last_running-map, count_running-map, count_running-keep,
  keep_all,
}
use agentapi.Convstate.Tasks.Tracked.{Tracked, Tracked-count, Tracked-modify, end_task-Tracked}
use agentapi.Convstate.Tasks.Keeps.{
  own-Tracked, replies-Tracked, index-Tracked, still_steered-final,
}

-- The tasks whose message is still there.
kept-Tracked :
    (at : Positions) (msgs : List Message) (t : TaskTracker)
    → Tracked t
    → let kept = keep (has_message at msgs) t.tasks in
      let tasks = map (still_steered at) kept in
      Tracked (record t {
        tasks = tasks;
        running_task =
            if length kept == length t.tasks then t.running_task else last_running 0 tasks;
      })
kept-Tracked at msgs t k =
    let kept = keep (has_message at msgs) t.tasks in
    let tasks = map (still_steered at) kept in
    let last = last_running-map (still_steered at) (still_steered-final at) 0 kept in
    let counted = count_running-map (still_steered at) (still_steered-final at) kept in
    let fewer = count_running-keep (has_message at msgs) t.tasks in
    elim (Bool-cases (length kept == length t.tasks)) [
      | inl all ↦
          let same : kept ≡ t.tasks = keep_all (has_message at msgs) t.tasks (ground arith) in
          rw all (record {
            running = k.running ∙ sym (last ∙ ap (last_running 0) same);
            one = omega (arith, counted, fewer, k.one);
            started = k.started;
          })
      | inr gone ↦ rw gone (record {
        running = refl;
        one = omega (arith, counted, fewer, k.one);
        started = λ i e w. elim (Option-cases t.running_task) [
          | inl e' ↦
              let z : count_running tasks ≡ 0 =
                omega (arith, counted, fewer, Tracked-count t k e') in
              absurd (cc (e, last_running-eq-none 0 tasks z))
          | inr (j, e') ↦ k.started j e' w
        ];
      })
    ]

derive-Tracked : (msgs : List Message) (t : TaskTracker) → Tracked t → Tracked (derive msgs t).0
unfolding derive
derive-Tracked msgs t k =
    let at = positions 0 msgs [] in
    let k' = index-Tracked _ (kept-Tracked at msgs t k) in
    replies-Tracked msgs 0 at _
      (own-Tracked msgs _ (record { running = k'.running; one = k'.one; started = k'.started }))

extend-Tracked :
    (msgs : List Message) (from i : ℕ) (at : Positions) (t : TaskTracker)
    → Tracked t
    → Tracked (extend msgs from i at t).0
unfolding extend
extend-Tracked msgs from i at t k =
    let k' =
      replies-Tracked msgs i at (own (drop from msgs) (t, []))
        (own-Tracked (drop from msgs) (t, []) k) in
    record { running = k'.running; one = k'.one; started = k'.started }

extend_last-Tracked :
    (msgs : List Message) (from i : ℕ) (at : Positions) (t : TaskTracker)
    → Tracked t
    → Tracked (extend_last msgs from i at t).0
unfolding extend_last
extend_last-Tracked msgs from i at t k = elim (Option-cases (get_elem? t.tasks i)) [
  | inl e ↦ rw (e, extend_last) (derive-Tracked msgs t k)
  | inr (task, e) ↦ elim (Option-cases (find_back from task.id msgs)) [
    | inl e' ↦ rw (e, e', extend_last) (derive-Tracked msgs t k)
    | inr (j, e') ↦ rw (e, e', extend_last) (extend-Tracked msgs from i (dict_put task.id j at) t k)
  ]
]

-- What holds of both branches.
if_Tracked : (b : Bool) (c d : Changes) → Tracked c.0 → Tracked d.0 → Tracked (if b then c else d).0
if_Tracked true c d k l = k
if_Tracked false c d k l = l

pub messages-Tracked :
    (msgs : List Message) (changed_from : ℕ) (t : TaskTracker)
    → Tracked t
    → Tracked (messages msgs changed_from t).0
unfolding messages
messages-Tracked msgs changed_from t k =
    search (if_Tracked, extend_last-Tracked, extend-Tracked, derive-Tracked)

pub add_error-Tracked : (i : ℕ) (e : Text) (t : TaskTracker) → Tracked t → Tracked (add_error i e t)
unfolding add_error
add_error-Tracked i e t k =
    Tracked-modify (λ task. record task { errors = task.errors ++ e ∷ [] }) (λ task. refl) i t k

pub agent_error-Tracked :
    (e : ErrorBody) (t : TaskTracker) → Tracked t → Tracked (agent_error e t).0
unfolding agent_error
agent_error-Tracked e t k = elim (Option-cases t.running_task) [
  | inl none_runs ↦ simp (none_runs, agent_error) k
  | inr (i, runs) ↦ elim (level_error e) [
    | inl is ↦ simp (runs, is, agent_error) (add_error-Tracked i e.message t k)
    | inr is ↦ simp (runs, is, agent_error) k
  ]
]
  where
    level_error : (e : ErrorBody) → (e.level ≡ Level.error) ⊎ (e.level ≡ Level.warning)
    level_error e = ground arith

pub end_if_idle-Tracked : (now : ℕ) (t : TaskTracker) → Tracked t → Tracked (end_if_idle now t).0
unfolding end_if_idle
end_if_idle-Tracked now t k = elim (Option-cases t.running_task) [
  | inl none_runs ↦ simp (none_runs, end_if_idle) k
  | inr (i, runs) ↦ elim (Bool-cases (t.ran && idle t)) [
    | inl ends ↦ simp (runs, ends, end_if_idle) (end_task-Tracked i now t runs k.running k.one)
    | inr goes_on ↦ simp (runs, goes_on, end_if_idle) k
  ]
]
