-- ===== src/Convstate/Tasks/Keeps.antt =====
-- What a change of the messages leaves of the tracker's invariant.
use agentapi.Prelude.{
  ℕ, zero, suc, ◌≡◌, refl, sym, ◌∙◌, Bool, true, false, not, ◌&&◌, ◌||◌, List, [], ◌∷◌, ◌++◌, none,
  some, arith, inl, inr, Bool-cases, Option-cases, is_some, length, dict_get, ltb, slice, ◌-◌,
  get_elem?, nat_eq,
}
use agentapi.Native.MessageLog.{Message}
use agentapi.Convstate.Types.{TaskStatus, Task, is_final}
use agentapi.Convstate.Tasks.{Positions, TaskTracker, index, is_user}
use agentapi.Convstate.Tasks.Derive.{
  Changes, add, new_task, idle, end_in_grace, steer_or_start, own_message, own, set_reply, reply_to,
  replied, works, replies_from, replies, last_reply, next_start, still_steered,
}
use agentapi.Convstate.Tasks.Running.{last_running-append, count_running-append}
use agentapi.Convstate.Tasks.Tracked.{
  Tracked, Tracked-count, Tracked-same, Tracked-modify, end_task-Tracked,
}

abbrev is_running_status : TaskStatus → Bool
is_running_status s = elim s [ TaskStatus.running ↦ true | _ ↦ false ]

add-final :
    (task : Task) (t : TaskTracker) → is_final task ≡ true → Tracked t → Tracked (add task t)
unfolding add
add-final task t e k =
    Tracked-same t (add task t) refl (ground (arith, last_running-append 0 t.tasks task))
      (ground (arith, count_running-append t.tasks task)) refl refl k

end_in_grace-Tracked : (m : Message) (c : Changes) → Tracked c.0 → Tracked (end_in_grace m c).0
unfolding end_in_grace
end_in_grace-Tracked m (t, changed) k = elim (Option-cases t.running_task) [
  | inl e ↦ simp e k
  | inr (i, e) ↦ elim (Bool-cases (t.ran && idle t)) [
    | inl ends ↦ simp (e, ends) (end_task-Tracked i m.time t e k.running k.one)
    | inr goes_on ↦ simp (e, goes_on) k
  ]
]

new_task-final :
    (m : Message) (s : TaskStatus) → is_final (new_task s m) ≡ not (is_running_status s)
unfolding new_task
new_task-final m s = ground arith

-- A task that starts while none runs.
start-Tracked :
    (m : Message) (t : TaskTracker)
    → t.running_task ≡ none
    → Tracked t
    → Tracked (record (add (new_task TaskStatus.running m) t) {
      running_task = some (length t.tasks);
      ran = works t;
    })
unfolding add
start-Tracked m t e k =
    let task = new_task TaskStatus.running m in
    let open_task = new_task-final m TaskStatus.running in
    record {
      running = ground (arith, open_task, last_running-append 0 t.tasks task);
      one = ground (arith, open_task, count_running-append t.tasks task, Tracked-count t k e);
      started = λ i e' w. w;
    }

steer_or_start-Tracked : (m : Message) (c : Changes) → Tracked c.0 → Tracked (steer_or_start m c).0
unfolding steer_or_start
steer_or_start-Tracked m (t, changed) k = elim (Option-cases t.running_task) [
  | inl e ↦ simp e (start-Tracked m t e k)
  | inr (i, e) ↦
      let steer : Task → Task = λ task. record task { steered = task.steered ++ m.id ∷ [] } in
      let k' = Tracked-modify steer (λ task. refl) i t k in
      simp e (record {
        running = sym e ∙ k'.running;
        one = k'.one;
        started = λ j e'. k'.started j (e ∙ e');
      })
]

own_message-Tracked : (m : Message) (c : Changes) → Tracked c.0 → Tracked (own_message m c).0
unfolding own_message
own_message-Tracked m (t, changed) k =
    elim (Bool-cases (not (is_user m) || is_some (dict_get m.id t.owners))) [
      | inl skipped ↦ rw skipped k
      | inr taken ↦ elim (Bool-cases (ltb m.time t.since)) [
        | inl history ↦
            rw (taken, history)
              (add-final (new_task TaskStatus.completed m) t (new_task-final m TaskStatus.completed)
                k)
        | inr now ↦
            rw (taken, now)
              (steer_or_start-Tracked m (end_in_grace m (t, changed))
                (end_in_grace-Tracked m (t, changed) k))
      ]
    ]

pub own-Tracked : (ms : List Message) (c : Changes) → Tracked c.0 → Tracked (own ms c).0
unfolding own
own-Tracked [] c k = k
own-Tracked (m ∷ ms) c k = own-Tracked ms (own_message m c) (own_message-Tracked m c k)

set_reply-final :
    (since : ℕ) (m : Message) (task : Task) → is_final (set_reply since m task) ≡ is_final task
unfolding set_reply
set_reply-final since m task = ground arith

reply_to-Tracked :
    (i : ℕ) (msgs : List Message) (at : Positions) (c : Changes)
    → Tracked c.0
    → Tracked (reply_to i msgs at c).0
unfolding reply_to
reply_to-Tracked i msgs at (t, changed) k = elim (Option-cases (get_elem? t.tasks i)) [
  | inl e ↦ rw (e, reply_to) k
  | inr (task, e) ↦ elim (Option-cases (dict_get task.id at)) [
    | inl e' ↦ rw (e, e', reply_to) k
    | inr (from, e') ↦
        elim (Option-cases (last_reply (slice (suc from) (next_start i msgs at t) msgs))) [
          | inl e″ ↦ rw (e, e', e″, reply_to) k
          | inr (m, e″) ↦ elim (Bool-cases (replied task.reply_id m)) [
            | inl same ↦ rw (e, e', e″, same, reply_to) k
            | inr new ↦
                rw (e, e', e″, new, reply_to)
                  (Tracked-modify (set_reply t.since m) (set_reply-final t.since m) i t k)
          ]
        ]
  ]
]

replies_from-Tracked :
    (n i : ℕ) (msgs : List Message) (at : Positions) (c : Changes)
    → Tracked c.0
    → Tracked (replies_from n i msgs at c).0
unfolding replies_from
replies_from-Tracked zero i msgs at c k = k
replies_from-Tracked (suc n) i msgs at c k =
    replies_from-Tracked n (suc i) msgs at (reply_to i msgs at c) (reply_to-Tracked i msgs at c k)

pub replies-Tracked :
    (msgs : List Message) (i : ℕ) (at : Positions) (c : Changes)
    → Tracked c.0
    → Tracked (replies msgs i at c).0
unfolding replies
replies-Tracked msgs i at (t, changed) k =
    replies_from-Tracked (length t.tasks - i) i msgs at (t, changed) k

pub index-Tracked : (t : TaskTracker) → Tracked t → Tracked (index t)
unfolding index
index-Tracked t k = record { running = k.running; one = k.one; started = k.started }

pub still_steered-final :
    (at : Positions) (task : Task) → is_final (still_steered at task) ≡ is_final task
unfolding still_steered
still_steered-final at task = refl
