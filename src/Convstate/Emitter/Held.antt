-- ===== src/Convstate/Emitter/Held.antt =====
-- A lifecycle that the server holds, while the conversation reports its own.
use agentapi.Prelude.{
  ℕ, suc, ◌≡◌, refl, ◌∙◌, ap, ap₂, Bool, true, false, not, ◌&&◌, List, [], ◌∷◌, arith,
  if◌then◌else◌, inl, inr, Bool-cases, Option-cases, get_elem?, dict_put, nat_eq,
}
use agentapi.Native.State.{Status}
use agentapi.Convstate.Types.{AgentStatus, LifecycleState}
use agentapi.Convstate.Tasks.Status.{status_changed}
use agentapi.Convstate.Emitter.{
  Event, EventEmitter, send, send_all, tasks_stored, tasks_changed, notify_status,
  status_change_body,
}
use agentapi.Convstate.Emitter.Status.{
  convert_status, lifecycle_of, status_eq, lifecycle_eq, is_held, emit_status, set_lifecycle,
  release_lifecycle,
}

-- What the lifecycle is made of.
pub record Lifecycles : Type 0 where
  pub status : AgentStatus
  pub lifecycle : LifecycleState
  pub lifecycle_held : Bool
  pub reported : LifecycleState

abbrev pub lifecycles : EventEmitter → Lifecycles
lifecycles e = record {
  status = e.status;
  lifecycle = e.lifecycle;
  lifecycle_held = e.lifecycle_held;
  reported = e.reported;
}

tasks_stored-lifecycles :
    (changed : List ℕ) (e : EventEmitter) → lifecycles (tasks_stored changed e).0 ≡ lifecycles e
unfolding tasks_stored
tasks_stored-lifecycles [] e = refl
tasks_stored-lifecycles (i ∷ changed) e = elim (Option-cases (get_elem? e.tasks.tasks i)) [
  | inl missing ↦ rw (missing, tasks_stored) (tasks_stored-lifecycles changed e)
  | inr (task, there) ↦
      rw (there, tasks_stored)
        (tasks_stored-lifecycles changed
          (record e { seq = suc e.seq; task_seqs = dict_put task.id (suc e.seq) e.task_seqs }))
]

send_all-lifecycles :
    (evs : List Event) (e : EventEmitter) → lifecycles (send_all evs e) ≡ lifecycles e
unfolding send_all
send_all-lifecycles [] e = refl
send_all-lifecycles (ev ∷ evs) e = send_all-lifecycles evs (send ev e)

tasks_changed-lifecycles :
    (changed : List ℕ) (e : EventEmitter) → lifecycles (tasks_changed changed e) ≡ lifecycles e
unfolding tasks_changed
tasks_changed-lifecycles changed e =
    let s = tasks_stored changed e in
    send_all-lifecycles s.1 s.0 ∙ tasks_stored-lifecycles changed e

if_lifecycles :
    (b : Bool) (e f : EventEmitter) (l : Lifecycles)
    → lifecycles e ≡ l
    → lifecycles f ≡ l
    → lifecycles (if b then e else f) ≡ l
if_lifecycles true e f l p q = p
if_lifecycles false e f l p q = q

notify_status-lifecycles :
    (now : ℕ) (e : EventEmitter) → lifecycles (notify_status now e) ≡ lifecycles e
unfolding notify_status
notify_status-lifecycles now e =
    let body = status_change_body e in
    let r = status_changed body now e.tasks in
    let sent : EventEmitter = record (send (Event.status_change body) e) { tasks = r.0.0 } in
    let same = tasks_changed-lifecycles r.0.1 sent in
    if_lifecycles r.1 _ (tasks_changed r.0.1 sent) (lifecycles e) same same

status_eq→eq : (a b : AgentStatus) → status_eq a b ≡ true → a ≡ b
unfolding status_eq
status_eq→eq a b h = ground arith

lifecycle_eq→eq : (a b : LifecycleState) → lifecycle_eq a b ≡ true → a ≡ b
unfolding lifecycle_eq
lifecycle_eq→eq a b h = ground arith

abbrev reporting : Status → Bool → AgentStatus → LifecycleState → Lifecycles
reporting s held status lifecycle = record {
  status = status;
  lifecycle = lifecycle;
  lifecycle_held = held;
  reported = lifecycle_of s;
}

-- What a status makes of the lifecycle.
emit_status-lifecycles :
    (s : Status) (now : ℕ) (e : EventEmitter)
    → lifecycles (emit_status s now e)
      ≡ reporting s e.lifecycle_held
          (convert_status s)
          (if e.lifecycle_held then e.lifecycle else lifecycle_of s)
unfolding emit_status
emit_status-lifecycles s now e =
    let l = if e.lifecycle_held then e.lifecycle else lifecycle_of s in
    elim (Bool-cases (status_eq e.status (convert_status s) && lifecycle_eq e.lifecycle l)) [
      | inl same ↦
          let status : e.status ≡ convert_status s =
            status_eq→eq e.status (convert_status s) (ground arith) in
          let lifecycle : e.lifecycle ≡ l = lifecycle_eq→eq e.lifecycle l (ground arith) in
          rw (same, emit_status) (ap₂ (reporting s e.lifecycle_held) status lifecycle)
      | inr new ↦ rw (new, emit_status) (notify_status-lifecycles now _)
    ]

set_lifecycle-lifecycles :
    (l : LifecycleState) (now : ℕ) (e : EventEmitter)
    → ((set_lifecycle l now e).lifecycle ≡ l) × ((set_lifecycle l now e).lifecycle_held ≡ is_held l)
unfolding set_lifecycle
set_lifecycle-lifecycles l now e = elim (Bool-cases (lifecycle_eq e.lifecycle l)) [
  | inl same ↦ rw (same, set_lifecycle) (lifecycle_eq→eq e.lifecycle l same, refl)
  | inr new ↦
      rw (new, set_lifecycle)
        (let kept = notify_status-lifecycles now (record e {
          lifecycle_held = is_held l;
          lifecycle = l;
          handoff_revision = suc e.handoff_revision;
        }) in
          (
            ap (λ (v : Lifecycles). v.lifecycle) kept,
            ap (λ (v : Lifecycles). v.lifecycle_held) kept,
          ))
]

release_lifecycle-reported :
    (now : ℕ) (e : EventEmitter)
    → e.lifecycle_held ≡ true
    → ((release_lifecycle now e).lifecycle ≡ e.reported)
      × ((release_lifecycle now e).lifecycle_held ≡ false)
unfolding release_lifecycle
release_lifecycle-reported now e held =
    let not_free : not e.lifecycle_held ≡ false = ground arith in
    elim (Bool-cases (lifecycle_eq e.lifecycle e.reported)) [
      | inl same ↦
          rw (not_free, same, release_lifecycle) (lifecycle_eq→eq e.lifecycle e.reported same, refl)
      | inr new ↦
          rw (not_free, new, release_lifecycle)
            (let kept = notify_status-lifecycles now (record e {
              lifecycle_held = false;
              lifecycle = e.reported;
              handoff_revision = suc e.handoff_revision;
            }) in
              (
                ap (λ (v : Lifecycles). v.lifecycle) kept,
                ap (λ (v : Lifecycles). v.lifecycle_held) kept,
              ))
    ]

-- The statuses that the conversation reports, the first one first.
unfoldable pub emit_statuses : List (Status × ℕ) → EventEmitter → EventEmitter
emit_statuses [] e = e
emit_statuses ((s, now) ∷ ss) e = emit_statuses ss (emit_status s now e)

emit_status-held :
    (s : Status) (now : ℕ) (e : EventEmitter)
    → e.lifecycle_held ≡ true
    → ((emit_status s now e).lifecycle ≡ e.lifecycle)
      × ((emit_status s now e).lifecycle_held ≡ true)
emit_status-held s now e held =
    let out = emit_status-lifecycles s now e in
    (
      ap (λ (v : Lifecycles). v.lifecycle) out
          ∙ ap (λ b. if b then e.lifecycle else lifecycle_of s) held,
      ap (λ (v : Lifecycles). v.lifecycle_held) out ∙ held,
    )

emit_statuses-held :
    (ss : List (Status × ℕ)) (e : EventEmitter)
    → e.lifecycle_held ≡ true
    → ((emit_statuses ss e).lifecycle ≡ e.lifecycle) × ((emit_statuses ss e).lifecycle_held ≡ true)
unfolding emit_statuses
emit_statuses-held [] e held = (refl, held)
emit_statuses-held ((s, now) ∷ ss) e held =
    let (same, held') = emit_status-held s now e held in
    let (same', held″) = emit_statuses-held ss (emit_status s now e) held' in (same' ∙ same, held″)

-- A lifecycle that is held when it is set (restarting, exited or failed) stays through any statuses
-- that the conversation reports, while the agent's status follows them; once it is released, the
-- lifecycle is the one of the last status reported.
pub set_lifecycle-held :
    (l : LifecycleState) (e : EventEmitter) (ss : List (Status × ℕ)) (s : Status)
    (set_at last_at released_at : ℕ)
    → is_held l ≡ true
    → let held = emit_status s last_at (emit_statuses ss (set_lifecycle l set_at e)) in
      (held.lifecycle ≡ l)
      × (held.status ≡ convert_status s)
      × ((release_lifecycle released_at held).lifecycle ≡ lifecycle_of s)
      × ((release_lifecycle released_at held).lifecycle_held ≡ false)
set_lifecycle-held l e ss s set_at last_at released_at h =
    let e₁ = set_lifecycle l set_at e in
    let e₂ = emit_statuses ss e₁ in
    let e₃ = emit_status s last_at e₂ in
    let (is_l, held) = set_lifecycle-lifecycles l set_at e in
    let (same, held₂) = emit_statuses-held ss e₁ (held ∙ h) in
    let (same', held₃) = emit_status-held s last_at e₂ held₂ in
    let out = emit_status-lifecycles s last_at e₂ in
    let (released, free) = release_lifecycle-reported released_at e₃ held₃ in
    (
      same' ∙ same ∙ is_l,
      ap (λ (v : Lifecycles). v.status) out,
      released ∙ ap (λ (v : Lifecycles). v.reported) out,
      free,
    )
