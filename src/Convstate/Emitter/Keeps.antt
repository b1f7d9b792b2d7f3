-- ===== src/Convstate/Emitter/Keeps.antt =====
-- The methods that leave alone what clients copy: those of the status, errors, tasks and requests.
use agentapi.Prelude.{
  ℕ, suc, ◌≤◌, ◌≡◌, refl, sym, ◌∙◌, ap, Bool, true, false, List, [], ◌∷◌, Option, none, some,
  String, Text, arith, if◌then◌else◌, inl, inr, Option-cases, get_elem?, dict_put, nat_eq, str_eq,
  index_func,
}
use agentapi.Native.Types.{Settings, LoginRequired}
use agentapi.Native.State.{Level, Status}
use agentapi.Native.Requests.{RequestState}
use agentapi.Convstate.Types.{LifecycleState}
use agentapi.Convstate.Tasks.Status.{status_changed}
use agentapi.Convstate.Emitter.{
  Event, EventEmitter, send, send_all, tasks_stored, tasks_changed, notify_status, end_idle_task,
  emit_error, status_change_body,
}
use agentapi.Convstate.Emitter.Status.{
  emit_status, set_lifecycle, release_lifecycle, set_session_name, set_agent_session_id,
  set_settings, set_login_required,
}
use agentapi.Convstate.Emitter.Requests.{put_request, trim_requests, emit_request}
use agentapi.Convstate.Emitter.Contents.{Contents, contents, raise}

pub record Keeps (e e' : EventEmitter) : Type 0 where
  pub same : contents e' ≡ raise e'.seq (contents e)
  pub grows : e.seq ≤ e'.seq

pub Keeps-refl : (e : EventEmitter) → Keeps e e
Keeps-refl e = record { same = refl; grows = omega arith }

pub Keeps-trans : (e f g : EventEmitter) → Keeps e f → Keeps f g → Keeps e g
Keeps-trans e f g k l = record {
  same = l.same ∙ ap (raise g.seq) k.same;
  grows = omega (arith, k.grows, l.grows);
}

pub if_Keeps :
    (b : Bool) (e f g : EventEmitter) → Keeps e f → Keeps e g → Keeps e (if b then f else g)
if_Keeps true e f g k l = k
if_Keeps false e f g k l = l

pub tasks_stored-Keeps : (changed : List ℕ) (e : EventEmitter) → Keeps e (tasks_stored changed e).0
unfolding tasks_stored
tasks_stored-Keeps [] e = Keeps-refl e
tasks_stored-Keeps (i ∷ changed) e = elim (Option-cases (get_elem? e.tasks.tasks i)) [
  | inl missing ↦ rw (missing, tasks_stored) (tasks_stored-Keeps changed e)
  | inr (task, there) ↦
      let e' : EventEmitter = record e {
        seq = suc e.seq;
        task_seqs = dict_put task.id (suc e.seq) e.task_seqs;
      } in
      rw (there, tasks_stored)
        (Keeps-trans e e' (tasks_stored changed e').0 (record { same = refl; grows = omega arith })
          (tasks_stored-Keeps changed e'))
]

pub send_all-Keeps : (evs : List Event) (e : EventEmitter) → Keeps e (send_all evs e)
unfolding send_all
send_all-Keeps [] e = Keeps-refl e
send_all-Keeps (ev ∷ evs) e =
    Keeps-trans e (send ev e) (send_all evs (send ev e))
      (record { same = refl; grows = omega arith }) (send_all-Keeps evs (send ev e))

pub tasks_changed-Keeps : (changed : List ℕ) (e : EventEmitter) → Keeps e (tasks_changed changed e)
unfolding tasks_changed
tasks_changed-Keeps changed e =
    let s = tasks_stored changed e in
    Keeps-trans e s.0 (send_all s.1 s.0) (tasks_stored-Keeps changed e) (send_all-Keeps s.1 s.0)

notify_status-Keeps : (now : ℕ) (e : EventEmitter) → Keeps e (notify_status now e)
unfolding notify_status
notify_status-Keeps now e =
    let body = status_change_body e in
    let r = status_changed body now e.tasks in
    let sent : EventEmitter = record (send (Event.status_change body) e) { tasks = r.0.0 } in
    let e' = tasks_changed r.0.1 sent in
    let k : Keeps e e' =
      Keeps-trans e sent e' (record { same = refl; grows = omega arith })
        (tasks_changed-Keeps r.0.1 sent) in
    if_Keeps r.1 e _ e' (record { same = k.same; grows = k.grows }) k

-- A change of fields that clients don't copy.
pub Keeps-same : (e e' : EventEmitter) → contents e' ≡ contents e → Keeps e e'
Keeps-same e e' same =
    let seqs : e'.seq ≡ e.seq = ap (λ (v : Contents). v.seq) same in
    record { same = same ∙ sym (ap (λ n. raise n (contents e)) seqs); grows = omega (arith, seqs) }

-- The same, with the status sent after it.
pub notified :
    (now : ℕ) (e e' : EventEmitter) → contents e' ≡ contents e → Keeps e (notify_status now e')
notified now e e' same =
    Keeps-trans e e' (notify_status now e') (Keeps-same e e' same) (notify_status-Keeps now e')

pub ruleset keeps = (if_Keeps, Keeps-same, notified)

pub end_idle_task-Keeps : (now : ℕ) (e : EventEmitter) → Keeps e (end_idle_task now e)
unfolding end_idle_task
end_idle_task-Keeps now e =
    let k = tasks_changed-Keeps _ _ in record { same = k.same; grows = k.grows }

pub emit_error-Keeps :
    (message : Text) (level : Level) (now : ℕ) (e : EventEmitter)
    → Keeps e (emit_error message level now e)
unfolding emit_error
emit_error-Keeps message level now e =
    let k = tasks_changed-Keeps _ _ in record { same = k.same; grows = k.grows }

pub emit_status-Keeps : (s : Status) (now : ℕ) (e : EventEmitter) → Keeps e (emit_status s now e)
unfolding emit_status
emit_status-Keeps s now e = search keeps

pub set_lifecycle-Keeps :
    (l : LifecycleState) (now : ℕ) (e : EventEmitter) → Keeps e (set_lifecycle l now e)
unfolding set_lifecycle
set_lifecycle-Keeps l now e = search keeps

pub release_lifecycle-Keeps : (now : ℕ) (e : EventEmitter) → Keeps e (release_lifecycle now e)
unfolding release_lifecycle
release_lifecycle-Keeps now e = search keeps

pub set_session_name-Keeps :
    (name : String) (now : ℕ) (e : EventEmitter) → Keeps e (set_session_name name now e)
unfolding set_session_name
set_session_name-Keeps name now e = search keeps

pub set_agent_session_id-Keeps :
    (id : String) (now : ℕ) (e : EventEmitter) → Keeps e (set_agent_session_id id now e)
unfolding set_agent_session_id
set_agent_session_id-Keeps id now e = search keeps

pub set_settings-Keeps :
    (s : Settings) (now : ℕ) (e : EventEmitter) → Keeps e (set_settings s now e)
unfolding set_settings
set_settings-Keeps s now e = search keeps

pub set_login_required-Keeps :
    (l : Option LoginRequired) (now : ℕ) (e : EventEmitter) → Keeps e (set_login_required l now e)
unfolding set_login_required
set_login_required-Keeps l now e = search keeps

put_request-Keeps :
    (r : RequestState) (idx : Option ℕ) (e : EventEmitter) → Keeps e (put_request r idx e)
unfolding put_request trim_requests
put_request-Keeps r none e = record { same = refl; grows = omega arith }
put_request-Keeps r (some i) e = record { same = refl; grows = omega arith }

pub emit_request-Keeps :
    (r : RequestState) (now : ℕ) (e : EventEmitter) → Keeps e (emit_request r now e)
unfolding emit_request
emit_request-Keeps r now e =
    let idx = index_func (λ q. str_eq q.id r.id) e.requests in
    let e₁ = put_request r idx e in
    let e₂ : EventEmitter = record (send (Event.request_update r e₁.seq) e₁) {
      handoff_revision = suc e.handoff_revision;
    } in
    let stored = Keeps-trans e e₁ e₂ (put_request-Keeps r idx e) (Keeps-same e₁ e₂ refl) in
    if_Keeps _ e e _ (Keeps-refl e)
      (if_Keeps _ e e₂ _ stored (Keeps-trans e e₂ _ stored (notify_status-Keeps now e₂)))
