-- ===== src/Examples/Convstate.antt =====
-- Examples of the theorems about tasks and the event emitter of lib/convstate.
use agentapi.Prelude.{
  ◌≡◌, refl, false, true, List, [], ◌∷◌, none, some, codes, arith, get_elem?, String, sym, ◌∙◌,
  str_eq, eq_iff, nat_eq, ◌≢◌,
}
use agentapi.Transcript.{RichMessage}
use agentapi.Native.MessageLog.{Message, Role}
use agentapi.Native.State.{Status}
use agentapi.Convstate.Types.{AgentStatus, LifecycleState, TaskStatus, StatusChangeBody, Task}
use agentapi.Convstate.Tasks.{TaskTracker, new_task_tracker, outcome}
use agentapi.Convstate.Tasks.Derive.{last_running}
use agentapi.Convstate.Tasks.Status.{ended_by, status_changed}
use agentapi.Convstate.Tasks.Running.{count_running}
use agentapi.Convstate.Tasks.Tracked.{Tracked}
use agentapi.Convstate.Tasks.Methods.{Method, call_all, call_all-Tracked, status_changed-ends}
use agentapi.Convstate.Emitter.{Options, EventEmitter}
use agentapi.Convstate.Emitter.Status.{
  convert_status, lifecycle_of, is_held, emit_status, set_lifecycle, release_lifecycle,
}
use agentapi.Convstate.Emitter.Runs
use agentapi.Convstate.Emitter.Runs.{new_event_emitter, Call}
use agentapi.Convstate.Emitter.Rich.{emit_rich_message, upsert_rich}
use agentapi.Convstate.Emitter.Reconnect.{reconnect}
use agentapi.Convstate.Emitter.Current.{Current, copy, reconnect-Current}
use agentapi.Examples.{first_message}
use agentapi.Convstate.Emitter.Newest.{set_queues, set_queues-newest}
use agentapi.Convstate.Emitter.Held.{emit_statuses, set_lifecycle-held}

abbrev working : StatusChangeBody
working = record {
  status = AgentStatus.running;
  lifecycle = LifecycleState.running;
  server_id = "s";
  turn = 1;
  agent_session_id = "";
  agent_type = "claude";
  session_name = "";
  pending_requests = 0;
  capabilities = none;
  login_required = none;
  settings = none;
  usage = none;
  limit_stop = none;
  retry_wait = none;
  terminal = false;
}

abbrev done : StatusChangeBody
done = record working { status = AgentStatus.stable; lifecycle = LifecycleState.ready }

abbrev asks : Message
asks = record { id = 0; text = codes "fix it"; role = Role.user; time = 10 }

abbrev answers : Message
answers = record { id = 1; text = codes "done"; role = Role.agent; time = 20 }

abbrev fixing : Task
fixing = record {
  id = 0;
  status = TaskStatus.running;
  prompt = codes "fix it";
  started_at = 10;
  ended_at = none;
  reply_id = none;
  steered = [];
  errors = [];
  limit = none;
}

abbrev a_tracker : TaskTracker
a_tracker = record {
  tasks = fixing ∷ [];
  owners = (0, 0) ∷ [];
  ids = 0 ∷ [];
  in_order = true;
  rederive = false;
  running_task = some 0;
  ran = true;
  since = 0;
  status = working;
}

a_tracker-Tracked : Tracked a_tracker
unfolding last_running
a_tracker-Tracked = record { running = refl; one = omega arith; started = λ i e w. refl }

call_all-Tracked_example : Tracked (
    call_all (new_task_tracker done 0) (
      Method.takes_messages (asks ∷ []) 0
      ∷ Method.takes_status working 11
      ∷ Method.takes_messages (asks ∷ answers ∷ []) 1
      ∷ Method.takes_status done 21
      ∷ []))
call_all-Tracked_example = call_all-Tracked done 0 (
    Method.takes_messages (asks ∷ []) 0
    ∷ Method.takes_status working 11
    ∷ Method.takes_messages (asks ∷ answers ∷ []) 1
    ∷ Method.takes_status done 21
    ∷ [])

status_changed-ends_example :
    let ((t', changed), confirm) = status_changed done 30 a_tracker in
    (t'.running_task ≡ none)
    × (count_running t'.tasks ≡ 0)
    × (get_elem? t'.tasks 0 ≡ some (outcome done 30 fixing))
    × ((outcome done 30 fixing).ended_at ≡ some 30)
    × (changed ≡ 0 ∷ [])
    × (confirm ≡ false)
unfolding ended_by
status_changed-ends_example =
    status_changed-ends a_tracker 0 fixing done 30 a_tracker-Tracked refl refl refl refl refl refl

abbrev options : Options
options = record {
  server_id = "s";
  agent_type = "claude";
  terminal = false;
  buffer_size = 1024;
  encode = λ b. b.kind;
}

abbrev said : RichMessage
said = record {
  message_id = "m1";
  role = "assistant";
  content = [];
  model = "";
  stop_reason = "";
  usage = none;
  timestamp = 20;
  task_id = none;
}

abbrev before : List Call
before = Call.emits_rich said true ∷ []

-- The last messages take the answer back.
abbrev after : List Call
after =
    Call.emits_messages (asks ∷ []) "e1"
    ∷ Call.emits_messages (asks ∷ answers ∷ []) "e2"
    ∷ Call.emits_rich said true
    ∷ Call.emits_status Status.stable 25
    ∷ Call.emits_messages (asks ∷ []) "e3"
    ∷ []

abbrev an_emitter : EventEmitter
an_emitter = new_event_emitter options "e0" a_tracker

differ : (a b : String) → str_eq a b ≡ false → a ≢ b
differ a b f same = cc (f, (eq_iff a b).1 same)

before-epoch : (Runs.call_all an_emitter before).epoch ≡ "e0"
unfolding Runs.call_all Runs.call new_event_emitter emit_rich_message upsert_rich
before-epoch = refl

apart : (b : String) → str_eq "e0" b ≡ false → (Runs.call_all an_emitter before).epoch ≢ b
apart b f same = differ "e0" b f (sym before-epoch ∙ same)

reconnect-Current_example :
    let e = Runs.call_all an_emitter before in
    Current (reconnect (Runs.call_all e after) (copy e)) (Runs.call_all e after)
reconnect-Current_example =
    reconnect-Current options "e0" a_tracker before after (tt, tt)
      (
        (refl, apart "e1" refl),
        ((refl, apart "e2" refl), (tt, (tt, ((refl, apart "e3" refl), tt)))),
      )

set_lifecycle-held_example :
    let held = emit_status Status.stable 40 (
      emit_statuses
        ((Status.changing, 20) ∷ (Status.stable, 30) ∷ [])
        (set_lifecycle LifecycleState.restarting 10 an_emitter)) in
    (held.lifecycle ≡ LifecycleState.restarting)
    × (held.status ≡ convert_status Status.stable)
    × ((release_lifecycle 50 held).lifecycle ≡ lifecycle_of Status.stable)
    × ((release_lifecycle 50 held).lifecycle_held ≡ false)
unfolding is_held
set_lifecycle-held_example =
    set_lifecycle-held LifecycleState.restarting an_emitter
      ((Status.changing, 20) ∷ (Status.stable, 30) ∷ []) Status.stable 10 40 50 refl

-- The third report overtakes the second.
set_queues-newest_example :
    let e' = set_queues (([], 1) ∷ ((first_message ∷ []), 3) ∷ ([], 2) ∷ []) an_emitter in
    (e'.queue ≡ first_message ∷ []) × (e'.queue_version ≡ 3)
unfolding new_event_emitter
set_queues-newest_example =
    set_queues-newest (([], 1) ∷ []) (([], 2) ∷ []) (first_message ∷ []) 3 an_emitter (omega arith)
      (omega arith, tt) (omega arith, tt)
