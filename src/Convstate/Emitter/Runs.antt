-- ===== src/Convstate/Emitter/Runs.antt =====
-- The emitter's methods, in any order.
use agentapi.Prelude.{
  ℕ, ◌≡◌, ◌≢◌, refl, Bool, true, false, List, [], ◌∷◌, Option, String, Text, none, nat_eq, arith,
}
use agentapi.Transcript.{RichMessage}
use agentapi.Native.Types.{Capabilities, Settings, LoginRequired}
use agentapi.Native.State.{LimitStop, RetryWait, Level, Status}
use agentapi.Native.Requests.{RequestState}
use agentapi.Native.MessageLog.{Message}
use agentapi.Convstate.Types.{AgentStatus, LifecycleState}
use agentapi.Convstate.Tasks.{TaskTracker}
use agentapi.Convstate.Replay.{distinct}
use agentapi.Queue.{QueuedMessage}
use agentapi.Convstate.Emitter.{Options, EventEmitter, end_idle_task, emit_error, set_queue}
use agentapi.Convstate.Emitter.Status.{
  emit_status, set_lifecycle, release_lifecycle, set_session_name, set_agent_session_id,
  set_settings, set_login_required,
}
use agentapi.Convstate.Emitter.Messages.{emit_messages}
use agentapi.Convstate.Emitter.Rich.{emit_rich_message, load_rich_messages}
use agentapi.Convstate.Emitter.Requests.{emit_request}
use agentapi.Convstate.Emitter.Subscribe.{reset}
use agentapi.Convstate.Emitter.Contents.{contents, message_id, Valid, Client, InSync}
use agentapi.Convstate.Emitter.Keeps.{
  end_idle_task-Keeps, emit_error-Keeps, emit_status-Keeps, set_lifecycle-Keeps,
  release_lifecycle-Keeps, set_session_name-Keeps, set_agent_session_id-Keeps, set_settings-Keeps,
  set_login_required-Keeps, emit_request-Keeps,
}
use agentapi.Convstate.Emitter.Waits.{
  set_capabilities, set_limit_stop, set_retry_wait, set_capabilities-Keeps, set_limit_stop-Keeps,
  set_retry_wait-Keeps,
}
use agentapi.Convstate.Emitter.Upserts.{emit_rich_message-Upserted, load_rich_messages-Upserted}
use agentapi.Convstate.Emitter.CatchUp.{
  Stays, Keeps-Stays, emit_messages-Stays, set_queue-Stays, reset-Stays,
}

-- NewEventEmitter, with the tracker of its tasks.
unfoldable pub new_event_emitter : Options → String → TaskTracker → EventEmitter
new_event_emitter options epoch tasks = record {
  options = options;
  epoch = epoch;
  seq = 0;
  messages = [];
  message_seqs = [];
  rich_messages = [];
  rich_seqs = [];
  requests = [];
  request_seqs = [];
  queue = [];
  queue_version = 0;
  queue_seq = 0;
  errors = [];
  error_count = 0;
  tasks = tasks;
  task_seqs = [];
  task_timer = none;
  status = AgentStatus.running;
  lifecycle = LifecycleState.starting;
  lifecycle_held = false;
  reported = LifecycleState.starting;
  turn = 0;
  agent_session_id = "";
  handoff_revision = 0;
  session_name = "";
  capabilities = none;
  login_required = none;
  settings = none;
  usage = none;
  limit_stop = none;
  retry_wait = none;
  sent = [];
}

-- A call, with the epoch that it may start and the time that it reads. SetUsage is left out: the
-- model of the usage has no percentages.
pub data Call : Type 0 where
  emits_messages : List Message → String → Call
  emits_rich : RichMessage → Bool → Call
  loads_rich : List RichMessage → Call
  emits_request : RequestState → ℕ → Call
  emits_status : Status → ℕ → Call
  emits_error : Text → Level → ℕ → Call
  sets_lifecycle : LifecycleState → ℕ → Call
  releases_lifecycle : ℕ → Call
  sets_session_name : String → ℕ → Call
  sets_agent_session_id : String → ℕ → Call
  sets_settings : Settings → ℕ → Call
  sets_login_required : Option LoginRequired → ℕ → Call
  sets_capabilities : Capabilities → ℕ → Call
  sets_limit_stop : Option LimitStop → ℕ → Call
  sets_retry_wait : Option RetryWait → ℕ → Call
  sets_queue : List QueuedMessage → ℕ → Call
  ends_idle_task : ℕ → Call
  resets : String → ℕ → Call

unfoldable pub call : EventEmitter → Call → EventEmitter
call e (Call.emits_messages news epoch) = emit_messages news epoch e
call e (Call.emits_rich msg replace) = emit_rich_message msg replace e
call e (Call.loads_rich msgs) = load_rich_messages msgs e
call e (Call.emits_request r now) = emit_request r now e
call e (Call.emits_status s now) = emit_status s now e
call e (Call.emits_error message level now) = emit_error message level now e
call e (Call.sets_lifecycle l now) = set_lifecycle l now e
call e (Call.releases_lifecycle now) = release_lifecycle now e
call e (Call.sets_session_name name now) = set_session_name name now e
call e (Call.sets_agent_session_id id now) = set_agent_session_id id now e
call e (Call.sets_settings s now) = set_settings s now e
call e (Call.sets_login_required l now) = set_login_required l now e
call e (Call.sets_capabilities caps now) = set_capabilities caps now e
call e (Call.sets_limit_stop stop now) = set_limit_stop stop now e
call e (Call.sets_retry_wait wait now) = set_retry_wait wait now e
call e (Call.sets_queue q version) = set_queue q version e
call e (Call.ends_idle_task now) = end_idle_task now e
call e (Call.resets epoch now) = reset epoch now e

unfoldable pub call_all : EventEmitter → List Call → EventEmitter
call_all e [] = e
call_all e (s ∷ calls) = call_all (call e s) calls

-- The messages have different IDs, and a new epoch is another than `epoch`.
abbrev pub Proper : String → Call → Type 0
Proper epoch (Call.emits_messages news fresh) = (distinct message_id news ≡ true) × (epoch ≢ fresh)
Proper epoch (Call.resets fresh now) = epoch ≢ fresh
Proper epoch s = Unit {0}

abbrev pub AllProper : String → List Call → Type 0
AllProper epoch [] = Unit {0}
AllProper epoch (s ∷ calls) = Proper epoch s × AllProper epoch calls

call-Stays :
    (s : Call) (c : Client) (e : EventEmitter)
    → Proper c.epoch s
    → Valid (contents e)
    → Stays c e (call e s)
unfolding call
call-Stays (Call.emits_messages news epoch) c e (d, fresh) v =
    emit_messages-Stays news epoch c e d fresh v
call-Stays (Call.emits_rich msg replace) c e p v =
    let u = emit_rich_message-Upserted msg replace e in
    record { valid = u.valid; in_sync = u.in_sync c }
call-Stays (Call.loads_rich msgs) c e p v =
    let u = load_rich_messages-Upserted msgs e in record { valid = u.valid; in_sync = u.in_sync c }
call-Stays (Call.emits_request r now) c e p v = Keeps-Stays c e _ (emit_request-Keeps r now e)
call-Stays (Call.emits_status s now) c e p v = Keeps-Stays c e _ (emit_status-Keeps s now e)
call-Stays (Call.emits_error message level now) c e p v =
    Keeps-Stays c e _ (emit_error-Keeps message level now e)
call-Stays (Call.sets_lifecycle l now) c e p v = Keeps-Stays c e _ (set_lifecycle-Keeps l now e)
call-Stays (Call.releases_lifecycle now) c e p v = Keeps-Stays c e _ (release_lifecycle-Keeps now e)
call-Stays (Call.sets_session_name name now) c e p v =
    Keeps-Stays c e _ (set_session_name-Keeps name now e)
call-Stays (Call.sets_agent_session_id id now) c e p v =
    Keeps-Stays c e _ (set_agent_session_id-Keeps id now e)
call-Stays (Call.sets_settings s now) c e p v = Keeps-Stays c e _ (set_settings-Keeps s now e)
call-Stays (Call.sets_login_required l now) c e p v =
    Keeps-Stays c e _ (set_login_required-Keeps l now e)
call-Stays (Call.sets_capabilities caps now) c e p v =
    Keeps-Stays c e _ (set_capabilities-Keeps caps now e)
call-Stays (Call.sets_limit_stop stop now) c e p v =
    Keeps-Stays c e _ (set_limit_stop-Keeps stop now e)
call-Stays (Call.sets_retry_wait wait now) c e p v =
    Keeps-Stays c e _ (set_retry_wait-Keeps wait now e)
call-Stays (Call.sets_queue q version) c e p v = set_queue-Stays q version c e
call-Stays (Call.ends_idle_task now) c e p v = Keeps-Stays c e _ (end_idle_task-Keeps now e)
call-Stays (Call.resets epoch now) c e p v = reset-Stays epoch now c e p

pub call_all-Stays :
    (calls : List Call) (c : Client) (e : EventEmitter)
    → AllProper c.epoch calls
    → Valid (contents e)
    → InSync c (contents e)
    → Valid (contents (call_all e calls)) × InSync c (contents (call_all e calls))
unfolding call_all
call_all-Stays [] c e p v s = (v, s)
call_all-Stays (x ∷ calls) c e (p, ps) v s =
    let stays = call-Stays x c e p v in
    call_all-Stays calls c (call e x) ps (stays.valid v) (stays.in_sync s)

pub new_event_emitter-Valid :
    (options : Options) (epoch : String) (tasks : TaskTracker)
    → Valid (contents (new_event_emitter options epoch tasks))
unfolding new_event_emitter
new_event_emitter-Valid options epoch tasks = record {
  messages = tt;
  rich_messages = tt;
  distinct_messages = refl;
  distinct_rich = refl;
  queue = omega arith;
  no_queue = λ z. refl;
}
