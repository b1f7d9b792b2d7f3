-- ===== src/Convstate/Emitter.antt =====
-- The state that clients see: `EventEmitter` of lib/convstate/events.go.
--
-- The mutex makes each method one step. What the subscriptions are sent is kept in `sent`, the
-- newest first. `seq` and the other counters are uint64 numbers whose end no run reaches. A new
-- epoch, which the source draws at random, and the time are arguments; the state database and the
-- summary are left out.
pub mod Status
pub mod Messages
pub mod Rich
pub mod Requests
pub mod Subscribe
pub mod Contents
pub mod Keeps
pub mod Waits
pub mod Numbers
pub mod Upserts
pub mod CatchUp
pub mod Runs
pub mod Reconnect
pub mod Current
pub mod Held
pub mod Newest
use agentapi.Prelude.{
  ℕ, zero, suc, ◌+◌, ◌-◌, Bool, true, false, List, [], ◌∷◌, ◌++◌, Option, none, some, String,
  str_eq, Text, ltb, leb, ◌==◌, ◌&&◌, if◌then◌else◌, length, get_elem?, drop, nat_eq, dict_put, Eq,
  ==_iff,
}
use agentapi.Queue.{QueuedMessage}
use agentapi.Transcript.{RichMessage, Block}
use agentapi.Native.Types.{Capabilities, LoginRequired, Settings, AgentUsage}
use agentapi.Native.Requests.{RequestState, is_pending}
use agentapi.Native.State.{LimitStop, RetryWait, Level}
use agentapi.Native.MessageLog.{Message}
use agentapi.Convstate.Types.{AgentStatus, LifecycleState, StatusChangeBody, ErrorBody, Task}
use agentapi.Convstate.Tasks.{TaskTracker}
use agentapi.Convstate.Tasks.Status.{status_changed, end_if_idle, agent_error}

-- `closed` stands for the end of the subscriptions that get the conversation's changes.
pub data Event : Type 0 where
  session_sync : (epoch : String) (full : Bool) (seq : ℕ) → Event
  message_update : Message → ℕ → Event
  rich_message_update : RichMessage → ℕ → Event
  request_update : RequestState → ℕ → Event
  queue_update : List QueuedMessage → ℕ → Event
  task_update : Task → ℕ → Event
  status_change : StatusChangeBody → Event
  error : ErrorBody → Event
  closed : Event

-- What the options of NewEventEmitter set; `encode` is the JSON encoding of a content block.
pub record Options : Type 0 where
  pub server_id : String
  pub agent_type : String
  pub terminal : Bool
  pub buffer_size : ℕ
  pub encode : Block → String

pub record EventEmitter : Type 0 where
  pub options : Options
  pub epoch : String
  pub seq : ℕ
  pub messages : List Message
  pub message_seqs : List ℕ
  pub rich_messages : List RichMessage
  pub rich_seqs : List ℕ
  pub requests : List RequestState
  pub request_seqs : List ℕ
  pub queue : List QueuedMessage
  pub queue_version : ℕ
  pub queue_seq : ℕ
  pub errors : List ErrorBody
  pub error_count : ℕ
  pub tasks : TaskTracker
  pub task_seqs : List (ℕ × ℕ)
  pub task_timer : Option ℕ
  pub status : AgentStatus
  pub lifecycle : LifecycleState
  pub lifecycle_held : Bool
  pub reported : LifecycleState
  pub turn : ℕ
  pub agent_session_id : String
  pub handoff_revision : ℕ
  pub session_name : String
  pub capabilities : Option Capabilities
  pub login_required : Option LoginRequired
  pub settings : Option Settings
  pub usage : Option AgentUsage
  pub limit_stop : Option LimitStop
  pub retry_wait : Option RetryWait
  pub sent : List Event

abbrev pub send : Event → EventEmitter → EventEmitter
send ev e = record e { sent = ev ∷ e.sent }

unfoldable pub pending : List RequestState → ℕ
pending [] = 0
pending (r ∷ rs) = let rest = pending rs in if is_pending r then suc rest else rest

unfoldable pub status_change_body : EventEmitter → StatusChangeBody
status_change_body e = record {
  status = e.status;
  lifecycle = e.lifecycle;
  server_id = e.options.server_id;
  turn = e.turn;
  agent_session_id = e.agent_session_id;
  agent_type = e.options.agent_type;
  session_name = e.session_name;
  pending_requests = pending e.requests;
  capabilities = e.capabilities;
  login_required = e.login_required;
  settings = e.settings;
  usage = e.usage;
  limit_stop = e.limit_stop;
  retry_wait = e.retry_wait;
  terminal = e.options.terminal;
}

-- The tasks at the changed positions get the next numbers, and their updates are returned.
unfoldable pub tasks_stored : List ℕ → EventEmitter → EventEmitter × List Event
tasks_stored [] e = (e, [])
tasks_stored (i ∷ changed) e = elim (get_elem? e.tasks.tasks i) [
  | none ↦ tasks_stored changed e
  | some task ↦
      let s = suc e.seq in
      let (e', updates) =
        tasks_stored changed (record e { seq = s; task_seqs = dict_put task.id s e.task_seqs }) in
      (e', Event.task_update task s ∷ updates)
]

unfoldable pub send_all : List Event → EventEmitter → EventEmitter
send_all [] e = e
send_all (ev ∷ evs) e = send_all evs (send ev e)

unfoldable pub tasks_changed : List ℕ → EventEmitter → EventEmitter
tasks_changed changed e = let (e', updates) = tasks_stored changed e in send_all updates e'

-- taskEndGrace, three seconds.
abbrev pub task_end_grace : ℕ
task_end_grace = 3000000000

unfoldable pub notify_status : ℕ → EventEmitter → EventEmitter
notify_status now e =
    let body = status_change_body e in
    let ((t, changed), confirm) = status_changed body now e.tasks in
    let e' = tasks_changed changed (record (send (Event.status_change body) e) { tasks = t }) in
    if confirm then record e' { task_timer = some (now + task_end_grace) } else e'

-- The timer of the tasks, and SendingMessage.
unfoldable pub end_idle_task : ℕ → EventEmitter → EventEmitter
end_idle_task now e =
    let (t, changed) = end_if_idle now e.tasks in tasks_changed changed (record e { tasks = t })

abbrev pub max_stored_errors : ℕ
max_stored_errors = 100

unfoldable pub emit_error : Text → Level → ℕ → EventEmitter → EventEmitter
emit_error message level now e =
    let body : ErrorBody = record {
      message = message;
      level = level;
      time = now;
      number = suc e.error_count;
    } in
    let errors = e.errors ++ body ∷ [] in
    let stored =
      if ltb max_stored_errors (length errors)
      then drop (length errors - max_stored_errors) errors
      else errors in
    let (t, changed) = agent_error body e.tasks in
    tasks_changed changed (record (send (Event.error body) e) {
      error_count = suc e.error_count;
      errors = stored;
      tasks = t;
    })

-- SetQueue: a change reported late, after a newer one, is dropped.
unfoldable pub set_queue : List QueuedMessage → ℕ → EventEmitter → EventEmitter
set_queue queue version e =
    if leb version e.queue_version
    then e
    else send (Event.queue_update queue (suc e.seq)) (record e {
      queue = queue;
      queue_version = version;
      seq = suc e.seq;
      queue_seq = suc e.seq;
    })
