-- ===== src/Native/Sink.antt =====
-- What an adapter reports: the `sink` of lib/native/sink.go, given to the adapter of one generation.
use agentapi.Prelude.{
  ℕ, suc, Bool, true, false, not, ◌&&◌, ◌∷◌, none, some, String, str_eq, Text, text_eq, is_empty,
  ◌==◌, if◌then◌else◌, contains_func,
}
use agentapi.Transcript.{RichMessage}
use agentapi.Native.Types.{TurnResult, StopReason, LoginRequired, Request, Settings, AgentUsage}
use agentapi.Native.Requests.{
  RequestStatus, RequestClose, open_request, find_request, close, closed_capability,
}
use agentapi.Native.MessageLog.{end_agent_message, add_rich}
use agentapi.Native.State.{
  Config, Conversation, Output, Note, Level, tell, emit_current_status, clear_login, choose,
  set_settings, set_usage, expire_requests,
}
use agentapi.Native.Limit.{limit_stopped, retry}

-- The error of a transient failure that is not tried again.
retries_out : TurnResult → ℕ → Note
retries_out result retries =
    if retries == 0 then Note.says result.error else Note.gave_up_trying result.error retries

-- What the conversation makes of the way a turn ended; `retried` is the retry that the turn was.
unfoldable pub settle : TurnResult → ℕ → ℕ → Conversation → Conversation
unfolding retries_out
settle result retried now c = elim result.stop_reason [
  | StopReason.limited ↦ limit_stopped result now c
  | StopReason.transient ↦
      let (c', scheduled) = retry result (suc retried) now c in
      if scheduled then c' else tell (Output.emit_error (retries_out result retried) Level.error) c'
  | _ ↦
      if is_empty result.error
      then c
      else tell (Output.emit_error (Note.says result.error) Level.error) c
]

-- Whether a turn shows that the agent is logged in: the model answered.
unfoldable pub proves_login : TurnResult → Bool
proves_login result = is_empty result.error && elim result.stop_reason [
  | StopReason.end_turn ↦ true
  | StopReason.max_tokens ↦ true
  | _ ↦ false
]

-- The steps before the way the turn ended is looked at.
unfoldable pub end_turn : ℕ → Conversation → Conversation
end_turn now c =
    let c' = expire_requests false now (record c {
      turn_active = false;
      unconfirmed_turn = false;
      messages = end_agent_message c.messages;
    }) in
    record c' { retrying = 0 }

unfoldable pub turn_completed : TurnResult → ℕ → Conversation → Conversation
turn_completed result now c =
    let c₁ = end_turn now c in
    let c₂ = settle result c.retrying now c₁ in
    let c₃ : Conversation = record c₂ { continue_again = false } in
    emit_current_status (if proves_login result then clear_login c₃ else c₃)

unfoldable pub login_eq : LoginRequired → LoginRequired → Bool
login_eq a b =
    str_eq a.agent b.agent
    && str_eq a.message b.message
    && str_eq a.command b.command
    && str_eq a.detail b.detail
    && str_eq a.host b.host
    && str_eq a.user b.user

-- Records that the agent waits for a login; the result tells whether that is new.
unfoldable pub set_login : LoginRequired → Conversation → Conversation × Bool
set_login l c =
    if elim c.login [ none ↦ false | some old ↦ login_eq old l ]
    then (c, false)
    else (tell (Output.login_required (some l)) (record c { login = some l }), true)

-- Where to log in, unless the adapter said.
unfoldable pub with_local_account : Config → LoginRequired → LoginRequired
with_local_account cfg l = record l {
  host = if str_eq l.host "" then cfg.local_host else l.host;
  user = if str_eq l.user "" then cfg.local_user else l.user;
}

-- A chosen setting follows the one that the agent changed by itself, if both are set.
follow : String → String → String
follow chosen reported =
    if not (str_eq chosen "") && not (str_eq reported "") then reported else chosen

unfoldable pub agent_settings : Settings → Conversation → Conversation
unfolding follow
agent_settings s c =
    let chosen : Settings = record {
      permission_mode = follow c.chosen.permission_mode s.permission_mode;
      model = follow c.chosen.model s.model;
      effort = follow c.chosen.effort s.effort;
    } in
    set_settings s (if c.is_started then choose chosen c else c)

unfoldable pub close_request : String → ℕ → Conversation → Conversation
close_request id now c = elim (find_request id c.requests.requests) [
  | none ↦ c
  | some r ↦
      let how : RequestClose = record {
        status = RequestStatus.withdrawn;
        capability = closed_capability r.kind;
      } in
      let (book, closed) = close c.requests r how now in
      let c' : Conversation = record c { requests = book } in
      emit_current_status (elim closed [ none ↦ c' | some s ↦ tell (Output.request_updated s) c' ])
]

unfoldable pub report_error : Text → Level → Conversation → Conversation
report_error message level c =
    if not c.is_started
    then if c.login_waiting && contains_func (text_eq message) c.start_errors
      then c
      else tell (Output.emit_error (Note.says message) level)
          (record c { start_errors = message ∷ c.start_errors })
    else tell (Output.emit_error (Note.says message) level) c

unfoldable pub rich_message : RichMessage → ℕ → Conversation → Conversation
rich_message msg now c =
    let c' = tell (Output.rich_message msg) c in
    if str_eq msg.role "assistant"
    then (let (log, changed) = add_rich c.messages msg now in
        let c'' : Conversation = record c' { messages = log } in
        if changed then tell (Output.emit_messages log.messages) c'' else c'')
    else c'

unfoldable pub request_opened : Request → ℕ → Conversation → Conversation
request_opened req now c =
    let (book, state) = open_request c.requests req now in
    emit_current_status (tell (Output.request_updated state) (record c { requests = book }))

unfoldable pub session_ref : String → Conversation → Conversation
session_ref ref c = tell (Output.session_ref ref) (record c { session_ref = ref; forking = false })

unfoldable pub turn_started : Conversation → Conversation
turn_started c = emit_current_status (record c { turn_active = true; unconfirmed_turn = false })

-- Session events go to the observer as they are, and change nothing here; neither does a name.
pub data Event : Type 0 where
  starts_turn : Event
  completes_turn : TurnResult → Event
  sends_rich : RichMessage → Event
  opens_request : Request → Event
  closes_request : String → Event
  needs_login : LoginRequired → Event
  changes_usage : AgentUsage → Event
  changes_settings : Settings → Event
  names_session : String → Event
  refers_session : String → Event
  reports_error : Text → Level → Event

unfoldable pub handle : Event → ℕ → Conversation → Conversation
handle Event.starts_turn now c = turn_started c
handle (Event.completes_turn result) now c = turn_completed result now c
handle (Event.sends_rich msg) now c = rich_message msg now c
handle (Event.opens_request req) now c = request_opened req now c
handle (Event.closes_request id) now c = close_request id now c
handle (Event.needs_login l) now c =
    let l' = with_local_account c.cfg l in
    let (c', changed) = set_login l' c in
    if changed then tell (Output.emit_error (Note.needs_login l') Level.error) c' else c'
handle (Event.changes_usage u) now c = set_usage u c
handle (Event.changes_settings s) now c = agent_settings s c
handle (Event.names_session name) now c = tell (Output.session_name name) c
handle (Event.refers_session ref) now c = session_ref ref c
handle (Event.reports_error message level) now c = report_error message level c

-- An event of the adapter of generation `gen`: ignored once the adapter was replaced.
unfoldable pub sink : ℕ → Event → ℕ → Conversation → Conversation
sink gen event now c = if gen == c.generation then handle event now c else c
