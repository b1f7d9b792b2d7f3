-- ===== src/Native/State.antt =====
-- The state of a conversation with an agent: `Conversation` of lib/native/conversation.go.
--
-- The mutex makes what runs under it one step; a call into the adapter runs without it, so a method
-- that calls the adapter is two steps with the adapter's answer between them. What the conversation
-- tells its Emitter and its Observer is kept in `outputs`, the newest first. The goroutines that
-- wait to start the agent again are the entries of `relaunches`.
use agentapi.Prelude.{
  ℕ, Bool, not, ◌&&◌, ◌||◌, List, [], ◌∷◌, Option, none, some, String, Text, if◌then◌else◌, is_some,
}
use agentapi.Transcript.{RichMessage}
use agentapi.Native.Types.{Capabilities, LoginRequired, Resume, Settings, AgentUsage, settings_eq}
use agentapi.Native.Requests.{RequestState, RequestBook, waiting_on_user, expire}
use agentapi.Native.MessageLog.{Message, MessageLog}

-- A turn that stopped because the account reached a usage limit.
pub record LimitStop : Type 0 where
  pub message : Text
  pub stopped_at : ℕ
  pub resets_at : Option ℕ
  pub continue_at : Option ℕ

-- A turn that failed on a transient upstream error and is to be tried again.
pub record RetryWait : Type 0 where
  pub message : Text
  pub api_status : ℕ
  pub stopped_at : ℕ
  pub attempt : ℕ
  pub attempts : ℕ
  pub retry_at : ℕ

pub data Status : Type 0 where
  changing stable initializing : Status

pub data Level : Type 0 where
  warning error : Level

-- What an error message shows the user: the values that its text is made of.
pub data Note : Type 0 where
  says : Text → Note
  tries_again : Text → (delay attempt attempts : ℕ) → Note
  gave_up_trying : Text → (retries : ℕ) → Note
  needs_login : LoginRequired → Note
  prompt_failed : Note
  start_failed : Text → Note
  starts_again : Text → (delay attempt attempts : ℕ) → Note
  gave_up_starting : Text → (attempts : ℕ) → Note

-- `attempt` is 0 once the conversation gave up.
pub record AgentExit : Type 0 where
  pub err : Option Text
  pub attempt : ℕ
  pub attempts : ℕ
  pub delay : ℕ

-- A call of the Emitter (`emit…`) or of the Observer.
pub data Output : Type 0 where
  emit_messages : List Message → Output
  emit_status : Status → Output
  emit_error : Note → Level → Output
  started : Capabilities → Output
  login_required : Option LoginRequired → Output
  rich_message : RichMessage → Output
  session_name : String → Output
  session_ref : String → Output
  request_updated : RequestState → Output
  settings : Settings → Output
  settings_chosen : Settings → Output
  usage : AgentUsage → Output
  limit_stop : Option LimitStop → Output
  retry_wait : Option RetryWait → Output
  agent_exited : AgentExit → Output

-- An adapter, with the optional interfaces that it implements.
pub record Adapter : Type 0 where
  pub number : ℕ
  pub is_compacter : Bool
  pub is_configurable : Bool

-- A wait before the agent of generation `gen` is started.
pub record Relaunch : Type 0 where
  pub gen : ℕ
  pub resume : Resume
  pub delay : ℕ

-- `transient_status` reads the HTTP status that an error's text names, 0 if it names none;
-- `local_host` and `local_user` are what localAccount found.
pub record Config : Type 0 where
  pub initial_prompt : Text
  pub login_retry_interval : ℕ
  pub auto_continue : Bool
  pub retry_delays : List ℕ
  pub restart_delays : List ℕ
  pub transient_status : Text → ℕ
  pub local_host : String
  pub local_user : String

pub record Conversation : Type 0 where
  pub cfg : Config
  pub adapter : Option Adapter
  pub caps : Capabilities
  pub generation : ℕ
  pub is_started : Bool
  pub turn_active : Bool
  pub unconfirmed_turn : Bool
  pub compacting : Bool
  pub prompt_sent : Bool
  pub session_ref : String
  pub forking : Bool
  pub messages : MessageLog
  pub requests : RequestBook
  pub login : Option LoginRequired
  pub login_waiting : Bool
  pub relaunch_wake : Bool
  pub restarts : ℕ
  pub ran : Bool
  pub start_errors : List Text
  pub settings : Settings
  pub chosen : Settings
  pub usage : AgentUsage
  pub limit_stop : Option LimitStop
  pub continue_again : Bool
  pub retry_wait : Option RetryWait
  pub retrying : ℕ
  pub outputs : List Output
  pub relaunches : List Relaunch

abbrev pub tell : Output → Conversation → Conversation
tell o c = record c { outputs = o ∷ c.outputs }

unfoldable pub told : List RequestState → List Output → List Output
told [] outputs = outputs
told (r ∷ rs) outputs = told rs (Output.request_updated r ∷ outputs)

abbrev pub tell_requests : List RequestState → Conversation → Conversation
tell_requests rs c = record c { outputs = told rs c.outputs }

unfoldable pub idle : Conversation → Bool
idle c = c.is_started && not c.turn_active && not c.compacting

unfoldable pub status : Conversation → Status
status c =
    if not c.is_started
    then Status.initializing
    else if c.compacting
    then Status.changing
    else if not c.turn_active || waiting_on_user c.requests
    then Status.stable
    else Status.changing

abbrev pub emit_current_status : Conversation → Conversation
emit_current_status c = tell (Output.emit_status (status c)) c

abbrev pub resume_of : Conversation → Resume
resume_of c = record { ref = c.session_ref; fork = c.forking }

unfoldable pub set_limit_stop : Option LimitStop → Conversation → Conversation
set_limit_stop ls c =
    if not (is_some c.limit_stop) && not (is_some ls)
    then c
    else tell (Output.limit_stop ls) (record c { limit_stop = ls })

unfoldable pub set_retry_wait : Option RetryWait → Conversation → Conversation
set_retry_wait rw_ c =
    if not (is_some c.retry_wait) && not (is_some rw_)
    then c
    else tell (Output.retry_wait rw_) (record c { retry_wait = rw_ })

unfoldable pub clear_login : Conversation → Conversation
clear_login c = elim c.login [
  | none ↦ c
  | some l ↦ tell (Output.login_required none) (record c { login = none })
]

unfoldable pub choose : Settings → Conversation → Conversation
choose s c =
    if settings_eq c.chosen s then c else tell (Output.settings_chosen s) (record c { chosen = s })

unfoldable pub set_settings : Settings → Conversation → Conversation
set_settings s c =
    if settings_eq c.settings s then c else tell (Output.settings s) (record c { settings = s })

unfoldable pub set_usage : AgentUsage → Conversation → Conversation
set_usage u c = tell (Output.usage u) (record c { usage = u })

-- Closes the pending requests and publishes them.
unfoldable pub expire_requests : Bool → ℕ → Conversation → Conversation
expire_requests agent_gone now c =
    let (book, closed) = expire c.requests agent_gone now in
    tell_requests closed (record c { requests = book })
