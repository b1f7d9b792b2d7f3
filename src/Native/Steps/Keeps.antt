-- ===== src/Native/Steps/Keeps.antt =====
-- The generation of the conversation's agent through the steps that replace no agent.
use agentapi.Prelude.{ℕ, suc, ◌≡◌, refl, Bool, true, [], Option, none, String, Text, arith}
use agentapi.Transcript.{RichMessage}
use agentapi.Native.Types.{TurnResult, StopReason, LoginRequired, Settings, Input, Response}
use agentapi.Native.State.{
  LimitStop, RetryWait, Conversation, Level, clear_login, choose, set_settings, set_usage,
  set_limit_stop, set_retry_wait, expire_requests,
}
use agentapi.Native.Limit.{retry, limit_stopped}
use agentapi.Native.Sink.{
  settle, end_turn, turn_completed, with_local_account, set_login, agent_settings, close_request,
  report_error, rich_message, request_opened, session_ref, turn_started, Event, handle, sink,
}
use agentapi.Native.Turn.{
  AgentError, PendingTurn, begin_turn, begin_with, take_back, deliver_turn, steered,
  end_unconfirmed_turn,
}
use agentapi.Native.Continue.{put_back}
use agentapi.Native.Types.{Capabilities}
use agentapi.Native.Respond.{begin_respond, end_respond}
use agentapi.Native.Configure.{take_caps, chosen_with, end_setting_options, end_apply_settings}
use agentapi.Native.Lifecycle.{
  down, start_again, clear_session_usage, forget_turns, mark_started, begin_initial_prompt,
  start_worked,
}

-- The agent's generation, which `f` leaves as it is.
abbrev pub Keeps : (Conversation → Conversation) → Type 0
Keeps f = (c : Conversation) → (f c).generation ≡ c.generation

pub set_limit_stop-Keeps : (ls : Option LimitStop) → Keeps (set_limit_stop ls)
unfolding set_limit_stop
set_limit_stop-Keeps ls c = ground arith

pub set_retry_wait-Keeps : (w : Option RetryWait) → Keeps (set_retry_wait w)
unfolding set_retry_wait
set_retry_wait-Keeps w c = ground arith

pub clear_login-Keeps : Keeps clear_login
unfolding clear_login
clear_login-Keeps c = ground arith

pub choose-Keeps : (s : Settings) → Keeps (choose s)
unfolding choose
choose-Keeps s c = ground arith

pub set_settings-Keeps : (s : Settings) → Keeps (set_settings s)
unfolding set_settings
set_settings-Keeps s c = ground arith

pub set_login-Keeps : (l : LoginRequired) → Keeps (λ c. (set_login l c).0)
unfolding set_login
set_login-Keeps l c = ground arith

pub limit_stopped-Keeps : (r : TurnResult) (now : ℕ) → Keeps (limit_stopped r now)
unfolding limit_stopped
limit_stopped-Keeps r now c = set_limit_stop-Keeps _ c

pub retry-Keeps : (r : TurnResult) (n now : ℕ) → Keeps (λ c. (retry r n now c).0)
unfolding retry set_retry_wait
retry-Keeps r n now c = ground arith

pub settle-Keeps : (r : TurnResult) (n now : ℕ) → Keeps (settle r n now)
unfolding settle
settle-Keeps r n now c = ground (arith, limit_stopped-Keeps r now c, retry-Keeps r (suc n) now c)

pub end_turn-Keeps : (now : ℕ) → Keeps (end_turn now)
unfolding end_turn expire_requests
end_turn-Keeps now c = refl

pub turn_completed-Keeps : (r : TurnResult) (now : ℕ) → Keeps (turn_completed r now)
unfolding turn_completed clear_login
turn_completed-Keeps r now c =
    ground (arith, settle-Keeps r c.retrying now (end_turn now c), end_turn-Keeps now c)

pub agent_settings-Keeps : (s : Settings) → Keeps (agent_settings s)
unfolding agent_settings set_settings choose
agent_settings-Keeps s c = ground arith

pub close_request-Keeps : (id : String) (now : ℕ) → Keeps (close_request id now)
unfolding close_request
close_request-Keeps id now c = ground arith

pub report_error-Keeps : (t : Text) (l : Level) → Keeps (report_error t l)
unfolding report_error
report_error-Keeps t l c = ground arith

pub rich_message-Keeps : (m : RichMessage) (now : ℕ) → Keeps (rich_message m now)
unfolding rich_message
rich_message-Keeps m now c = ground arith

pub handle-Keeps : (e : Event) (now : ℕ) → Keeps (handle e now)
unfolding handle turn_started request_opened session_ref set_usage
handle-Keeps Event.starts_turn now c = refl
handle-Keeps (Event.completes_turn r) now c = turn_completed-Keeps r now c
handle-Keeps (Event.sends_rich m) now c = rich_message-Keeps m now c
handle-Keeps (Event.opens_request r) now c = refl
handle-Keeps (Event.closes_request id) now c = close_request-Keeps id now c
handle-Keeps (Event.needs_login l) now c =
    ground (arith, set_login-Keeps (with_local_account c.cfg l) c)
handle-Keeps (Event.changes_usage u) now c = refl
handle-Keeps (Event.changes_settings s) now c = agent_settings-Keeps s c
handle-Keeps (Event.names_session n) now c = refl
handle-Keeps (Event.refers_session r) now c = refl
handle-Keeps (Event.reports_error t l) now c = report_error-Keeps t l c

pub sink-Keeps : (gen : ℕ) (e : Event) (now : ℕ) → Keeps (sink gen e now)
unfolding sink
sink-Keeps gen e now c = ground (arith, handle-Keeps e now c)

pub begin_turn-Keeps : (input : Input) (now : ℕ) → Keeps (λ c. (begin_turn input now c).0)
unfolding begin_turn begin_with set_limit_stop set_retry_wait
begin_turn-Keeps input now c = ground arith

pub deliver_turn-Keeps :
    (t : PendingTurn) (a : Option AgentError) → Keeps (λ c. (deliver_turn t a c).0)
unfolding deliver_turn take_back
deliver_turn-Keeps t a c = ground arith

pub steered-Keeps : (gen : ℕ) (input : Input) (now : ℕ) → Keeps (steered gen input now)
unfolding steered
steered-Keeps gen input now c = ground arith

pub end_unconfirmed_turn-Keeps : (gen now : ℕ) → Keeps (λ c. (end_unconfirmed_turn gen now c).0)
unfolding end_unconfirmed_turn
end_unconfirmed_turn-Keeps gen now c =
    let result : TurnResult = record {
      stop_reason = StopReason.interrupted;
      error = [];
      resets_at = none;
      api_status = 0;
    } in
    ground (arith, turn_completed-Keeps result now c)

pub put_back-Keeps :
    (l r : Bool) (ls : Option LimitStop) (w : Option RetryWait) (later : ℕ)
    → Keeps (put_back l r ls w later)
unfolding put_back set_limit_stop set_retry_wait
put_back-Keeps l r ls w later c = ground arith

pub begin_initial_prompt-Keeps :
    (prompt : Input) (now : ℕ) → Keeps (λ c. (begin_initial_prompt prompt now c).0)
unfolding begin_initial_prompt
begin_initial_prompt-Keeps prompt now c =
    ground (arith, begin_turn-Keeps prompt now (record c { prompt_sent = true }))

pub mark_started-Keeps : (caps : Capabilities) (s : Settings) → Keeps (mark_started caps s)
unfolding mark_started clear_login set_settings
mark_started-Keeps caps s c = ground arith

pub start_worked-Keeps :
    (gen : ℕ) (caps : Capabilities) (s : Settings) (prompt : Input) (now : ℕ)
    → Keeps (λ c. (start_worked gen caps s prompt now c).0)
unfolding start_worked
start_worked-Keeps gen caps s prompt now c = ground (
  arith,
  begin_initial_prompt-Keeps prompt now (mark_started caps s c),
  mark_started-Keeps caps s c,
)

pub start_again-Keeps : (what : Text) (e : Option Text) → Keeps (start_again what e)
unfolding start_again clear_login
start_again-Keeps what e c = ground arith

pub down-raises : (now : ℕ) (c : Conversation) → (down now c).generation ≡ suc c.generation
unfolding down expire_requests
down-raises now c = refl

pub forget_turns-Keeps : Keeps forget_turns
unfolding forget_turns clear_session_usage set_limit_stop set_retry_wait set_usage
forget_turns-Keeps c = ground arith

pub end_respond-Keeps :
    (id : String) (r : Response) (a : Option AgentError) (now : ℕ) → Keeps (end_respond id r a now)
unfolding end_respond
end_respond-Keeps id r a now c = ground arith

pub begin_respond-Keeps : (id : String) (r : Response) → Keeps (λ c. (begin_respond id r c).0)
unfolding begin_respond
begin_respond-Keeps id r c = ground arith

take_caps-Keeps : (caps : Capabilities) → Keeps (take_caps caps)
unfolding take_caps
take_caps-Keeps caps c = ground arith

pub end_setting_options-Keeps : (gen : ℕ) (s : Settings) → Keeps (end_setting_options gen s)
unfolding end_setting_options
end_setting_options-Keeps gen s c = ground (arith, set_settings-Keeps s c)

pub end_apply_settings-Keeps :
    (gen : ℕ) (s : Settings) (a : Option AgentError) (settings : Settings) (caps : Capabilities)
    → Keeps (λ c. (end_apply_settings gen s a settings caps c).0)
unfolding end_apply_settings
end_apply_settings-Keeps gen s a settings caps c =
    let c' = set_settings settings (take_caps caps c) in
    ground (
      arith,
      choose-Keeps (chosen_with c'.chosen s settings) c',
      set_settings-Keeps settings (take_caps caps c),
      take_caps-Keeps caps c,
    )
