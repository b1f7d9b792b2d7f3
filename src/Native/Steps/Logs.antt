-- ===== src/Native/Steps/Logs.antt =====
-- What the agent's events and its turns do to the Ids of the log.
use agentapi.Prelude.{ℕ, suc, ◌≡◌, Bool, [], Option, none, String, Text, arith}
use agentapi.Transcript.{RichMessage}
use agentapi.Native.Types.{
  TurnResult, StopReason, LoginRequired, Settings, Input, Response, Capabilities,
}
use agentapi.Native.State.{
  LimitStop, RetryWait, Conversation, Level, clear_login, choose, set_settings, set_usage,
  set_limit_stop, set_retry_wait, expire_requests,
}
use agentapi.Native.Limit.{retry, limit_stopped}
use agentapi.Native.Sink.{
  settle, end_turn, turn_completed, with_local_account, set_login, agent_settings, close_request,
  report_error, rich_message, request_opened, session_ref, turn_started, Event, handle, sink,
}
use agentapi.Native.Turn.{
  AgentError, PendingTurn, begin_turn, begin_with, take_back, deliver_turn, steered,
  end_unconfirmed_turn,
}
use agentapi.Native.Respond.{begin_respond, end_respond}
use agentapi.Native.Configure.{take_caps, chosen_with, end_setting_options, end_apply_settings}
use agentapi.Native.Continue.{put_back}
use agentapi.Native.MessageLog.{end_agent_message}
use agentapi.Prelude.{trim_space, Option-cases, inl, inr}
use agentapi.Native.Turn.Gate.{begin_with-Began}
use agentapi.Native.State.{Adapter}
use agentapi.Native.MessageLog.Ids.{
  IsOrdered, append_user-IsOrdered, remove-IsOrdered, add_rich-IsOrdered,
}

-- The messages of the log, which `f` leaves as they are.
abbrev pub Still : (Conversation → Conversation) → Type 0
Still f = (c : Conversation) → (f c).messages ≡ c.messages

-- The log's Ids, which `f` keeps rising.
abbrev pub Orders : (Conversation → Conversation) → Type 0
Orders f = (c : Conversation) → IsOrdered c.messages → IsOrdered (f c).messages

pub limit_stopped-Still : (r : TurnResult) (now : ℕ) → Still (limit_stopped r now)
unfolding limit_stopped set_limit_stop
limit_stopped-Still r now c = ground arith

pub retry-Still : (r : TurnResult) (n now : ℕ) → Still (λ c. (retry r n now c).0)
unfolding retry set_retry_wait
retry-Still r n now c = ground arith

pub settle-Still : (r : TurnResult) (n now : ℕ) → Still (settle r n now)
unfolding settle
settle-Still r n now c = ground (arith, limit_stopped-Still r now c, retry-Still r (suc n) now c)

pub end_turn-Orders : (now : ℕ) → Orders (end_turn now)
unfolding end_turn expire_requests end_agent_message
end_turn-Orders now c h = h

pub turn_completed-Still :
    (r : TurnResult) (now : ℕ) (c : Conversation)
    → (turn_completed r now c).messages ≡ (end_turn now c).messages
unfolding turn_completed clear_login
turn_completed-Still r now c = ground (arith, settle-Still r c.retrying now (end_turn now c))

pub turn_completed-Orders : (r : TurnResult) (now : ℕ) → Orders (turn_completed r now)
turn_completed-Orders r now c h = rw (turn_completed-Still r now c) (end_turn-Orders now c h)

pub agent_settings-Still : (s : Settings) → Still (agent_settings s)
unfolding agent_settings set_settings choose
agent_settings-Still s c = ground arith

pub close_request-Still : (id : String) (now : ℕ) → Still (close_request id now)
unfolding close_request
close_request-Still id now c = ground arith

pub report_error-Still : (t : Text) (l : Level) → Still (report_error t l)
unfolding report_error
report_error-Still t l c = ground arith

pub set_login-Still : (l : LoginRequired) → Still (λ c. (set_login l c).0)
unfolding set_login
set_login-Still l c = ground arith

pub rich_message-Orders : (m : RichMessage) (now : ℕ) → Orders (rich_message m now)
unfolding rich_message
rich_message-Orders m now c h = ground (arith, h, add_rich-IsOrdered c.messages m now h)

pub handle-Orders : (e : Event) (now : ℕ) → Orders (handle e now)
unfolding handle turn_started request_opened session_ref set_usage
handle-Orders Event.starts_turn now c h = h
handle-Orders (Event.completes_turn r) now c h = turn_completed-Orders r now c h
handle-Orders (Event.sends_rich m) now c h = rich_message-Orders m now c h
handle-Orders (Event.opens_request r) now c h = h
handle-Orders (Event.closes_request id) now c h = rw (close_request-Still id now c) h
handle-Orders (Event.needs_login l) now c h =
    ground (arith, h, set_login-Still (with_local_account c.cfg l) c)
handle-Orders (Event.changes_usage u) now c h = h
handle-Orders (Event.changes_settings s) now c h = rw (agent_settings-Still s c) h
handle-Orders (Event.names_session n) now c h = h
handle-Orders (Event.refers_session r) now c h = h
handle-Orders (Event.reports_error t l) now c h = rw (report_error-Still t l c) h

pub sink-Orders : (gen : ℕ) (e : Event) (now : ℕ) → Orders (sink gen e now)
unfolding sink
sink-Orders gen e now c h = ground (arith, h, handle-Orders e now c h)

pub begin_with-Orders :
    (a : Adapter) (input : Input) (now : ℕ) (c : Conversation)
    → IsOrdered c.messages
    → IsOrdered (begin_with a (trim_space input.text) input now c).0.messages
begin_with-Orders a input now c h =
    rw ((begin_with-Began input now a c).log)
      (append_user-IsOrdered c.messages (trim_space input.text) now h)

pub begin_turn-Orders : (input : Input) (now : ℕ) → Orders (λ c. (begin_turn input now c).0)
unfolding begin_turn
begin_turn-Orders input now c h = elim (Option-cases c.adapter) [
  | inl e ↦ ground (arith, h, e)
  | inr (a, e) ↦ ground (arith, h, e, begin_with-Orders a input now c h)
]

pub take_back-Orders : (t : PendingTurn) → Orders (take_back t)
unfolding take_back
take_back-Orders t c h = remove-IsOrdered c.messages t.msg h

pub deliver_turn-Orders :
    (t : PendingTurn) (a : Option AgentError) → Orders (λ c. (deliver_turn t a c).0)
unfolding deliver_turn
deliver_turn-Orders t a c h = ground (arith, h, take_back-Orders t c h)

pub steered-Orders : (gen : ℕ) (input : Input) (now : ℕ) → Orders (steered gen input now)
unfolding steered
steered-Orders gen input now c h =
    ground (arith, h, append_user-IsOrdered c.messages (trim_space input.text) now h)

pub end_unconfirmed_turn-Orders : (gen now : ℕ) → Orders (λ c. (end_unconfirmed_turn gen now c).0)
unfolding end_unconfirmed_turn
end_unconfirmed_turn-Orders gen now c h =
    let result : TurnResult = record {
      stop_reason = StopReason.interrupted;
      error = [];
      resets_at = none;
      api_status = 0;
    } in
    ground (arith, h, turn_completed-Orders result now c h)

pub put_back-Still :
    (l r : Bool) (ls : Option LimitStop) (w : Option RetryWait) (later : ℕ)
    → Still (put_back l r ls w later)
unfolding put_back set_limit_stop set_retry_wait
put_back-Still l r ls w later c = ground arith

pub end_respond-Still :
    (id : String) (r : Response) (a : Option AgentError) (now : ℕ) → Still (end_respond id r a now)
unfolding end_respond
end_respond-Still id r a now c = ground arith

pub begin_respond-Still : (id : String) (r : Response) → Still (λ c. (begin_respond id r c).0)
unfolding begin_respond
begin_respond-Still id r c = ground arith

take_caps-Still : (caps : Capabilities) → Still (take_caps caps)
unfolding take_caps
take_caps-Still caps c = ground arith

set_settings-Still : (s : Settings) → Still (set_settings s)
unfolding set_settings
set_settings-Still s c = ground arith

choose-Still : (s : Settings) → Still (choose s)
unfolding choose
choose-Still s c = ground arith

pub end_setting_options-Still : (gen : ℕ) (s : Settings) → Still (end_setting_options gen s)
unfolding end_setting_options
end_setting_options-Still gen s c = ground (arith, set_settings-Still s c)

pub end_apply_settings-Still :
    (gen : ℕ) (s : Settings) (a : Option AgentError) (settings : Settings) (caps : Capabilities)
    → Still (λ c. (end_apply_settings gen s a settings caps c).0)
unfolding end_apply_settings
end_apply_settings-Still gen s a settings caps c =
    let c' = set_settings settings (take_caps caps c) in
    ground (
      arith,
      choose-Still (chosen_with c'.chosen s settings) c',
      set_settings-Still settings (take_caps caps c),
      take_caps-Still caps c,
    )
