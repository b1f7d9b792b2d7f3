-- ===== src/Native/Steps.antt =====
-- The steps of a conversation, in any order: each method of lib/native's Conversation that changes
-- it, cut where it calls the adapter, and each event that an adapter reports. `marks_retry` is what
-- RetryNow writes before its turn and after a refusal, `learns_options` the end of SettingOptions.
pub mod Keeps
pub mod Generations
pub mod Logs
pub mod Ordered
use agentapi.Prelude.{ℕ, Bool, List, [], ◌∷◌, Option, String, Text}
use agentapi.Native.Types.{Capabilities, Settings, Input, Resume, LoginRequired, Response}
use agentapi.Native.MessageLog.{Message}
use agentapi.Native.State.{LimitStop, RetryWait, Conversation, Adapter, Relaunch}
use agentapi.Native.Limit.{schedule_continue, dismiss_limit_stop, cancel_retry}
use agentapi.Native.Sink.{Event, sink}
use agentapi.Native.Turn.{
  AgentError, PendingTurn, begin_turn, deliver_turn, steered, end_unconfirmed_turn, begin_compact,
  end_compact,
}
use agentapi.Native.Continue.{mark, put_back}
use agentapi.Native.Respond.{begin_respond, end_respond}
use agentapi.Native.Configure.{end_setting_options, end_apply_settings}
use agentapi.Native.Lifecycle.{
  start, close, created, start_worked, start_failed, login_missing, exited, relaunch_due,
  begin_restart, begin_switch, start_replacement, Replacement, retry_login,
}

-- Each step has the generation that its caller noted, where it has one.
pub data Step : Type 0 where
  reports : ℕ → Event → ℕ → Step
  begins_turn : Input → ℕ → Step
  answers_turn : PendingTurn → Option AgentError → Step
  steers : ℕ → Input → ℕ → Step
  ends_unconfirmed : ℕ → ℕ → Step
  begins_compact : Step
  ends_compact : ℕ → Step
  schedules : Option ℕ → Step
  dismisses cancels : Step
  marks : Bool → Bool → Step
  puts_back : Bool → Bool → Option LimitStop → Option RetryWait → ℕ → Step
  creates : ℕ → Adapter → Step
  starts : ℕ → Capabilities → Settings → Input → ℕ → Step
  fails_start : ℕ → Text → Bool → ℕ → Step
  lacks_login : ℕ → Resume → LoginRequired → Step
  exits : ℕ → ℕ → Option Text → ℕ → Step
  wakes : Relaunch → Step
  restarts : ℕ → Step
  switches : Resume → List Message → ℕ → Step
  starts_replacement : Replacement → Step
  begins_answer : String → Response → Step
  ends_answer : String → Response → Option AgentError → ℕ → Step
  learns_options : ℕ → Settings → Step
  applies : ℕ → Settings → Option AgentError → Settings → Capabilities → Step
  marks_retry : ℕ → Step
  launches : Step
  closes : ℕ → Step
  retries_login : ℕ → Step

unfoldable pub step : Conversation → Step → Conversation
step c (Step.reports gen e now) = sink gen e now c
step c (Step.begins_turn input now) = (begin_turn input now c).0
step c (Step.answers_turn turn answer) = (deliver_turn turn answer c).0
step c (Step.steers gen input now) = steered gen input now c
step c (Step.ends_unconfirmed gen now) = (end_unconfirmed_turn gen now c).0
step c Step.begins_compact = (begin_compact c).0
step c (Step.ends_compact gen) = end_compact gen c
step c (Step.schedules at) = (schedule_continue at c).0
step c Step.dismisses = (dismiss_limit_stop c).0
step c Step.cancels = (cancel_retry c).0
step c (Step.marks limited retried) = mark limited retried c
step c (Step.puts_back limited retried ls w later) = put_back limited retried ls w later c
step c (Step.creates gen a) = created gen a c
step c (Step.starts gen caps settings prompt now) = (start_worked gen caps settings prompt now c).0
step c (Step.fails_start gen e again now) = start_failed gen e again now c
step c (Step.lacks_login gen resume l) = login_missing gen resume l c
step c (Step.exits gen started_at e now) = exited gen started_at e now c
step c (Step.wakes r) = relaunch_due r c
step c (Step.restarts now) = (begin_restart now c).0
step c (Step.switches resume messages now) = (begin_switch resume messages now c).0
step c (Step.starts_replacement r) = start_replacement r c
step c (Step.begins_answer id response) = (begin_respond id response c).0
step c (Step.ends_answer id response answer now) = end_respond id response answer now c
step c (Step.learns_options gen settings) = end_setting_options gen settings c
step c (Step.applies gen s answer settings caps) =
    (end_apply_settings gen s answer settings caps c).0
step c (Step.marks_retry n) = record c { retrying = n }
step c Step.launches = start c
step c (Step.closes now) = (close now c).0
step c (Step.retries_login now) = (retry_login now c).0

unfoldable pub run : Conversation → List Step → Conversation
run c [] = c
run c (s ∷ ss) = run (step c s) ss
