-- ===== src/Examples/Native.antt =====
-- Examples of the theorems about the conversation of lib/native.
use agentapi.Prelude.{
  ℕ, ◌≡◌, refl, true, false, [], ◌∷◌, ◌+◌, ◌++◌, ◌||◌, not, ltb, if◌then◌else◌, none, some, arith,
  codes, string_eq, is_empty, trim_space,
}
use agentapi.Native.Types.{TurnResult, StopReason, RateLimit, AgentUsage}
use agentapi.Native.MessageLog.{append_user, index}
use agentapi.Native.Turn.Logged.{same_agent}
use agentapi.Native.State.{idle, LimitStop, RetryWait, Conversation, set_limit_stop, set_retry_wait}
use agentapi.Native.Limit.{limit_stopped, continue_at_reset, holds_queue, continue_margin}
use agentapi.Native.Limit.Reset.{Resets, limit_stopped-Resets}
use agentapi.Native.Sink.{turn_completed}
use agentapi.Native.Turn.{AgentError, begin_turn, begin_with, caller_error}
use agentapi.Native.Turn.Gate.{Meanwhile, user_message}
use agentapi.Native.Continue.{continue_if_due, continue_prompt, limit_due, retry_due, mark}
use agentapi.Native.Continue.Chain.{RetryDue, retry_begun, next_wait, retry_chain}
use agentapi.Native.Continue.Refused.{ContinuationDue, marked, refused_continuation_waits}
use agentapi.Examples.{waiting, an_adapter, test_input, some_messages, no_usage}

has_text : is_empty (trim_space test_input.text) ≡ false
unfolding trim_space
has_text = refl

-- The agent ends the turn while it is called.
abbrev turn_ends : Conversation → Conversation
turn_ends d = record d { turn_active = false }

abbrev overloaded : TurnResult
overloaded = record {
  stop_reason = StopReason.transient;
  error = codes "overloaded";
  resets_at = none;
  api_status = 529;
}

abbrev first_retry : RetryWait
first_retry = record {
  message = codes "overloaded";
  api_status = 529;
  stopped_at = 30;
  attempt = 1;
  attempts = 2;
  retry_at = 35;
}

abbrev retrying_later : Conversation
retrying_later = record waiting { retry_wait = some first_retry }

first_retry-due : RetryDue first_retry 40 an_adapter retrying_later
unfolding idle limit_due
first_retry-due = (refl, omega arith, refl, refl, refl)

retry_chain_example :
    let start = retry_begun first_retry 40 retrying_later in
    let (c', sent, refused) = continue_if_due 40 (λ d. d) none retrying_later in
    let next = (turn_completed overloaded 60 c').retry_wait in
    (sent ≡ true)
    × (refused ≡ none)
    × (c' ≡ start)
    × (start.turn_active ≡ true)
    × (start.messages ≡ (append_user some_messages (trim_space continue_prompt.text) 40).0)
    × (if ltb 1 2 then next ≡ some (next_wait c' overloaded 1 60) else next ≡ none)
retry_chain_example =
    retry_chain 40 60 (λ d. d) first_retry overloaded an_adapter retrying_later first_retry-due refl
      refl refl refl

abbrev a_limit_stop : LimitStop
a_limit_stop = record {
  message = codes "limit";
  stopped_at = 5;
  resets_at = some 20;
  continue_at = some 30;
}

abbrev stopped : Conversation
stopped = record waiting { limit_stop = some a_limit_stop }

continuation_due : ContinuationDue a_limit_stop 30 40 an_adapter stopped
unfolding idle
continuation_due = (refl, refl, omega arith, refl, refl)

continuation_alone :
    let d = (begin_turn continue_prompt 40 (marked 40 stopped)).0 in
    Meanwhile continue_prompt 40 (marked 40 stopped) some_messages.messages [] d
    × (d.limit_stop ≡ none)
    × ((same_agent (marked 40 stopped) d || not d.turn_active) ≡ true)
unfolding begin_turn begin_with append_user set_limit_stop set_retry_wait trim_space index mark
    retry_due
continuation_alone = ((refl, refl), refl, refl)

refused_continuation_waits_example :
    let d = (begin_turn continue_prompt 40 (marked 40 stopped)).0 in
    let sent = user_message continue_prompt 40 (marked 40 stopped) in
    let (c', went, refused) = continue_if_due 40 (λ x. x) (some AgentError.turn_active) stopped in
    (went ≡ false)
    × (refused ≡ some (caller_error AgentError.turn_active))
    × (c'.limit_stop ≡ some (record a_limit_stop { continue_at = some (40 + continue_margin) }))
    × (c'.messages.messages ≡ (
        if same_agent (marked 40 stopped) d
        then some_messages.messages ++ []
        else some_messages.messages ++ sent ∷ []))
    × (c'.turn_active ≡ false)
    × ((t : ℕ) → holds_queue c' t ≡ true)
refused_continuation_waits_example =
    refused_continuation_waits a_limit_stop 30 40 (λ x. x) AgentError.turn_active an_adapter stopped
      some_messages.messages [] continuation_due (ground arith) continuation_alone.0
      continuation_alone.1 continuation_alone.2

abbrev weekly : RateLimit
weekly = record { id = "weekly"; label = "Weekly"; full = true; resets_at = some 70; status = "" }

abbrev hourly : RateLimit
hourly = record {
  id = "hourly";
  label = "5h";
  full = false;
  resets_at = some 50;
  status = "rejected";
}

abbrev both_reached : AgentUsage
both_reached = record no_usage { rate_limits = weekly ∷ hourly ∷ [] }

abbrev limit_result : TurnResult
limit_result = record {
  stop_reason = StopReason.limited;
  error = codes "limit";
  resets_at = none;
  api_status = 0;
}

abbrev at_limits : Conversation
at_limits = record waiting { usage = both_reached }

limit_stopped-Resets_example :
    (ls : LimitStop) × ((limit_stopped limit_result 60 at_limits).limit_stop ≡ some ls)
    × (ls.message ≡ codes "limit")
    × (ls.stopped_at ≡ 60)
    × Resets none both_reached ls.resets_at
    × (ls.continue_at ≡ (if false || false then continue_at_reset (some ls) else none))
limit_stopped-Resets_example = limit_stopped-Resets limit_result 60 at_limits
