-- ===== src/Native/Limit.antt =====
-- Turns that a usage limit stopped, and turns that wait to be tried again: lib/native/limit.go and
-- retry.go.
pub mod Reset
use agentapi.Prelude.{
  ℕ, suc, ◌+◌, ◌-◌, Bool, true, false, not, ◌&&◌, ◌||◌, List, [], ◌∷◌, Option, none, some, String,
  str_eq, Text, leb, ltb, ◌==◌, if◌then◌else◌, is_some, length, get_or,
}
use agentapi.Native.Types.{TurnResult, AgentUsage, RateLimit}
use agentapi.Native.State.{
  LimitStop, RetryWait, Conversation, Output, Note, Level, tell, set_limit_stop, set_retry_wait,
}

-- time.Minute.
abbrev pub continue_margin : ℕ
continue_margin = 60_000_000_000

unfoldable pub continue_at_reset : Option LimitStop → Option ℕ
continue_at_reset none = none
continue_at_reset (some l) = elim l.resets_at [
  | none ↦ none
  | some at ↦ some (at + continue_margin)
]

later_reset : Option ℕ → RateLimit → Option ℕ
later_reset latest l =
    if not (str_eq l.status "rejected" || l.full) then latest else elim l.resets_at [
      | none ↦ latest
      | some at ↦ elim latest [ none ↦ some at | some t ↦ if ltb t at then some at else some t ]
    ]

reset_from : Option ℕ → List RateLimit → Option ℕ
reset_from latest [] = latest
reset_from latest (l ∷ ls) = reset_from (later_reset latest l) ls

-- When the limits that the account reached reset: the latest among them.
unfoldable pub reached_limit_reset : AgentUsage → Option ℕ
unfolding reset_from later_reset
reached_limit_reset u = reset_from none u.rate_limits

unfoldable pub limit_stopped : TurnResult → ℕ → Conversation → Conversation
limit_stopped result now c =
    let ls : LimitStop = record {
      message = result.error;
      stopped_at = now;
      resets_at = elim result.resets_at [ none ↦ reached_limit_reset c.usage | some at ↦ some at ];
      continue_at = none;
    } in
    set_limit_stop
      (some (
        if c.cfg.auto_continue || c.continue_again
        then record ls { continue_at = continue_at_reset (some ls) }
        else ls))
      c

pub data LimitError : Type 0 where
  no_limit_stop no_retry_wait : LimitError

unfoldable pub schedule_continue : Option ℕ → Conversation → Conversation × Option LimitError
schedule_continue at c = elim c.limit_stop [
  | none ↦ (c, some LimitError.no_limit_stop)
  | some ls ↦ (set_limit_stop (some (record ls { continue_at = at })) c, none)
]

unfoldable pub dismiss_limit_stop : Conversation → Conversation × Option LimitError
dismiss_limit_stop c = elim c.limit_stop [
  | none ↦ (c, some LimitError.no_limit_stop)
  | some ls ↦ (set_limit_stop none c, none)
]

unfoldable pub cancel_retry : Conversation → Conversation × Option LimitError
cancel_retry c = elim c.retry_wait [
  | none ↦ (c, some LimitError.no_retry_wait)
  | some w ↦ (set_retry_wait none c, none)
]

unfoldable pub limit_holds : Option LimitStop → ℕ → Bool
limit_holds none now = false
limit_holds (some ls) now = elim ls.continue_at [
  | some at ↦ true
  | none ↦ elim ls.resets_at [ none ↦ true | some at ↦ ltb now at ]
]

-- Whether queued messages wait.
unfoldable pub holds_queue : Conversation → ℕ → Bool
unfolding limit_holds
holds_queue c now = elim c.retry_wait [ some w ↦ true | none ↦ limit_holds c.limit_stop now ]

-- Schedules the retry numbered `attempt` (from 1), unless the retries ran out.
unfoldable pub retry : TurnResult → ℕ → ℕ → Conversation → Conversation × Bool
retry result attempt now c =
    let delays = c.cfg.retry_delays in
    let delay = get_or delays (attempt - 1) 0 in
    let waits : RetryWait = record {
      message = result.error;
      api_status =
          if result.api_status == 0 then c.cfg.transient_status result.error else result.api_status;
      stopped_at = now;
      attempt = attempt;
      attempts = length delays;
      retry_at = now + delay;
    } in
    if ltb (length delays) attempt then (c, false) else (
      tell
          (Output.emit_error (Note.tries_again result.error delay attempt (length delays))
            Level.warning)
          (set_retry_wait (some waits) c),
      true,
    )
