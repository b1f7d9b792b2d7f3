-- ===== src/Native/Continue.antt =====
-- The turns that the conversation starts by itself: the continuation of a turn that a usage limit
-- stopped, and the retry of a failed one (lib/native/limit.go and retry.go).
pub mod Chain
pub mod Refused
use agentapi.Prelude.{
  ℕ, ◌+◌, Bool, true, false, not, ◌&&◌, ◌||◌, [], Option, none, some, Text, codes, leb,
  if◌then◌else◌, is_some,
}
use agentapi.Native.Types.{Input}
use agentapi.Native.State.{LimitStop, RetryWait, Conversation, idle, set_limit_stop, set_retry_wait}
use agentapi.Native.Limit.{continue_margin}
use agentapi.Native.Turn.{AgentError, TurnError, start_turn}

-- ContinuePrompt, which names no file.
abbrev pub continue_prompt : Input
continue_prompt = record { text = codes "Continue from where you left off."; images = [] }

unfoldable pub limit_due : Option LimitStop → ℕ → Bool
limit_due none now = false
limit_due (some ls) now = elim ls.continue_at [ none ↦ false | some at ↦ leb at now ]

unfoldable pub retry_due : Option RetryWait → ℕ → Bool
retry_due none now = false
retry_due (some w) now = leb w.retry_at now

-- What is written before the turn is started: whether it is a continuation, or which retry it is.
unfoldable pub mark : Bool → Bool → Conversation → Conversation
mark limited retried c =
    let c' : Conversation = if limited then record c { continue_again = true } else c in
    if retried
    then record c' { retrying = elim c.retry_wait [ none ↦ c'.retrying | some w ↦ w.attempt ] }
    else c'

put_back_limit : Option LimitStop → ℕ → Conversation → Conversation
put_back_limit none later c = c
put_back_limit (some ls) later c = set_limit_stop (some (record ls { continue_at = some later })) c

put_back_retry : Option RetryWait → ℕ → Conversation → Conversation
put_back_retry none later c = c
put_back_retry (some w) later c = set_retry_wait (some (record w { retry_at = later })) c

-- The turn was refused: what waited before waits again, for a while.
unfoldable pub put_back :
    Bool → Bool → Option LimitStop → Option RetryWait → ℕ → Conversation → Conversation
unfolding put_back_limit put_back_retry
put_back limited retried ls w later c =
    let c' : Conversation = record c { continue_again = false; retrying = 0 } in
    if c.turn_active
    then c'
    else if limited && not (is_some c.limit_stop)
    then put_back_limit ls later c'
    else if retried && not (is_some c.retry_wait)
    then put_back_retry w later c'
    else c'

-- What StartTurn returned.
unfoldable pub after_sending :
    Bool
    → Bool
    → Option LimitStop
    → Option RetryWait
    → ℕ
    → Conversation × Option TurnError
    → Conversation × Bool × Option TurnError
after_sending limited retried ls w later (c, none) = (c, true, none)
after_sending limited retried ls w later (c, some e) =
    (put_back limited retried ls w later c, false, some e)

unfoldable pub continue_if_due :
    ℕ
    → (Conversation → Conversation)
    → Option AgentError
    → Conversation
    → Conversation × Bool × Option TurnError
continue_if_due now meanwhile answer c =
    let limited = idle c && limit_due c.limit_stop now in
    let retried = idle c && retry_due c.retry_wait now in
    if not limited && not retried
    then (c, false, none)
    else after_sending limited retried c.limit_stop c.retry_wait (now + continue_margin)
        (start_turn continue_prompt now meanwhile answer (mark limited retried c))

unfoldable pub retry_now :
    ℕ
    → (Conversation → Conversation)
    → Option AgentError
    → Conversation
    → Conversation × Option TurnError
retry_now now meanwhile answer c = elim c.retry_wait [
  | none ↦ (c, some TurnError.no_retry_wait)
  | some w ↦
      let (c', refused) =
        start_turn continue_prompt now meanwhile answer (record c { retrying = w.attempt }) in
      (elim refused [ none ↦ c' | some e ↦ record c' { retrying = 0 } ], refused)
]
