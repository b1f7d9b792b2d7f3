-- ===== src/Dispatch/Continuation.antt =====
-- The endpoints of stopped turns and retries, and what a tick does before the queue:
-- lib/httpapi/limit.go, retry.go and beforeQueue of queue.go.
pub mod First
use agentapi.Prelude.{
  ℕ, Bool, true, false, not, ◌||◌, List, [], ◌∷◌, Option, none, some, Text, if◌then◌else◌, is_some,
}
use agentapi.Native.Types.{Image}
use agentapi.Native.State.{LimitStop, Conversation}
use agentapi.Native.Limit.{
  continue_at_reset, schedule_continue, dismiss_limit_stop, cancel_retry, LimitError,
}
use agentapi.Native.Turn.{AgentError, TurnError, start_turn}
use agentapi.Native.Continue.{continue_prompt, continue_if_due, retry_now}
use agentapi.Dispatch.{Server, continue_failed, dispatch}

pub data ContinueAt : Type 0 where
  now reset : ContinueAt

-- Why a continuation or a retry is refused.
pub data ContinueError : Type 0 where
  no_stop no_retry no_reset_time : ContinueError
  not_sent : TurnError → ContinueError

sent_error : Option TurnError → Option ContinueError
sent_error none = none
sent_error (some e) = some (ContinueError.not_sent e)

stop_error : Option LimitError → Option ContinueError
stop_error none = none
stop_error (some LimitError.no_limit_stop) = some ContinueError.no_stop
stop_error (some LimitError.no_retry_wait) = some ContinueError.no_retry

unfoldable pub continue_limited :
    ContinueAt
    → ℕ
    → (Conversation → Conversation)
    → Option AgentError
    → Server
    → Server × Option ContinueError
unfolding sent_error stop_error
continue_limited at time meanwhile answer s = elim s.conversation.limit_stop [
  | none ↦ (s, some ContinueError.no_stop)
  | some ls ↦ elim at [
    | ContinueAt.reset ↦ elim (continue_at_reset (some ls)) [
      | none ↦ (s, some ContinueError.no_reset_time)
      | some t ↦
          let (c, e) = schedule_continue (some t) s.conversation in
          (record s { conversation = c }, stop_error e)
    ]
    | ContinueAt.now ↦
        let (c, e) = start_turn continue_prompt time meanwhile answer s.conversation in
        (record s { conversation = c }, sent_error e)
  ]
]

unfoldable pub cancel_continue : Server → Server × Option ContinueError
unfolding stop_error
cancel_continue s =
    let (c, e) = schedule_continue none s.conversation in
    (record s { conversation = c }, stop_error e)

unfoldable pub dismiss_stop : Server → Server × Option ContinueError
unfolding stop_error
dismiss_stop s =
    let (c, e) = dismiss_limit_stop s.conversation in (record s { conversation = c }, stop_error e)

unfoldable pub retry_at_once :
    ℕ → (Conversation → Conversation) → Option AgentError → Server → Server × Option ContinueError
unfolding sent_error
retry_at_once time meanwhile answer s =
    let (c, e) = retry_now time meanwhile answer s.conversation in
    (record s { conversation = c }, sent_error e)

unfoldable pub forget_retry : Server → Server × Option ContinueError
unfolding stop_error
forget_retry s =
    let (c, e) = cancel_retry s.conversation in (record s { conversation = c }, stop_error e)

-- The continuation or the retry that is due, and the error event of one that failed.
unfoldable pub continue_due :
    ℕ → (Conversation → Conversation) → Option AgentError → Server → Server
continue_due time meanwhile answer s =
    let (c, sent, refused) = continue_if_due time meanwhile answer s.conversation in
    let s' : Server = record s { conversation = c } in
    elim refused [
      | none ↦ s'
      | some TurnError.changing ↦ s'
      | some e ↦ record s' {
        errors = continue_failed (is_some s.conversation.retry_wait) e ∷ s.errors;
      }
    ]

unfoldable pub before_queue :
    ℕ → (Conversation → Conversation) → Option AgentError → Server → Server
before_queue time meanwhile answer s =
    if s.restarting || s.updating || s.stopping then s else continue_due time meanwhile answer s

-- A whole tick: `later` is when the queue is looked at.
unfoldable pub tick :
    (Text → List Image)
    → (time later : ℕ) → (meanwhile after : Conversation → Conversation)
    → (answer then_ : Option AgentError) → Server
    → Server
tick read_images time later meanwhile after answer then_ s =
    dispatch read_images later after then_ (before_queue time meanwhile answer s)
