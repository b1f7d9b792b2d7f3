-- ===== src/Dispatch/Continuation/First.antt =====
-- A tick at which a continuation or a retry is due: beforeQueue of lib/httpapi/queue.go.
use agentapi.Prelude.{ℕ, ◌≡◌, true, ◌||◌, some}
use agentapi.Native.State.{Conversation, Adapter, idle}
use agentapi.Native.Turn.{begin_turn}
use agentapi.Native.Continue.{continue_prompt, mark, limit_due, retry_due}

-- A retry or a continuation is due, or both are, and the agent can take it.
abbrev pub Due : ℕ → Adapter → Conversation → Type 0
Due now a c =
    (idle c ≡ true)
    × (c.adapter ≡ some a)
    × ((limit_due c.limit_stop now || retry_due c.retry_wait now) ≡ true)

-- What is marked before the turn begins.
abbrev pub due_marked : ℕ → Conversation → Conversation
due_marked now c = mark (limit_due c.limit_stop now) (retry_due c.retry_wait now) c

-- The conversation once that turn began.
abbrev pub due_begun : ℕ → Conversation → Conversation
due_begun now c = (begin_turn continue_prompt now (due_marked now c)).0
