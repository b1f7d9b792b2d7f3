-- ===== src/Native/Turn/Logged.antt =====
-- What a turn leaves in the log, for each answer of the agent (StartTurn of
-- lib/native/conversation.go).
use agentapi.Prelude.{
  ℕ, ◌≡◌, refl, ap, ◌∙◌, Bool, List, ◌∷◌, ◌++◌, ◌==◌, Option, none, some, arith, inl, inr,
  Bool-cases, if◌then◌else◌, ◌≢◌, trim_space,
}
use agentapi.Native.Types.{Input}
use agentapi.Native.MessageLog.{Message}
use agentapi.Native.State.{Conversation, Adapter}
use agentapi.Native.Turn.{
  AgentError, TurnError, begin_turn, begin_with, deliver_turn, start_turn, caller_error,
}
use agentapi.Native.Turn.Gate.{
  CanStart, Meanwhile, user_message, start_turn-delivers, refused_turn_taken_back,
}

-- The log after a turn: with the message `m`, unless the agent refused it and is the same still.
unfoldable pub log_after :
    Option AgentError
    → Bool
    → (before : List Message) → Message
    → (news : List Message) → List Message
log_after none same before m news = before ++ m ∷ news
log_after (some AgentError.unconfirmed) same before m news = before ++ m ∷ news
log_after (some e) same before m news = if same then before ++ news else before ++ m ∷ news

unfoldable pub refused_with : Option AgentError → Option TurnError
refused_with none = none
refused_with (some e) = some (caller_error e)

-- The agent is the same when it answers as when the turn began.
abbrev pub same_agent : Conversation → Conversation → Bool
same_agent c d = c.generation == d.generation

pub refused-log :
    (e : AgentError) (input : Input) (now : ℕ) (f : Conversation → Conversation) (a : Adapter)
    (c : Conversation) (before news : List Message)
    → CanStart input a c
    → e ≢ AgentError.unconfirmed
    → Meanwhile input now c before news (f (begin_turn input now c).0)
    → let d = f (begin_turn input now c).0 in
      let m = user_message input now c in
      ((start_turn input now f (some e) c).0.messages.messages
        ≡ (if same_agent c d then before ++ news else before ++ m ∷ news))
      × ((start_turn input now f (some e) c).1 ≡ some (caller_error e))
refused-log e input now f a c before news can ne other =
    let d = f (begin_turn input now c).0 in
    let (_, said, left) = refused_turn_taken_back input now f e a c before news can ne other in
    elim (Bool-cases (same_agent c d)) [
      | inl same ↦ (rw same ((rw same at left).0), said)
      | inr gone ↦ (rw gone (ap (λ k. k.messages.messages) (rw gone at left) ∙ other.0), said)
    ]

unconfirmed-log :
    (input : Input) (now : ℕ) (a : Adapter) (c d : Conversation)
    → let turn = (begin_with a (trim_space input.text) input now c).1 in
      let (c', refused) = deliver_turn turn (some AgentError.unconfirmed) d in
      (c'.messages ≡ d.messages) × (refused ≡ some (TurnError.agent AgentError.unconfirmed))
unfolding deliver_turn
unconfirmed-log input now a c d = ground arith

pub start_turn-log :
    (answer : Option AgentError) (input : Input) (now : ℕ) (f : Conversation → Conversation)
    (a : Adapter) (c : Conversation) (before news : List Message)
    → CanStart input a c
    → Meanwhile input now c before news (f (begin_turn input now c).0)
    → let d = f (begin_turn input now c).0 in
      ((start_turn input now f answer c).0.messages.messages
        ≡ log_after answer (same_agent c d) before (user_message input now c) news)
      × ((start_turn input now f answer c).1 ≡ refused_with answer)
unfolding log_after refused_with deliver_turn
start_turn-log none input now f a c before news can other =
    rw (start_turn-delivers input now f none a c can) (other.0, refl)
start_turn-log (some AgentError.unconfirmed) input now f a c before news can other =
    let (kept, said) = unconfirmed-log input now a c (f (begin_turn input now c).0) in
    rw (start_turn-delivers input now f (some AgentError.unconfirmed) a c can)
      (ap (λ t. t.messages) kept ∙ other.0, said)
start_turn-log (some AgentError.turn_active) input now f a c before news can other =
    refused-log AgentError.turn_active input now f a c before news can (ground arith) other
start_turn-log (some AgentError.no_active_turn) input now f a c before news can other =
    refused-log AgentError.no_active_turn input now f a c before news can (ground arith) other
start_turn-log (some AgentError.not_started) input now f a c before news can other =
    refused-log AgentError.not_started input now f a c before news can (ground arith) other
start_turn-log (some (AgentError.failed x)) input now f a c before news can other =
    refused-log (AgentError.failed x) input now f a c before news can (ground arith) other
