-- ===== src/Native/Turn.antt =====
-- Turns: sending, steering, interrupting and compacting (lib/native/conversation.go).
--
-- Each call of the adapter ends one step; what the adapter answered is an argument of the next.
pub mod Gate
pub mod Logged
use agentapi.Prelude.{
  ℕ, ◌+◌, Bool, true, false, not, ◌&&◌, ◌||◌, List, [], ◌∷◌, Option, none, some, Text, is_empty,
  trim_space, leb, ◌==◌, if◌then◌else◌, is_some, Result, ok, err,
}
use agentapi.Native.Types.{Input, TurnResult, StopReason}
use agentapi.Native.MessageLog.{append_user, remove}
use agentapi.Native.State.{
  LimitStop, RetryWait, Conversation, Output, Status, Adapter, tell, emit_current_status, idle,
  set_limit_stop, set_retry_wait,
}
use agentapi.Native.Limit.{continue_margin}
use agentapi.Native.Sink.{turn_completed}

-- What an adapter's call returns other than success: ErrUnconfirmed, ErrTurnActive,
-- ErrNoActiveTurn, ErrNotStarted, or another error.
pub data AgentError : Type 0 where
  unconfirmed turn_active no_active_turn not_started : AgentError
  failed : Text → AgentError

pub data TurnError : Type 0 where
  empty changing not_started unsupported no_turn busy no_retry_wait : TurnError
  agent : AgentError → TurnError

-- A turn that began and has yet to reach the adapter.
pub record PendingTurn : Type 0 where
  pub adapter : Adapter
  pub gen : ℕ
  pub input : Input
  pub msg : ℕ

unfoldable pub input_for_agent : Conversation → Input → Input
input_for_agent c input = if not c.caps.images then record input { images = [] } else input

-- The step that begins a turn, once its message is not empty and the agent can take it.
unfoldable pub begin_with : Adapter → Text → Input → ℕ → Conversation → Conversation × PendingTurn
unfolding input_for_agent
begin_with adapter text input now c =
    let c₁ =
      set_retry_wait none
        (set_limit_stop none (record c { turn_active = true; unconfirmed_turn = false })) in
    let (log, id) = append_user c₁.messages text now in
    let c₂ : Conversation = record c₁ { messages = log } in
    (
      tell (Output.emit_status Status.changing) (tell (Output.emit_messages log.messages) c₂),
      record { adapter = adapter; gen = c.generation; input = input_for_agent c input; msg = id },
    )

unfoldable pub begin_turn : Input → ℕ → Conversation → Conversation × Result TurnError PendingTurn
begin_turn input now c =
    if is_empty (trim_space input.text)
    then (c, err TurnError.empty)
    else if not c.is_started || c.turn_active || c.compacting
    then (c, err TurnError.changing)
    else elim c.adapter [
      | none ↦ (c, err TurnError.changing)
      | some a ↦ let (c', turn) = begin_with a (trim_space input.text) input now c in (c', ok turn)
    ]

abbrev pub caller_error : AgentError → TurnError
caller_error e = elim e [ AgentError.turn_active ↦ TurnError.changing | e' ↦ TurnError.agent e' ]

-- Takes a turn back that the adapter refused.
unfoldable pub take_back : PendingTurn → Conversation → Conversation
take_back turn c =
    let log = remove c.messages turn.msg in
    emit_current_status
      (tell (Output.emit_messages log.messages) (record c { turn_active = false; messages = log }))

-- The adapter answered the turn.
unfoldable pub deliver_turn :
    PendingTurn → Option AgentError → Conversation → Conversation × Option TurnError
deliver_turn turn none c = (c, none)
deliver_turn turn (some e) c = (
  if not (turn.gen == c.generation) then c else elim e [
    | AgentError.unconfirmed ↦ record c { unconfirmed_turn = c.turn_active }
    | _ ↦ take_back turn c
  ],
  some (caller_error e),
)

-- A whole StartTurn: `meanwhile` is what else happened while the adapter was called.
unfoldable pub start_turn :
    Input
    → ℕ
    → (Conversation → Conversation)
    → Option AgentError
    → Conversation
    → Conversation × Option TurnError
start_turn input now meanwhile answer c =
    let (c', begun) = begin_turn input now c in
    elim begun [ err e ↦ (c', some e) | ok turn ↦ deliver_turn turn answer (meanwhile c') ]

unfoldable pub steer_check : Input → Conversation → Result TurnError Input
unfolding input_for_agent
steer_check input c =
    if is_empty (trim_space input.text)
    then err TurnError.empty
    else if not (is_some c.adapter) || not c.is_started
    then err TurnError.not_started
    else if not c.caps.steer
    then err TurnError.unsupported
    else if not c.turn_active
    then err TurnError.no_turn
    else ok (input_for_agent c input)

-- The agent took the message: it joins the transcript, unless the agent was replaced meanwhile.
unfoldable pub steered : ℕ → Input → ℕ → Conversation → Conversation
steered gen input now c =
    if gen == c.generation
    then (let log = (append_user c.messages (trim_space input.text) now).0 in
        tell (Output.emit_messages log.messages) (record c { messages = log }))
    else c

unfoldable pub steer :
    Input
    → ℕ
    → (Conversation → Conversation)
    → Option AgentError
    → Conversation
    → Conversation × Option TurnError
unfolding steer_check steered
steer input now meanwhile answer c = elim (steer_check input c) [
  | err e ↦ (c, some e)
  | ok _ ↦ elim answer [
    | some e ↦ (meanwhile c, some (TurnError.agent e))
    | none ↦ (steered c.generation input now (meanwhile c), none)
  ]
]

interrupted : TurnResult
interrupted = record {
  stop_reason = StopReason.interrupted;
  error = [];
  resets_at = none;
  api_status = 0;
}

-- Ends the turn of a message that the agent did not confirm, if the agent has no turn.
unfoldable pub end_unconfirmed_turn : ℕ → ℕ → Conversation → Conversation × Bool
unfolding interrupted
end_unconfirmed_turn gen now c =
    if not (gen == c.generation) || not c.unconfirmed_turn
    then (c, false)
    else (turn_completed interrupted now c, true)

unfoldable pub interrupt :
    ℕ
    → (Conversation → Conversation)
    → Option AgentError
    → Conversation
    → Conversation × Option TurnError
interrupt now meanwhile answer c =
    if not (is_some c.adapter)
    then (c, some TurnError.not_started)
    else if not c.caps.interrupt
    then (c, some TurnError.unsupported)
    else if not c.turn_active
    then (c, some TurnError.no_turn)
    else elim answer [
      | none ↦ (meanwhile c, none)
      | some AgentError.no_active_turn ↦
          let (c', ended) = end_unconfirmed_turn c.generation now (meanwhile c) in
          (c', if ended then none else some (TurnError.agent AgentError.no_active_turn))
      | some e ↦ (meanwhile c, some (TurnError.agent e))
    ]

compact_check : Conversation → Option TurnError
compact_check c = elim c.adapter [
  | none ↦ some TurnError.not_started
  | some a ↦
      if not c.is_started
      then some TurnError.not_started
      else if not a.is_compacter || not c.caps.compact
      then some TurnError.unsupported
      else if c.turn_active || c.compacting
      then some TurnError.busy
      else none
]

-- The first step of Compact: no turn starts until the agent is done.
unfoldable pub begin_compact : Conversation → Conversation × Option TurnError
unfolding compact_check
begin_compact c = elim (compact_check c) [
  | some e ↦ (c, some e)
  | none ↦ (emit_current_status (record c { compacting = true }), none)
]

-- The agent answered, whatever it said.
unfoldable pub end_compact : ℕ → Conversation → Conversation
end_compact gen c =
    if gen == c.generation then emit_current_status (record c { compacting = false }) else c
