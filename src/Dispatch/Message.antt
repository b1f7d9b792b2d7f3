-- ===== src/Dispatch/Message.antt =====
-- A message that a client sends: `createNativeMessageLocked` of lib/httpapi/native.go.
--
-- The handler holds the server's mutex throughout. `during` is what the adapter answers the steer or
-- the interrupt, `answer` what it answers the turn; an adapter does not answer ErrUnsupported to
-- what its capabilities offer.
pub mod Placed
use agentapi.Prelude.{
  ℕ, Bool, true, false, not, ◌&&◌, ◌||◌, List, Option, none, some, Text, ltb, if◌then◌else◌, Result,
  ok, err,
}
use agentapi.Queue.{len}
use agentapi.Native.Types.{Image}
use agentapi.Native.State.{Conversation, idle}
use agentapi.Native.Limit.{holds_queue}
use agentapi.Native.Turn.{AgentError, TurnError, start_turn, steer, interrupt}
use agentapi.Dispatch.{Server, send_input, queue_message}

pub data DispatchMode : Type 0 where
  queue steers interrupts : DispatchMode

-- What the response says.
pub data Accepted : Type 0 where
  sent queued steered : Accepted

pub data Refused : Type 0 where
  no_steer no_interrupt unconfirmed : Refused
  steer_failed interrupt_failed send_failed : TurnError → Refused

-- What the response to a turn is, and whether the message is queued instead.
unfoldable pub after_start : Text → ℕ → Option TurnError → Server → Server × Result Refused Accepted
after_start content now none s = (s, ok Accepted.sent)
after_start content now (some TurnError.changing) s =
    (queue_message content false now s, ok Accepted.queued)
after_start content now (some (TurnError.agent AgentError.unconfirmed)) s =
    (s, err Refused.unconfirmed)
after_start content now (some e) s = (s, err (Refused.send_failed e))

-- The message as usual: queued behind others, or sent as a turn.
unfoldable pub send_usual :
    (Text → List Image)
    → Text
    → ℕ
    → (Conversation → Conversation)
    → Option AgentError
    → Server
    → Server × Result Refused Accepted
send_usual read_images content now meanwhile answer s =
    if (ltb 0 (len s.queue) && not (holds_queue s.conversation now)) || not (idle s.conversation)
    then (queue_message content false now s, ok Accepted.queued)
    else (let (c, refused) =
          start_turn (send_input read_images content) now meanwhile answer s.conversation in
        after_start content now refused (record s { conversation = c }))

-- Whether an error says that the turn, or its agent, ended in the meantime.
abbrev pub turn_over : TurnError → Bool
turn_over e = elim e [
  | TurnError.no_turn ↦ true
  | TurnError.not_started ↦ true
  | TurnError.agent a ↦ elim a [
    | AgentError.no_active_turn ↦ true
    | AgentError.not_started ↦ true
    | _ ↦ false
  ]
  | _ ↦ false
]

abbrev pub is_unsupported : TurnError → Bool
is_unsupported e = elim e [ TurnError.unsupported ↦ true | _ ↦ false ]

unfoldable pub create_message :
    (Text → List Image)
    → Text
    → DispatchMode
    → ℕ
    → (Conversation → Conversation)
    → Option AgentError
    → Option AgentError
    → Server
    → Server × Result Refused Accepted
create_message read_images content DispatchMode.queue now meanwhile during answer s =
    send_usual read_images content now meanwhile answer s
create_message read_images content DispatchMode.steers now meanwhile during answer s =
    let (c, failed) = steer (send_input read_images content) now meanwhile during s.conversation in
    let s' : Server = record s { conversation = c } in
    let usual = send_usual read_images content now meanwhile answer s' in
    if not s.conversation.turn_active
    then send_usual read_images content now meanwhile answer s
    else elim failed [
      | none ↦ (s', ok Accepted.steered)
      | some e ↦
          if is_unsupported e
          then (s', err Refused.no_steer)
          else if turn_over e
          then usual
          else (s', err (Refused.steer_failed e))
    ]
create_message read_images content DispatchMode.interrupts now meanwhile during answer s =
    let (c, failed) = interrupt now meanwhile during s.conversation in
    let s' : Server = record s { conversation = c } in
    let waits : Server × Result Refused Accepted =
      (queue_message content true now s', ok Accepted.queued) in
    if not s.conversation.turn_active
    then send_usual read_images content now meanwhile answer s
    else elim failed [
      | none ↦ waits
      | some e ↦
          if is_unsupported e
          then (s', err Refused.no_interrupt)
          else if turn_over e
          then waits
          else (s', err (Refused.interrupt_failed e))
    ]
