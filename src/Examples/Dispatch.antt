-- ===== src/Examples/Dispatch.antt =====
-- Examples of the theorems about the dispatch of queued messages.
use agentapi.Prelude.{ℕ, ◌≡◌, ◌<◌, refl, List, [], ◌∷◌, none, some, Text, codes, arith, trim_space}
use agentapi.Native.Types.{Image}
use agentapi.Native.State.{idle}
use agentapi.Native.Limit.{holds_queue, limit_holds}
use agentapi.Native.Turn.{AgentError, TurnError, begin_turn, begin_with}
use agentapi.Dispatch.{Server, dispatch, after_attempts}
use agentapi.Dispatch.Attempts.{fail_times, dropped_after_five}
use agentapi.Dispatch.Delivery.{Ready, AfterTick, by_answer, dispatch_once}
use agentapi.Queue.{len}
use agentapi.Native.Turn.Gate.{CanStart, Meanwhile, IsCalledWith, user_message}
use agentapi.Native.Turn.Logged.{same_agent}
use agentapi.Native.MessageLog.{append_user, index}
use agentapi.Dispatch.{send_input}
use agentapi.Dispatch.Message.{DispatchMode, create_message}
use agentapi.Dispatch.Message.Placed.{AfterSending, sent_to_one_place}
use agentapi.Prelude.{false, ltb, ◌&&◌, ◌||◌, not, trim_space}
use agentapi.Native.State.{RetryWait, Conversation, set_limit_stop, set_retry_wait}
use agentapi.Examples.{
  waiting, two_messages, fix_it, a_server, first_message, second_message, an_adapter, some_messages,
}

abbrev no_images : Text → List Image
no_images text = []

abbrev unreachable : TurnError
unreachable = TurnError.agent (AgentError.failed (codes "unreachable"))

dropped_after_five_example :
    ((n : ℕ)
      → n < 5
      → (fail_times n first_message unreachable a_server).queue.messages
        ≡ first_message ∷ second_message ∷ [])
    × ((fail_times 5 first_message unreachable a_server).queue.messages ≡ second_message ∷ [])
    × ((fail_times 5 first_message unreachable a_server).errors
        ≡ after_attempts first_message 5 unreachable ∷ [])
dropped_after_five_example =
    dropped_after_five first_message (second_message ∷ []) unreachable a_server refl
      (refl, ground arith) refl

ready : Ready first_message (second_message ∷ []) 40 an_adapter a_server
unfolding idle holds_queue limit_holds trim_space
ready = (refl, refl, refl, refl, refl, refl)

-- The agent exits while it is called.
abbrev exits_meanwhile : Conversation → Conversation
exits_meanwhile d = record d { generation = 2; turn_active = false }

head_alone :
    Meanwhile
      (send_input no_images first_message.content)
      40
      waiting
      some_messages.messages
      []
      (by_answer no_images 40 exits_meanwhile first_message a_server)
unfolding begin_turn begin_with append_user set_limit_stop set_retry_wait trim_space index
    send_input idle
head_alone = (refl, refl)

dispatch_once_example :
    IsCalledWith (send_input no_images first_message.content) 40 waiting
    × AfterTick
        (some AgentError.turn_active)
        (same_agent waiting (by_answer no_images 40 exits_meanwhile first_message a_server))
        some_messages.messages
        []
        (user_message (send_input no_images first_message.content) 40 waiting)
        first_message
        (second_message ∷ [])
        a_server
        (dispatch no_images 40 exits_meanwhile (some AgentError.turn_active) a_server)
dispatch_once_example =
    dispatch_once no_images 40 exits_meanwhile (some AgentError.turn_active) first_message
      (second_message ∷ []) an_adapter a_server some_messages.messages [] ready head_alone

abbrev nothing_queued : Server
nothing_queued = record a_server { queue = record two_messages { messages = []; last_id = 2 } }

nothing_waits :
    ((ltb 0 (len nothing_queued.queue) && not (holds_queue waiting 40)) || not (idle waiting))
    ≡ false
unfolding len idle holds_queue limit_holds
nothing_waits = refl

can_start : CanStart (send_input no_images fix_it) an_adapter waiting
unfolding send_input idle trim_space
can_start = (refl, refl, refl)

message_alone :
    Meanwhile
      (send_input no_images fix_it)
      40
      waiting
      some_messages.messages
      []
      (begin_turn (send_input no_images fix_it) 40 waiting).0
unfolding begin_turn begin_with append_user set_limit_stop set_retry_wait trim_space index
    send_input idle
message_alone = (refl, refl)

sent_to_one_place_example :
    let input = send_input no_images fix_it in
    IsCalledWith input 40 waiting
    × AfterSending
        (some AgentError.turn_active)
        (same_agent waiting (begin_turn input 40 waiting).0)
        some_messages.messages
        []
        (user_message input 40 waiting)
        fix_it
        40
        nothing_queued
        (create_message no_images fix_it DispatchMode.queue 40
          (λ c. c)
          none
          (some AgentError.turn_active)
          nothing_queued)
sent_to_one_place_example =
    sent_to_one_place no_images fix_it 40 (λ c. c) none (some AgentError.turn_active) an_adapter
      nothing_queued some_messages.messages [] nothing_waits can_start message_alone

abbrev first_retry : RetryWait
first_retry = record {
  message = codes "overloaded";
  api_status = 529;
  stopped_at = 30;
  attempt = 1;
  attempts = 2;
  retry_at = 35;
}

abbrev retrying_server : Server
retrying_server = record a_server {
  conversation = record waiting { retry_wait = some first_retry };
}
