-- ===== src/Dispatch.antt =====
-- The dispatch of queued messages and the queue's endpoints: lib/httpapi/queue.go.
--
-- A handler and a tick hold the server's mutex throughout, so each is one step. `read_images` is
-- what InputFromText finds of the image files that a text names, and `answer` what the adapter
-- answers the turn; `meanwhile` is what the conversation does while the adapter is called.
pub mod Attempts
pub mod Delivery
pub mod Message
pub mod Continuation
use agentapi.Prelude.{
  ℕ, Bool, true, false, not, ◌&&◌, ◌||◌, List, [], ◌∷◌, Option, none, some, Text, is_empty,
  trim_space, leb, if◌then◌else◌, Result, ok, err,
}
use agentapi.Queue.{QueuedMessage, MessageQueue, head, push, update, remove, reorder, failed}
use agentapi.Native.Types.{Input, Image}
use agentapi.Native.State.{Conversation, idle}
use agentapi.Native.Limit.{holds_queue}
use agentapi.Native.Turn.{AgentError, TurnError, start_turn}

-- An error event: what it is about, and the error. The flag of `continue_failed` says whether it was
-- a retry.
pub data ErrorEvent : Type 0 where
  may_have_arrived : QueuedMessage → TurnError → ErrorEvent
  after_attempts : QueuedMessage → ℕ → TurnError → ErrorEvent
  continue_failed : Bool → TurnError → ErrorEvent

-- What the queue's code reads and changes of the server. `update_holds` is what the updater's
-- holdsQueue answers, and `stopping` whether shutdownCtx is done.
pub record Server : Type 0 where
  pub queue : MessageQueue
  pub conversation : Conversation
  pub restarting : Bool
  pub updating : Bool
  pub update_holds : Bool
  pub stopping : Bool
  pub errors : List ErrorEvent

abbrev pub max_queue_dispatch_attempts : ℕ
max_queue_dispatch_attempts = 5

abbrev pub is_unconfirmed : TurnError → Bool
is_unconfirmed e = elim e [
  | TurnError.agent a ↦ elim a [ AgentError.unconfirmed ↦ true | _ ↦ false ]
  | _ ↦ false
]

-- What becomes of the head of the queue once its send failed with an error that may not pass.
unfoldable pub send_failed : QueuedMessage → TurnError → Server → Server
send_failed next e s =
    let (q, attempts) = failed s.queue next.id in
    if is_unconfirmed e
    then record s { queue = (remove q next.id).0; errors = may_have_arrived next e ∷ s.errors }
    else if leb max_queue_dispatch_attempts attempts
    then record s {
      queue = (remove q next.id).0;
      errors = after_attempts next attempts e ∷ s.errors;
    }
    else record s { queue = q }

unfoldable pub after_send : QueuedMessage → Option TurnError → Server → Server
after_send next none s = record s { queue = (remove s.queue next.id).0 }
after_send next (some TurnError.changing) s = s
after_send next (some e) s = send_failed next e s

unfoldable pub send_input : (Text → List Image) → Text → Input
send_input read_images content = record { text = content; images = read_images content }

-- One tick, after `beforeQueue`.
unfoldable pub dispatch :
    (Text → List Image) → ℕ → (Conversation → Conversation) → Option AgentError → Server → Server
dispatch read_images now meanwhile answer s =
    if s.restarting || s.update_holds || s.stopping then s else elim (head s.queue) [
      | none ↦ s
      | some next ↦
          if not (idle s.conversation) || holds_queue s.conversation now
          then s
          else (let (c, refused) =
                start_turn (send_input read_images next.content) now meanwhile answer
                  s.conversation in
              after_send next refused (record s { conversation = c }))
    ]

pub data HttpError : Type 0 where
  bad_request not_found conflict : HttpError

unfoldable pub update_queued_message : ℕ → Text → Server → Server × Option HttpError
update_queued_message id content s =
    let (q, found) = update s.queue id (trim_space content) in
    if is_empty (trim_space content)
    then (s, some HttpError.bad_request)
    else (record s { queue = q }, if found then none else some HttpError.not_found)

unfoldable pub delete_queued_message : ℕ → Server → Server × Option HttpError
delete_queued_message id s =
    let (q, found) = remove s.queue id in
    (record s { queue = q }, if found then none else some HttpError.not_found)

unfoldable pub reorder_queue : List ℕ → Server → Server × Option HttpError
reorder_queue ids s =
    let (q, accepted) = reorder s.queue ids in
    (record s { queue = q }, if accepted then none else some HttpError.conflict)

unfoldable pub queue_message : Text → Bool → ℕ → Server → Server
queue_message content front now s = record s { queue = (push s.queue content now front).0 }
