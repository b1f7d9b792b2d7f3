-- ===== src/Dispatch/Message/Placed.antt =====
-- Where a message goes that a client sends.
use agentapi.Prelude.{
  ℕ, suc, ◌≡◌, refl, ap, ◌∙◌, false, not, ◌&&◌, ◌||◌, List, [], ◌∷◌, ◌++◌, Option, none, some, Text,
  ltb, Bool, Result, ok, err, if◌then◌else◌,
}
use agentapi.Queue.{QueuedMessage, push, changed, len}
use agentapi.Native.Types.{Image}
use agentapi.Native.MessageLog.{Message}
use agentapi.Native.State.{Conversation, Adapter, idle}
use agentapi.Native.Limit.{holds_queue}
use agentapi.Native.Turn.{AgentError, TurnError, begin_turn, start_turn}
use agentapi.Native.Turn.Gate.{
  CanStart, Meanwhile, user_message, IsCalledWith, begin_turn-IsCalledWith,
}
use agentapi.Dispatch.{Server, send_input, queue_message}
use agentapi.Native.Turn.Logged.{start_turn-log, log_after, same_agent, refused_with}
use agentapi.Dispatch.Message.{
  DispatchMode, Accepted, Refused, after_start, send_usual, create_message,
}

-- The message that the queue makes of a content, under the next ID.
abbrev pub next_message : Server → Text → ℕ → QueuedMessage
next_message s content now = record { id = suc s.queue.last_id; content = content; time = now }

queue_message-last :
    (content : Text) (now : ℕ) (s : Server)
    → ((queue_message content false now s).queue.messages
        ≡ s.queue.messages ++ next_message s content now ∷ [])
      × ((queue_message content false now s).conversation ≡ s.conversation)
unfolding queue_message push changed
queue_message-last content now s = (refl, refl)

-- Where the message is, for each answer of the agent to its turn; `sent` is its message in the log,
-- `same` whether the agent is the same when it answers, and `before` and `news` are the other
-- messages of the log by then.
abbrev pub AfterSending :
    Option AgentError
    → (same : Bool) (before news : List Message) (sent : Message) → Text
    → ℕ
    → Server
    → Server × Result Refused Accepted
    → Type 0
AfterSending none same before news sent content now s (s', said) =
    (said ≡ ok Accepted.sent)
    × (s'.queue.messages ≡ s.queue.messages)
    × (s'.conversation.messages.messages ≡ before ++ sent ∷ news)
AfterSending (some AgentError.unconfirmed) same before news sent content now s (s', said) =
    (said ≡ err Refused.unconfirmed)
    × (s'.queue.messages ≡ s.queue.messages)
    × (s'.conversation.messages.messages ≡ before ++ sent ∷ news)
AfterSending (some AgentError.turn_active) same before news sent content now s (s', said) =
    (said ≡ ok Accepted.queued)
    × (s'.queue.messages ≡ s.queue.messages ++ next_message s content now ∷ [])
    × (s'.conversation.messages.messages ≡ (if same then before ++ news else before ++ sent ∷ news))
AfterSending (some e) same before news sent content now s (s', said) =
    (said ≡ err (Refused.send_failed (TurnError.agent e)))
    × (s'.queue.messages ≡ s.queue.messages)
    × (s'.conversation.messages.messages ≡ (if same then before ++ news else before ++ sent ∷ news))

sends :
    (read_images : Text → List Image) (content : Text) (now : ℕ) (f : Conversation → Conversation)
    (during answer : Option AgentError) (a : Adapter) (s : Server) (before news : List Message)
    → ((ltb 0 (len s.queue) && not (holds_queue s.conversation now)) || not (idle s.conversation))
      ≡ false
    → CanStart (send_input read_images content) a s.conversation
    → let input = send_input read_images content in
      let d = f (begin_turn input now s.conversation).0 in
      Meanwhile input now s.conversation before news d
      → let c = (start_turn input now f answer s.conversation).0 in
        (create_message read_images content DispatchMode.queue now f during answer s
          ≡ after_start content now (refused_with answer) (record s { conversation = c }))
        × (c.messages.messages
            ≡ log_after answer
                (same_agent s.conversation d)
                before
                (user_message input now s.conversation)
                news)
unfolding create_message send_usual
sends read_images content now f during answer a s before news h can other =
    let input = send_input read_images content in
    let (log, refused) = start_turn-log answer input now f a s.conversation before news can other in
    let c = (start_turn input now f answer s.conversation).0 in
    (rw h (ap (λ o. after_start content now o (record s { conversation = c })) refused), log)

sent-AfterSending :
    (read_images : Text → List Image) (content : Text) (now : ℕ) (f : Conversation → Conversation)
    (during answer : Option AgentError) (a : Adapter) (s : Server) (before news : List Message)
    → ((ltb 0 (len s.queue) && not (holds_queue s.conversation now)) || not (idle s.conversation))
      ≡ false
    → CanStart (send_input read_images content) a s.conversation
    → Meanwhile
        (send_input read_images content)
        now
        s.conversation
        before
        news
        (f (begin_turn (send_input read_images content) now s.conversation).0)
    → let input = send_input read_images content in
      AfterSending answer
        (same_agent s.conversation (f (begin_turn input now s.conversation).0))
        before
        news
        (user_message input now s.conversation)
        content
        now
        s
        (create_message read_images content DispatchMode.queue now f during answer s)
unfolding after_start refused_with log_after
sent-AfterSending read_images content now f during none a s before news h can other =
    let (e, log) = sends read_images content now f during none a s before news h can other in
    rw e (refl, refl, log)
sent-AfterSending read_images content now f during (some AgentError.unconfirmed) a s before news h
      can other =
    let (e, log) =
      sends read_images content now f during (some AgentError.unconfirmed) a s before news h can
        other in
    rw e (refl, refl, log)
sent-AfterSending read_images content now f during (some AgentError.turn_active) a s before news h
      can other =
    let (e, log) =
      sends read_images content now f during (some AgentError.turn_active) a s before news h can
        other in
    let (last, same) = queue_message-last content now (record s {
      conversation =
          (start_turn (send_input read_images content) now f (some AgentError.turn_active)
            s.conversation).0;
    }) in
    rw e (refl, last, ap (λ c. c.messages.messages) same ∙ log)
sent-AfterSending read_images content now f during (some AgentError.no_active_turn) a s before news
      h can other =
    let (e, log) =
      sends read_images content now f during (some AgentError.no_active_turn) a s before news h can
        other in
    rw e (refl, refl, log)
sent-AfterSending read_images content now f during (some AgentError.not_started) a s before news h
      can other =
    let (e, log) =
      sends read_images content now f during (some AgentError.not_started) a s before news h can
        other in
    rw e (refl, refl, log)
sent-AfterSending read_images content now f during (some (AgentError.failed x)) a s before news h
      can other =
    let (e, log) =
      sends read_images content now f during (some (AgentError.failed x)) a s before news h can
        other in
    rw e (refl, refl, log)

-- The agent is called with the message at the end of the log.
-- A message with text that a client sends in the queue mode to an idle agent, with no others waiting
-- but held ones, whatever else the conversation does during the call, if its log then has the
-- message still, none behind it with its Id: it stays in the log if the agent took it or may have
-- taken it; it is at the end of the queue if the agent had a turn after all, and not queued if the
-- agent refused it otherwise. In the last two cases it leaves the log if the agent is still the same,
-- and else the log stays as it is. The other messages stay, and the response says which case it is.
pub sent_to_one_place :
    (read_images : Text → List Image) (content : Text) (now : ℕ) (f : Conversation → Conversation)
    (during answer : Option AgentError) (a : Adapter) (s : Server) (before news : List Message)
    → ((ltb 0 (len s.queue) && not (holds_queue s.conversation now)) || not (idle s.conversation))
      ≡ false
    → CanStart (send_input read_images content) a s.conversation
    → Meanwhile
        (send_input read_images content)
        now
        s.conversation
        before
        news
        (f (begin_turn (send_input read_images content) now s.conversation).0)
    → let input = send_input read_images content in
      IsCalledWith input now s.conversation
      × AfterSending answer
          (same_agent s.conversation (f (begin_turn input now s.conversation).0))
          before
          news
          (user_message input now s.conversation)
          content
          now
          s
          (create_message read_images content DispatchMode.queue now f during answer s)
sent_to_one_place read_images content now f during answer a s before news h can other = (
  begin_turn-IsCalledWith (send_input read_images content) now a s.conversation can,
  sent-AfterSending read_images content now f during answer a s before news h can other,
)
