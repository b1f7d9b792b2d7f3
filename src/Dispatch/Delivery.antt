-- ===== src/Dispatch/Delivery.antt =====
-- What a tick of the queue's dispatch does with the head.
use agentapi.Prelude.{
  ℕ, suc, ◌≡◌, refl, ap, ◌∙◌, Bool, true, false, not, ◌||◌, List, ◌∷◌, ◌++◌, Option, none, some,
  arith, Text, is_empty, trim_space, leb, leb→le, if◌then◌else◌, inl, inr, Bool-cases, Option-cases,
}
use agentapi.Queue.{QueuedMessage, head, failed}
use agentapi.Native.Types.{Image}
use agentapi.Native.MessageLog.{Message}
use agentapi.Native.State.{Conversation, Adapter, idle}
use agentapi.Native.Limit.{holds_queue}
use agentapi.Native.Turn.{AgentError, TurnError, begin_turn, start_turn}
use agentapi.Native.Turn.Logged.{log_after, same_agent, refused_with, start_turn-log}
use agentapi.Native.Turn.Gate.{
  CanStart, Meanwhile, user_message, IsCalledWith, begin_turn-IsCalledWith,
}
use agentapi.Dispatch.{
  Server, may_have_arrived, after_attempts, send_input, dispatch, after_send, send_failed,
}
use agentapi.Dispatch.Attempts.{
  remove-head, failed-counts, failures_of, after_send-failed, Counts, send_failed-keeps,
  send_failed-drops,
}

-- Nothing holds the queue at `now`, and the agent can take the head.
abbrev pub Ready : QueuedMessage → List QueuedMessage → ℕ → Adapter → Server → Type 0
Ready m rest now a s =
    ((s.restarting || s.update_holds || s.stopping) ≡ false)
    × (s.queue.messages ≡ m ∷ rest)
    × (idle s.conversation ≡ true)
    × (holds_queue s.conversation now ≡ false)
    × (s.conversation.adapter ≡ some a)
    × (is_empty (trim_space m.content) ≡ false)

head-first :
    (s : Server) (m : QueuedMessage) (rest : List QueuedMessage)
    → s.queue.messages ≡ m ∷ rest
    → head s.queue ≡ some m
unfolding head
head-first s m rest e = rw e refl

dispatch-sends :
    (read_images : Text → List Image) (now : ℕ) (f : Conversation → Conversation)
    (answer : Option AgentError) (m : QueuedMessage) (rest : List QueuedMessage) (a : Adapter)
    (s : Server)
    → Ready m rest now a s
    → let sent = start_turn (send_input read_images m.content) now f answer s.conversation in
      dispatch read_images now f answer s ≡ after_send m sent.1 (record s { conversation = sent.0 })
unfolding dispatch
dispatch-sends read_images now f answer m rest a s (free, h, ready, unheld, _, _) =
    rw (free, head-first s m rest h, ready, unheld) refl

dispatch-empty :
    (read_images : Text → List Image) (now : ℕ) (f : Conversation → Conversation)
    (answer : Option AgentError) (s : Server)
    → head s.queue ≡ none
    → dispatch read_images now f answer s ≡ s
unfolding dispatch
dispatch-empty read_images now f answer s e =
    elim (Bool-cases (s.restarting || s.update_holds || s.stopping)) [
      | inl b ↦ rw b refl
      | inr b ↦ rw (b, e) refl
    ]

dispatch-held :
    (read_images : Text → List Image) (now : ℕ) (f : Conversation → Conversation)
    (answer : Option AgentError) (m : QueuedMessage) (s : Server)
    → head s.queue ≡ some m
    → ((s.restarting || s.update_holds || s.stopping)
        || (not (idle s.conversation) || holds_queue s.conversation now))
      ≡ true
    → dispatch read_images now f answer s ≡ s
unfolding dispatch
dispatch-held read_images now f answer m s e h =
    elim (Bool-cases (s.restarting || s.update_holds || s.stopping)) [
      | inl b ↦ rw b refl
      | inr b ↦ rw (b, e, rw b at h) refl
    ]

-- While AgentAPI restarts, updates or stops, the agent works, or a limit or a retry holds the
-- queue, the dispatch does nothing at all.
pub dispatch_waits :
    (read_images : Text → List Image) (now : ℕ) (f : Conversation → Conversation)
    (answer : Option AgentError) (s : Server)
    → ((s.restarting || s.update_holds || s.stopping)
        || (not (idle s.conversation) || holds_queue s.conversation now))
      ≡ true
    → dispatch read_images now f answer s ≡ s
dispatch_waits read_images now f answer s h = elim (Option-cases (head s.queue)) [
  | inl e ↦ dispatch-empty read_images now f answer s e
  | inr (m, e) ↦ dispatch-held read_images now f answer m s e h
]

-- What is left of a tick that tried `m`, for each answer of the agent; `sent` is its message in the
-- log, `same` whether the agent is the same when it answers, and `before` and `news` are the other
-- messages of the log by then.
abbrev pub AfterTick :
    Option AgentError
    → (same : Bool) (before news : List Message) (sent : Message) → QueuedMessage
    → List QueuedMessage
    → Server
    → Server
    → Type 0
AfterTick none same before news sent m rest s s' =
    (s'.queue.messages ≡ rest)
    × (s'.conversation.messages.messages ≡ before ++ sent ∷ news)
    × (s'.errors ≡ s.errors)
AfterTick (some AgentError.unconfirmed) same before news sent m rest s s' =
    (s'.queue.messages ≡ rest)
    × (s'.conversation.messages.messages ≡ before ++ sent ∷ news)
    × (s'.errors ≡ may_have_arrived m (TurnError.agent AgentError.unconfirmed) ∷ s.errors)
AfterTick (some AgentError.turn_active) same before news sent m rest s s' =
    (s'.queue.messages ≡ m ∷ rest)
    × (s'.conversation.messages.messages ≡ (if same then before ++ news else before ++ sent ∷ news))
    × (s'.errors ≡ s.errors)
AfterTick (some e) same before news sent m rest s s' =
    (s'.queue.messages ≡ (if leb 5 (suc (failures_of s.queue m)) then rest else m ∷ rest))
    × (s'.conversation.messages.messages ≡ (if same then before ++ news else before ++ sent ∷ news))
    × (s'.errors ≡ (
        if leb 5 (suc (failures_of s.queue m))
        then after_attempts m (suc (failures_of s.queue m)) (TurnError.agent e) ∷ s.errors
        else s.errors))

start_input :
    (read_images : Text → List Image) (now : ℕ) (m : QueuedMessage) (rest : List QueuedMessage)
    (a : Adapter) (s : Server)
    → Ready m rest now a s
    → CanStart (send_input read_images m.content) a s.conversation
unfolding send_input
start_input read_images now m rest a s (_, _, ready, _, has, text) = (text, ready, has)

after_send-conversation :
    (m : QueuedMessage) (refused : Option TurnError) (s : Server)
    → (after_send m refused s).conversation ≡ s.conversation
unfolding after_send send_failed
after_send-conversation m refused s = ground arith

after_send-fails :
    (m : QueuedMessage) (rest : List QueuedMessage) (e : TurnError) (s : Server)
    → s.queue.messages ≡ m ∷ rest
    → Counts e
    → let s' = after_send m (some e) s in
      (s'.queue.messages ≡ (if leb 5 (suc (failures_of s.queue m)) then rest else m ∷ rest))
      × (s'.errors ≡ (
          if leb 5 (suc (failures_of s.queue m))
          then after_attempts m (suc (failures_of s.queue m)) e ∷ s.errors
          else s.errors))
after_send-fails m rest e s h c = elim (Bool-cases (leb 5 (suc (failures_of s.queue m)))) [
  | inl last ↦
      rw (after_send-failed m e s c.1, last)
        (send_failed-drops m rest e s h c.0 (leb→le 5 (suc (failures_of s.queue m)) last))
  | inr more ↦
      rw (after_send-failed m e s c.1, more)
        (let l = send_failed-keeps m rest e s h c.0 (ground (arith, more)) in (l.0, l.2))
]

after_send-unconfirmed :
    (m : QueuedMessage) (rest : List QueuedMessage) (s : Server)
    → s.queue.messages ≡ m ∷ rest
    → let s' = after_send m (some (TurnError.agent AgentError.unconfirmed)) s in
      (s'.queue.messages ≡ rest)
      × (s'.errors ≡ may_have_arrived m (TurnError.agent AgentError.unconfirmed) ∷ s.errors)
unfolding after_send send_failed
after_send-unconfirmed m rest s h =
    (remove-head (failed s.queue m.id).0 m rest ((failed-counts s.queue m).2 ∙ h), refl)

-- What the conversation is when the agent answers the turn of the head.
abbrev pub by_answer :
    (Text → List Image) → ℕ → (Conversation → Conversation) → QueuedMessage → Server → Conversation
by_answer read_images now f m s =
    f (begin_turn (send_input read_images m.content) now s.conversation).0

-- A tick as its two halves: what the conversation did with the turn, and what the queue does about it.
dispatch-halves :
    (read_images : Text → List Image) (now : ℕ) (f : Conversation → Conversation)
    (answer : Option AgentError) (m : QueuedMessage) (rest : List QueuedMessage) (a : Adapter)
    (s : Server) (before news : List Message)
    → Ready m rest now a s
    → Meanwhile
        (send_input read_images m.content)
        now
        s.conversation
        before
        news
        (by_answer read_images now f m s)
    → let input = send_input read_images m.content in
      let t : Server = record s {
        conversation = (start_turn input now f answer s.conversation).0;
      } in
      let s' = dispatch read_images now f answer s in
      (s' ≡ after_send m (refused_with answer) t)
      × (s'.conversation.messages.messages
          ≡ log_after answer
              (same_agent s.conversation (by_answer read_images now f m s))
              before
              (user_message input now s.conversation)
              news)
dispatch-halves read_images now f answer m rest a s before news r other =
    let input = send_input read_images m.content in
    let (log, refused) =
      start_turn-log answer input now f a s.conversation before news
        (start_input read_images now m rest a s r) other in
    let t : Server = record s { conversation = (start_turn input now f answer s.conversation).0 } in
    let e =
      dispatch-sends read_images now f answer m rest a s r ∙ ap (λ o. after_send m o t) refused in
    (
      e,
      ap (λ u. u.conversation.messages.messages) e
          ∙ ap (λ c. c.messages.messages) (after_send-conversation m (refused_with answer) t)
          ∙ log,
    )

dispatch_once-AfterTick :
    (read_images : Text → List Image) (now : ℕ) (f : Conversation → Conversation)
    (answer : Option AgentError) (m : QueuedMessage) (rest : List QueuedMessage) (a : Adapter)
    (s : Server) (before news : List Message)
    → Ready m rest now a s
    → Meanwhile
        (send_input read_images m.content)
        now
        s.conversation
        before
        news
        (by_answer read_images now f m s)
    → AfterTick answer
        (same_agent s.conversation (by_answer read_images now f m s))
        before
        news
        (user_message (send_input read_images m.content) now s.conversation)
        m
        rest
        s
        (dispatch read_images now f answer s)
unfolding log_after refused_with after_send
dispatch_once-AfterTick read_images now f none m rest a s before news r other =
    let (e, log) = dispatch-halves read_images now f none m rest a s before news r other in
    (ap (λ u. u.queue.messages) e ∙ remove-head s.queue m rest r.1, log, ap (λ u. u.errors) e)
dispatch_once-AfterTick read_images now f (some AgentError.unconfirmed) m rest a s before news r
      other =
    let (e, log) =
      dispatch-halves read_images now f (some AgentError.unconfirmed) m rest a s before news r
        other in
    let (gone, said) = after_send-unconfirmed m rest _ r.1 in
    (ap (λ u. u.queue.messages) e ∙ gone, log, ap (λ u. u.errors) e ∙ said)
dispatch_once-AfterTick read_images now f (some AgentError.turn_active) m rest a s before news r
      other =
    let (e, log) =
      dispatch-halves read_images now f (some AgentError.turn_active) m rest a s before news r
        other in
    (ap (λ u. u.queue.messages) e ∙ r.1, log, ap (λ u. u.errors) e)
dispatch_once-AfterTick read_images now f (some AgentError.no_active_turn) m rest a s before news r
      other =
    let (e, log) =
      dispatch-halves read_images now f (some AgentError.no_active_turn) m rest a s before news r
        other in
    let (left, said) = after_send-fails m rest _ _ r.1 (refl, ground arith) in
    (ap (λ u. u.queue.messages) e ∙ left, log, ap (λ u. u.errors) e ∙ said)
dispatch_once-AfterTick read_images now f (some AgentError.not_started) m rest a s before news r
      other =
    let (e, log) =
      dispatch-halves read_images now f (some AgentError.not_started) m rest a s before news r
        other in
    let (left, said) = after_send-fails m rest _ _ r.1 (refl, ground arith) in
    (ap (λ u. u.queue.messages) e ∙ left, log, ap (λ u. u.errors) e ∙ said)
dispatch_once-AfterTick read_images now f (some (AgentError.failed x)) m rest a s before news r
      other =
    let (e, log) =
      dispatch-halves read_images now f (some (AgentError.failed x)) m rest a s before news r
        other in
    let (left, said) = after_send-fails m rest _ _ r.1 (refl, ground arith) in
    (ap (λ u. u.queue.messages) e ∙ left, log, ap (λ u. u.errors) e ∙ said)

-- The agent is called with the message at the end of the log.
-- A tick on an idle agent with nothing that holds the queue tries a head with text once, whatever
-- else the conversation does during the call, if its log then has the message still, none behind it
-- with its Id. A message that the agent took, or that it may have taken, stays in the log and leaves
-- the queue, with an error for the latter. One that it refused stays at the head, unless this was
-- its fifth refusal in a row that counts, which drops it with an error; it leaves the log if the
-- agent is still the same, and else the log stays as it is. The other messages of the log stay.
pub dispatch_once :
    (read_images : Text → List Image) (now : ℕ) (f : Conversation → Conversation)
    (answer : Option AgentError) (m : QueuedMessage) (rest : List QueuedMessage) (a : Adapter)
    (s : Server) (before news : List Message)
    → Ready m rest now a s
    → Meanwhile
        (send_input read_images m.content)
        now
        s.conversation
        before
        news
        (by_answer read_images now f m s)
    → IsCalledWith (send_input read_images m.content) now s.conversation
      × AfterTick answer
          (same_agent s.conversation (by_answer read_images now f m s))
          before
          news
          (user_message (send_input read_images m.content) now s.conversation)
          m
          rest
          s
          (dispatch read_images now f answer s)
dispatch_once read_images now f answer m rest a s before news r other = (
  begin_turn-IsCalledWith (send_input read_images m.content) now a s.conversation
      (start_input read_images now m rest a s r),
  dispatch_once-AfterTick read_images now f answer m rest a s before news r other,
)
