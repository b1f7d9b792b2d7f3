-- ===== src/Native/Continue/Refused.antt =====
-- Continuations that the agent refused: ContinueIfDue of lib/native/limit.go.
use agentapi.Prelude.{
  ℕ, ◌+◌, ◌≤◌, ◌≡◌, refl, ap, ◌∙◌, Bool, true, false, not, ◌||◌, List, ◌∷◌, ◌++◌, Option, none,
  some, arith, ◌≢◌, if◌then◌else◌, trim_space, inl, inr, Bool-cases,
}
use agentapi.Native.Types.{Input}
use agentapi.Native.MessageLog.{Message}
use agentapi.Native.State.{LimitStop, RetryWait, Conversation, Adapter, idle, set_limit_stop}
use agentapi.Native.Limit.{holds_queue, limit_holds, continue_margin}
use agentapi.Native.Turn.{
  AgentError, PendingTurn, begin_turn, begin_with, start_turn, deliver_turn, take_back,
  caller_error,
}
use agentapi.Native.Turn.Gate.{
  CanStart, Meanwhile, user_message, start_turn-delivers, refused_turn_taken_back,
}
use agentapi.Native.Turn.Logged.{same_agent, refused-log}
use agentapi.Native.Continue.{
  continue_prompt, continue_if_due, mark, put_back, after_sending, limit_due, retry_due,
}
use agentapi.Native.Continue.Chain.{prompt_text, continue-due, mark-keeps}

-- A stopped turn whose continuation, scheduled at `at`, is due, and an agent that can take it.
abbrev pub ContinuationDue : LimitStop → ℕ → ℕ → Adapter → Conversation → Type 0
ContinuationDue ls at now a c =
    (c.limit_stop ≡ some ls)
    × (ls.continue_at ≡ some at)
    × (at ≤ now)
    × (idle c ≡ true)
    × (c.adapter ≡ some a)

limit_is_due :
    (ls : LimitStop) (at now : ℕ) (a : Adapter) (c : Conversation)
    → ContinuationDue ls at now a c
    → limit_due c.limit_stop now ≡ true
unfolding limit_due
limit_is_due ls at now a c due = ground arith

-- What is marked before the turn of a continuation begins.
abbrev pub marked : ℕ → Conversation → Conversation
marked now c = mark true (retry_due c.retry_wait now) c

continue-limit :
    (ls : LimitStop) (at now : ℕ) (f : Conversation → Conversation) (answer : Option AgentError)
    (a : Adapter) (c : Conversation)
    → ContinuationDue ls at now a c
    → continue_if_due now f answer c
      ≡ after_sending true
          (retry_due c.retry_wait now)
          (some ls)
          c.retry_wait
          (now + continue_margin)
          (start_turn continue_prompt now f answer (marked now c))
continue-limit ls at now f answer a c due =
    let l = limit_is_due ls at now a c due in
    let e = continue-due now f answer c due.3 (rw l refl) in
    (rw l at e)
    ∙ ap
        (λ o.
          after_sending true (retry_due c.retry_wait now) o c.retry_wait (now + continue_margin)
            (start_turn continue_prompt now f answer (marked now c)))
        due.0

put_back-limit :
    (ls : LimitStop) (retried : Bool) (w : Option RetryWait) (later : ℕ) (c : Conversation)
    → c.turn_active ≡ false
    → c.limit_stop ≡ none
    → let c' = put_back true retried (some ls) w later c in
      (c'.limit_stop ≡ some (record ls { continue_at = some later }))
      × (c'.messages ≡ c.messages)
      × (c'.turn_active ≡ false)
unfolding put_back set_limit_stop
put_back-limit ls retried w later c t l = (ground arith, ground arith, ground arith)

scheduled_holds :
    (ls : LimitStop) (at t : ℕ) (c : Conversation)
    → c.limit_stop ≡ some (record ls { continue_at = some at })
    → holds_queue c t ≡ true
unfolding holds_queue limit_holds
scheduled_holds ls at t c e = ground arith

deliver_turn-stop :
    (turn : PendingTurn) (e : AgentError) (d : Conversation)
    → (deliver_turn turn (some e) d).0.limit_stop ≡ d.limit_stop
unfolding deliver_turn take_back
deliver_turn-stop turn e d = ground arith

refused-over :
    (input : Input) (now : ℕ) (f : Conversation → Conversation) (e : AgentError) (a : Adapter)
    (c : Conversation) (before news : List Message)
    → CanStart input a c
    → e ≢ AgentError.unconfirmed
    → Meanwhile input now c before news (f (begin_turn input now c).0)
    → (same_agent c (f (begin_turn input now c).0)
        || not (f (begin_turn input now c).0).turn_active)
      ≡ true
    → (start_turn input now f (some e) c).0.turn_active ≡ false
refused-over input now f e a c before news can ne other over =
    let d = f (begin_turn input now c).0 in
    let (_, _, left) = refused_turn_taken_back input now f e a c before news can ne other in
    elim (Bool-cases (same_agent c d)) [
      | inl same ↦ (rw same at left).1
      | inr gone ↦
          let quiet : d.turn_active ≡ false = ground arith in
          ap (λ k. k.turn_active) (rw gone at left) ∙ quiet
    ]

-- A due continuation that the agent refused waits again, whatever else the conversation does during
-- the call, if no other turn is stopped by a limit then, if an agent that came meanwhile has no
-- turn, and if the log then has the message still, none behind it with its Id: the stopped turn waits
-- for a continuation a minute later and holds the queue at any time until then, and no turn is
-- active. The message leaves the log if the agent is still the same, and else stays in it.
pub refused_continuation_waits :
    (ls : LimitStop) (at now : ℕ) (f : Conversation → Conversation) (e : AgentError) (a : Adapter)
    (c : Conversation) (before news : List Message)
    → ContinuationDue ls at now a c
    → e ≢ AgentError.unconfirmed
    → Meanwhile continue_prompt now
        (marked now c)
        before
        news
        (f (begin_turn continue_prompt now (marked now c)).0)
    → (f (begin_turn continue_prompt now (marked now c)).0).limit_stop ≡ none
    → (same_agent (marked now c) (f (begin_turn continue_prompt now (marked now c)).0)
        || not (f (begin_turn continue_prompt now (marked now c)).0).turn_active)
      ≡ true
    → let d = f (begin_turn continue_prompt now (marked now c)).0 in
      let sent = user_message continue_prompt now (marked now c) in
      let (c', went, refused) = continue_if_due now f (some e) c in
      (went ≡ false)
      × (refused ≡ some (caller_error e))
      × (c'.limit_stop ≡ some (record ls { continue_at = some (now + continue_margin) }))
      × (c'.messages.messages
          ≡ (if same_agent (marked now c) d then before ++ news else before ++ sent ∷ news))
      × (c'.turn_active ≡ false)
      × ((t : ℕ) → holds_queue c' t ≡ true)
unfolding after_sending
refused_continuation_waits ls at now f e a c before news due ne other free over =
    let m = marked now c in
    let d = f (begin_turn continue_prompt now m).0 in
    let (busy, there) = mark-keeps true (retry_due c.retry_wait now) c in
    let can : CanStart continue_prompt a m = (prompt_text, busy ∙ due.3, there ∙ due.4) in
    let k = (start_turn continue_prompt now f (some e) m).0 in
    let (log, said) = refused-log e continue_prompt now f a m before news can ne other in
    let idle_again = refused-over continue_prompt now f e a m before news can ne other over in
    let stop : k.limit_stop ≡ none =
      ap (λ p. p.0.limit_stop) (start_turn-delivers continue_prompt now f (some e) a m can)
      ∙ deliver_turn-stop (begin_with a (trim_space continue_prompt.text) continue_prompt now m).1 e
          d
      ∙ free in
    let (waits, same_log, inactive) =
      put_back-limit ls (retry_due c.retry_wait now) c.retry_wait (now + continue_margin) k
        idle_again stop in
    rw
      (continue-limit ls at now f (some e) a c due
        ∙ ap
            (λ o.
              after_sending true (retry_due c.retry_wait now) (some ls) c.retry_wait
                (now + continue_margin) (k, o))
            said)
      (
        refl,
        refl,
        waits,
        ap (λ t. t.messages) same_log ∙ log,
        inactive,
        λ t. scheduled_holds ls (now + continue_margin) t _ waits,
      )
