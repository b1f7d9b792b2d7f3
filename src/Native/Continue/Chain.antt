-- ===== src/Native/Continue/Chain.antt =====
-- Retries in a row, and continuations that the agent refused.
use agentapi.Prelude.{
  ℕ, suc, ◌+◌, ◌≤◌, ◌<◌, ◌≡◌, refl, ap, ◌∙◌, Bool, true, false, ◌&&◌, ◌||◌, Option, none, some,
  arith, is_empty, trim_space, ltb, ◌==◌, if◌then◌else◌, length, get_or, inl, inr, Bool-cases,
}
use agentapi.Native.Types.{TurnResult, StopReason}
use agentapi.Native.MessageLog.{append_user}
use agentapi.Native.State.{
  RetryWait, Conversation, Adapter, idle, set_retry_wait, expire_requests, clear_login,
}
use agentapi.Native.Limit.{retry, continue_margin}
use agentapi.Native.Sink.{turn_completed, end_turn, settle, proves_login}
use agentapi.Native.Turn.{AgentError, begin_turn, start_turn, deliver_turn}
use agentapi.Native.Turn.Gate.{CanStart, begun, start_turn-delivers, begin_with-Began}
use agentapi.Native.Continue.{
  continue_prompt, continue_if_due, mark, after_sending, limit_due, retry_due,
}

-- The retry of a failed turn that waits after a failure at `now` of the retry numbered `done`
-- (0 for a turn that was no retry).
abbrev pub next_wait : Conversation → TurnResult → ℕ → ℕ → RetryWait
next_wait c result done now = record {
  message = result.error;
  api_status =
      if result.api_status == 0 then c.cfg.transient_status result.error else result.api_status;
  stopped_at = now;
  attempt = suc done;
  attempts = length c.cfg.retry_delays;
  retry_at = now + get_or c.cfg.retry_delays done 0;
}

retry-schedules :
    (result : TurnResult) (done now : ℕ) (c : Conversation)
    → done < length c.cfg.retry_delays
    → ((retry result (suc done) now c).0.retry_wait ≡ some (next_wait c result done now))
      × ((retry result (suc done) now c).1 ≡ true)
      × ((retry result (suc done) now c).0.turn_active ≡ c.turn_active)
unfolding retry set_retry_wait
retry-schedules result done now c h = ground arith

retries_over :
    (result : TurnResult) (done now : ℕ) (c : Conversation)
    → length c.cfg.retry_delays ≤ done
    → retry result (suc done) now c ≡ (c, false)
unfolding retry
retries_over result done now c h = ground arith

transient_failure :
    (result : TurnResult) (now : ℕ) (c : Conversation)
    → result.stop_reason ≡ StopReason.transient
    → c.retrying < length c.cfg.retry_delays
    → ((turn_completed result now c).retry_wait ≡ some (next_wait c result c.retrying now))
      × ((turn_completed result now c).turn_active ≡ false)
unfolding turn_completed settle end_turn expire_requests proves_login clear_login
transient_failure result now c t h =
    ground (arith, retry-schedules result c.retrying now (end_turn now c))

transient_failure_over :
    (result : TurnResult) (now : ℕ) (c : Conversation)
    → result.stop_reason ≡ StopReason.transient
    → length c.cfg.retry_delays ≤ c.retrying
    → ((turn_completed result now c).retry_wait ≡ c.retry_wait)
      × ((turn_completed result now c).turn_active ≡ false)
unfolding turn_completed settle end_turn expire_requests proves_login clear_login
transient_failure_over result now c t h =
    ground (arith, retries_over result c.retrying now (end_turn now c))

-- What waits of a stopped turn and of a failed one when a continuation or a retry is due.
pub continue-due :
    (now : ℕ) (f : Conversation → Conversation) (answer : Option AgentError) (c : Conversation)
    → idle c ≡ true
    → (limit_due c.limit_stop now || retry_due c.retry_wait now) ≡ true
    → let limited = limit_due c.limit_stop now in
      let retried = retry_due c.retry_wait now in
      continue_if_due now f answer c
      ≡ after_sending limited retried c.limit_stop c.retry_wait
          (now + continue_margin)
          (start_turn continue_prompt now f answer (mark limited retried c))
unfolding continue_if_due
continue-due now f answer c ready due = elim (Bool-cases (limit_due c.limit_stop now)) [
  | inl l ↦ rw (ready, l, continue_if_due) refl
  | inr l ↦ rw (ready, l, rw l at due, continue_if_due) refl
]

pub mark-keeps :
    (l r : Bool) (c : Conversation)
    → (idle (mark l r c) ≡ idle c) × ((mark l r c).adapter ≡ c.adapter)
unfolding mark idle
mark-keeps l r c = (ground arith, ground arith)

-- The retry `w` waits, is due, and the agent can take it; no stopped turn is due too.
abbrev pub RetryDue : RetryWait → ℕ → Adapter → Conversation → Type 0
RetryDue w now a c =
    (c.retry_wait ≡ some w)
    × (w.retry_at ≤ now)
    × (limit_due c.limit_stop now ≡ false)
    × (idle c ≡ true)
    × (c.adapter ≡ some a)

pub prompt_text : is_empty (trim_space continue_prompt.text) ≡ false
unfolding trim_space
prompt_text = refl

retry_is_due :
    (now : ℕ) (w : RetryWait) (a : Adapter) (c : Conversation)
    → RetryDue w now a c
    → ((idle c && limit_due c.limit_stop now) ≡ false)
      × ((idle c && retry_due c.retry_wait now) ≡ true)
      × (mark false true c ≡ record c { retrying = w.attempt })
unfolding mark retry_due
retry_is_due now w a c (e, due, no_limit, ready, _) = ground arith

pub continue-retry :
    (now : ℕ) (f : Conversation → Conversation) (answer : Option AgentError) (w : RetryWait)
    (a : Adapter) (c : Conversation)
    → RetryDue w now a c
    → continue_if_due now f answer c
      ≡ after_sending false true c.limit_stop c.retry_wait
          (now + continue_margin)
          (start_turn continue_prompt now f answer (record c { retrying = w.attempt }))
unfolding continue_if_due
continue-retry now f answer w a c due =
    let (l, r, m) = retry_is_due now w a c due in rw (l, r, continue_if_due) (rw m)

-- A due retry that the agent takes: its turn begins, and then comes what else happens.
retry_sent :
    (now : ℕ) (f : Conversation → Conversation) (w : RetryWait) (a : Adapter) (c : Conversation)
    → RetryDue w now a c
    → let d : Conversation = record c { retrying = w.attempt } in
      continue_if_due now f none c ≡ (f (begin_turn continue_prompt now d).0, true, none)
unfolding after_sending deliver_turn idle
retry_sent now f w a c due =
    let d : Conversation = record c { retrying = w.attempt } in
    let can : CanStart continue_prompt a d = (prompt_text, due.3, due.4) in
    rw (continue-retry now f none w a c due)
      (rw (start_turn-delivers continue_prompt now f none a d can) refl)

-- What waits after a transient failure of the retry `attempt`, when there are `n` delays.
chained :
    (result : TurnResult) (later attempt n : ℕ) (c : Conversation)
    → result.stop_reason ≡ StopReason.transient
    → c.retrying ≡ attempt
    → length c.cfg.retry_delays ≡ n
    → c.retry_wait ≡ none
    → let next = (turn_completed result later c).retry_wait in
      if ltb attempt n then next ≡ some (next_wait c result attempt later) else next ≡ none
chained result later attempt n c transient which same waits = elim (Bool-cases (ltb attempt n)) [
  | inl more ↦ rw more (
      (transient_failure result later c transient (ground (arith, more, which, same))).0
      ∙ ap (λ k. some (next_wait c result k later)) which)
  | inr last ↦ rw last (
      (transient_failure_over result later c transient (ground (arith, last, which, same))).0
      ∙ waits)
]

-- What the conversation is once the turn of the retry `w` began.
abbrev pub retry_begun : RetryWait → ℕ → Conversation → Conversation
retry_begun w now c = (begin_turn continue_prompt now (record c { retrying = w.attempt })).0

-- When a retry is due, no continuation is, and the agent takes it, a turn with the prompt to
-- continue begins, and is sent. If that turn then fails on a transient error too, and what else
-- happened during the call did not touch the retries, the next retry waits, with the next of the
-- delays, and after the last delay none waits.
pub retry_chain :
    (now later : ℕ) (f : Conversation → Conversation) (w : RetryWait) (result : TurnResult)
    (a : Adapter) (c : Conversation)
    → RetryDue w now a c
    → (f (retry_begun w now c)).retry_wait ≡ (retry_begun w now c).retry_wait
    → (f (retry_begun w now c)).retrying ≡ (retry_begun w now c).retrying
    → (f (retry_begun w now c)).cfg ≡ (retry_begun w now c).cfg
    → result.stop_reason ≡ StopReason.transient
    → let start = retry_begun w now c in
      let (c', sent, refused) = continue_if_due now f none c in
      let next = (turn_completed result later c').retry_wait in
      (sent ≡ true)
      × (refused ≡ none)
      × (c' ≡ f start)
      × (start.turn_active ≡ true)
      × (start.messages ≡ (append_user c.messages (trim_space continue_prompt.text) now).0)
      × (if ltb w.attempt (length c.cfg.retry_delays)
          then next ≡ some (next_wait c' result w.attempt later)
          else next ≡ none)
unfolding idle
retry_chain now later f w result a c due keeps_wait keeps_retrying keeps_cfg transient =
    let d : Conversation = record c { retrying = w.attempt } in
    let can : CanStart continue_prompt a d = (prompt_text, due.3, due.4) in
    let starts = begun continue_prompt now a d can in
    let b = begin_with-Began continue_prompt now a d in
    let c' = f (begin_turn continue_prompt now d).0 in
    let which : c'.retrying ≡ w.attempt =
      keeps_retrying ∙ ap (λ k. k.retrying) starts ∙ b.same_retrying in
    let same : length c'.cfg.retry_delays ≡ length c.cfg.retry_delays =
      ap (λ k. length k.retry_delays) (keeps_cfg ∙ ap (λ k. k.cfg) starts ∙ b.same_cfg) in
    let waits : c'.retry_wait ≡ none = keeps_wait ∙ ap (λ k. k.retry_wait) starts ∙ b.no_wait in
    rw (retry_sent now f w a c due) (
      refl,
      refl,
      refl,
      ap (λ k. k.turn_active) starts ∙ b.active,
      ap (λ k. k.messages) starts ∙ b.log,
      chained result later w.attempt (length c.cfg.retry_delays) c' transient which same waits,
    )
