-- ===== src/Native/Steps/Ordered.antt =====
-- The Ids of the log through any steps of a conversation.
use agentapi.Prelude.{ℕ, ◌≡◌, Bool, true, [], Option, none, Text, arith}
use agentapi.Native.Types.{LoginRequired, Settings, Input}
use agentapi.Native.State.{
  Conversation, clear_login, set_settings, set_usage, set_limit_stop, set_retry_wait,
  expire_requests,
}
use agentapi.Native.Sink.{set_login}
use agentapi.Native.Types.{Capabilities}
use agentapi.Native.Lifecycle.{
  down, start_again, clear_session_usage, forget_turns, mark_started, begin_initial_prompt,
  start_worked,
}
use agentapi.Native.MessageLog.{forget_rich, new_log, reset}
use agentapi.Prelude.{false, Bool-cases, inl, inr, some, if◌then◌else◌, List, ◌∷◌, leb, ◌-◌, ◌||◌}
use agentapi.Native.Types.{Resume}
use agentapi.Native.State.{resume_of}
use agentapi.Native.Lifecycle.{
  start_failed, login_missing, exited, restart_reset, replace, retire, begin_restart, begin_switch,
  retry_login, created, relaunch_due, start_replacement, start, close,
}
use agentapi.Native.Steps.{Step, step, run}
use agentapi.Native.MessageLog.Ids.{Ascends, new_log-IsOrdered}
use agentapi.Native.Turn.{begin_compact, end_compact}
use agentapi.Native.Limit.{schedule_continue, dismiss_limit_stop, cancel_retry}
use agentapi.Native.Continue.{mark}
use agentapi.Native.MessageLog.{Message}
use agentapi.Native.MessageLog.Ids.{IsOrdered}
use agentapi.Native.Steps.Logs.{
  Still, Orders, sink-Orders, begin_turn-Orders, deliver_turn-Orders, steered-Orders,
  end_unconfirmed_turn-Orders, put_back-Still, end_respond-Still, begin_respond-Still,
  end_setting_options-Still, end_apply_settings-Still,
}

mark_started-Still : (caps : Capabilities) (s : Settings) → Still (mark_started caps s)
unfolding mark_started clear_login set_settings
mark_started-Still caps s c = ground arith

begin_initial_prompt-Orders :
    (prompt : Input) (now : ℕ) → Orders (λ c. (begin_initial_prompt prompt now c).0)
unfolding begin_initial_prompt
begin_initial_prompt-Orders prompt now c h =
    ground (arith, h, begin_turn-Orders prompt now (record c { prompt_sent = true }) h)

start_worked-Orders :
    (gen : ℕ) (caps : Capabilities) (s : Settings) (prompt : Input) (now : ℕ)
    → Orders (λ c. (start_worked gen caps s prompt now c).0)
unfolding start_worked
start_worked-Orders gen caps s prompt now c h =
    let m : IsOrdered (mark_started caps s c).messages = rw (mark_started-Still caps s c) h in
    ground (arith, h, begin_initial_prompt-Orders prompt now (mark_started caps s c) m)

start_again-Still : (what : Text) (e : Option Text) → Still (start_again what e)
unfolding start_again clear_login
start_again-Still what e c = ground arith

down-Orders : (now : ℕ) → Orders (down now)
unfolding down expire_requests forget_rich
down-Orders now c h = h

forget_turns-Still : Still forget_turns
unfolding forget_turns clear_session_usage set_limit_stop set_retry_wait set_usage
forget_turns-Still c = ground arith

start_failed-Orders :
    (gen : ℕ) (e : Text) (again : Bool) (now : ℕ) → Orders (start_failed gen e again now)
unfolding start_failed
start_failed-Orders gen e again now c h =
    let d = down-Orders now c h in
    let d' : IsOrdered (start_again e (some e) (down now c)).messages =
      rw (start_again-Still e (some e) (down now c)) d in
    ground (arith, h, d, d')

login_missing-Orders : (gen : ℕ) (r : Resume) (l : LoginRequired) → Orders (login_missing gen r l)
unfolding login_missing set_login
login_missing-Orders gen r l c h = ground (arith, h)

exited-Orders : (gen at : ℕ) (e : Option Text) (now : ℕ) → Orders (exited gen at e now)
unfolding exited
exited-Orders gen at e now c h =
    let c₁ : Conversation = if leb restart_reset (now - at) then record c { restarts = 0 } else c in
    let same : c₁.messages ≡ c.messages = ground arith in
    let d : IsOrdered (down now c₁).messages = down-Orders now c₁ (rw same h) in
    let what : Text = elim e [ none ↦ [] | some t ↦ t ] in
    let d' : IsOrdered (start_again what e (down now c₁)).messages =
      rw (start_again-Still what e (down now c₁)) d in
    ground (arith, h, d, d')

replace-Orders : (r : Resume) (now : ℕ) → Orders (λ c. (replace r now c).0)
unfolding replace retire
replace-Orders r now c h =
    down-Orders now (record c { login_waiting = false; start_errors = []; relaunch_wake = false }) h

close-Orders : (now : ℕ) → Orders (λ c. (close now c).0)
unfolding close retire
close-Orders now c h =
    down-Orders now (record c { login_waiting = false; start_errors = []; relaunch_wake = false }) h

begin_restart-Orders : (now : ℕ) (c : Conversation) → IsOrdered (begin_restart now c).0.messages
unfolding begin_restart reset
begin_restart-Orders now c = rw (forget_turns-Still _) (omega arith)

begin_switch-Orders :
    (r : Resume) (ms : List Message) (now hi : ℕ)
    → Ascends 0 ms hi
    → Orders (λ c. (begin_switch r ms now c).0)
unfolding begin_switch
begin_switch-Orders r ms now hi rise c h = elim (Bool-cases (c.turn_active || c.compacting)) [
  | inl busy ↦ rw busy h
  | inr free ↦ rw free (
      rw
        (forget_turns-Still (record (replace r now c).0 {
          session_ref = r.ref;
          forking = r.fork;
          prompt_sent = true;
          messages = new_log ms;
        }))
        (new_log-IsOrdered ms hi rise))
]

retry_login-Orders : (now : ℕ) → Orders (λ c. (retry_login now c).0)
unfolding retry_login
retry_login-Orders now c h = ground (arith, h, replace-Orders (resume_of c) now c h)

-- The messages that a switch brings have rising Ids; other steps bring none.
abbrev pub Brings : Step → Type 0
Brings (Step.switches r ms now) = (hi : ℕ) × Ascends 0 ms hi
Brings s = Unit {0}

abbrev pub AllBring : List Step → Type 0
AllBring [] = Unit {0}
AllBring (s ∷ ss) = Brings s × AllBring ss

step-Orders : (s : Step) → Brings s → Orders (λ c. step c s)
unfolding step mark created begin_compact end_compact schedule_continue dismiss_limit_stop
    cancel_retry set_limit_stop set_retry_wait relaunch_due start_replacement start
step-Orders (Step.reports gen e now) b c h = sink-Orders gen e now c h
step-Orders (Step.begins_turn input now) b c h = begin_turn-Orders input now c h
step-Orders (Step.answers_turn turn answer) b c h = deliver_turn-Orders turn answer c h
step-Orders (Step.steers gen input now) b c h = steered-Orders gen input now c h
step-Orders (Step.ends_unconfirmed gen now) b c h = end_unconfirmed_turn-Orders gen now c h
step-Orders Step.begins_compact b c h = ground (arith, h)
step-Orders (Step.ends_compact gen) b c h = ground (arith, h)
step-Orders (Step.schedules at) b c h = ground (arith, h)
step-Orders Step.dismisses b c h = ground (arith, h)
step-Orders Step.cancels b c h = ground (arith, h)
step-Orders (Step.marks limited retried) b c h = ground (arith, h)
step-Orders (Step.puts_back l r ls w later) b c h = rw (put_back-Still l r ls w later c) h
step-Orders (Step.creates gen a) b c h = ground (arith, h)
step-Orders (Step.starts gen caps s prompt now) b c h =
    start_worked-Orders gen caps s prompt now c h
step-Orders (Step.fails_start gen e again now) b c h = start_failed-Orders gen e again now c h
step-Orders (Step.lacks_login gen r l) b c h = login_missing-Orders gen r l c h
step-Orders (Step.exits gen at e now) b c h = exited-Orders gen at e now c h
step-Orders (Step.wakes r) b c h = ground (arith, h)
step-Orders (Step.restarts now) b c h = begin_restart-Orders now c
step-Orders (Step.switches r ms now) (hi, rise) c h = begin_switch-Orders r ms now hi rise c h
step-Orders (Step.starts_replacement r) b c h = ground (arith, h)
step-Orders (Step.begins_answer id r) b c h = rw (begin_respond-Still id r c) h
step-Orders (Step.ends_answer id r a now) b c h = rw (end_respond-Still id r a now c) h
step-Orders (Step.learns_options gen s) b c h = rw (end_setting_options-Still gen s c) h
step-Orders (Step.applies gen s a settings caps) b c h =
    rw (end_apply_settings-Still gen s a settings caps c) h
step-Orders (Step.marks_retry n) b c h = h
step-Orders Step.launches b c h = h
step-Orders (Step.closes now) b c h = close-Orders now c h
step-Orders (Step.retries_login now) b c h = retry_login-Orders now c h

-- Any steps of a conversation keep the Ids of its log rising and below the next one, if the
-- messages that switches bring have rising Ids.
pub run-IsOrdered :
    (ss : List Step) (c : Conversation)
    → AllBring ss
    → IsOrdered c.messages
    → IsOrdered (run c ss).messages
unfolding run
run-IsOrdered [] c b h = h
run-IsOrdered (s ∷ ss) c b h = run-IsOrdered ss (step c s) b.1 (step-Orders s b.0 c h)
