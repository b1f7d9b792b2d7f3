-- ===== src/Native/Steps/Generations.antt =====
-- The generations of the conversation's agent: what an agent that was replaced still reports, and
-- the steps of its start, change nothing.
use agentapi.Prelude.{
  ℕ, suc, ◌-◌, leb, ◌≤◌, ◌<◌, ◌≡◌, refl, ◌∙◌, Bool, true, false, ◌&&◌, ◌||◌, List, [], ◌∷◌, Option,
  none, some, Text, arith, ◌==◌, if◌then◌else◌, Bool-cases, inl, inr, is_some,
}
use agentapi.Native.Types.{LoginRequired, Settings, Input, Resume}
use agentapi.Native.MessageLog.{Message, new_log}
use agentapi.Native.State.{Conversation, Adapter, set_limit_stop, set_retry_wait}
use agentapi.Native.Sink.{set_login, Event, sink}
use agentapi.Native.Turn.{begin_compact, end_compact}
use agentapi.Native.Limit.{schedule_continue, dismiss_limit_stop, cancel_retry}
use agentapi.Native.Continue.{mark}
use agentapi.Native.State.{resume_of}
use agentapi.Native.Types.{Capabilities}
use agentapi.Native.Lifecycle.{
  restart_reset, start, close, down, retire, replace, created, start_worked, start_failed,
  login_missing, exited, relaunch_due, begin_restart, begin_switch, start_replacement, retry_login,
}
use agentapi.Native.Steps.{Step, step, run}
use agentapi.Native.Steps.Keeps.{
  sink-Keeps, begin_turn-Keeps, deliver_turn-Keeps, steered-Keeps, end_unconfirmed_turn-Keeps,
  put_back-Keeps, end_respond-Keeps, begin_respond-Keeps, end_setting_options-Keeps,
  end_apply_settings-Keeps, start_worked-Keeps, start_again-Keeps, down-raises, forget_turns-Keeps,
}

-- A restart, a switch and a replacement for a login give the next agent the next generation.
replace-raises :
    (resume : Resume) (now : ℕ) (c : Conversation)
    → (replace resume now c).0.generation ≡ suc c.generation
unfolding replace retire
replace-raises resume now c =
    down-raises now (record c { login_waiting = false; start_errors = []; relaunch_wake = false })

close-raises : (now : ℕ) (c : Conversation) → (close now c).0.generation ≡ suc c.generation
unfolding close retire
close-raises now c =
    down-raises now (record c { login_waiting = false; start_errors = []; relaunch_wake = false })

begin_restart-raises :
    (now : ℕ) (c : Conversation) → (begin_restart now c).0.generation ≡ suc c.generation
unfolding begin_restart
begin_restart-raises now c =
    forget_turns-Keeps _ ∙ replace-raises (record { ref = ""; fork = false }) now c

abbrev Grows : (Conversation → Conversation) → Type 0
Grows f = (c : Conversation) → c.generation ≤ (f c).generation

begin_switch-Grows :
    (resume : Resume) (messages : List Message) (now : ℕ)
    → Grows (λ c. (begin_switch resume messages now c).0)
begin_switch-Grows resume messages now c = elim (Bool-cases (c.turn_active || c.compacting)) [
  | inl busy ↦ unfold begin_switch in rw busy (omega arith)
  | inr free ↦
      unfold begin_switch in
      rw free (
        omega (
          arith,
          forget_turns-Keeps (record (replace resume now c).0 {
            session_ref = resume.ref;
            forking = resume.fork;
            prompt_sent = true;
            messages = new_log messages;
          }),
          replace-raises resume now c,
        ))
]

retry_login-Grows : (now : ℕ) → Grows (λ c. (retry_login now c).0)
unfolding retry_login
retry_login-Grows now c = ground (arith, replace-raises (resume_of c) now c)

start_failed-Grows :
    (gen : ℕ) (e : Text) (again : Bool) (now : ℕ) → Grows (start_failed gen e again now)
unfolding start_failed
start_failed-Grows gen e again now c =
    ground (arith, down-raises now c, start_again-Keeps e (some e) (down now c))

login_missing-Grows : (gen : ℕ) (r : Resume) (l : LoginRequired) → Grows (login_missing gen r l)
unfolding login_missing set_login
login_missing-Grows gen r l c = ground arith

exited-Grows : (gen at : ℕ) (e : Option Text) (now : ℕ) → Grows (exited gen at e now)
unfolding exited
exited-Grows gen at e now c =
    let c₁ : Conversation = if leb restart_reset (now - at) then record c { restarts = 0 } else c in
    let same : c₁.generation ≡ c.generation = ground arith in
    ground (
      arith,
      same,
      down-raises now c₁,
      start_again-Keeps (elim e [ none ↦ [] | some t ↦ t ]) e (down now c₁),
    )

step-Grows : (s : Step) → Grows (λ c. step c s)
unfolding step mark created begin_compact end_compact schedule_continue dismiss_limit_stop
    cancel_retry set_limit_stop set_retry_wait relaunch_due start_replacement start
step-Grows (Step.reports gen e now) c = omega (arith, sink-Keeps gen e now c)
step-Grows (Step.begins_turn input now) c = omega (arith, begin_turn-Keeps input now c)
step-Grows (Step.answers_turn turn answer) c = omega (arith, deliver_turn-Keeps turn answer c)
step-Grows (Step.steers gen input now) c = omega (arith, steered-Keeps gen input now c)
step-Grows (Step.ends_unconfirmed gen now) c = omega (arith, end_unconfirmed_turn-Keeps gen now c)
step-Grows Step.begins_compact c = ground arith
step-Grows (Step.ends_compact gen) c = ground arith
step-Grows (Step.schedules at) c = ground arith
step-Grows Step.dismisses c = ground arith
step-Grows Step.cancels c = ground arith
step-Grows (Step.marks limited retried) c = ground arith
step-Grows (Step.puts_back l r ls w later) c = omega (arith, put_back-Keeps l r ls w later c)
step-Grows (Step.creates gen a) c = ground arith
step-Grows (Step.starts gen caps s prompt now) c =
    omega (arith, start_worked-Keeps gen caps s prompt now c)
step-Grows (Step.fails_start gen e again now) c = start_failed-Grows gen e again now c
step-Grows (Step.lacks_login gen r l) c = login_missing-Grows gen r l c
step-Grows (Step.exits gen at e now) c = exited-Grows gen at e now c
step-Grows (Step.wakes r) c = ground arith
step-Grows (Step.restarts now) c = omega (arith, begin_restart-raises now c)
step-Grows (Step.switches r ms now) c = begin_switch-Grows r ms now c
step-Grows (Step.starts_replacement r) c = ground arith
step-Grows (Step.begins_answer id r) c = omega (arith, begin_respond-Keeps id r c)
step-Grows (Step.ends_answer id r a now) c = omega (arith, end_respond-Keeps id r a now c)
step-Grows (Step.learns_options gen s) c = omega (arith, end_setting_options-Keeps gen s c)
step-Grows (Step.applies gen s a settings caps) c =
    omega (arith, end_apply_settings-Keeps gen s a settings caps c)
step-Grows (Step.marks_retry n) c = omega arith
step-Grows Step.launches c = omega arith
step-Grows (Step.closes now) c = omega (arith, close-raises now c)
step-Grows (Step.retries_login now) c = retry_login-Grows now c

run-Grows : (ss : List Step) → Grows (λ c. run c ss)
unfolding run
run-Grows [] c = omega arith
run-Grows (s ∷ ss) c = omega (arith, step-Grows s c, run-Grows ss (step c s))

-- Whatever happens to the conversation after the agent of a generation was replaced: what that
-- agent still reports, and every step of its start, its exit or its waiting start, changes nothing.
pub replaced_agent_ignored :
    (gen : ℕ) (ss : List Step) (c : Conversation)
    → gen < c.generation
    → let c' = run c ss in
      ((e : Event) (now : ℕ) → sink gen e now c' ≡ c')
      × ((a : Adapter) → created gen a c' ≡ c')
      × ((caps : Capabilities) (s : Settings) (prompt : Input) (now : ℕ)
          → start_worked gen caps s prompt now c' ≡ (c', none))
      × ((e : Text) (again : Bool) (now : ℕ) → start_failed gen e again now c' ≡ c')
      × ((r : Resume) (l : LoginRequired) → login_missing gen r l c' ≡ c')
      × ((at now : ℕ) (e : Option Text) → exited gen at e now c' ≡ c')
      × ((r : Resume) (delay : ℕ)
          → relaunch_due (record { gen = gen; resume = r; delay = delay }) c' ≡ c')
unfolding sink created start_worked start_failed login_missing exited relaunch_due
replaced_agent_ignored gen ss c lt =
    let c' = run c ss in
    let old : (gen == c'.generation) ≡ false = ground (arith, run-Grows ss c) in
    (
      λ e now. rw old refl,
      λ a. rw old refl,
      λ caps s prompt now. rw old refl,
      λ e again now. rw old refl,
      λ r l. rw old refl,
      λ at now e. rw old refl,
      λ r delay. rw old refl,
    )

-- The step ends the agent of the conversation's generation: its exit, a failed start, a missing
-- login, a restart, a switch while no turn runs, a close, or a replacement for a login.
pub data Ends (c : Conversation) : Step → Type 0 where
  by_exit : {at : ℕ} {e : Option Text} {now : ℕ} → Ends c (Step.exits c.generation at e now)
  by_failure :
      {e : Text} {again : Bool} {now : ℕ} → Ends c (Step.fails_start c.generation e again now)
  by_missing_login : {r : Resume} {l : LoginRequired} → Ends c (Step.lacks_login c.generation r l)
  by_restart : {now : ℕ} → Ends c (Step.restarts now)
  by_switch :
      {r : Resume} {ms : List Message} {now : ℕ}
      → (c.turn_active || c.compacting) ≡ false
      → Ends c (Step.switches r ms now)
  by_close : {now : ℕ} → Ends c (Step.closes now)
  by_login : {now : ℕ} → (is_some c.login && c.is_started) ≡ true → Ends c (Step.retries_login now)

exited-raises :
    (at : ℕ) (e : Option Text) (now : ℕ) (c : Conversation)
    → c.generation < (exited c.generation at e now c).generation
unfolding exited
exited-raises at e now c =
    let c₁ : Conversation = if leb restart_reset (now - at) then record c { restarts = 0 } else c in
    let same : c₁.generation ≡ c.generation = ground arith in
    ground (
      arith,
      same,
      down-raises now c₁,
      start_again-Keeps (elim e [ none ↦ [] | some t ↦ t ]) e (down now c₁),
    )

start_failed-raises :
    (e : Text) (again : Bool) (now : ℕ) (c : Conversation)
    → c.generation < (start_failed c.generation e again now c).generation
unfolding start_failed
start_failed-raises e again now c =
    ground (arith, down-raises now c, start_again-Keeps e (some e) (down now c))

login_missing-raises :
    (r : Resume) (l : LoginRequired) (c : Conversation)
    → c.generation < (login_missing c.generation r l c).generation
unfolding login_missing set_login
login_missing-raises r l c = ground arith

begin_switch-raises :
    (r : Resume) (ms : List Message) (now : ℕ) (c : Conversation)
    → (c.turn_active || c.compacting) ≡ false
    → c.generation < (begin_switch r ms now c).0.generation
unfolding begin_switch
begin_switch-raises r ms now c free = rw free (
    omega (
      arith,
      forget_turns-Keeps (record (replace r now c).0 {
        session_ref = r.ref;
        forking = r.fork;
        prompt_sent = true;
        messages = new_log ms;
      }),
      replace-raises r now c,
    ))

Ends-raises : (c : Conversation) {s : Step} → Ends c s → c.generation < (step c s).generation
unfolding step retry_login
Ends-raises c (by_exit {at} {e} {now}) = exited-raises at e now c
Ends-raises c (by_failure {e} {again} {now}) = start_failed-raises e again now c
Ends-raises c (by_missing_login {r} {l}) = login_missing-raises r l c
Ends-raises c (by_restart {now}) = omega (arith, begin_restart-raises now c)
Ends-raises c (by_switch {r} {ms} {now} h) = begin_switch-raises r ms now c h
Ends-raises c (by_close {now}) = omega (arith, close-raises now c)
Ends-raises c (by_login {now} h) = ground (arith, h, replace-raises (resume_of c) now c)

-- After the step that ended an agent, and whatever else happens then, no event of that agent and
-- no other end of it changes anything.
pub ended_agent_ignored :
    (c : Conversation) (s : Step) (ss : List Step)
    → Ends c s
    → let c' = run (step c s) ss in
      ((e : Event) (now : ℕ) → step c' (Step.reports c.generation e now) ≡ c')
      × ((at now : ℕ) (e : Option Text) → step c' (Step.exits c.generation at e now) ≡ c')
      × ((e : Text) (again : Bool) (now : ℕ)
          → step c' (Step.fails_start c.generation e again now) ≡ c')
unfolding step
ended_agent_ignored c s ss h =
    let (events, _, _, failed, _, gone, _) =
      replaced_agent_ignored c.generation ss (step c s) (Ends-raises c h) in
    (events, gone, failed)
