-- ===== src/Native/Lifecycle.antt =====
-- Starting the agent, starting it again after an exit, and replacing it: lib/native/lifecycle.go
-- and login.go.
--
-- The goroutine of a start runs in steps: the factory made an adapter (`created`), the adapter's
-- Start returned (`start_failed`, `login_missing` or `start_worked`), the wait before a new start
-- ended (`relaunch_due`). A step of a goroutine whose generation is over changes nothing.
pub mod Restarts
use agentapi.Prelude.{
  ℕ, suc, ◌+◌, ◌-◌, Bool, true, false, not, ◌||◌, List, [], ◌∷◌, Option, none, some, Text, is_empty,
  leb, ◌==◌, if◌then◌else◌, is_some, length, get_or, Result, ok, err,
}
use agentapi.Native.Types.{Capabilities, LoginRequired, Input, Resume, Settings}
use agentapi.Native.MessageLog.{Message, forget_rich, reset, new_log}
use agentapi.Native.State.{
  Conversation, Output, Note, Level, Status, Adapter, Relaunch, tell, emit_current_status,
  resume_of, clear_login, set_settings, set_usage, set_limit_stop, set_retry_wait, expire_requests,
}
use agentapi.Native.Sink.{set_login, with_local_account}
use agentapi.Native.Turn.{TurnError, PendingTurn, begin_turn}

-- restartReset: five minutes.
abbrev pub restart_reset : ℕ
restart_reset = 300_000_000_000

-- The agent is gone, and the next gets a generation of its own.
unfoldable pub down : ℕ → Conversation → Conversation
down now c =
    let c' = expire_requests true now (record c {
      generation = suc c.generation;
      adapter = none;
      is_started = false;
      turn_active = false;
      unconfirmed_turn = false;
      compacting = false;
    }) in
    record c' { messages = forget_rich c'.messages }

-- Waits for `delay`, then starts the agent of the current generation.
unfoldable pub relaunch : Resume → ℕ → Conversation → Conversation
relaunch resume delay c = record c {
  relaunch_wake = true;
  relaunches = (record { gen = c.generation; resume = resume; delay = delay }) ∷ c.relaunches;
}

unfoldable pub restart_resume : Conversation → Resume
restart_resume c =
    if not c.ran || c.caps.resume then resume_of c else record { ref = ""; fork = false }

unfoldable pub start_again : Text → Option Text → Conversation → Conversation
unfolding relaunch restart_resume
start_again what e c =
    let delays = c.cfg.restart_delays in
    let c₀ : Conversation = record c { login_waiting = false } in
    let delay = get_or delays c.restarts 0 in
    let attempt = c.restarts + 1 in
    if leb (length delays) c.restarts
    then tell (Output.agent_exited (record { err = e; attempt = 0; attempts = 0; delay = 0 })) (
        clear_login
          (tell (Output.emit_error (Note.gave_up_starting what c.restarts) Level.error) c₀))
    else relaunch (restart_resume c) delay (
        tell
          (Output.agent_exited
            (record { err = e; attempt = attempt; attempts = length delays; delay = delay }))
          (tell
            (Output.emit_error (Note.starts_again what delay attempt (length delays)) Level.error)
            (record c₀ { restarts = attempt })))

-- `Start`: the state of the first launch, of the current generation.
unfoldable pub start : Conversation → Conversation
start c = tell (Output.emit_status Status.initializing) c

-- The factory made an adapter for generation `gen`.
unfoldable pub created : ℕ → Adapter → Conversation → Conversation
created gen a c = if gen == c.generation then record c { adapter = some a } else c

unfoldable pub mark_started : Capabilities → Settings → Conversation → Conversation
mark_started caps settings c = tell (Output.started caps) (
    clear_login (
      let c' = set_settings settings (record c { is_started = true; ran = true; caps = caps }) in
      record c' { login_waiting = false; start_errors = [] }))

-- Begins the turn of the initial prompt, unless there is none or it was sent already.
unfoldable pub begin_initial_prompt : Input → ℕ → Conversation → Conversation × Option PendingTurn
begin_initial_prompt prompt now c =
    if is_empty c.cfg.initial_prompt || c.prompt_sent
    then (c, none)
    else (let (c', begun) = begin_turn prompt now (record c { prompt_sent = true }) in
        elim begun [
          | err e ↦ (tell (Output.emit_error Note.prompt_failed Level.error) c', none)
          | ok turn ↦ (c', some turn)
        ])

-- The adapter of generation `gen` accepts turns.
unfoldable pub start_worked :
    ℕ → Capabilities → Settings → Input → ℕ → Conversation → Conversation × Option PendingTurn
start_worked gen caps settings prompt now c =
    if not (gen == c.generation)
    then (c, none)
    else (let (c', turn) = begin_initial_prompt prompt now (mark_started caps settings c) in
        (emit_current_status c', turn))

-- A start that failed: made again if the conversation made it by itself (`again`).
unfoldable pub start_failed : ℕ → Text → Bool → ℕ → Conversation → Conversation
unfolding down start_again
start_failed gen e again now c =
    if not (gen == c.generation)
    then c
    else if again
    then start_again e (some e) (down now c)
    else tell (Output.agent_exited (record { err = some e; attempt = 0; attempts = 0; delay = 0 }))
        (tell (Output.emit_error (Note.start_failed e) Level.error) (down now c))

unfoldable pub await_login_with : Resume → Conversation → Conversation
unfolding relaunch
await_login_with resume c =
    relaunch resume c.cfg.login_retry_interval (record c { login_waiting = true })

-- A start found no login: the agent is started again until one works.
unfoldable pub login_missing : ℕ → Resume → LoginRequired → Conversation → Conversation
unfolding await_login_with
login_missing gen resume l c =
    if not (gen == c.generation)
    then c
    else (let l' = with_local_account c.cfg l in
        let (c', new) = set_login l' (record c { generation = suc c.generation; adapter = none }) in
        await_login_with resume
          (if new then tell (Output.emit_error (Note.needs_login l') Level.warning) c' else c'))

-- The adapter of generation `gen`, which started at `started_at`, exited.
unfoldable pub exited : ℕ → ℕ → Option Text → ℕ → Conversation → Conversation
unfolding down start_again await_login_with
exited gen started_at e now c =
    let c₁ : Conversation =
      if leb restart_reset (now - started_at) then record c { restarts = 0 } else c in
    let c₂ = down now c₁ in
    if not (gen == c.generation)
    then c
    else if is_some c₂.login
    then await_login_with (resume_of c₂) (tell (Output.emit_status Status.initializing) c₂)
    else start_again (elim e [ none ↦ [] | some t ↦ t ]) e c₂

-- The wait of a relaunch ended.
unfoldable pub relaunch_due : Relaunch → Conversation → Conversation
relaunch_due r c =
    if r.gen == c.generation
    then tell (Output.emit_status Status.initializing) (record c { relaunch_wake = false })
    else c

-- Stops using the current adapter, which the caller closes.
unfoldable pub retire : ℕ → Conversation → Conversation × Option Adapter
unfolding down
retire now c = (
  down now (record c { login_waiting = false; start_errors = []; relaunch_wake = false }),
  c.adapter,
)

-- Close stops the agent; closing the adapter it returns is the caller's.
unfoldable pub close : ℕ → Conversation → Conversation × Option Adapter
unfolding retire
close now c = retire now c

unfoldable pub clear_session_usage : Conversation → Conversation
clear_session_usage c =
    if is_some c.usage.context || is_some c.usage.prompt_cache
    then set_usage (record (c.usage) { context = none; prompt_cache = none }) c
    else c

-- What replaces the agent: started by `Replacement.Start`, which closes the old adapter.
pub record Replacement : Type 0 where
  pub gen : ℕ
  pub resume : Resume
  pub old : Option Adapter

unfoldable pub replace : Resume → ℕ → Conversation → Conversation × Replacement
unfolding retire
replace resume now c =
    let (c', old) = retire now c in
    (record c' { restarts = 0 }, record { gen = c'.generation; resume = resume; old = old })

-- The end of a replacement: no limit stop, retry or session usage goes on.
unfoldable pub forget_turns : Conversation → Conversation
unfolding clear_session_usage
forget_turns c =
    let c' = set_retry_wait none (set_limit_stop none c) in
    clear_session_usage (record c' { retrying = 0 })

unfoldable pub begin_restart : ℕ → Conversation → Conversation × Replacement
unfolding replace forget_turns
begin_restart now c =
    let (c', r) = replace (record { ref = ""; fork = false }) now c in
    (
      tell (Output.emit_messages []) (
          forget_turns (record c' {
            session_ref = "";
            forking = false;
            prompt_sent = false;
            messages = reset c'.messages;
          })),
      r,
    )

unfoldable pub begin_switch :
    Resume → List Message → ℕ → Conversation → Conversation × Result TurnError Replacement
unfolding replace forget_turns
begin_switch resume messages now c =
    if c.turn_active || c.compacting
    then (c, err TurnError.busy)
    else (let (c', r) = replace resume now c in
        (
          tell (Output.emit_messages messages) (
              tell (Output.session_ref resume.ref) (
                forget_turns (record c' {
                  session_ref = resume.ref;
                  forking = resume.fork;
                  prompt_sent = true;
                  messages = new_log messages;
                }))),
          ok r,
        ))

-- The first step of Replacement.Start; the old adapter is closed before it.
unfoldable pub start_replacement : Replacement → Conversation → Conversation
start_replacement r c =
    if r.gen == c.generation then tell (Output.emit_status Status.initializing) c else c

-- What RetryLogin does: nothing waits for a login, a waiting start begins now, or the agent is
-- replaced.
pub data LoginRetry : Type 0 where
  no_login woken : LoginRetry
  replaced : Replacement → LoginRetry

unfoldable pub retry_login : ℕ → Conversation → Conversation × LoginRetry
unfolding replace
retry_login now c =
    if not (is_some c.login)
    then (c, LoginRetry.no_login)
    else if not c.is_started
    then (record c { relaunch_wake = false }, LoginRetry.woken)
    else (let (c', r) = replace (resume_of c) now c in
        (tell (Output.emit_status Status.initializing) c', LoginRetry.replaced r))
