-- ===== src/Convstate/Emitter/Status.antt =====
-- The status and the lifecycle: lib/convstate/events_status.go.
use agentapi.Prelude.{
  ℕ, suc, Bool, true, false, not, ◌&&◌, Option, none, some, String, str_eq, if◌then◌else◌,
}
use agentapi.Native.Types.{LoginRequired, Settings, settings_eq}
use agentapi.Native.State.{Status}
use agentapi.Convstate.Types.{AgentStatus, LifecycleState}
use agentapi.Convstate.Emitter.{EventEmitter, notify_status}

unfoldable pub convert_status : Status → AgentStatus
convert_status Status.initializing = AgentStatus.running
convert_status Status.stable = AgentStatus.stable
convert_status Status.changing = AgentStatus.running

unfoldable pub lifecycle_of : Status → LifecycleState
lifecycle_of Status.initializing = LifecycleState.starting
lifecycle_of Status.stable = LifecycleState.ready
lifecycle_of Status.changing = LifecycleState.running

unfoldable pub status_eq : AgentStatus → AgentStatus → Bool
status_eq AgentStatus.running AgentStatus.running = true
status_eq AgentStatus.stable AgentStatus.stable = true
status_eq a b = false

unfoldable pub lifecycle_eq : LifecycleState → LifecycleState → Bool
lifecycle_eq LifecycleState.starting LifecycleState.starting = true
lifecycle_eq LifecycleState.ready LifecycleState.ready = true
lifecycle_eq LifecycleState.running LifecycleState.running = true
lifecycle_eq LifecycleState.restarting LifecycleState.restarting = true
lifecycle_eq LifecycleState.exited LifecycleState.exited = true
lifecycle_eq LifecycleState.failed LifecycleState.failed = true
lifecycle_eq a b = false

-- The lifecycles that are held until they are released.
unfoldable pub is_held : LifecycleState → Bool
is_held LifecycleState.restarting = true
is_held LifecycleState.exited = true
is_held LifecycleState.failed = true
is_held l = false

unfoldable pub emit_status : Status → ℕ → EventEmitter → EventEmitter
emit_status new now e =
    let status = convert_status new in
    let lifecycle = if e.lifecycle_held then e.lifecycle else lifecycle_of new in
    let starts_turn =
      lifecycle_eq lifecycle LifecycleState.running
      && lifecycle_eq e.lifecycle LifecycleState.ready in
    let e' : EventEmitter = record e { reported = lifecycle_of new } in
    if status_eq e.status status && lifecycle_eq e.lifecycle lifecycle
    then e'
    else notify_status now (record e' {
      handoff_revision = suc e.handoff_revision;
      turn = if starts_turn then suc e.turn else e.turn;
      status = status;
      lifecycle = lifecycle;
    })

unfoldable pub set_lifecycle : LifecycleState → ℕ → EventEmitter → EventEmitter
set_lifecycle l now e =
    let e' : EventEmitter = record e { lifecycle_held = is_held l } in
    if lifecycle_eq e.lifecycle l
    then e'
    else notify_status now (record e' { lifecycle = l; handoff_revision = suc e.handoff_revision })

unfoldable pub release_lifecycle : ℕ → EventEmitter → EventEmitter
release_lifecycle now e =
    let e' : EventEmitter = record e { lifecycle_held = false } in
    if not e.lifecycle_held
    then e
    else if lifecycle_eq e.lifecycle e.reported
    then e'
    else notify_status now
        (record e' { lifecycle = e.reported; handoff_revision = suc e.handoff_revision })

unfoldable pub set_session_name : String → ℕ → EventEmitter → EventEmitter
set_session_name name now e =
    if str_eq e.session_name name then e else notify_status now (record e { session_name = name })

unfoldable pub set_agent_session_id : String → ℕ → EventEmitter → EventEmitter
set_agent_session_id id now e =
    if str_eq e.agent_session_id id
    then e
    else notify_status now (record e { agent_session_id = id })

unfoldable pub set_settings : Settings → ℕ → EventEmitter → EventEmitter
set_settings s now e =
    if elim e.settings [ none ↦ false | some old ↦ settings_eq old s ]
    then e
    else notify_status now (record e { settings = some s })

unfoldable pub set_login_required : Option LoginRequired → ℕ → EventEmitter → EventEmitter
set_login_required login now e =
    if elim login [ some l ↦ false | none ↦ elim e.login_required [ none ↦ true | some l ↦ false ] ]
    then e
    else notify_status now
        (record e { login_required = login; handoff_revision = suc e.handoff_revision })
