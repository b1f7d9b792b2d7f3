-- ===== src/Convstate/Emitter/Waits.antt =====
-- The capabilities, and the turns that a limit stopped or that wait for a retry:
-- lib/convstate/events_status.go. Two times are equal when they are the same moment.
use agentapi.Prelude.{ℕ, Bool, true, false, ◌&&◌, Option, none, some, ◌==◌, text_eq, if◌then◌else◌}
use agentapi.Native.Types.{Capabilities, capabilities_eq}
use agentapi.Native.State.{LimitStop, RetryWait}
use agentapi.Convstate.Emitter.{EventEmitter, notify_status}
use agentapi.Convstate.Emitter.Keeps.{Keeps, keeps}

-- Two pointers are both nil, or what they point to is equal.
unfoldable pub deep_equal {ℓ} : {A : Type ℓ} → (A → A → Bool) → Option A → Option A → Bool
deep_equal same none none = true
deep_equal same none (some b) = false
deep_equal same (some a) none = false
deep_equal same (some a) (some b) = same a b

unfoldable pub limit_stop_eq : LimitStop → LimitStop → Bool
limit_stop_eq a b =
    text_eq a.message b.message
    && (a.stopped_at == b.stopped_at)
    && deep_equal (◌==◌) a.resets_at b.resets_at
    && deep_equal (◌==◌) a.continue_at b.continue_at

unfoldable pub retry_wait_eq : RetryWait → RetryWait → Bool
retry_wait_eq a b =
    text_eq a.message b.message
    && (a.api_status == b.api_status)
    && (a.stopped_at == b.stopped_at)
    && (a.attempt == b.attempt)
    && (a.attempts == b.attempts)
    && (a.retry_at == b.retry_at)

unfoldable pub set_capabilities : Capabilities → ℕ → EventEmitter → EventEmitter
set_capabilities caps now e =
    if elim e.capabilities [ none ↦ false | some old ↦ capabilities_eq old caps ]
    then e
    else notify_status now (record e { capabilities = some caps })

unfoldable pub set_limit_stop : Option LimitStop → ℕ → EventEmitter → EventEmitter
set_limit_stop stop now e =
    if deep_equal limit_stop_eq e.limit_stop stop
    then e
    else notify_status now (record e { limit_stop = stop })

unfoldable pub set_retry_wait : Option RetryWait → ℕ → EventEmitter → EventEmitter
set_retry_wait wait now e =
    if deep_equal retry_wait_eq e.retry_wait wait
    then e
    else notify_status now (record e { retry_wait = wait })

pub set_capabilities-Keeps :
    (caps : Capabilities) (now : ℕ) (e : EventEmitter) → Keeps e (set_capabilities caps now e)
unfolding set_capabilities
set_capabilities-Keeps caps now e = search keeps

pub set_limit_stop-Keeps :
    (stop : Option LimitStop) (now : ℕ) (e : EventEmitter) → Keeps e (set_limit_stop stop now e)
unfolding set_limit_stop
set_limit_stop-Keeps stop now e = search keeps

pub set_retry_wait-Keeps :
    (wait : Option RetryWait) (now : ℕ) (e : EventEmitter) → Keeps e (set_retry_wait wait now e)
unfolding set_retry_wait
set_retry_wait-Keeps wait now e = search keeps
