-- ===== src/Convstate/Types.antt =====
-- The data of lib/convstate/events.go and lib/instanceapi/summary.go: an agent's status, tasks and
-- errors. Times are nanoseconds since Go's zero time. Of the status, the fields that are the same
-- for every run (Transport, Version) are left out.
use agentapi.Prelude.{
  ℕ, ◌+◌, ◌-◌, Bool, true, false, List, [], ◌∷◌, ◌++◌, Option, String, Text, leb, ltb,
  if◌then◌else◌,
}
use agentapi.Native.Types.{Capabilities, LoginRequired, Settings, AgentUsage}
use agentapi.Native.State.{LimitStop, RetryWait, Level}

pub data AgentStatus : Type 0 where
  running stable : AgentStatus

pub data LifecycleState : Type 0 where
  starting ready running restarting exited failed : LifecycleState

pub data TaskStatus : Type 0 where
  running completed failed limited : TaskStatus

pub record StatusChangeBody : Type 0 where
  pub status : AgentStatus
  pub lifecycle : LifecycleState
  pub server_id : String
  pub turn : ℕ
  pub agent_session_id : String
  pub agent_type : String
  pub session_name : String
  pub pending_requests : ℕ
  pub capabilities : Option Capabilities
  pub login_required : Option LoginRequired
  pub settings : Option Settings
  pub usage : Option AgentUsage
  pub limit_stop : Option LimitStop
  pub retry_wait : Option RetryWait
  pub terminal : Bool

-- An error that the agent reported; `number` counts those that the emitter stored, from 1.
pub record ErrorBody : Type 0 where
  pub message : Text
  pub level : Level
  pub time : ℕ
  pub number : ℕ

-- A message of the user's and the agent's turn on it; `id` is the message's.
pub record Task : Type 0 where
  pub id : ℕ
  pub status : TaskStatus
  pub prompt : Text
  pub started_at : ℕ
  pub ended_at : Option ℕ
  pub reply_id : Option ℕ
  pub steered : List ℕ
  pub errors : List Text
  pub limit : Option LimitStop

-- Task.Final.
abbrev pub is_final : Task → Bool
is_final t = elim t.status [ TaskStatus.running ↦ false | _ ↦ true ]

-- The bytes of a code point in UTF-8.
unfoldable pub rune_len : ℕ → ℕ
rune_len c = if ltb c 0x80 then 1 else if ltb c 0x800 then 2 else if ltb c 0x10000 then 3 else 4

unfoldable pub byte_len : Text → ℕ
byte_len [] = 0
byte_len (c ∷ s) = rune_len c + byte_len s

-- The longest start of at most `n` bytes that ends on a character boundary.
unfoldable pub whole_runes : ℕ → Text → Text
whole_runes n [] = []
whole_runes n (c ∷ s) =
    let rest = whole_runes (n - rune_len c) s in if leb (rune_len c) n then c ∷ rest else []

-- `cut` of lib/convstate/text.go, on valid UTF-8; the ellipsis is U+2026.
unfoldable pub cut : Text → ℕ → Text
cut s n = if leb (byte_len s) n then s else whole_runes n s ++ 0x2026 ∷ []
