-- ===== src/Native/Types.antt =====
-- The data of lib/native/types.go, settings.go and usage.go. Go's named string types with a fixed
-- set of values are data types; `other` is any other string. Times are nanoseconds since Go's zero
-- time, so 0 is the zero time; a pointer that may be nil is an `Option`.
use agentapi.Prelude.{ℕ, Bool, true, false, List, Option, String, Text, if◌then◌else◌, str_eq, ◌&&◌}

pub record Capabilities : Type 0 where
  pub steer : Bool
  pub interrupt : Bool
  pub resume : Bool
  pub images : Bool
  pub settings : Bool
  pub compact : Bool

pub record LoginRequired : Type 0 where
  pub agent : String
  pub message : String
  pub command : String
  pub detail : String
  pub host : String
  pub user : String

pub record Image : Type 0 where
  pub path : String
  pub media_type : String

pub record Input : Type 0 where
  pub text : Text
  pub images : List Image

pub data RequestKind : Type 0 where
  approval question plan : RequestKind
  other : String → RequestKind

-- `unset` is the empty string.
pub data ResponseCapability : Type 0 where
  unset live message not_resumable : ResponseCapability

pub record RequestOption : Type 0 where
  pub id : String
  pub label : String
  pub description : String
  pub kind : String

pub record QuestionOption : Type 0 where
  pub label : String
  pub description : String

pub record Question : Type 0 where
  pub id : String
  pub header : String
  pub text : String
  pub options : List QuestionOption
  pub multi_select : Bool
  pub free_text : Bool
  pub secret : Bool

pub record Request : Type 0 where
  pub id : String
  pub kind : RequestKind
  pub title : String
  pub detail : String
  pub tool_name : String
  pub tool_use_id : String
  pub input : String
  pub options : List RequestOption
  pub questions : List Question
  pub feedback : Bool
  pub capability : ResponseCapability
  pub created_at : ℕ

pub record Response : Type 0 where
  pub option_id : String
  pub answers : List (String × List String)
  pub text : String

pub data StopReason : Type 0 where
  end_turn interrupted error max_tokens handled limited transient : StopReason
  other : String → StopReason

-- How a turn ended. `api_status` is 0 when the agent doesn't say.
pub record TurnResult : Type 0 where
  pub stop_reason : StopReason
  pub error : Text
  pub resets_at : Option ℕ
  pub api_status : ℕ

pub record Resume : Type 0 where
  pub ref : String
  pub fork : Bool

-- An empty field is one the agent does not report or, in a change, one to leave as it is.
pub record Settings : Type 0 where
  pub permission_mode : String
  pub model : String
  pub effort : String

unfoldable pub merge : Settings → Settings → Settings
merge s o = record {
  permission_mode = if str_eq o.permission_mode "" then s.permission_mode else o.permission_mode;
  model = if str_eq o.model "" then s.model else o.model;
  effort = if str_eq o.effort "" then s.effort else o.effort;
}

-- Go's == on settings.
unfoldable pub settings_eq : Settings → Settings → Bool
settings_eq s o =
    str_eq s.permission_mode o.permission_mode && str_eq s.model o.model && str_eq s.effort o.effort

unfoldable pub flag_eq : Bool → Bool → Bool
flag_eq true b = b
flag_eq false true = false
flag_eq false false = true

unfoldable pub capabilities_eq : Capabilities → Capabilities → Bool
capabilities_eq a b =
    flag_eq a.steer b.steer
    && flag_eq a.interrupt b.interrupt
    && flag_eq a.resume b.resume
    && flag_eq a.images b.images
    && flag_eq a.settings b.settings
    && flag_eq a.compact b.compact

pub record ContextUsage : Type 0 where
  pub used : ℕ
  pub size : ℕ

pub record PromptCache : Type 0 where
  pub ttl_seconds : ℕ
  pub expires_at : ℕ

-- `full` says whether UsedPercent is given and at least 100: no other use is made of that float.
pub record RateLimit : Type 0 where
  pub id : String
  pub label : String
  pub full : Bool
  pub resets_at : Option ℕ
  pub status : String

pub record AgentUsage : Type 0 where
  pub context : Option ContextUsage
  pub rate_limits : List RateLimit
  pub prompt_cache : Option PromptCache
