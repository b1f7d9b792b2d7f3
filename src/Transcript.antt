-- ===== src/Transcript.antt =====
-- The rich messages of lib/transcript/transcript.go. Raw JSON is a string.
use agentapi.Prelude.{ℕ, Bool, List, Option, String, Text}

pub record RichImage : Type 0 where
  pub media_type : String
  pub url : String

-- `kind` is the field Type.
pub record Block : Type 0 where
  pub kind : String
  pub text : Text
  pub thinking : Text
  pub tool_use_id : String
  pub tool_name : String
  pub tool_input : String
  pub status : String
  pub is_error : Option Bool
  pub images : List RichImage

pub record Usage : Type 0 where
  pub input_tokens : ℕ
  pub output_tokens : ℕ
  pub cache_creation_input_tokens : ℕ
  pub cache_read_input_tokens : ℕ

pub record RichMessage : Type 0 where
  pub message_id : String
  pub role : String
  pub content : List Block
  pub model : String
  pub stop_reason : String
  pub usage : Option Usage
  pub timestamp : ℕ
  pub task_id : Option ℕ
