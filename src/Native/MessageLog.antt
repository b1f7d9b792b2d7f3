-- ===== src/Native/MessageLog.antt =====
-- The conversation as messages: `messageLog` of lib/native/message_log.go.
--
-- `agentText` and `richPart` are shared by pointer. A part is named by the ID of its rich message,
-- its key in `rich`, and an agent text by the Id of its message; `texts` holds the parts of each
-- agent text in the order they appeared.
pub mod Ids
pub mod Middle
pub mod Rich
use agentapi.Prelude.{
  ℕ, suc, ◌-◌, max, Bool, true, false, not, ◌&&◌, List, [], ◌∷◌, ◌++◌, map, Option, none, some,
  String, str_eq, string_eq, nat_eq, Text, text_eq, is_empty, trim_space, join, ◌==◌, if◌then◌else◌,
  keep, index_func, delete_at, modify_at, get_elem?, dict_get, dict_put, dict_delete, length,
}
use mathlib.Core.Option
use agentapi.Transcript.{RichMessage, Block}

pub data Role : Type 0 where
  user agent : Role

pub record Message : Type 0 where
  pub id : ℕ
  pub text : Text
  pub role : Role
  pub time : ℕ

-- The text a rich message adds to the agent message with Id `msg`.
pub record RichPart : Type 0 where
  pub msg : ℕ
  pub text : Text

pub record MessageLog : Type 0 where
  pub messages : List Message
  pub next_id : ℕ
  pub building : Option ℕ
  pub texts : List (ℕ × List String)
  pub rich : List (String × RichPart)

next_after : ℕ → List Message → ℕ
next_after n [] = n
next_after n (m ∷ ms) = next_after (max n (suc m.id)) ms

unfoldable pub new_log : List Message → MessageLog
unfolding next_after
new_log messages = record {
  messages = messages;
  next_id = next_after 0 messages;
  building = none;
  texts = [];
  rich = [];
}

unfoldable pub forget_rich : MessageLog → MessageLog
forget_rich t = record t { building = none; texts = []; rich = [] }

unfoldable pub reset : MessageLog → MessageLog
unfolding forget_rich
reset t = forget_rich (record t { messages = []; next_id = 0 })

unfoldable pub end_agent_message : MessageLog → MessageLog
end_agent_message t = record t { building = none }

unfoldable pub append_user : MessageLog → Text → ℕ → MessageLog × ℕ
append_user t text now = (
  record t {
    messages =
        t.messages ++ (record { id = t.next_id; text = text; role = Role.user; time = now }) ∷ [];
    next_id = suc t.next_id;
    building = none;
  },
  t.next_id,
)

-- The index of the last message with an Id.
unfoldable pub index : ℕ → List Message → Option ℕ
index id [] = none
index id (m ∷ ms) = elim (index id ms) [
  | some i ↦ some (suc i)
  | none ↦ if m.id == id then some 0 else none
]

unfoldable pub remove : MessageLog → ℕ → MessageLog
remove t id = elim (index id t.messages) [
  | none ↦ t
  | some i ↦ record t {
    messages = delete_at i t.messages;
    next_id = if suc id == t.next_id then t.next_id - 1 else t.next_id;
  }
]

-- The text of an agent message: the texts of its parts that have one, joined by blank lines.
unfoldable pub part_texts : List String → List (String × RichPart) → List Text
part_texts [] rich = []
part_texts (key ∷ keys) rich = elim (dict_get key rich) [
  | none ↦ part_texts keys rich
  | some p ↦ if is_empty p.text then part_texts keys rich else p.text ∷ part_texts keys rich
]

abbrev pub blank_line : Text
blank_line = 10 ∷ 10 ∷ []

abbrev pub parts_of : ℕ → List (ℕ × List String) → List String
parts_of id texts = elim (dict_get id texts) [ none ↦ [] | some parts ↦ parts ]

unfoldable pub joined_text : MessageLog → ℕ → Text
unfolding part_texts
joined_text t id = join blank_line (part_texts (parts_of id t.texts) t.rich)

text_blocks : List Block → List Text
text_blocks [] = []
text_blocks (b ∷ bs) =
    let rest = text_blocks bs in
    if str_eq b.kind "text" && not (is_empty (trim_space b.text))
    then trim_space b.text ∷ rest
    else rest

unfoldable pub assistant_text : RichMessage → Text
unfolding text_blocks
assistant_text msg = join blank_line (text_blocks msg.content)

-- Starts an agent message unless one is being built; the result has its Id.
unfoldable pub building_message : MessageLog → ℕ → MessageLog × ℕ
building_message t now = elim t.building [
  | some id ↦ (t, id)
  | none ↦ (
    record t {
      building = some t.next_id;
      texts = dict_put t.next_id [] t.texts;
      messages =
          t.messages ++ (record { id = t.next_id; text = []; role = Role.agent; time = now }) ∷ [];
      next_id = suc t.next_id;
    },
    t.next_id,
  )
]

-- Ties a rich message that has no part yet to the agent message being built.
unfoldable pub new_part : MessageLog → String → ℕ → MessageLog × ℕ
unfolding building_message
new_part t key now =
    let (t', id) = building_message t now in
    (
      record t' {
        texts = dict_put id (parts_of id t'.texts ++ key ∷ []) t'.texts;
        rich = dict_put key (record { msg = id; text = [] }) t'.rich;
      },
      id,
    )

-- Whether the message at an index has a text.
unfoldable pub has_text : ℕ → Text → List Message → Bool
has_text i text ms = elim (get_elem? ms i) [ none ↦ false | some m ↦ text_eq m.text text ]

-- Sets the text of the part under `key`, which belongs to message `id`, and that message's text.
unfoldable pub set_part : MessageLog → String → ℕ → Text → MessageLog × Bool
set_part t key id text =
    let t' : MessageLog = record t {
      rich = dict_put key (record { msg = id; text = text }) t.rich;
    } in
    elim (index id t'.messages) [
      | none ↦ (t', false)
      | some i ↦ if has_text i (joined_text t' id) t'.messages then (t', false) else (
        record t' {
          messages = modify_at i (λ m. record m { text = joined_text t' id }) t'.messages;
        },
        true,
      )
    ]

unfoldable pub add_rich : MessageLog → RichMessage → ℕ → MessageLog × Bool
add_rich t msg now = elim (dict_get msg.message_id t.rich) [
  | some part ↦ set_part t msg.message_id part.msg (assistant_text msg)
  | none ↦
      if is_empty (assistant_text msg)
      then (t, false)
      else let (t', id) = new_part t msg.message_id now in
        set_part t' msg.message_id id (assistant_text msg)
]
