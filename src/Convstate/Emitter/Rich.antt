-- ===== src/Convstate/Emitter/Rich.antt =====
-- The rich messages: lib/convstate/events_messages.go.
use agentapi.Prelude.{
  ℕ, suc, ◌/◌, Bool, true, false, ◌&&◌, ◌≡◌, ◌↔◌, List, [], ◌∷◌, ◌++◌, Option, none, some, String,
  str_eq, arith, leb, if◌then◌else◌, length, get_or, map, modify_at, contains_func, index_func,
  nat_eq, string_eq, Eq, eq_iff,
}
use Prim.Native.String.{◌++◌ as string_append}
use agentapi.Transcript.{RichMessage, Block}
use agentapi.Convstate.Tasks.{TaskTracker}
use agentapi.Convstate.Tasks.Status.{task_at}
use agentapi.Convstate.Emitter.{Event, EventEmitter, send}

pub record RichKey : Type 0 where
  pub id : String
  pub role : String

abbrev pub rich_key : RichMessage → RichKey
rich_key m = record { id = m.message_id; role = m.role }

pub rich_key_iff : (a b : RichKey) → ((str_eq a.id b.id && str_eq a.role b.role) ≡ true) ↔ (a ≡ b)
rich_key_iff a b = ground (arith, eq_iff a.id b.id, eq_iff a.role b.role)

instance abbrev pub rich_key_eq : Eq RichKey
rich_key_eq = record {
  beq = λ a b. str_eq a.id b.id && str_eq a.role b.role;
  beq_iff = rich_key_iff;
}

unfoldable pub rich_content_block_key : (Block → String) → Block → String
rich_content_block_key encode b =
    if str_eq b.tool_use_id ""
    then encode b
    else string_append b.kind (string_append ":" b.tool_use_id)

-- The loop of mergeRichContent over the incoming blocks.
unfoldable pub merge_new : (Block → String) → List String → List Block → List Block → List Block
merge_new encode seen merged [] = merged
merge_new encode seen merged (b ∷ incoming) =
    let k = rich_content_block_key encode b in
    let known = merge_new encode seen merged incoming in
    let added = merge_new encode (k ∷ seen) (merged ++ b ∷ []) incoming in
    if contains_func (str_eq k) seen then known else added

unfoldable pub merge_rich_content : (Block → String) → List Block → List Block → List Block
merge_rich_content encode existing incoming =
    merge_new encode (map (rich_content_block_key encode) existing) existing incoming

-- The task of a rich message, given the stored one with its key: the one it began in.
unfoldable pub task_of : RichMessage → Option RichMessage → TaskTracker → Option ℕ
task_of msg stored t =
    let now : Option ℕ = elim msg.task_id [ some id ↦ some id | none ↦ task_at msg.timestamp t ] in
    elim stored [ none ↦ now | some m ↦ elim m.task_id [ some id ↦ some id | none ↦ now ] ]

-- What is stored for a message whose key is there already.
unfoldable pub merge_rich : (Block → String) → Bool → RichMessage → RichMessage → RichMessage
merge_rich encode true msg existing = msg
merge_rich encode false msg existing = record existing {
  content = merge_rich_content encode existing.content msg.content;
  stop_reason = msg.stop_reason;
  model = msg.model;
  usage = msg.usage;
  task_id = msg.task_id;
}

-- richIndex names the position of each key: here it is looked for.
unfoldable pub upsert_rich : RichMessage → Bool → EventEmitter → EventEmitter × RichMessage
upsert_rich msg replace e =
    let idx = index_func (λ m. rich_key_eq.beq (rich_key m) (rich_key msg)) e.rich_messages in
    elim idx [
      | none ↦
          let msg' : RichMessage = record msg { task_id = task_of msg none e.tasks } in
          (
            record e {
              seq = suc e.seq;
              rich_messages = e.rich_messages ++ msg' ∷ [];
              rich_seqs = e.rich_seqs ++ suc e.seq ∷ [];
            },
            msg',
          )
      | some i ↦
          let existing = get_or e.rich_messages i msg in
          let msg' : RichMessage = record msg { task_id = task_of msg (some existing) e.tasks } in
          let stored = merge_rich e.options.encode replace msg' existing in
          (
            record e {
              seq = suc e.seq;
              rich_messages = modify_at i (λ m. stored) e.rich_messages;
              rich_seqs = modify_at i (λ s. suc e.seq) e.rich_seqs;
            },
            stored,
          )
    ]

unfoldable pub emit_rich_message : RichMessage → Bool → EventEmitter → EventEmitter
emit_rich_message msg replace e =
    let (e', stored) = upsert_rich msg replace e in
    send (Event.rich_message_update stored e'.seq) e'

unfoldable pub load_one : Bool → RichMessage → EventEmitter → EventEmitter
load_one stream msg e =
    let (e', stored) = upsert_rich msg true e in
    if stream then send (Event.rich_message_update stored e'.seq) e' else e'

unfoldable pub load_all : Bool → List RichMessage → EventEmitter → EventEmitter
load_all stream [] e = e
load_all stream (msg ∷ msgs) e = load_all stream msgs (load_one stream msg e)

unfoldable pub load_rich_messages : List RichMessage → EventEmitter → EventEmitter
load_rich_messages [] e = e
load_rich_messages msgs e =
    let stream = leb (length msgs) (e.options.buffer_size / 4) in
    let e' = load_all stream msgs e in if stream then e' else send Event.closed e'
