-- ===== src/Convstate/Emitter/Messages.antt =====
-- The messages: EmitMessages of lib/convstate/events_messages.go.
use agentapi.Prelude.{
  ℕ, suc, Bool, not, ◌&&◌, List, [], ◌∷◌, String, text_eq, ltb, ◌==◌, if◌then◌else◌, length, keep,
  is_some, nat_eq, string_eq, dict_get,
}
use agentapi.Native.MessageLog.{Message}
use agentapi.Convstate.Tasks.{TaskTracker, is_user}
use agentapi.Convstate.Tasks.Messages.{messages as tasks_messages}
use agentapi.Convstate.Emitter.{Event, EventEmitter, send, send_all, tasks_stored, tasks_changed}

unfoldable pub message_eq : Message → Message → Bool
message_eq m n =
    (m.id == n.id)
    && text_eq m.text n.text
    && (if is_user m then is_user n else not (is_user n))
    && (m.time == n.time)

-- How long the lists agree in the IDs.
unfoldable pub same_ids : List Message → List Message → ℕ
same_ids [] news = 0
same_ids (o ∷ olds) [] = 0
same_ids (o ∷ olds) (m ∷ news) =
    let rest = same_ids olds news in if o.id == m.id then suc rest else 0

-- The first message that changed.
unfoldable pub first_changed : List Message → List Message → ℕ
first_changed [] news = 0
first_changed (o ∷ olds) [] = 0
first_changed (o ∷ olds) (m ∷ news) =
    let rest = first_changed olds news in if message_eq o m then suc rest else 0

-- Changed and new messages get the next numbers; `olds` and `seqs` are what stood there.
unfoldable pub renumber : ℕ → List Message → List ℕ → List Message → ℕ × List ℕ × List Event
renumber seq olds seqs [] = (seq, [], [])
renumber seq (o ∷ olds) (s ∷ seqs) (m ∷ news) =
    let same = renumber seq olds seqs news in
    let changed = renumber (suc seq) olds seqs news in
    if message_eq o m
    then (same.0, s ∷ same.1, same.2)
    else (changed.0, suc seq ∷ changed.1, Event.message_update m (suc seq) ∷ changed.2)
renumber seq olds seqs (m ∷ news) =
    let changed = renumber (suc seq) [] [] news in
    (changed.0, suc seq ∷ changed.1, Event.message_update m (suc seq) ∷ changed.2)

-- The numbers of the tasks that are still owned.
unfoldable pub owned_only : TaskTracker → List (ℕ × ℕ) → List (ℕ × ℕ)
owned_only t = keep (λ entry. is_some (dict_get entry.0 t.owners))

-- `epoch` is the epoch that a removal starts.
unfoldable pub emit_messages : List Message → String → EventEmitter → EventEmitter
emit_messages news epoch e =
    let (seq, seqs, updates) = renumber e.seq e.messages e.message_seqs news in
    let (t, changed) = tasks_messages news (first_changed e.messages news) e.tasks in
    let e' : EventEmitter = record e {
      seq = seq;
      messages = news;
      message_seqs = seqs;
      tasks = t;
    } in
    if ltb (same_ids e.messages news) (length e.messages)
    then (let e″ = (tasks_stored changed (record e' { task_seqs = owned_only t e.task_seqs })).0 in
        send Event.closed (record e″ { epoch = epoch }))
    else tasks_changed changed (send_all updates e')
