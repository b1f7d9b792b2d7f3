-- ===== src/Convstate/Emitter/Subscribe.antt =====
-- A reset, and what a new subscription is sent: Reset and currentStateAsEvents of
-- lib/convstate/events.go.
use agentapi.Prelude.{
  ℕ, max, Bool, true, false, not, ◌||◌, List, [], ◌∷◌, ◌++◌, map, none, String, str_eq, ltb, ◌==◌,
  if◌then◌else◌, suc, nat_eq, dict_get, some,
}
use agentapi.Convstate.Types.{Task}
use agentapi.Convstate.Tasks.{reset as reset_tasks}
use agentapi.Convstate.Emitter.{Event, EventEmitter, send, status_change_body}

-- Reset, with the new epoch.
unfoldable pub reset : String → ℕ → EventEmitter → EventEmitter
reset epoch now e = record (send (Event.session_sync epoch true 0) e) {
  handoff_revision = suc e.handoff_revision;
  messages = [];
  message_seqs = [];
  rich_messages = [];
  rich_seqs = [];
  requests = [];
  request_seqs = [];
  tasks = reset_tasks now e.tasks;
  task_seqs = [];
  epoch = epoch;
  errors = [];
  session_name = "";
}

pub data EventType : Type 0 where
  session_sync message_update rich_message_update request_update queue_update task_update
        status_change error :
      EventType

-- The events of the values that changed after `since`.
unfoldable pub changed_events : {A : Type 0} → (A → ℕ → Event) → ℕ → List A → List ℕ → List Event
changed_events event since [] seqs = []
changed_events event since (x ∷ xs) [] = []
changed_events event since (x ∷ xs) (s ∷ seqs) =
    let rest = changed_events event since xs seqs in if ltb since s then event x s ∷ rest else rest

-- The numbers of the tasks, in their order.
unfoldable pub task_numbers : List (ℕ × ℕ) → List Task → List ℕ
task_numbers seqs [] = []
task_numbers seqs (task ∷ tasks) =
    elim (dict_get task.id seqs) [ none ↦ 0 | some s ↦ s ] ∷ task_numbers seqs tasks

-- The highest number of the changes, `replaySeq`.
unfoldable pub highest : ℕ → List ℕ → ℕ
highest since [] = since
highest since (s ∷ seqs) = highest (max since s) seqs

unfoldable pub if_wanted : Bool → List Event → List Event
if_wanted true evs = evs
if_wanted false evs = []

unfoldable pub numbers_if : Bool → List ℕ → List ℕ
numbers_if true seqs = seqs
numbers_if false seqs = []

-- The events that follow the session sync.
unfoldable pub state_events : (EventType → Bool) → ℕ → EventEmitter → List Event
unfolding if_wanted
state_events wants since e =
    if_wanted (wants EventType.message_update)
      (changed_events Event.message_update since e.messages e.message_seqs)
    ++ (if_wanted (wants EventType.status_change) (Event.status_change (status_change_body e) ∷ [])
        ++ (if_wanted (wants EventType.error) (map Event.error e.errors)
            ++ (if_wanted (wants EventType.rich_message_update)
                  (changed_events Event.rich_message_update since e.rich_messages e.rich_seqs)
                ++ (if_wanted (wants EventType.request_update)
                      (changed_events Event.request_update since e.requests e.request_seqs)
                    ++ (if_wanted (wants EventType.queue_update) (
                          changed_events Event.queue_update since (e.queue ∷ []) (e.queue_seq ∷ []))
                        ++ if_wanted (wants EventType.task_update) (
                            changed_events Event.task_update since e.tasks.tasks
                              (task_numbers e.task_seqs e.tasks.tasks)))))))

-- The number that the session sync names.
unfoldable pub replay_seq : (EventType → Bool) → ℕ → EventEmitter → ℕ
unfolding numbers_if
replay_seq wants since e = highest since (
    numbers_if (wants EventType.message_update) e.message_seqs
    ++ (numbers_if (wants EventType.rich_message_update) e.rich_seqs
        ++ (numbers_if (wants EventType.request_update) e.request_seqs
            ++ (numbers_if (wants EventType.queue_update) (e.queue_seq ∷ [])
                ++ numbers_if (wants EventType.task_update)
                    (task_numbers e.task_seqs e.tasks.tasks)))))

-- Whether a client that is at `since` in `epoch` gets everything.
unfoldable pub is_full : ℕ → String → EventEmitter → Bool
is_full since epoch e = not (str_eq epoch e.epoch) || (since == 0) || ltb e.seq since

unfoldable pub current_state_as_events : ℕ → String → (EventType → Bool) → EventEmitter → List Event
unfolding if_wanted
current_state_as_events since epoch wants e =
    let full = is_full since epoch e in
    let from = if full then 0 else since in
    if_wanted (wants EventType.session_sync)
      (Event.session_sync e.epoch full (replay_seq wants from e) ∷ [])
    ++ state_events wants from e
