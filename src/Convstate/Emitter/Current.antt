-- ===== src/Convstate/Emitter/Current.antt =====
-- A client that reconnects: whatever the emitter did since, the replay brings it up to date.
use agentapi.Prelude.{
  ℕ, ◌≡◌, refl, sym, subst, Eq, ◌∙◌, ap, false, List, [], ◌∷◌, ◌++◌, String, eq_iff, arith, ltb,
  if◌then◌else◌, inl, inr, Bool-cases, map, nat_eq,
}
use agentapi.Convstate.Tasks.{TaskTracker}
use agentapi.Convstate.Replay.{
  Numbered, Follows, upsert_all, changes_since, Follows-refl, upsert_all-changes_since,
}
use agentapi.Queue.{QueuedMessage}
use agentapi.Convstate.Emitter.{Options, Event, EventEmitter, status_change_body}
use agentapi.Convstate.Emitter.Rich.{rich_key, rich_key_eq}
use agentapi.Convstate.Emitter.Subscribe.{
  changed_events, task_numbers, state_events, is_full, if_wanted, replay_seq,
  current_state_as_events,
}
use agentapi.Convstate.Emitter.Contents.{
  contents, message_id, Valid, Client, apply, apply_all, InSync,
}
use agentapi.Convstate.Emitter.Runs.{
  Call, call_all, AllProper, call_all-Stays, new_event_emitter, new_event_emitter-Valid,
}
use agentapi.Convstate.Emitter.Reconnect.{
  everything, reconnect, apply_all-append, changed_events-Silent, errors-Silent, messages_apply,
  rich_apply,
}

-- What the events after the session sync make of a client.
updated : ℕ → EventEmitter → Client → Client
updated from e d = record d {
  messages = upsert_all message_id (changes_since from e.messages e.message_seqs) d.messages;
  rich_messages =
      upsert_all rich_key (changes_since from e.rich_messages e.rich_seqs) d.rich_messages;
  queue = if ltb from e.queue_seq then e.queue else d.queue;
}

queue_apply :
    (from : ℕ) (q : List QueuedMessage) (s : ℕ) (d : Client)
    → apply_all (changed_events Event.queue_update from (q ∷ []) (s ∷ [])) d
      ≡ record d { queue = if ltb from s then q else d.queue }
unfolding changed_events apply apply_all
queue_apply from q s d = elim (Bool-cases (ltb from s)) [
  | inl new ↦ rw (new, changed_events) refl
  | inr old ↦ rw (old, changed_events) refl
]

state_events-updated :
    (from : ℕ) (e : EventEmitter) (d : Client)
    → apply_all (state_events everything from e) d ≡ updated from e d
unfolding state_events if_wanted apply apply_all updated
state_events-updated from e d =
    let ms = changed_events Event.message_update from e.messages e.message_seqs in
    let es = map Event.error e.errors in
    let rs = changed_events Event.rich_message_update from e.rich_messages e.rich_seqs in
    let qs = changed_events Event.request_update from e.requests e.request_seqs in
    let q = changed_events Event.queue_update from (e.queue ∷ []) (e.queue_seq ∷ []) in
    let ts =
      changed_events Event.task_update from e.tasks.tasks
        (task_numbers e.task_seqs e.tasks.tasks) in
    let rest₄ = q ++ ts in
    let rest₃ = qs ++ rest₄ in
    let rest₂ = rs ++ rest₃ in
    let rest₁ = es ++ rest₂ in
    let rest : List Event = Event.status_change (status_change_body e) ∷ rest₁ in
    let d₁ : Client = record d {
      messages = upsert_all message_id (changes_since from e.messages e.message_seqs) d.messages;
    } in
    let d₂ : Client = record d₁ {
      rich_messages =
          upsert_all rich_key (changes_since from e.rich_messages e.rich_seqs) d.rich_messages;
    } in
    let d₃ : Client = record d₂ { queue = if ltb from e.queue_seq then e.queue else d.queue } in
    apply_all-append ms rest d
    ∙ ap (apply_all rest) (messages_apply from e.messages e.message_seqs d)
    ∙ apply_all-append es rest₂ d₁
    ∙ ap (apply_all rest₂) (errors-Silent e.errors d₁)
    ∙ apply_all-append rs rest₃ d₁
    ∙ ap (apply_all rest₃) (rich_apply from e.rich_messages e.rich_seqs d₁)
    ∙ apply_all-append qs rest₄ d₂
    ∙ ap (apply_all rest₄) (
        changed_events-Silent Event.request_update (λ x s c. refl) from e.requests e.request_seqs
          d₂)
    ∙ apply_all-append q ts d₂
    ∙ ap (apply_all ts) (queue_apply from e.queue e.queue_seq d₂)
    ∙ changed_events-Silent Event.task_update (λ x s c. refl) from e.tasks.tasks
        (task_numbers e.task_seqs e.tasks.tasks) d₃

-- A client has the emitter's state.
pub record Current (c : Client) (e : EventEmitter) : Type 0 where
  pub epoch : c.epoch ≡ e.epoch
  pub messages : c.messages ≡ e.messages
  pub rich_messages : c.rich_messages ≡ e.rich_messages
  pub queue : c.queue ≡ e.queue

updated-Current :
    (from : ℕ) (e : EventEmitter) (d : Client)
    → Valid (contents e)
    → d.epoch ≡ e.epoch
    → Follows message_id from d.messages e.messages e.message_seqs
    → Follows rich_key from d.rich_messages e.rich_messages e.rich_seqs
    → (ltb from e.queue_seq ≡ false → d.queue ≡ e.queue)
    → Current (updated from e d) e
unfolding updated
updated-Current from e d v epoch ms rs q = record {
  epoch = epoch;
  messages =
      upsert_all-changes_since message_id from d.messages e.messages e.message_seqs ms
        v.distinct_messages;
  rich_messages =
      upsert_all-changes_since rich_key from d.rich_messages e.rich_messages e.rich_seqs rs
        v.distinct_rich;
  queue = elim (Bool-cases (ltb from e.queue_seq)) [
    | inl new ↦ rw new refl
    | inr old ↦ rw old (q old)
  ];
}

Follows-zero :
    {K A : Type 0} ⦃eq : Eq K⦄ (key : A → K) (n : ℕ) (xs : List A) (seqs : List ℕ)
    → Numbered n xs seqs
    → Follows key 0 [] xs seqs
Follows-zero key n [] [] h = tt
Follows-zero key n [] (s ∷ seqs) h = absurd h
Follows-zero key n (x ∷ xs) [] h = absurd h
Follows-zero key n (x ∷ xs) (s ∷ seqs) (pos, bound, rest) = (pos, Follows-zero key n xs seqs rest)

same_epoch : (c : Client) (e : EventEmitter) → is_full c.seq c.epoch e ≡ false → c.epoch ≡ e.epoch
unfolding is_full
same_epoch c e part = ground (arith, eq_iff c.epoch e.epoch)

reconnect_updates :
    (c : Client) (e : EventEmitter)
    → Valid (contents e)
    → InSync c (contents e)
    → Current (reconnect e c) e
unfolding reconnect current_state_as_events if_wanted apply apply_all
reconnect_updates c e v s = elim (Bool-cases (is_full c.seq c.epoch e)) [
  | inl full ↦
      rw (full, reconnect, current_state_as_events, apply_all, apply)
        (let d : Client = record {
          epoch = e.epoch;
          seq = replay_seq everything 0 e;
          messages = [];
          rich_messages = [];
          queue = [];
        } in
          subst (λ x. Current x e) (sym (state_events-updated 0 e d))
            (updated-Current 0 e d v refl
              (Follows-zero message_id e.seq e.messages e.message_seqs v.messages)
              (Follows-zero rich_key e.seq e.rich_messages e.rich_seqs v.rich_messages)
              (λ old. sym (v.no_queue (ground arith)))))
  | inr part ↦
      rw (part, reconnect, current_state_as_events, apply_all, apply)
        (let d : Client = record c { epoch = e.epoch; seq = replay_seq everything c.seq e } in
          let t = s (same_epoch c e part) in
          subst (λ x. Current x e) (sym (state_events-updated c.seq e d))
            (updated-Current c.seq e d v refl t.messages t.rich_messages t.queue))
]

-- A client that read everything so far.
abbrev pub copy : EventEmitter → Client
copy e = record {
  epoch = e.epoch;
  seq = e.seq;
  messages = e.messages;
  rich_messages = e.rich_messages;
  queue = e.queue;
}

copy-InSync : (e : EventEmitter) → Valid (contents e) → InSync (copy e) (contents e)
copy-InSync e v same = record {
  bound = omega arith;
  messages = Follows-refl message_id e.seq e.seq e.messages e.message_seqs v.messages;
  rich_messages = Follows-refl rich_key e.seq e.seq e.rich_messages e.rich_seqs v.rich_messages;
  queue = λ old. refl;
}

-- A client that read everything of a new emitter after any calls, and reconnects after any more
-- calls, has the emitter's epoch, messages, rich messages and queue again: after resets and removed
-- messages, too. The message lists that are emitted have different IDs, and the epochs that a call
-- starts differ from the one that the emitter began with and from the one that the client has.
pub reconnect-Current :
    (options : Options) (epoch : String) (tasks : TaskTracker) (before after : List Call)
    → let e = call_all (new_event_emitter options epoch tasks) before in
      AllProper epoch before
      → AllProper e.epoch after
      → Current (reconnect (call_all e after) (copy e)) (call_all e after)
unfolding new_event_emitter
reconnect-Current options epoch tasks before after p p' =
    let e₀ = new_event_emitter options epoch tasks in
    let e = call_all e₀ before in
    let v₀ = new_event_emitter-Valid options epoch tasks in
    let v = (call_all-Stays before (copy e₀) e₀ p v₀ (copy-InSync e₀ v₀)).0 in
    let (v', s') = call_all-Stays after (copy e) e p' v (copy-InSync e v) in
    reconnect_updates (copy e) (call_all e after) v' s'
