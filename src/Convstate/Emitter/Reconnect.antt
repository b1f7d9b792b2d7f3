-- ===== src/Convstate/Emitter/Reconnect.antt =====
-- What a client makes of the events of a replay.
use agentapi.Prelude.{
  ℕ, ◌≡◌, refl, ◌∙◌, ap, Bool, true, List, [], ◌∷◌, ◌++◌, ltb, inl, inr, Bool-cases, map, nat_eq,
}
use agentapi.Transcript.{RichMessage}
use agentapi.Native.MessageLog.{Message}
use agentapi.Convstate.Types.{ErrorBody}
use agentapi.Convstate.Replay.{upsert_all, changes_since}
use agentapi.Convstate.Emitter.{Event, EventEmitter}
use agentapi.Convstate.Emitter.Rich.{rich_key, rich_key_eq}
use agentapi.Convstate.Emitter.Subscribe.{EventType, changed_events, current_state_as_events}
use agentapi.Convstate.Emitter.Contents.{message_id, Client, apply, apply_all}

abbrev pub everything : EventType → Bool
everything t = true

-- A client that subscribes to all the events with the state that it has.
unfoldable pub reconnect : EventEmitter → Client → Client
reconnect e c = apply_all (current_state_as_events c.seq c.epoch everything e) c

pub apply_all-append :
    (xs ys : List Event) (c : Client) → apply_all (xs ++ ys) c ≡ apply_all ys (apply_all xs c)
unfolding apply_all
apply_all-append [] ys c = refl
apply_all-append (x ∷ xs) ys c = apply_all-append xs ys (apply x c)

-- Events that say nothing of what the client copies.
abbrev pub Silent : List Event → Type 0
Silent evs = (c : Client) → apply_all evs c ≡ c

pub changed_events-Silent :
    {A : Type 0} (event : A → ℕ → Event)
    → ((x : A) (s : ℕ) (c : Client) → apply (event x s) c ≡ c)
    → (since : ℕ) (xs : List A) (seqs : List ℕ) → Silent (changed_events event since xs seqs)
unfolding changed_events apply_all
changed_events-Silent event same since [] seqs c = refl
changed_events-Silent event same since (x ∷ xs) [] c = refl
changed_events-Silent event same since (x ∷ xs) (s ∷ seqs) c = elim (Bool-cases (ltb since s)) [
  | inl new ↦
      rw (new, changed_events)
        (ap (apply_all (changed_events event since xs seqs)) (same x s c)
          ∙ changed_events-Silent event same since xs seqs c)
  | inr old ↦ rw (old, changed_events) (changed_events-Silent event same since xs seqs c)
]

pub errors-Silent : (es : List ErrorBody) → Silent (map Event.error es)
unfolding apply apply_all
errors-Silent [] c = refl
errors-Silent (e ∷ es) c = errors-Silent es c

pub messages_apply :
    (since : ℕ) (xs : List Message) (seqs : List ℕ) (c : Client)
    → apply_all (changed_events Event.message_update since xs seqs) c
      ≡ record c { messages = upsert_all message_id (changes_since since xs seqs) c.messages }
unfolding changed_events apply apply_all
messages_apply since [] seqs c = refl
messages_apply since (x ∷ xs) [] c = refl
messages_apply since (x ∷ xs) (s ∷ seqs) c = elim (Bool-cases (ltb since s)) [
  | inl new ↦
      rw (new, changed_events) (messages_apply since xs seqs (apply (Event.message_update x s) c))
  | inr old ↦ rw (old, changed_events) (messages_apply since xs seqs c)
]

pub rich_apply :
    (since : ℕ) (xs : List RichMessage) (seqs : List ℕ) (c : Client)
    → apply_all (changed_events Event.rich_message_update since xs seqs) c ≡ record c {
      rich_messages = upsert_all rich_key (changes_since since xs seqs) c.rich_messages;
    }
unfolding changed_events apply apply_all
rich_apply since [] seqs c = refl
rich_apply since (x ∷ xs) [] c = refl
rich_apply since (x ∷ xs) (s ∷ seqs) c = elim (Bool-cases (ltb since s)) [
  | inl new ↦
      rw (new, changed_events) (rich_apply since xs seqs (apply (Event.rich_message_update x s) c))
  | inr old ↦ rw (old, changed_events) (rich_apply since xs seqs c)
]
