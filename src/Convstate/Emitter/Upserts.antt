-- ===== src/Convstate/Emitter/Upserts.antt =====
-- A rich message that is stored, new or with a key that is there.
use agentapi.Prelude.{
  ℕ, zero, suc, ◌≡◌, sym, ◌∙◌, ap, Bool, true, false, List, [], ◌∷◌, Option, some, arith, inl, inr,
  Option-cases, leb, length, ◌/◌, if◌then◌else◌, index_func, get_elem?, get_or,
}
use agentapi.Transcript.{RichMessage}
use agentapi.Convstate.Replay.{Numbered-le}
use agentapi.Convstate.Replay.Changes.{
  SameKeyAt, Numbered-append, Numbered-modify, index_func-has_key, index_func-key, distinct-append,
  Follows-append, distinct-modify, Follows-modify,
}
use agentapi.Convstate.Emitter.{Event, EventEmitter, send}
use agentapi.Convstate.Emitter.Rich.{
  rich_key, rich_key_eq, task_of, merge_rich, upsert_rich, emit_rich_message, load_one, load_all,
  load_rich_messages,
}
use agentapi.Convstate.Emitter.Contents.{contents, Valid, Client, InSync}

get_or-eq {ℓ} :
    {A : Type ℓ} (xs : List A) (i : ℕ) (d x : A) → get_elem? xs i ≡ some x → get_or xs i d ≡ x
get_or-eq [] i d x h = cc
get_or-eq (y ∷ xs) zero d x h = cc
get_or-eq (y ∷ xs) (suc i) d x h = get_or-eq xs i d x h

-- Where a message with the key is.
abbrev position : RichMessage → EventEmitter → Option ℕ
position msg e = index_func (λ m. rich_key_eq.beq (rich_key m) (rich_key msg)) e.rich_messages

-- What is stored at that place.
abbrev stored_at : ℕ → RichMessage → Bool → EventEmitter → RichMessage
stored_at i msg replace e =
    let existing = get_or e.rich_messages i msg in
    let msg' : RichMessage = record msg { task_id = task_of msg (some existing) e.tasks } in
    merge_rich e.options.encode replace msg' existing

stored_key :
    (i : ℕ) (msg : RichMessage) (replace : Bool) (e : EventEmitter)
    → position msg e ≡ some i
    → SameKeyAt rich_key (stored_at i msg replace e) i e.rich_messages
unfolding merge_rich
stored_key i msg true e found y at =
    index_func-key rich_key (rich_key msg) e.rich_messages i found y at
stored_key i msg false e found y at = sym (ap rich_key (get_or-eq e.rich_messages i msg y at))

-- What an upsert keeps.
pub record Upserted (e e' : EventEmitter) : Type 0 where
  pub valid : Valid (contents e) → Valid (contents e')
  pub in_sync : (c : Client) → InSync c (contents e) → InSync c (contents e')

pub upsert_rich-Upserted :
    (msg : RichMessage) (replace : Bool) (e : EventEmitter)
    → Upserted e (upsert_rich msg replace e).0
unfolding upsert_rich
upsert_rich-Upserted msg replace e = elim (Option-cases (position msg e)) [
  | inl new ↦
      rw (new, upsert_rich)
        (record {
          valid = λ v. record {
            messages =
                Numbered-le e.seq (suc e.seq) e.messages e.message_seqs (omega arith) v.messages;
            rich_messages = Numbered-append e.seq _ e.rich_messages e.rich_seqs v.rich_messages;
            distinct_messages = v.distinct_messages;
            distinct_rich =
                distinct-append rich_key _ e.rich_messages
                  (index_func-has_key rich_key (rich_key msg) e.rich_messages new) v.distinct_rich;
            queue = omega (arith, v.queue);
            no_queue = v.no_queue;
          };
          in_sync = λ c s same.
              let t = s same in
              record {
                bound = omega (arith, t.bound);
                messages = t.messages;
                rich_messages =
                    Follows-append rich_key c.seq e.seq _ c.rich_messages e.rich_messages
                      e.rich_seqs t.bound t.rich_messages;
                queue = t.queue;
              };
        })
  | inr (i, found) ↦
      let x = stored_at i msg replace e in
      let key = stored_key i msg replace e found in
      rw (found, upsert_rich)
        (record {
          valid = λ v. record {
            messages =
                Numbered-le e.seq (suc e.seq) e.messages e.message_seqs (omega arith) v.messages;
            rich_messages =
                Numbered-modify e.seq (λ m. x) i e.rich_messages e.rich_seqs v.rich_messages;
            distinct_messages = v.distinct_messages;
            distinct_rich = distinct-modify rich_key x i e.rich_messages key ∙ v.distinct_rich;
            queue = omega (arith, v.queue);
            no_queue = v.no_queue;
          };
          in_sync = λ c s same.
              let t = s same in
              record {
                bound = omega (arith, t.bound);
                messages = t.messages;
                rich_messages =
                    Follows-modify rich_key x c.seq e.seq i c.rich_messages e.rich_messages
                      e.rich_seqs t.bound key t.rich_messages;
                queue = t.queue;
              };
        })
]

Upserted-refl : (e : EventEmitter) → Upserted e e
Upserted-refl e = record { valid = λ v. v; in_sync = λ c s. s }

Upserted-trans : (e f g : EventEmitter) → Upserted e f → Upserted f g → Upserted e g
Upserted-trans e f g k l = record {
  valid = λ v. l.valid (k.valid v);
  in_sync = λ c s. l.in_sync c (k.in_sync c s);
}

pub emit_rich_message-Upserted :
    (msg : RichMessage) (replace : Bool) (e : EventEmitter)
    → Upserted e (emit_rich_message msg replace e)
unfolding emit_rich_message
emit_rich_message-Upserted msg replace e =
    let u = upsert_rich-Upserted msg replace e in record { valid = u.valid; in_sync = u.in_sync }

load_one-Upserted :
    (stream : Bool) (msg : RichMessage) (e : EventEmitter) → Upserted e (load_one stream msg e)
unfolding load_one
load_one-Upserted true msg e =
    let u = upsert_rich-Upserted msg true e in record { valid = u.valid; in_sync = u.in_sync }
load_one-Upserted false msg e =
    let u = upsert_rich-Upserted msg true e in record { valid = u.valid; in_sync = u.in_sync }

load_all-Upserted :
    (stream : Bool) (msgs : List RichMessage) (e : EventEmitter)
    → Upserted e (load_all stream msgs e)
unfolding load_all
load_all-Upserted stream [] e = Upserted-refl e
load_all-Upserted stream (msg ∷ msgs) e =
    Upserted-trans e (load_one stream msg e) (load_all stream msgs (load_one stream msg e))
      (load_one-Upserted stream msg e) (load_all-Upserted stream msgs (load_one stream msg e))

if_Upserted :
    (b : Bool) (e f g : EventEmitter)
    → Upserted e f
    → Upserted e g
    → Upserted e (if b then f else g)
if_Upserted true e f g k l = k
if_Upserted false e f g k l = l

pub load_rich_messages-Upserted :
    (msgs : List RichMessage) (e : EventEmitter) → Upserted e (load_rich_messages msgs e)
unfolding load_rich_messages
load_rich_messages-Upserted [] e = Upserted-refl e
load_rich_messages-Upserted (msg ∷ msgs) e =
    let stream = leb (length (msg ∷ msgs)) (e.options.buffer_size / 4) in
    let e' = load_all stream (msg ∷ msgs) e in
    let u = load_all-Upserted stream (msg ∷ msgs) e in
    if_Upserted stream e e' (send Event.closed e') u
      (record { valid = u.valid; in_sync = u.in_sync })
