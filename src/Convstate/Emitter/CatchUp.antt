-- ===== src/Convstate/Emitter/CatchUp.antt =====
-- A step of the emitter leaves a client's copy one that the emitter's state follows.
use agentapi.Prelude.{
  ℕ, suc, ◌≡◌, ◌≢◌, refl, sym, subst, true, false, List, String, arith, ltb, leb, inl, inr,
  Bool-cases, length, nat_eq,
}
use agentapi.Native.MessageLog.{Message}
use agentapi.Convstate.Tasks.Messages.{messages as tasks_messages}
use agentapi.Convstate.Replay.{Numbered-le, distinct}
use agentapi.Queue.{QueuedMessage}
use agentapi.Convstate.Emitter.{EventEmitter, send_all, tasks_stored, tasks_changed, set_queue}
use agentapi.Convstate.Emitter.Messages.{
  emit_messages, same_ids, first_changed, renumber, owned_only,
}
use agentapi.Convstate.Emitter.Rich.{rich_key_eq}
use agentapi.Convstate.Emitter.Subscribe.{reset}
use agentapi.Convstate.Emitter.Contents.{
  contents, message_id, Valid, raise-Valid, Client, InSync, raise-InSync,
}
use agentapi.Convstate.Emitter.Keeps.{
  Keeps, tasks_stored-Keeps, tasks_changed-Keeps, send_all-Keeps, Keeps-trans,
}
use agentapi.Convstate.Emitter.Numbers.{renumber-Numbered, renumber-Follows}

Keeps-Valid : (e e' : EventEmitter) → Keeps e e' → Valid (contents e) → Valid (contents e')
Keeps-Valid e e' k v = subst Valid (sym k.same) (raise-Valid e'.seq (contents e) k.grows v)

Keeps-InSync :
    (c : Client) (e e' : EventEmitter) → Keeps e e' → InSync c (contents e) → InSync c (contents e')
Keeps-InSync c e e' k s =
    subst (InSync c) (sym k.same) (raise-InSync e'.seq c (contents e) k.grows s)

-- What a step keeps.
pub record Stays (c : Client) (e e' : EventEmitter) : Type 0 where
  pub valid : Valid (contents e) → Valid (contents e')
  pub in_sync : InSync c (contents e) → InSync c (contents e')

pub Keeps-Stays : (c : Client) (e e' : EventEmitter) → Keeps e e' → Stays c e e'
Keeps-Stays c e e' k = record { valid = Keeps-Valid e e' k; in_sync = Keeps-InSync c e e' k }

-- The emitter with the new messages and their numbers.
renumbered : List Message → EventEmitter → EventEmitter
renumbered news e =
    let r = renumber e.seq e.messages e.message_seqs news in
    record e {
      seq = r.0;
      messages = news;
      message_seqs = r.1;
      tasks = (tasks_messages news (first_changed e.messages news) e.tasks).0;
    }

renumbered-Valid :
    (news : List Message) (e : EventEmitter)
    → distinct message_id news ≡ true
    → Valid (contents e)
    → Valid (contents (renumbered news e))
unfolding renumbered
renumbered-Valid news e d v =
    let (le, numbered) = renumber-Numbered e.seq e.messages e.message_seqs news v.messages in
    record {
      messages = numbered;
      rich_messages = Numbered-le e.seq _ e.rich_messages e.rich_seqs le v.rich_messages;
      distinct_messages = d;
      distinct_rich = v.distinct_rich;
      queue = omega (arith, v.queue);
      no_queue = v.no_queue;
    }

renumbered-InSync :
    (news : List Message) (c : Client) (e : EventEmitter)
    → ltb (same_ids e.messages news) (length e.messages) ≡ false
    → Valid (contents e)
    → InSync c (contents e)
    → InSync c (contents (renumbered news e))
unfolding renumbered
renumbered-InSync news c e all v s same =
    let t = s same in
    let (le, numbered) = renumber-Numbered e.seq e.messages e.message_seqs news v.messages in
    record {
      bound = omega (arith, t.bound);
      messages =
          renumber-Follows c.seq e.seq c.messages e.messages e.message_seqs news t.bound all
            t.messages;
      rich_messages = t.rich_messages;
      queue = t.queue;
    }

pub emit_messages-Stays :
    (news : List Message) (epoch : String) (c : Client) (e : EventEmitter)
    → distinct message_id news ≡ true
    → c.epoch ≢ epoch
    → Valid (contents e)
    → Stays c e (emit_messages news epoch e)
unfolding emit_messages renumbered
emit_messages-Stays news epoch c e d fresh v =
    let t = tasks_messages news (first_changed e.messages news) e.tasks in
    let e' = renumbered news e in
    let v' = renumbered-Valid news e d v in
    elim (Bool-cases (ltb (same_ids e.messages news) (length e.messages))) [
      | inl removed ↦
          let e″ : EventEmitter = record e' { task_seqs = owned_only t.0 e.task_seqs } in
          let w = Keeps-Valid e″ (tasks_stored t.1 e″).0 (tasks_stored-Keeps t.1 e″) (record {
            messages = v'.messages;
            rich_messages = v'.rich_messages;
            distinct_messages = v'.distinct_messages;
            distinct_rich = v'.distinct_rich;
            queue = v'.queue;
            no_queue = v'.no_queue;
          }) in
          rw (removed, emit_messages)
            (record {
              valid = λ v. record {
                messages = w.messages;
                rich_messages = w.rich_messages;
                distinct_messages = w.distinct_messages;
                distinct_rich = w.distinct_rich;
                queue = w.queue;
                no_queue = w.no_queue;
              };
              in_sync = λ s same. absurd (fresh same);
            })
      | inr all ↦
          let updates = (renumber e.seq e.messages e.message_seqs news).2 in
          let k =
            Keeps-trans e' (send_all updates e') (tasks_changed t.1 (send_all updates e'))
              (send_all-Keeps updates e') (tasks_changed-Keeps t.1 (send_all updates e')) in
          let kept = Keeps-Stays c e' (tasks_changed t.1 (send_all updates e')) k in
          rw (all, emit_messages)
            (record {
              valid = λ v. kept.valid v';
              in_sync = λ s. kept.in_sync (renumbered-InSync news c e all v s);
            })
    ]

pub set_queue-Stays :
    (q : List QueuedMessage) (version : ℕ) (c : Client) (e : EventEmitter)
    → Stays c e (set_queue q version e)
unfolding set_queue
set_queue-Stays q version c e = elim (Bool-cases (leb version e.queue_version)) [
  | inl late ↦ rw (late, set_queue) (record { valid = λ v. v; in_sync = λ s. s })
  | inr new ↦
      rw (new, set_queue)
        (record {
          valid = λ v. record {
            messages =
                Numbered-le e.seq (suc e.seq) e.messages e.message_seqs (omega arith) v.messages;
            rich_messages =
                Numbered-le e.seq (suc e.seq) e.rich_messages e.rich_seqs (omega arith)
                  v.rich_messages;
            distinct_messages = v.distinct_messages;
            distinct_rich = v.distinct_rich;
            queue = omega arith;
            no_queue = λ z. absurd (omega arith);
          };
          in_sync = λ s same.
              let t = s same in
              record {
                bound = omega (arith, t.bound);
                messages = t.messages;
                rich_messages = t.rich_messages;
                queue = λ old. absurd (ground (arith, t.bound));
              };
        })
]

pub reset-Stays :
    (epoch : String) (now : ℕ) (c : Client) (e : EventEmitter)
    → c.epoch ≢ epoch
    → Stays c e (reset epoch now e)
unfolding reset
reset-Stays epoch now c e fresh = record {
  valid = λ v. record {
    messages = tt;
    rich_messages = tt;
    distinct_messages = refl;
    distinct_rich = refl;
    queue = v.queue;
    no_queue = v.no_queue;
  };
  in_sync = λ s same. absurd (fresh same);
}
