-- ===== src/Convstate/Emitter/Contents.antt =====
-- What of the emitter a client copies, and a client that reads the events.
use agentapi.Prelude.{
  ℕ, ◌≤◌, ◌≡◌, true, false, List, [], ◌∷◌, String, arith, if◌then◌else◌, ltb, nat_eq,
}
use agentapi.Transcript.{RichMessage}
use agentapi.Native.MessageLog.{Message}
use agentapi.Convstate.Replay.{Numbered, Numbered-le, Follows, distinct, upsert}
use agentapi.Queue.{QueuedMessage}
use agentapi.Convstate.Emitter.{Event, EventEmitter}
use agentapi.Convstate.Emitter.Rich.{rich_key, rich_key_eq}

pub record Contents : Type 0 where
  pub epoch : String
  pub seq : ℕ
  pub messages : List Message
  pub message_seqs : List ℕ
  pub rich_messages : List RichMessage
  pub rich_seqs : List ℕ
  pub queue : List QueuedMessage
  pub queue_seq : ℕ

abbrev pub contents : EventEmitter → Contents
contents e = record {
  epoch = e.epoch;
  seq = e.seq;
  messages = e.messages;
  message_seqs = e.message_seqs;
  rich_messages = e.rich_messages;
  rich_seqs = e.rich_seqs;
  queue = e.queue;
  queue_seq = e.queue_seq;
}

abbrev pub message_id : Message → ℕ
message_id m = m.id

-- Every value has a number up to the last, and its own key; no queue was sent before the first.
pub record Valid (v : Contents) : Type 0 where
  pub messages : Numbered v.seq v.messages v.message_seqs
  pub rich_messages : Numbered v.seq v.rich_messages v.rich_seqs
  pub distinct_messages : distinct message_id v.messages ≡ true
  pub distinct_rich : distinct rich_key v.rich_messages ≡ true
  pub queue : v.queue_seq ≤ v.seq
  pub no_queue : v.queue_seq ≡ 0 → v.queue ≡ []

-- A client's copy.
pub record Client : Type 0 where
  pub epoch : String
  pub seq : ℕ
  pub messages : List Message
  pub rich_messages : List RichMessage
  pub queue : List QueuedMessage

-- A client takes a full replay as new, and merges other events.
unfoldable pub apply : Event → Client → Client
apply (Event.session_sync epoch full seq) c =
    if full
    then record { epoch = epoch; seq = seq; messages = []; rich_messages = []; queue = [] }
    else record c { epoch = epoch; seq = seq }
apply (Event.message_update m s) c = record c { messages = upsert message_id m c.messages }
apply (Event.rich_message_update m s) c = record c {
  rich_messages = upsert rich_key m c.rich_messages;
}
apply (Event.queue_update q s) c = record c { queue = q }
apply ev c = c

unfoldable pub apply_all : List Event → Client → Client
apply_all [] c = c
apply_all (ev ∷ evs) c = apply_all evs (apply ev c)

-- What the client has is what the emitter had when its number was the client's.
pub record Trails (c : Client) (v : Contents) : Type 0 where
  pub bound : c.seq ≤ v.seq
  pub messages : Follows message_id c.seq c.messages v.messages v.message_seqs
  pub rich_messages : Follows rich_key c.seq c.rich_messages v.rich_messages v.rich_seqs
  pub queue : ltb c.seq v.queue_seq ≡ false → c.queue ≡ v.queue

-- A client of an older epoch can hold anything.
abbrev pub InSync : Client → Contents → Type 0
InSync c v = c.epoch ≡ v.epoch → Trails c v

-- A higher number, and nothing else.
abbrev pub raise : ℕ → Contents → Contents
raise n v = record v { seq = n }

pub raise-Valid : (n : ℕ) (v : Contents) → v.seq ≤ n → Valid v → Valid (raise n v)
raise-Valid n v le h = record {
  messages = Numbered-le v.seq n v.messages v.message_seqs le h.messages;
  rich_messages = Numbered-le v.seq n v.rich_messages v.rich_seqs le h.rich_messages;
  distinct_messages = h.distinct_messages;
  distinct_rich = h.distinct_rich;
  queue = omega (arith, h.queue);
  no_queue = h.no_queue;
}

pub raise-InSync :
    (n : ℕ) (c : Client) (v : Contents) → v.seq ≤ n → InSync c v → InSync c (raise n v)
raise-InSync n c v le h same =
    let t = h same in
    record {
      bound = omega (arith, t.bound);
      messages = t.messages;
      rich_messages = t.rich_messages;
      queue = t.queue;
    }
