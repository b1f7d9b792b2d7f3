-- ===== src/Native/MessageLog/Rich.antt =====
-- Rich messages in the log: which agent message their text goes to (lib/native/message_log.go).
use agentapi.Prelude.{
  ℕ, zero, suc, ◌≡◌, refl, ap, sym, ◌∙◌, true, List, [], ◌∷◌, ◌++◌, Option, none, some, arith,
  String, eq_iff, string_eq, Text, text_eq_iff, modify_at, get_elem?, inl, inr, Option-cases,
  Bool-cases, dict_get, dict_put, is_empty, contains_func, str_eq, text_eq, join, ◌||◌, Bool, false,
  nat_eq,
}
use agentapi.Transcript.{RichMessage}
use agentapi.Native.MessageLog.{
  Message, RichPart, MessageLog, index, add_rich, set_part, assistant_text, joined_text, has_text,
  part_texts, parts_of, blank_line,
}

abbrev pub ids : List Message → List ℕ
ids [] = []
ids (m ∷ ms) = m.id ∷ ids ms

-- The text of the message at an index.
abbrev pub text_at : ℕ → List Message → Option Text
text_at i ms = elim (get_elem? ms i) [ none ↦ none | some m ↦ some m.text ]

ids-retext :
    (i : ℕ) (text : Text) (ms : List Message)
    → ids (modify_at i (λ m. record m { text = text }) ms) ≡ ids ms
ids-retext i text [] = refl
ids-retext zero text (x ∷ xs) = refl
ids-retext (suc i) text (x ∷ xs) = ap (λ r. x.id ∷ r) (ids-retext i text xs)

index-retext :
    (id i : ℕ) (text : Text) (ms : List Message)
    → index id (modify_at i (λ m. record m { text = text }) ms) ≡ index id ms
unfolding index
index-retext id i text [] = refl
index-retext id zero text (x ∷ xs) = refl
index-retext id (suc i) text (x ∷ xs) = rw (index-retext id i text xs, index)

index-found :
    (id i : ℕ) (ms : List Message)
    → index id ms ≡ some i
    → (m : Message) × (get_elem? ms i ≡ some m)
unfolding index
index-found id i [] e = absurd (ground arith)
index-found id zero (m ∷ ms) e = (m, refl)
index-found id (suc i) (m ∷ ms) e = index-found id i ms (ground (arith, Option-cases (index id ms)))

text_at-retext :
    (i : ℕ) (text : Text) (ms : List Message) {m : Message}
    → get_elem? ms i ≡ some m
    → text_at i (modify_at i (λ m. record m { text = text }) ms) ≡ some text
text_at-retext i text [] e = absurd (ground arith)
text_at-retext zero text (x ∷ xs) e = refl
text_at-retext (suc i) text (x ∷ xs) e = text_at-retext i text xs e

-- What `set_part` leaves: the part under its key, the other fields as they were, and the text of
-- the part's message, if it is in the log, joined anew.
record Placed (t t' : MessageLog) (key : String) (id : ℕ) (text : Text) : Type 0 where
  part : dict_get key t'.rich ≡ some (record { msg = id; text = text })
  same_ids : ids t'.messages ≡ ids t.messages
  same_next : t'.next_id ≡ t.next_id
  same_building : t'.building ≡ t.building
  same_texts : t'.texts ≡ t.texts
  rich : t'.rich ≡ dict_put key (record { msg = id; text = text }) t.rich
  current :
      (i : ℕ) → index id t'.messages ≡ some i → text_at i t'.messages ≡ some (joined_text t' id)

abbrev marked : MessageLog → String → ℕ → Text → MessageLog
marked t key id text = record t { rich = dict_put key (record { msg = id; text = text }) t.rich }

part_put :
    (t : MessageLog) (key : String) (id : ℕ) (text : Text)
    → dict_get key (marked t key id text).rich ≡ some (record { msg = id; text = text })
part_put t key id text = ground (arith, (eq_iff key key).1 refl)

has_text-text_at :
    (i : ℕ) (text : Text) (ms : List Message) → has_text i text ms ≡ true → text_at i ms ≡ some text
unfolding has_text
has_text-text_at i text [] h = cc
has_text-text_at zero text (x ∷ xs) h = ap some ((text_eq_iff x.text text).0 h)
has_text-text_at (suc i) text (x ∷ xs) h = has_text-text_at i text xs h

index_unique : {i j : ℕ} {o : Option ℕ} → o ≡ some i → o ≡ some j → j ≡ i
index_unique p q = ground arith

-- What a write of the joined text at the index of the part's message leaves.
write-Placed :
    (t : MessageLog) (key : String) (id i : ℕ) (text : Text)
    → index id t.messages ≡ some i
    → let t' = marked t key id text in
      Placed t
        (record t' {
          messages = modify_at i (λ m. record m { text = joined_text t' id }) t'.messages;
        })
        key
        id
        text
unfolding joined_text
write-Placed t key id i text e = record {
  part = part_put t key id text;
  same_ids = ids-retext i _ t.messages;
  same_next = refl;
  same_building = refl;
  same_texts = refl;
  rich = refl;
  current = λ j q.
      rw (index_unique e (sym (index-retext id i _ t.messages) ∙ q))
        (text_at-retext i _ t.messages (index-found id i t.messages e).1);
}

set_part-Placed :
    (t : MessageLog) (key : String) (id : ℕ) (text : Text)
    → Placed t (set_part t key id text).0 key id text
unfolding set_part
set_part-Placed t key id text = elim (Option-cases (index id t.messages)) [
  | inl e ↦
      rw (e, set_part)
        (record {
          part = part_put t key id text;
          same_ids = refl;
          same_next = refl;
          same_building = refl;
          same_texts = refl;
          rich = refl;
          current = λ i q. cc;
        })
  | inr (i, e) ↦ elim (Bool-cases (has_text i (joined_text (marked t key id text) id) t.messages)) [
    | inr new ↦ rw (e, set_part) (rw new (write-Placed t key id i text e))
    | inl same ↦
        rw (e, set_part)
          (rw same (record {
            part = part_put t key id text;
            same_ids = refl;
            same_next = refl;
            same_building = refl;
            same_texts = refl;
            rich = refl;
            current = λ j q. rw (index_unique e q) (has_text-text_at i _ t.messages same);
          }))
  ]
]

text_refl : (t : Text) → text_eq t t ≡ true
text_refl t = (text_eq_iff t t).1 refl

-- A part with a text is among the texts of the parts.
part_texts-has :
    (key : String) (keys : List String) (rich : List (String × RichPart)) (p : RichPart)
    → dict_get key rich ≡ some p
    → is_empty p.text ≡ false
    → contains_func (λ k. str_eq k key) keys ≡ true
    → contains_func (λ t. text_eq t p.text) (part_texts keys rich) ≡ true
unfolding part_texts
part_texts-has key [] rich p e has c = absurd (ground arith)
part_texts-has key (k ∷ keys) rich p e has c = elim (Bool-cases (str_eq k key)) [
  | inl here ↦
      let eq : k ≡ key = (eq_iff k key).0 here in
      let found : dict_get k rich ≡ some p = rw eq e in
      rw (found, part_texts) (rw has (ground (arith, text_refl p.text)))
  | inr there ↦
      let rest = part_texts-has key keys rich p e has (ground arith) in
      elim (Option-cases (dict_get k rich)) [
        | inl gone ↦ rw (gone, part_texts) rest
        | inr (q, found) ↦ elim (Bool-cases (is_empty q.text)) [
          | inl empty ↦ rw (found, part_texts) (rw empty rest)
          | inr some_text ↦ rw (found, part_texts) (rw some_text (ground (arith, rest)))
        ]
      ]
]

-- The text `text` of the part `key` is empty, or among the texts that the parts `keys` of an agent
-- message have in the log.
abbrev pub is_among : Text → List String → MessageLog → Bool
is_among text keys t = is_empty text || contains_func (λ u. text_eq u text) (part_texts keys t.rich)

among :
    (key : String) (keys : List String) (t : MessageLog) (p : RichPart)
    → dict_get key t.rich ≡ some p
    → contains_func (λ k. str_eq k key) keys ≡ true
    → is_among p.text keys t ≡ true
among key keys t p e c = elim (Bool-cases (is_empty p.text)) [
  | inl empty ↦ rw empty refl
  | inr has ↦ rw has (part_texts-has key keys t.rich p e has c)
]

-- A rich message that is one of the parts of an agent message stays with it, also when the user has
-- said something since: no message is added, the parts of the agent messages and the other rich
-- messages stay, this one has its latest text, and if the agent message is in the log, its text is
-- the texts of its parts, joined by blank lines, this one's latest among them unless it is empty.
pub add_rich-keeps :
    (t : MessageLog) (msg : RichMessage) (now : ℕ) (p : RichPart)
    → dict_get msg.message_id t.rich ≡ some p
    → contains_func (λ k. str_eq k msg.message_id) (parts_of p.msg t.texts) ≡ true
    → let t' = (add_rich t msg now).0 in
      let parts = parts_of p.msg t.texts in
      (ids t'.messages ≡ ids t.messages)
      × (t'.next_id ≡ t.next_id)
      × (t'.texts ≡ t.texts)
      × (t'.rich
          ≡ dict_put msg.message_id (record { msg = p.msg; text = assistant_text msg }) t.rich)
      × ((i : ℕ)
          → index p.msg t'.messages ≡ some i
          → text_at i t'.messages ≡ some (join blank_line (part_texts parts t'.rich)))
      × (is_among (assistant_text msg) parts t' ≡ true)
unfolding add_rich joined_text
add_rich-keeps t msg now p e tied =
    let text = assistant_text msg in
    let placed = set_part-Placed t msg.message_id p.msg text in
    rw (e, add_rich)
      (
        placed.same_ids,
        placed.same_next,
        placed.same_texts,
        placed.rich,
        λ i found.
            placed.current i found
            ∙ ap
                (λ keys. some (
                  join blank_line (
                    part_texts (parts_of p.msg keys)
                      (set_part t msg.message_id p.msg text).0.rich)))
                placed.same_texts,
        among msg.message_id (parts_of p.msg t.texts) (set_part t msg.message_id p.msg text).0
            (record { msg = p.msg; text = text }) placed.part tied,
      )

-- The Id of the agent message being built, or the one it would get.
abbrev pub agent_id : MessageLog → ℕ
agent_id t = elim t.building [ none ↦ t.next_id | some id ↦ id ]

-- The Ids in the log with that of the agent message.
abbrev pub ids_with_agent : MessageLog → List ℕ
ids_with_agent t = elim t.building [
  | none ↦ ids t.messages ++ t.next_id ∷ []
  | some id ↦ ids t.messages
]

-- The parts of the agent message being built, none for one yet to start.
abbrev pub agent_parts : MessageLog → List String
agent_parts t = elim t.building [ none ↦ [] | some id ↦ parts_of id t.texts ]

-- What the first text of a rich message leaves, when it is not empty.
abbrev pub Joined : MessageLog → RichMessage → MessageLog → Type 0
Joined t msg t' =
    let parts = agent_parts t ++ msg.message_id ∷ [] in
    (dict_get msg.message_id t'.rich
      ≡ some (record { msg = agent_id t; text = assistant_text msg }))
    × (ids t'.messages ≡ ids_with_agent t)
    × (t'.building ≡ some (agent_id t))
    × (parts_of (agent_id t) t'.texts ≡ parts)
    × ((i : ℕ)
        → index (agent_id t) t'.messages ≡ some i
        → text_at i t'.messages ≡ some (join blank_line (part_texts parts t'.rich)))
    × (is_among (assistant_text msg) parts t' ≡ true)
