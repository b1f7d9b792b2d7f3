-- ===== src/Native/MessageLog/Ids.antt =====
-- The Ids of the messages in the log: they rise along the log and stay below the next one given out.
use agentapi.Prelude.{
  ℕ, zero, suc, ◌-◌, ◌≤◌, ◌<◌, max, ◌≡◌, refl, ap, subst, sym, ==_iff, ==_refl, dict_put, List, [],
  ◌∷◌, ◌++◌, none, some, arith, String, ◌==◌, Text, delete_at, modify_at, inl, inr, Option-cases,
  Bool-cases, dict_get, string_eq, is_empty, length,
}
use agentapi.Transcript.{RichMessage}
use agentapi.Native.MessageLog.{
  Role, Message, MessageLog, new_log, next_after, append_user, index, remove, add_rich, set_part,
  new_part, building_message, assistant_text, joined_text, has_text,
}

-- Ids from `lo` on, rising, below `hi`.
abbrev pub Ascends : ℕ → List Message → ℕ → Type 0
Ascends lo [] hi = lo ≤ hi
Ascends lo (m ∷ ms) hi = (lo ≤ m.id) × Ascends (suc m.id) ms hi

abbrev pub IsOrdered : MessageLog → Type 0
IsOrdered t = Ascends 0 t.messages t.next_id

Ascends-le : (lo : ℕ) (ms : List Message) (hi : ℕ) → Ascends lo ms hi → lo ≤ hi
Ascends-le lo [] hi h = h
Ascends-le lo (m ∷ ms) hi h = omega (arith, Ascends-le (suc m.id) ms hi h.1, h.0)

Ascends-lower :
    (lo lo' : ℕ) (ms : List Message) (hi : ℕ) → lo ≤ lo' → Ascends lo' ms hi → Ascends lo ms hi
Ascends-lower lo lo' [] hi le h = omega arith
Ascends-lower lo lo' (m ∷ ms) hi le h = (omega (arith, h.0), h.1)

Ascends-append :
    (lo : ℕ) (ms : List Message) (m : Message)
    → Ascends lo ms m.id
    → Ascends lo (ms ++ m ∷ []) (suc m.id)
Ascends-append lo [] m h = (h, omega arith)
Ascends-append lo (x ∷ xs) m h = (h.0, Ascends-append (suc x.id) xs m h.1)

Ascends-delete :
    (lo i : ℕ) (ms : List Message) (hi : ℕ) → Ascends lo ms hi → Ascends lo (delete_at i ms) hi
Ascends-delete lo i [] hi h = h
Ascends-delete lo zero (x ∷ xs) hi h = Ascends-lower lo (suc x.id) xs hi (omega (arith, h.0)) h.1
Ascends-delete lo (suc i) (x ∷ xs) hi h = (h.0, Ascends-delete (suc x.id) i xs hi h.1)

-- An Id below the first is not there.
index-below :
    (id lo : ℕ) (ms : List Message) (hi : ℕ) → id < lo → Ascends lo ms hi → index id ms ≡ none
unfolding index
index-below id lo [] hi l h = refl
index-below id lo (m ∷ ms) hi l h =
    rw (index-below id (suc m.id) ms hi (omega (arith, h.0)) h.1, index) (ground arith)

index-above :
    (id lo : ℕ) (ms : List Message) (hi : ℕ) → hi ≤ id → Ascends lo ms hi → index id ms ≡ none
unfolding index
index-above id lo [] hi l h = refl
index-above id lo (m ∷ ms) hi l h =
    rw (index-above id (suc m.id) ms hi l h.1, index)
      (ground (arith, Ascends-le (suc m.id) ms hi h.1))

no_room : (lo : ℕ) (ms : List Message) → Ascends lo ms lo → ms ≡ []
no_room lo [] h = refl
no_room lo (m ∷ ms) h = absurd (omega (arith, Ascends-le (suc m.id) ms lo h.1, h.0))

index_zero : (id : ℕ) (m : Message) (ms : List Message) → index id (m ∷ ms) ≡ some 0 → m.id ≡ id
unfolding index
index_zero id m ms e = ground (arith, Option-cases (index id ms))

index-suc :
    (id i : ℕ) (m : Message) (ms : List Message)
    → index id (m ∷ ms) ≡ some (suc i)
    → index id ms ≡ some i
unfolding index
index-suc id i m ms e = ground (arith, Option-cases (index id ms))

Ascends-delete_last :
    (id lo i : ℕ) (ms : List Message)
    → index id ms ≡ some i
    → Ascends lo ms (suc id)
    → Ascends lo (delete_at i ms) id
Ascends-delete_last id lo i [] e h = absurd (unfold index in ground arith)
Ascends-delete_last id lo zero (m ∷ ms) e h =
    let same = index_zero id m ms e in
    let last = no_room (suc id) ms (subst (λ k. Ascends (suc k) ms (suc id)) same h.1) in
    rw last (omega (arith, same, h.0))
Ascends-delete_last id lo (suc i) (m ∷ ms) e h =
    (h.0, Ascends-delete_last id (suc m.id) i ms (index-suc id i m ms e) h.1)

pub append_user-IsOrdered :
    (t : MessageLog) (text : Text) (now : ℕ) → IsOrdered t → IsOrdered (append_user t text now).0
unfolding append_user
append_user-IsOrdered t text now h = Ascends-append 0 t.messages _ h

pub remove-IsOrdered : (t : MessageLog) (id : ℕ) → IsOrdered t → IsOrdered (remove t id)
unfolding remove
remove-IsOrdered t id h = elim (Option-cases (index id t.messages)) [
  | inl e ↦ rw (e, remove) h
  | inr (i, e) ↦ elim (Bool-cases (suc id == t.next_id)) [
    | inr other ↦ rw (e, remove) (rw other (Ascends-delete 0 i t.messages t.next_id h))
    | inl last ↦
        let same : suc id ≡ t.next_id = (==_iff (suc id) t.next_id).0 last in
        let pred : t.next_id - 1 ≡ id = omega (arith, same) in
        rw (e, remove)
          (rw (last, pred)
            (Ascends-delete_last id 0 i t.messages e
              (subst (λ n. Ascends 0 t.messages n) (sym same) h)))
  ]
]

Ascends-retext :
    (lo i : ℕ) (text : Text) (ms : List Message) (hi : ℕ)
    → Ascends lo ms hi
    → Ascends lo (modify_at i (λ m. record m { text = text }) ms) hi
Ascends-retext lo i text [] hi h = h
Ascends-retext lo zero text (x ∷ xs) hi h = h
Ascends-retext lo (suc i) text (x ∷ xs) hi h = (h.0, Ascends-retext (suc x.id) i text xs hi h.1)

new_part-IsOrdered :
    (t : MessageLog) (key : String) (now : ℕ) → IsOrdered t → IsOrdered (new_part t key now).0
unfolding new_part building_message
new_part-IsOrdered t key now h = elim (Option-cases t.building) [
  | inl e ↦ rw (e, new_part, building_message) (Ascends-append 0 t.messages _ h)
  | inr (id, e) ↦ rw (e, new_part, building_message) h
]

set_part-IsOrdered :
    (t : MessageLog) (key : String) (id : ℕ) (text : Text)
    → IsOrdered t
    → IsOrdered (set_part t key id text).0
unfolding set_part
set_part-IsOrdered t key id text h = elim (Option-cases (index id t.messages)) [
  | inl e ↦ rw (e, set_part) h
  | inr (i, e) ↦
      elim (Bool-cases (
        has_text i
          (joined_text (record t { rich = dict_put key (record { msg = id; text = text }) t.rich })
            id)
          t.messages)) [
            | inl same ↦ rw (e, set_part) (rw same h)
            | inr new ↦ rw (e, set_part) (rw new (Ascends-retext 0 i _ t.messages t.next_id h))
          ]
]

-- A rich message keeps the Ids of the log rising and below the next one.
pub add_rich-IsOrdered :
    (t : MessageLog) (msg : RichMessage) (now : ℕ) → IsOrdered t → IsOrdered (add_rich t msg now).0
unfolding add_rich
add_rich-IsOrdered t msg now h = elim (Option-cases (dict_get msg.message_id t.rich)) [
  | inr (p, e) ↦ rw (e, add_rich) (set_part-IsOrdered t msg.message_id p.msg _ h)
  | inl e ↦ elim (Bool-cases (is_empty (assistant_text msg))) [
    | inl none_yet ↦ rw (e, none_yet, add_rich) h
    | inr some_text ↦
        rw (e, some_text, add_rich)
          (set_part-IsOrdered _ msg.message_id _ _ (new_part-IsOrdered t msg.message_id now h))
  ]
]

index_last :
    (lo : ℕ) (ms : List Message) (m : Message)
    → Ascends lo ms m.id
    → index m.id (ms ++ m ∷ []) ≡ some (length ms)
unfolding index
index_last lo [] m h = ground arith
index_last lo (x ∷ xs) m h = rw (index_last (suc x.id) xs m h.1, index)

delete_at_last : (ms : List Message) (m : Message) → delete_at (length ms) (ms ++ m ∷ []) ≡ ms
delete_at_last [] m = refl
delete_at_last (x ∷ xs) m = ap (λ r. x ∷ r) (delete_at_last xs m)

-- In a log with rising Ids, taking back the user message that was added last leaves the log as it
-- was, its next Id included, except that no agent message is being built.
pub append-remove :
    (t : MessageLog) (text : Text) (now : ℕ)
    → IsOrdered t
    → let (t', id) = append_user t text now in remove t' id ≡ record t { building = none }
unfolding append_user remove
append-remove t text now h =
    let m : Message = record { id = t.next_id; text = text; role = Role.user; time = now } in
    let pred : suc t.next_id - 1 ≡ t.next_id = omega arith in
    rw (index_last 0 t.messages m h, remove)
      (rw (==_refl (suc t.next_id), delete_at_last t.messages m, pred))

next_after-Ascends :
    (lo : ℕ) (ms : List Message) (hi : ℕ) → Ascends lo ms hi → Ascends lo ms (next_after lo ms)
unfolding next_after
next_after-Ascends lo [] hi h = omega arith
next_after-Ascends lo (m ∷ ms) hi h =
    let e : max lo (suc m.id) ≡ suc m.id = omega (arith, h.0) in
    rw e (h.0, next_after-Ascends (suc m.id) ms hi h.1)

-- Restored messages with rising Ids make a log whose next Id is above them all.
pub new_log-IsOrdered : (ms : List Message) (hi : ℕ) → Ascends 0 ms hi → IsOrdered (new_log ms)
unfolding new_log
new_log-IsOrdered ms hi h = next_after-Ascends 0 ms hi h
