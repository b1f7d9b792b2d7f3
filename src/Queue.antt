-- ===== src/Queue.antt =====
-- The message queue of lib/httpapi/queue.go: the messages waiting for the agent.
--
-- A method that changes `*messageQueue` returns the new record. The mutex makes each method one
-- step, so a method is one function. `onChange` is called after a change, outside the lock: the
-- calls made are kept in `reports`, the newest first. Times are nanoseconds. An ID counts the
-- messages queued, so Go's int does not overflow on it; `version` is a uint64 and wraps.
pub mod Pick
pub mod Order
pub mod Access
pub mod Ids
pub mod History
use agentapi.Prelude.{
  ℕ, suc, ◌+◌, max, Bool, true, false, List, [], ◌∷◌, ◌++◌, Option, none, some, Text, ◌==◌,
  if◌then◌else◌, not, length, get_elem?, index_func, delete_at, modify_at, next64, dict_get,
  dict_put, dict_delete, nat_eq,
}

pub record QueuedMessage : Type 0 where
  pub id : ℕ
  pub content : Text
  pub time : ℕ

-- A call of `onChange`.
pub record Report : Type 0 where
  pub queue : List QueuedMessage
  pub last : ℕ
  pub number : ℕ

pub record MessageQueue : Type 0 where
  pub messages : List QueuedMessage
  pub last_id : ℕ
  pub failed_id : ℕ
  pub failures : ℕ
  pub version : ℕ
  pub has_on_change : Bool
  pub reports : List Report

unfoldable pub changed : MessageQueue → MessageQueue
changed q = record q {
  version = next64 version;
  reports = if has_on_change then report ∷ reports else reports;
}
  where
    open q use {messages, last_id, version, has_on_change, reports}

    report : Report
    report = record { queue = messages; last = last_id; number = next64 version }

unfoldable pub len : MessageQueue → ℕ
len q = length q.messages

unfoldable pub push : MessageQueue → Text → ℕ → Bool → MessageQueue × QueuedMessage
unfolding changed
push q content at front =
    let m : QueuedMessage = record { id = suc q.last_id; content = content; time = at } in
    (
      changed (record q {
        last_id = suc q.last_id;
        messages = if front then m ∷ q.messages else q.messages ++ m ∷ [];
      }),
      m,
    )

first : List QueuedMessage → Option QueuedMessage
first [] = none
first (m ∷ ms) = some m

unfoldable pub head : MessageQueue → Option QueuedMessage
unfolding first
head q = first q.messages

-- `none` is Go's -1.
abbrev pub index : MessageQueue → ℕ → Option ℕ
index q id = index_func (λ m. m.id == id) q.messages

unfoldable pub get : MessageQueue → ℕ → Option QueuedMessage
get q id = elim (index q id) [ none ↦ none | some i ↦ get_elem? q.messages i ]

unfoldable pub update : MessageQueue → ℕ → Text → MessageQueue × Bool
unfolding changed
update q id content = elim (index q id) [
  | none ↦ (q, false)
  | some i ↦ (
    changed (record q { messages = modify_at i (λ m. record m { content = content }) q.messages }),
    true,
  )
]

unfoldable pub remove : MessageQueue → ℕ → MessageQueue × Bool
unfolding changed
remove q id = elim (index q id) [
  | none ↦ (q, false)
  | some i ↦ (changed (record q { messages = delete_at i q.messages }), true)
]

abbrev pub ById : Type 0
ById = List (ℕ × QueuedMessage)

-- The loop that fills the map.
unfoldable pub by_id_from : ById → List QueuedMessage → ById
by_id_from m [] = m
by_id_from m (x ∷ xs) = by_id_from (dict_put x.id x m) xs

-- The loop over the IDs: `reordered`, and what is left of the map; `none` for an ID that is not in it.
unfoldable pub pick : List ℕ → ById → Option (List QueuedMessage × ById)
pick [] m = some ([], m)
pick (id ∷ ids) m = elim (dict_get id m) [
  | none ↦ none
  | some v ↦ elim (pick ids (dict_delete id m)) [
    | none ↦ none
    | some (reordered, rest) ↦ some (v ∷ reordered, rest)
  ]
]

unfoldable pub reorder : MessageQueue → List ℕ → MessageQueue × Bool
unfolding changed
reorder q ids =
    if length ids == length q.messages
    then elim (pick ids (by_id_from [] q.messages)) [
      | none ↦ (q, false)
      | some (reordered, rest) ↦ (changed (record q { messages = reordered }), true)
    ]
    else (q, false)

unfoldable pub failed : MessageQueue → ℕ → MessageQueue × ℕ
failed q id =
    let q' : MessageQueue =
      if not (q.failed_id == id) then record q { failed_id = id; failures = 0 } else q in
    (record q' { failures = q'.failures + 1 }, q'.failures + 1)

unfoldable pub clear : MessageQueue → MessageQueue
unfolding changed
clear q = changed (record q { messages = []; failed_id = 0; failures = 0 })

-- The highest ID of the messages and of `n`.
unfoldable pub highest_id : ℕ → List QueuedMessage → ℕ
highest_id n [] = n
highest_id n (m ∷ ms) = highest_id (max n m.id) ms

unfoldable pub restore : MessageQueue → List QueuedMessage → ℕ → MessageQueue
unfolding changed highest_id
restore q messages last_id =
    changed (record q { messages = messages; last_id = highest_id last_id messages })
