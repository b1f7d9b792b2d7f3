-- ===== src/Convstate/Emitter/Newest.antt =====
-- Changes of the message queue that are reported in any order: SetQueue of lib/convstate/queue.go.
use agentapi.Prelude.{ℕ, ◌≤◌, ◌<◌, ◌≡◌, refl, ◌∙◌, ap, List, [], ◌∷◌, ◌++◌, arith}
use agentapi.Queue.{QueuedMessage}
use agentapi.Convstate.Emitter.{EventEmitter, set_queue}

-- Reports of the queue, each with its version, in the order in which they arrive.
unfoldable pub set_queues : List (List QueuedMessage × ℕ) → EventEmitter → EventEmitter
set_queues [] e = e
set_queues ((q, version) ∷ reports) e = set_queues reports (set_queue q version e)

abbrev pub AllBefore : ℕ → List (List QueuedMessage × ℕ) → Type 0
AllBefore v [] = Unit {0}
AllBefore v ((q, version) ∷ reports) = (version < v) × AllBefore v reports

set_queue-version :
    (q : List QueuedMessage) (v : ℕ) (e : EventEmitter)
    → e.queue_version < v
    → ((set_queue q v e).queue ≡ q) × ((set_queue q v e).queue_version ≡ v)
unfolding set_queue
set_queue-version q v e lt = ground arith

set_queue-late :
    (q : List QueuedMessage) (v : ℕ) (e : EventEmitter) → v ≤ e.queue_version → set_queue q v e ≡ e
unfolding set_queue
set_queue-late q v e le = ground arith

set_queue-below :
    (q : List QueuedMessage) (version v : ℕ) (e : EventEmitter)
    → version < v
    → e.queue_version < v
    → (set_queue q version e).queue_version < v
unfolding set_queue
set_queue-below q version v e lt lt' = ground arith

after_newest :
    (reports : List (List QueuedMessage × ℕ)) (v : ℕ) (e : EventEmitter)
    → AllBefore v reports
    → e.queue_version ≡ v
    → set_queues reports e ≡ e
unfolding set_queues
after_newest [] v e b same = refl
after_newest ((q, version) ∷ reports) v e (lt, b) same =
    ap (set_queues reports) (set_queue-late q version e (omega arith))
    ∙ after_newest reports v e b same

-- However the reports of the queue arrive, if one of them has a version above the emitter's and
-- above all the other reports', the emitter ends up with its queue and its version.
pub set_queues-newest :
    (before after : List (List QueuedMessage × ℕ)) (q : List QueuedMessage) (v : ℕ)
    (e : EventEmitter)
    → e.queue_version < v
    → AllBefore v before
    → AllBefore v after
    → let e' = set_queues (before ++ (q, v) ∷ after) e in (e'.queue ≡ q) × (e'.queue_version ≡ v)
unfolding set_queues
set_queues-newest [] after q v e lt b a =
    let (queue, version) = set_queue-version q v e lt in
    let same = after_newest after v (set_queue q v e) a version in
    (
      ap (λ (x : EventEmitter). x.queue) same ∙ queue,
      ap (λ (x : EventEmitter). x.queue_version) same ∙ version,
    )
set_queues-newest ((q', version) ∷ before) after q v e lt (less, b) a =
    set_queues-newest before after q v (set_queue q' version e)
      (set_queue-below q' version v e less lt) b a
