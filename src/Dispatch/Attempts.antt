-- ===== src/Dispatch/Attempts.antt =====
-- How often a message that the agent refuses is tried.
use agentapi.Prelude.{
  ℕ, zero, suc, ◌+◌, ◌≤◌, ◌<◌, ◌≡◌, refl, ap₂, le→leb, lt→not-leb, ◌∙◌, false, List, ◌∷◌, some,
  arith, ◌==◌, leb, if◌then◌else◌, ◌≢◌, ==_refl, inl, inr, Bool-cases,
}
use agentapi.Queue.{QueuedMessage, MessageQueue, remove, failed, changed}
use agentapi.Native.Turn.{TurnError}
use agentapi.Dispatch.{
  Server, after_attempts, send_failed, after_send, is_unconfirmed, max_queue_dispatch_attempts,
}

pub remove-head :
    (q : MessageQueue) (m : QueuedMessage) (rest : List QueuedMessage)
    → q.messages ≡ m ∷ rest
    → (remove q m.id).0.messages ≡ rest
unfolding remove changed
remove-head q m rest e = ground (arith, ==_refl m.id)

-- The failed sends in a row of a message, as the queue counts them.
abbrev pub failures_of : MessageQueue → QueuedMessage → ℕ
failures_of q m = if q.failed_id == m.id then q.failures else 0

pub failed-counts :
    (q : MessageQueue) (m : QueuedMessage)
    → ((failed q m.id).1 ≡ suc (failures_of q m))
      × (failures_of (failed q m.id).0 m ≡ suc (failures_of q m))
      × ((failed q m.id).0.messages ≡ q.messages)
unfolding failed
failed-counts q m = ground (arith, ==_refl m.id)

-- A send of the head that failed for good reason is counted; the fifth in a row drops the message
-- with an error, and before that it stays at the head.
pub send_failed-counts :
    (m : QueuedMessage) (rest : List QueuedMessage) (e : TurnError) (s : Server)
    → s.queue.messages ≡ m ∷ rest
    → is_unconfirmed e ≡ false
    → let s' = send_failed m e s in
      if leb max_queue_dispatch_attempts (suc (failures_of s.queue m))
      then (s'.queue.messages ≡ rest)
        × (s'.errors ≡ after_attempts m (suc (failures_of s.queue m)) e ∷ s.errors)
      else (s'.queue.messages ≡ m ∷ rest)
        × (failures_of s'.queue m ≡ suc (failures_of s.queue m))
        × (s'.errors ≡ s.errors)
unfolding send_failed
send_failed-counts m rest e s h u =
    let (attempts, counted, same) = failed-counts s.queue m in
    elim (Bool-cases (leb max_queue_dispatch_attempts (suc (failures_of s.queue m)))) [
      | inl last ↦ rw last (
          rw (u, attempts, send_failed)
            (rw last (remove-head (failed s.queue m.id).0 m rest (same ∙ h), refl)))
      | inr more ↦ rw more (rw (u, attempts, send_failed) (rw more (same ∙ h, counted, refl)))
    ]

-- The head fails `n` times in a row, each time with the error `e`.
unfoldable pub fail_times : ℕ → QueuedMessage → TurnError → Server → Server
fail_times zero m e s = s
fail_times (suc n) m e s = after_send m (some e) (fail_times n m e s)

-- The errors that count: neither of an agent that got busy again nor of an unconfirmed send.
abbrev pub Counts : TurnError → Type 0
Counts e = (is_unconfirmed e ≡ false) × (e ≢ TurnError.changing)

pub after_send-failed :
    (m : QueuedMessage) (e : TurnError) (s : Server)
    → e ≢ TurnError.changing
    → after_send m (some e) s ≡ send_failed m e s
unfolding after_send
after_send-failed m e s ne = ground (arith, ne)

pub send_failed-keeps :
    (m : QueuedMessage) (rest : List QueuedMessage) (e : TurnError) (s : Server)
    → s.queue.messages ≡ m ∷ rest
    → is_unconfirmed e ≡ false
    → suc (failures_of s.queue m) < max_queue_dispatch_attempts
    → let s' = send_failed m e s in
      (s'.queue.messages ≡ m ∷ rest)
      × (failures_of s'.queue m ≡ suc (failures_of s.queue m))
      × (s'.errors ≡ s.errors)
send_failed-keeps m rest e s h u lt =
    let more : leb max_queue_dispatch_attempts (suc (failures_of s.queue m)) ≡ false =
      lt→not-leb (suc (failures_of s.queue m)) max_queue_dispatch_attempts lt in
    rw more at (send_failed-counts m rest e s h u)

pub send_failed-drops :
    (m : QueuedMessage) (rest : List QueuedMessage) (e : TurnError) (s : Server)
    → s.queue.messages ≡ m ∷ rest
    → is_unconfirmed e ≡ false
    → max_queue_dispatch_attempts ≤ suc (failures_of s.queue m)
    → let s' = send_failed m e s in
      (s'.queue.messages ≡ rest)
      × (s'.errors ≡ after_attempts m (suc (failures_of s.queue m)) e ∷ s.errors)
send_failed-drops m rest e s h u le =
    let last = le→leb max_queue_dispatch_attempts (suc (failures_of s.queue m)) le in
    rw last at (send_failed-counts m rest e s h u)

fail_times-waits :
    (n : ℕ) (m : QueuedMessage) (rest : List QueuedMessage) (e : TurnError) (s : Server)
    → s.queue.messages ≡ m ∷ rest
    → Counts e
    → n + failures_of s.queue m < max_queue_dispatch_attempts
    → let s' = fail_times n m e s in
      (s'.queue.messages ≡ m ∷ rest)
      × (failures_of s'.queue m ≡ n + failures_of s.queue m)
      × (s'.errors ≡ s.errors)
unfolding fail_times
fail_times-waits zero m rest e s h c lt = (h, omega arith, refl)
fail_times-waits (suc n) m rest e s h c lt =
    let t = fail_times n m e s in
    let (still, counted, quiet) = fail_times-waits n m rest e s h c (omega arith) in
    let (still', counted', quiet') =
      send_failed-keeps m rest e t still c.0 (omega (arith, counted)) in
    rw (after_send-failed m e t c.1) (still', omega (arith, counted, counted'), quiet' ∙ quiet)

-- A message at the head that has no failed sends so far stays there while the same error, neither
-- unconfirmed nor of a busy agent, fails fewer than five sends in a row; the fifth drops it, with
-- an error, and the rest of the queue stays.
pub dropped_after_five :
    (m : QueuedMessage) (rest : List QueuedMessage) (e : TurnError) (s : Server)
    → s.queue.messages ≡ m ∷ rest
    → Counts e
    → failures_of s.queue m ≡ 0
    → ((n : ℕ) → n < 5 → (fail_times n m e s).queue.messages ≡ m ∷ rest)
      × ((fail_times 5 m e s).queue.messages ≡ rest)
      × ((fail_times 5 m e s).errors ≡ after_attempts m 5 e ∷ s.errors)
unfolding fail_times
dropped_after_five m rest e s h c z =
    let t = fail_times 4 m e s in
    let (still, counted, quiet) = fail_times-waits 4 m rest e s h c (omega (arith, z)) in
    let (gone, said) = send_failed-drops m rest e t still c.0 (omega (arith, z, counted)) in
    let five : suc (failures_of t.queue m) ≡ 5 = omega (arith, z, counted) in
    (
      λ n lt. (fail_times-waits n m rest e s h c (omega (arith, z))).0,
      rw (after_send-failed m e t c.1) gone,
      rw (after_send-failed m e t c.1) (said ∙ ap₂ (λ k es. after_attempts m k e ∷ es) five quiet),
    )
