-- ===== src/Native/Lifecycle/Restarts.antt =====
-- How often an agent whose starts fail is started again (lib/native/lifecycle.go, failStart and
-- startAgainLocked).
use agentapi.Prelude.{
  ℕ, zero, suc, ◌≤◌, ◌<◌, ◌≡◌, refl, ap, ap₂, ◌∙◌, true, ◌∷◌, Option, some, Text, arith, length,
  get_or, ==_refl, min,
}
use agentapi.Native.State.{Conversation, clear_login, expire_requests}
use agentapi.Native.Lifecycle.{down, start_again, restart_resume, start_failed}

-- What a failed start leaves, by the restarts in a row before it.
abbrev Failed : Conversation → Conversation → Type 0
Failed c c' =
    (c'.cfg ≡ c.cfg)
    × (c.restarts < length c.cfg.restart_delays
        → (c'.restarts ≡ suc c.restarts)
          × (c'.relaunches
              ≡ (record {
                gen = suc c.generation;
                resume = restart_resume c;
                delay = get_or c.cfg.restart_delays c.restarts 0;
              })
                ∷ c.relaunches))
    × (length c.cfg.restart_delays ≤ c.restarts
        → (c'.restarts ≡ c.restarts) × (c'.relaunches ≡ c.relaunches))

start_again-Failed :
    (what : Text) (e : Option Text) (now : ℕ) (c : Conversation)
    → Failed c (start_again what e (down now c))
unfolding start_again down expire_requests clear_login restart_resume
start_again-Failed what e now c = (ground arith, λ lt. ground arith, λ le. ground arith)

start_failed-Failed :
    (e : Text) (now : ℕ) (c : Conversation) → Failed c (start_failed c.generation e true now c)
unfolding start_failed
start_failed-Failed e now c = rw (==_refl c.generation) (start_again-Failed e (some e) now c)

-- The agent's start fails `n` times in a row, each time when it was started again.
unfoldable pub fail_starts : ℕ → Text → ℕ → Conversation → Conversation
fail_starts zero e now c = c
fail_starts (suc n) e now c =
    let d = fail_starts n e now c in start_failed d.generation e true now d

fail_starts-cfg :
    (n : ℕ) (e : Text) (now : ℕ) (c : Conversation) → (fail_starts n e now c).cfg ≡ c.cfg
unfolding fail_starts
fail_starts-cfg zero e now c = refl
fail_starts-cfg (suc n) e now c =
    (start_failed-Failed e now (fail_starts n e now c)).0 ∙ fail_starts-cfg n e now c

fail_starts-restarts :
    (n : ℕ) (e : Text) (now : ℕ) (c : Conversation)
    → c.restarts ≡ 0
    → (fail_starts n e now c).restarts ≡ min n (length c.cfg.restart_delays)
unfolding fail_starts
fail_starts-restarts zero e now c z = omega (arith, z)
fail_starts-restarts (suc n) e now c z =
    let (_, more, last) = start_failed-Failed e now (fail_starts n e now c) in
    let so_far = fail_starts-restarts n e now c z in
    let same = ap (λ k. length k.restart_delays) (fail_starts-cfg n e now c) in
    ground (arith, so_far, same, more, last)

-- An agent whose starts, which the conversation makes by itself, fail in a row, from none in a row
-- before, is started again once for each of the configured delays, after that delay and for the
-- generation that the failure began, and then no more.
pub restarts_bounded :
    (n : ℕ) (e : Text) (now : ℕ) (c : Conversation)
    → c.restarts ≡ 0
    → let d = fail_starts n e now c in
      let d' = fail_starts (suc n) e now c in
      (n < length c.cfg.restart_delays
        → d'.relaunches
          ≡ (record {
            gen = suc d.generation;
            resume = restart_resume d;
            delay = get_or c.cfg.restart_delays n 0;
          })
            ∷ d.relaunches)
      × (length c.cfg.restart_delays ≤ n → d'.relaunches ≡ d.relaunches)
unfolding fail_starts
restarts_bounded n e now c z =
    let d = fail_starts n e now c in
    let (_, more, last) = start_failed-Failed e now d in
    let so_far = fail_starts-restarts n e now c z in
    let cfg = fail_starts-cfg n e now c in
    let same = ap (λ k. length k.restart_delays) cfg in
    (
      λ lt.
          let which : d.restarts ≡ n = omega (arith, so_far, lt) in
          (more (omega (arith, so_far, same, lt))).1
          ∙ ap₂
              (λ k i.
                (record { gen = suc d.generation; resume = restart_resume d; delay = get_or k i 0 })
                ∷ d.relaunches)
              (ap (λ k. k.restart_delays) cfg) which,
      λ le. (last (omega (arith, so_far, same, le))).1,
    )
