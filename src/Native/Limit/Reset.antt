-- ===== src/Native/Limit/Reset.antt =====
-- When the limits that the account reached reset, and the stop that a limit leaves
-- (`reachedLimitReset` and `limitStoppedLocked` of lib/native/limit.go).
use agentapi.Prelude.{
  ℕ, ◌≤◌, ◌≡◌, ◌||◌, List, [], ◌∷◌, Option, none, some, arith, str_eq, if◌then◌else◌, ◌⊎◌, inl, inr,
  refl, Bool-cases,
}
use agentapi.Native.Types.{TurnResult, AgentUsage, RateLimit}
use agentapi.Native.State.{LimitStop, Conversation, set_limit_stop}
use agentapi.Native.Limit.{
  limit_stopped, continue_at_reset, reached_limit_reset, reset_from, later_reset,
}

-- The reset time of a limit, if the account reached it and the agent says when it resets.
abbrev pub reached_reset : RateLimit → Option ℕ
reached_reset l = if str_eq l.status "rejected" || l.full then l.resets_at else none

-- A time is at most another; no time is at most any, and none is at least a time.
abbrev pub Within : Option ℕ → Option ℕ → Type 0
Within none o = Unit {0}
Within (some at) none = ⊥
Within (some at) (some t) = at ≤ t

-- No reached limit of the list resets after the time; with `none`, none says when it resets.
abbrev pub NoneLater : Option ℕ → List RateLimit → Type 0
NoneLater o [] = Unit {0}
NoneLater o (l ∷ ls) = Within (reached_reset l) o × NoneLater o ls

-- Some reached limit of the list resets at the time.
abbrev pub SomeAt : ℕ → List RateLimit → Type 0
SomeAt t [] = ⊥
SomeAt t (l ∷ ls) = (reached_reset l ≡ some t) ⊎ SomeAt t ls

Within-trans : (a b c : Option ℕ) → Within a b → Within b c → Within a c
Within-trans none b c p q = tt
Within-trans (some x) none c p q = absurd p
Within-trans (some x) (some y) none p q = absurd q
Within-trans (some x) (some y) (some z) p q = omega arith

Within-later : (o : Option ℕ) (l : RateLimit) → Within o (later_reset o l)
unfolding later_reset
Within-later o l = ground arith

reached-later : (o : Option ℕ) (l : RateLimit) → Within (reached_reset l) (later_reset o l)
unfolding later_reset
reached-later o l = ground arith

Within-reset_from : (o : Option ℕ) (ls : List RateLimit) → Within o (reset_from o ls)
unfolding reset_from
Within-reset_from none ls = tt
Within-reset_from (some t) [] = omega arith
Within-reset_from (some t) (l ∷ ls) =
    Within-trans (some t) (later_reset (some t) l) (reset_from (later_reset (some t) l) ls)
      (Within-later (some t) l) (Within-reset_from (later_reset (some t) l) ls)

reset_from-NoneLater : (o : Option ℕ) (ls : List RateLimit) → NoneLater (reset_from o ls) ls
unfolding reset_from
reset_from-NoneLater o [] = tt
reset_from-NoneLater o (l ∷ ls) = (
  Within-trans (reached_reset l) (later_reset o l) (reset_from (later_reset o l) ls)
      (reached-later o l) (Within-reset_from (later_reset o l) ls),
  reset_from-NoneLater (later_reset o l) ls,
)

later_reset-from :
    (o : Option ℕ) (l : RateLimit) (t : ℕ)
    → later_reset o l ≡ some t
    → (o ≡ some t) ⊎ (reached_reset l ≡ some t)
unfolding later_reset
later_reset-from o l t e = ground arith

reset_from-SomeAt :
    (o : Option ℕ) (ls : List RateLimit) (t : ℕ)
    → reset_from o ls ≡ some t
    → (o ≡ some t) ⊎ SomeAt t ls
unfolding reset_from
reset_from-SomeAt o [] t e = inl e
reset_from-SomeAt o (l ∷ ls) t e = elim (reset_from-SomeAt (later_reset o l) ls t e) [
  | inr s ↦ inr (inr s)
  | inl e' ↦ elim (later_reset-from o l t e') [ inl p ↦ inl p | inr p ↦ inr (inl p) ]
]

reached_limit_reset-latest :
    (u : AgentUsage)
    → NoneLater (reached_limit_reset u) u.rate_limits
      × ((t : ℕ) → reached_limit_reset u ≡ some t → SomeAt t u.rate_limits)
unfolding reached_limit_reset
reached_limit_reset-latest u = (
  reset_from-NoneLater none u.rate_limits,
  λ t e. elim (reset_from-SomeAt none u.rate_limits t e) [
    | inl p ↦ absurd (ground arith)
    | inr s ↦ s
  ],
)

-- When a stop resets: at the time that the turn's result says, and if it says none, at that of a
-- limit the account reached, such that no limit it reached resets later, or at no known time if no
-- reached limit has one.
abbrev pub Resets : Option ℕ → AgentUsage → Option ℕ → Type 0
Resets (some at) u o = o ≡ some at
Resets none u o = NoneLater o u.rate_limits × ((t : ℕ) → o ≡ some t → SomeAt t u.rate_limits)

Resets-of :
    (said : Option ℕ) (u : AgentUsage)
    → Resets said u (elim said [ none ↦ reached_limit_reset u | some at ↦ some at ])
Resets-of none u = reached_limit_reset-latest u
Resets-of (some at) u = refl

-- A turn that a limit stopped leaves a stop with the result's error, at that time. It resets when
-- the result says; if the result does not say, at the time of a limit the account reached, such that
-- no limit it reached resets later, or at no known time if no reached limit has one. A continuation
-- is scheduled only if the configuration or the stopped continuation asks for it, a minute after
-- that time.
pub limit_stopped-Resets :
    (result : TurnResult) (now : ℕ) (c : Conversation)
    → (ls : LimitStop) × ((limit_stopped result now c).limit_stop ≡ some ls)
      × (ls.message ≡ result.error)
      × (ls.stopped_at ≡ now)
      × Resets result.resets_at c.usage ls.resets_at
      × (ls.continue_at
          ≡ (if c.cfg.auto_continue || c.continue_again then continue_at_reset (some ls) else none))
unfolding limit_stopped set_limit_stop continue_at_reset
limit_stopped-Resets result now c =
    let o : Option ℕ = elim result.resets_at [
      | none ↦ reached_limit_reset c.usage
      | some at ↦ some at
    ] in
    let r : Resets result.resets_at c.usage o = Resets-of result.resets_at c.usage in
    let stop : LimitStop = record {
      message = result.error;
      stopped_at = now;
      resets_at = o;
      continue_at = none;
    } in
    let again : LimitStop = record stop { continue_at = continue_at_reset (some stop) } in
    elim (Bool-cases (c.cfg.auto_continue || c.continue_again)) [
      | inl on ↦ (again, ground (arith, on), refl, refl, r, rw on refl)
      | inr off ↦ (stop, ground (arith, off), refl, refl, r, rw off refl)
    ]
