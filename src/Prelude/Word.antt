-- ===== src/Prelude/Word.antt =====
-- Go's uint64 counters: incrementing wraps.
use Prim.Native.Nat.{ℕ, ◌+◌, ◌%◌, ◌<◌}
use mathlib.Core.Path.{◌≡◌}
use native.Mathlib.Nat.{mod-eq_of_lt}

abbrev pub u64_mod : ℕ
u64_mod = 18446744073709551616

-- `n++` on a uint64.
abbrev pub next64 : ℕ → ℕ
next64 n = (n + 1) % u64_mod

pub next64-eq : (n : ℕ) → n + 1 < u64_mod → next64 n ≡ n + 1
next64-eq n h = mod-eq_of_lt h
