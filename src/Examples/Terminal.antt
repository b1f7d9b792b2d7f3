-- ===== src/Examples/Terminal.antt =====
-- An example of the theorem about the scrollback of a terminal.
use agentapi.Prelude.{ℕ, ◌≤◌, ◌≡◌, refl, List, [], ◌∷◌, some, codes, length, drop}
use agentapi.Scrollback.{Scrollback, new_scrollback, add_all, bytes}
use agentapi.Scrollback.Refine.{keep_recent_all, output, add_all-keep_recent}

-- Two lines, then one that is longer than the ring of eight bytes lets stand beside them.
abbrev chunks : List (List ℕ)
chunks = codes "one\n" ∷ codes "two\n" ∷ codes "three" ∷ []

add_all-keep_recent_example :
    (s : Scrollback) × (add_all chunks (new_scrollback 8) ≡ some s)
    × (bytes s ≡ keep_recent_all 8 [] chunks)
    × (bytes s ≡ drop s.start (output [] chunks))
    × (length (bytes s) ≤ 8)
add_all-keep_recent_example = add_all-keep_recent 8 chunks

-- The second line's end is cut, so what is kept starts at the third.
kept : keep_recent_all 8 [] chunks ≡ codes "three"
kept = refl
