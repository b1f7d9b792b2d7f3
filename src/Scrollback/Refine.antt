-- ===== src/Scrollback/Refine.antt =====
-- The scrollback as its client sees it: the end of the output, which starts at a line once output
-- was dropped.
use agentapi.Prelude.{
  ℕ, ◌+◌, ◌-◌, ◌≤◌, ◌≡◌, refl, ◌∙◌, ap, ap₂, List, [], ◌∷◌, ◌++◌, some, arith, ltb, if◌then◌else◌,
  length, drop, length-drop,
}
use agentapi.Scrollback.{Scrollback, new_scrollback, advance, add, bytes, add_all}
use agentapi.Scrollback.Write.{LastOf-cut, write-Rings}
use agentapi.Scrollback.Advance.{keep_recent, Holds, bytes-Holds, advance_lem}

-- A chunk of any length that is added to what is kept is taken in, and what is kept then is the
-- abstract `keep_recent` of what was kept before and of the chunk.
pub add-keep_recent :
    (s : Scrollback) (out chunk : List ℕ)
    → Holds s out
    → (s' : Scrollback) × (add chunk s ≡ some s')
      × (bytes s' ≡ keep_recent s.size (bytes s) chunk)
      × Holds s' (out ++ chunk)
      × (s'.size ≡ s.size)
unfolding add
add-keep_recent s out chunk h =
    let kept = if ltb s.size (length chunk) then drop (length chunk - s.size) chunk else chunk in
    let (buf, done, rings) = write-Rings s out chunk kept h.rings (LastOf-cut s.size chunk) in
    let (holds, sized, moved) = advance_lem s out chunk h buf rings in
    (
      advance (s.stop + length chunk) (record s { buf = buf }),
      rw done,
      rw (bytes-Holds s out h) (bytes-Holds _ (out ++ chunk) holds ∙ moved),
      holds,
      sized,
    )

new_scrollback-Holds : (size : ℕ) → Holds (new_scrollback size) []
unfolding new_scrollback
new_scrollback-Holds size = record {
  rings = record { ended = refl; filled = omega arith; placed = λ o lt near. absurd (omega arith) };
  starts = omega arith;
  fits = omega arith;
  searched = omega arith;
  clear = λ o le lt b b_at. absurd (omega arith);
}

-- What is kept of the chunks, one after the other.
abbrev pub keep_recent_all : ℕ → List ℕ → List (List ℕ) → List ℕ
keep_recent_all size kept [] = kept
keep_recent_all size kept (chunk ∷ chunks) =
    keep_recent_all size (keep_recent size kept chunk) chunks

-- The output so far, and the chunks.
abbrev pub output : List ℕ → List (List ℕ) → List ℕ
output out [] = out
output out (chunk ∷ chunks) = output (out ++ chunk) chunks

add_all-Holds :
    (chunks : List (List ℕ)) (s : Scrollback) (out : List ℕ)
    → Holds s out
    → (s' : Scrollback) × (add_all chunks s ≡ some s')
      × (bytes s' ≡ keep_recent_all s.size (bytes s) chunks)
      × Holds s' (output out chunks)
      × (s'.size ≡ s.size)
unfolding add_all
add_all-Holds [] s out h = (s, refl, refl, h, refl)
add_all-Holds (chunk ∷ chunks) s out h =
    let (s₁, added, kept, h₁, sized) = add-keep_recent s out chunk h in
    let (s₂, done, kept', h₂, sized') = add_all-Holds chunks s₁ (out ++ chunk) h₁ in
    (
      s₂,
      rw (added, add_all) done,
      kept' ∙ ap₂ (λ n k. keep_recent_all n k chunks) sized kept,
      h₂,
      sized' ∙ sized,
    )

-- A new scrollback takes in every run of chunks. What it keeps after the run is what the abstract
-- `keep_recent` leaves of the chunks one after the other; that is an end of all the output, and at
-- most `size` bytes long.
pub add_all-keep_recent :
    (size : ℕ) (chunks : List (List ℕ))
    → (s : Scrollback) × (add_all chunks (new_scrollback size) ≡ some s)
      × (bytes s ≡ keep_recent_all size [] chunks)
      × (bytes s ≡ drop s.start (output [] chunks))
      × (length (bytes s) ≤ size)
unfolding new_scrollback
add_all-keep_recent size chunks =
    let h₀ = new_scrollback-Holds size in
    let (s, done, kept, h, sized) = add_all-Holds chunks (new_scrollback size) [] h₀ in
    let end_of = bytes-Holds s (output [] chunks) h in
    (
      s,
      done,
      kept ∙ ap (λ k. keep_recent_all size k chunks) (bytes-Holds (new_scrollback size) [] h₀),
      end_of,
      omega (
        arith,
        ap length end_of,
        length-drop s.start (output [] chunks),
        h.rings.ended,
        h.fits,
        sized,
      ),
    )
