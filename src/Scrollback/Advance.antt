-- ===== src/Scrollback/Advance.antt =====
-- The start of what is kept moves on when the output outgrows the ring.
use agentapi.Prelude.{
  ℕ, ◌+◌, ◌-◌, ◌≤◌, ◌<◌, max, ◌≡◌, refl, sym, ◌∙◌, ap, true, false, List, ◌++◌, none, some, arith,
  leb, if◌then◌else◌, inl, inr, Bool-cases, Option-cases, length, drop, get_elem?, get_elem?-append,
  get_elem?-drop, length-append, length-drop, drop-append, drop-drop, index_func, index_func-skip,
  index_func-none, index_func-lt,
}
use mathlib.Core.Option
use agentapi.Scrollback.{Scrollback, is_newline, advance, bytes}
use agentapi.Scrollback.Window.{Rings, segments-append, index_newline-eq}

-- Drops the output up to the first newline, if there is one.
abbrev pub after_newline : List ℕ → List ℕ
after_newline kept = elim (index_func is_newline kept) [ none ↦ kept | some i ↦ drop (i + 1) kept ]

-- What is kept of `kept` and a new chunk, of at most `size` bytes.
abbrev pub keep_recent : ℕ → List ℕ → List ℕ → List ℕ
keep_recent size kept chunk =
    let all = kept ++ chunk in
    if leb (length all) size then all else after_newline (drop (length all - size) all)

-- What holds of a scrollback after the output `out`.
pub record Holds (s : Scrollback) (out : List ℕ) : Type 0 where
  pub rings : Rings s out
  pub starts : s.start ≤ s.stop
  pub fits : s.stop ≤ s.start + s.size
  pub searched : s.no_newline ≤ s.stop
  pub clear :
      (o : ℕ)
      → s.start ≤ o
      → o < s.no_newline
      → (b : ℕ) → get_elem? out o ≡ some b
      → is_newline b ≡ false

pub bytes-Holds : (s : Scrollback) (out : List ℕ) → Holds s out → bytes s ≡ drop s.start out
unfolding bytes
bytes-Holds s out h = segments-append s out s.start h.rings h.fits

-- The part that was searched before has no newline.
search_skips :
    (s : Scrollback) (out chunk : List ℕ) (from : ℕ)
    → Holds s out
    → s.start ≤ from
    → from ≤ length (out ++ chunk)
    → let k = max from s.no_newline - from in
      index_func is_newline (drop from (out ++ chunk))
      ≡ Option.map (λ i. k + i) (index_func is_newline (drop (from + k) (out ++ chunk)))
search_skips s out chunk from h le within =
    let k = max from s.no_newline - from in
    let all = out ++ chunk in
    rw (← drop-drop k from all) (
      index_func-skip is_newline k (drop from all)
        (omega (arith, h.searched, h.rings.ended, length-append out chunk, length-drop from all))
        (λ i lt b e. h.clear (from + i) (omega arith) (omega arith) b (
          ground (
            arith,
            e,
            h.searched,
            h.rings.ended,
            get_elem?-drop from all i,
            get_elem?-append out chunk (from + i),
          ))))

keep_recent_over :
    (s : Scrollback) (out chunk : List ℕ)
    → Holds s out
    → s.size < s.stop + length chunk - s.start
    → keep_recent s.size (drop s.start out) chunk
      ≡ after_newline (drop (s.stop + length chunk - s.size) (out ++ chunk))
keep_recent_over s out chunk h over =
    let all = drop s.start out ++ chunk in
    let total : length all ≡ s.stop + length chunk - s.start = omega (
      arith,
      h.starts,
      h.rings.ended,
      length-append (drop s.start out) chunk,
      length-drop s.start out,
    ) in
    let place : s.start + (length all - s.size) ≡ s.stop + length chunk - s.size =
      omega (arith, total, h.starts) in
    let too_long : leb (length all) s.size ≡ false = ground (arith, total) in
    rw too_long (
      ap after_newline (
        ap (drop (length all - s.size))
          (sym (drop-append s.start out chunk (omega (arith, h.starts, h.rings.ended))))
        ∙ drop-drop (length all - s.size) s.start (out ++ chunk)
        ∙ ap (λ k. drop k (out ++ chunk)) place))

-- The new start, once output has to be dropped.
abbrev Advanced : Scrollback → Scrollback → List ℕ → List ℕ → Type 0
Advanced s s' out chunk =
    Holds s' (out ++ chunk)
    × (s'.size ≡ s.size)
    × (drop s'.start (out ++ chunk) ≡ keep_recent s.size (drop s.start out) chunk)

module _ (s : Scrollback) (out chunk : List ℕ) (h : Holds s out) (buf : List ℕ)
    (rings : Rings (record s { buf = buf; stop = s.stop + length chunk }) (out ++ chunk)) where
  advance-drops :
      s.size < s.stop + length chunk - s.start
      → Advanced s (advance (s.stop + length chunk) (record s { buf = buf })) out chunk
  unfolding advance
  advance-drops over =
      let stop = s.stop + length chunk in
      let all = out ++ chunk in
      let start = stop - s.size in
      let from = max start s.no_newline in
      let t : Scrollback = record s { buf = buf; stop = stop } in
      let total : length all ≡ stop = sym rings.ended in
      let found = index_newline-eq t all from rings (omega arith) in
      let skip = search_skips s out chunk start h (omega arith) (omega (arith, total)) in
      let drops = keep_recent_over s out chunk h over in
      let over' : leb (stop - s.start) s.size ≡ false = ground arith in
      let from_start : start + (from - start) ≡ from = omega arith in
      let skips : index_func is_newline (drop start all)
          ≡ Option.map (λ i. from - start + i) (index_func is_newline (drop from all)) =
        skip
        ∙ ap (λ j. Option.map (λ i. from - start + i) (index_func is_newline (drop j all)))
            from_start in
      elim (Option-cases (index_func is_newline (drop from all))) [
        | inl e ↦
            let nowhere : index_func is_newline (drop start all) ≡ none =
              skips ∙ ap (Option.map (λ i. from - start + i)) e in
            let unchanged : after_newline (drop start all) ≡ drop start all =
              rw (nowhere, after_newline) in
            rw (over', found, e)
              (
                record {
                  rings = record {
                    ended = rings.ended;
                    filled = rings.filled;
                    placed = rings.placed;
                  };
                  starts = omega arith;
                  fits = omega arith;
                  searched = omega arith;
                  clear = λ o le lt b b_at.
                      let place : start + (o - start) ≡ o = omega arith in
                      index_func-none is_newline (drop start all) (o - start) b nowhere
                        (get_elem?-drop start all (o - start) ∙ ap (get_elem? all) place ∙ b_at);
                },
                refl,
                sym (drops ∙ unchanged),
              )
        | inr (i, e) ↦
            let there : index_func is_newline (drop start all) ≡ some (from - start + i) =
              skips ∙ ap (Option.map (λ i. from - start + i)) e in
            let place : start + (from - start + i + 1) ≡ from + i + 1 = omega arith in
            let cuts : after_newline (drop start all) ≡ drop (from + i + 1) all =
              rw (there, after_newline)
                (drop-drop (from - start + i + 1) start all ∙ ap (λ k. drop k all) place) in
            let inside = index_func-lt is_newline (drop from all) i e in
            rw (over', found, e)
              (
                record {
                  rings = record {
                    ended = rings.ended;
                    filled = rings.filled;
                    placed = rings.placed;
                  };
                  starts = omega (arith, total, inside, length-drop from all);
                  fits = omega arith;
                  searched = omega (arith, total, inside, length-drop from all);
                  clear = λ o le lt b b_at. absurd (omega arith);
                },
                refl,
                sym (drops ∙ cuts),
              )
      ]

  advance-keeps :
      s.stop + length chunk - s.start ≤ s.size
      → Advanced s (advance (s.stop + length chunk) (record s { buf = buf })) out chunk
  unfolding advance
  advance-keeps room =
      let all = drop s.start out ++ chunk in
      let short : leb (s.stop + length chunk - s.start) s.size ≡ true = ground arith in
      let total : length all ≡ s.stop + length chunk - s.start = omega (
        arith,
        h.starts,
        h.rings.ended,
        length-append (drop s.start out) chunk,
        length-drop s.start out,
      ) in
      let fits : leb (length all) s.size ≡ true = ground (arith, total) in
      rw (short, fits)
        (
          record {
            rings = record { ended = rings.ended; filled = rings.filled; placed = rings.placed };
            starts = omega (arith, h.starts);
            fits = omega (arith, h.starts);
            searched = omega (arith, h.searched);
            clear = λ o le lt b b_at.
                h.clear o le lt b
                  (ground (arith, b_at, h.searched, h.rings.ended, get_elem?-append out chunk o));
          },
          refl,
          drop-append s.start out chunk (omega (arith, h.starts, h.rings.ended)),
        )

  pub advance_lem : Advanced s (advance (s.stop + length chunk) (record s { buf = buf })) out chunk
  advance_lem = elim (Bool-cases (leb (s.stop + length chunk - s.start) s.size)) [
    | inl room ↦ advance-keeps (ground arith)
    | inr over ↦ advance-drops (ground arith)
  ]
