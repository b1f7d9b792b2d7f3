-- ===== src/Scrollback/Window.antt =====
-- What is read back from the ring: the end of all the output from an offset on.
use agentapi.Prelude.{
  ℕ, ◌+◌, ◌-◌, ◌%◌, ◌≤◌, ◌<◌, min, ◌≡◌, refl, sym, ◌∙◌, List, [], ◌++◌, arith, ltb, leb, false,
  length-append, length-take, if◌then◌else◌, inl, inr, Bool-cases, ltb→lt, length, take, drop,
  slice, get_elem?, get_elem?-append, get_elem?-take, get_elem?-drop, get_elem?-ext, get_elem?-out,
  length-drop, index_func, index_func-append, append-nil, Option-cases,
}
use mathlib.Core.Option
use agentapi.Scrollback.{Scrollback, end_place, segments, index_newline, is_newline}
use agentapi.Scrollback.Modulo.{mod-bound}
use agentapi.Scrollback.Ring.{place_of}

-- The buffer holds the last `size` bytes of the output, each at its offset modulo the size.
pub record Rings (s : Scrollback) (out : List ℕ) : Type 0 where
  pub ended : s.stop ≡ length out
  pub filled : length s.buf ≡ min s.stop s.size
  pub placed :
      (o : ℕ) → o < s.stop → s.stop ≤ o + s.size → get_elem? s.buf (o % s.size) ≡ get_elem? out o

-- The `k`th byte after an offset lies in the first segment, or in the second where that wraps.
segments-split :
    (s : Scrollback) (out : List ℕ) (from : ℕ)
    → Rings s out
    → from < s.stop
    → s.stop ≤ from + s.size
    → if ltb (from % s.size) (end_place s)
      then (end_place s ≡ from % s.size + (s.stop - from)) × (end_place s ≤ length s.buf)
      else (length s.buf ≡ s.size) × (end_place s + s.size ≡ from % s.size + (s.stop - from))
unfolding end_place
segments-split s out from r lt fits =
    let pos : 0 < s.size = omega arith in
    let place = place_of s.size pos from s.stop (omega arith) fits in
    ground (arith, place, mod-bound s.size pos from, r.filled)

segments-window :
    (s : Scrollback) (out : List ℕ) (from k : ℕ)
    → Rings s out
    → from < s.stop
    → s.stop ≤ from + s.size
    → k < s.stop - from
    → get_elem? ((segments from s).0 ++ (segments from s).1) k ≡ get_elem? out (from + k)
unfolding segments
segments-window s out from k r lt fits within =
    let pos : 0 < s.size = omega arith in
    let i = from % s.size in
    let j = end_place s in
    let split = segments-split s out from r lt fits in
    let byte = r.placed (from + k) (omega arith) (omega arith) in
    let place = place_of s.size pos from (from + k) (omega arith) (omega arith) in
    let inside : leb s.stop from ≡ false = ground arith in
    elim (Bool-cases (ltb i j)) [
      | inl once ↦
          rw (inside, once)
            (ground (
              arith,
              rw once at split,
              place,
              byte,
              get_elem?-append (slice i j s.buf) [] k,
              get_elem?-take (j - i) (drop i s.buf) k,
              get_elem?-drop i s.buf k,
              append-nil (slice i j s.buf),
            ))
      | inr twice ↦
          rw (inside, twice)
            (ground (
              arith,
              rw twice at split,
              place,
              byte,
              mod-bound s.size pos from,
              get_elem?-append (drop i s.buf) (take j s.buf) k,
              get_elem?-take j s.buf (k - (length s.buf - i)),
              get_elem?-drop i s.buf k,
              length-drop i s.buf,
            ))
    ]

segments-length :
    (s : Scrollback) (out : List ℕ) (from : ℕ)
    → Rings s out
    → from < s.stop
    → s.stop ≤ from + s.size
    → length ((segments from s).0 ++ (segments from s).1) ≡ s.stop - from
unfolding segments
segments-length s out from r lt fits =
    let pos : 0 < s.size = omega arith in
    let i = from % s.size in
    let j = end_place s in
    let split = segments-split s out from r lt fits in
    let inside : leb s.stop from ≡ false = ground arith in
    elim (Bool-cases (ltb i j)) [
      | inl once ↦
          rw (inside, once)
            (ground (
              arith,
              rw once at split,
              length-append (slice i j s.buf) [],
              length-take (j - i) (drop i s.buf),
              length-drop i s.buf,
            ))
      | inr twice ↦
          rw (inside, twice)
            (ground (
              arith,
              rw twice at split,
              mod-bound s.size pos from,
              length-append (drop i s.buf) (take j s.buf),
              length-take j s.buf,
              length-drop i s.buf,
            ))
    ]

-- The two segments together are the output from an offset on, for an offset that is kept.
pub segments-append :
    (s : Scrollback) (out : List ℕ) (from : ℕ)
    → Rings s out
    → s.stop ≤ from + s.size
    → (segments from s).0 ++ (segments from s).1 ≡ drop from out
unfolding segments
segments-append s out from r fits = elim (Bool-cases (leb s.stop from)) [
  | inl past ↦ rw past (
      get_elem?-ext [] (drop from out) (λ k.
        sym (get_elem?-drop from out k ∙ get_elem?-out out (from + k) (ground (arith, r.ended)))))
  | inr before ↦
      let lt : from < s.stop = ground arith in
      let both = (segments from s).0 ++ (segments from s).1 in
      get_elem?-ext both (drop from out) (λ k. elim (Bool-cases (ltb k (s.stop - from))) [
        | inl within ↦
            segments-window s out from k r lt fits (ltb→lt _ _ within)
            ∙ sym (get_elem?-drop from out k)
        | inr beyond ↦
            get_elem?-out both k (ground (arith, segments-length s out from r lt fits))
            ∙ sym
                (get_elem?-drop from out k ∙ get_elem?-out out (from + k) (ground (arith, r.ended)))
      ])
]

-- The search for a newline from an offset on.
pub index_newline-eq :
    (s : Scrollback) (out : List ℕ) (from : ℕ)
    → Rings s out
    → s.stop ≤ from + s.size
    → index_newline from s ≡ Option.map (λ i. from + i) (index_func is_newline (drop from out))
unfolding index_newline
index_newline-eq s out from r fits =
    let f = (segments from s).0 in
    let g = (segments from s).1 in
    rw (← segments-append s out from r fits, index_func-append is_newline f g)
      (elim (Option-cases (index_func is_newline f)) [
        | inl e ↦ elim (Option-cases (index_func is_newline g)) [
          | inl e' ↦ rw (e, e', index_newline)
          | inr (i, e') ↦ rw (e, e', index_newline) refl
        ]
        | inr (i, e) ↦ rw (e, index_newline)
      ])
