-- ===== src/Scrollback/Write.antt =====
-- A write puts the end of the output in the ring, before it has filled up and after.
use agentapi.Prelude.{
  ℕ, ◌+◌, ◌-◌, ◌%◌, ◌≤◌, ◌<◌, min, ◌≡◌, ◌∙◌, List, ◌++◌, some, arith, ltb, leb, if◌then◌else◌, inl,
  inr, Bool-cases, length, drop, get_elem?, get_elem?-append, get_elem?-drop, length-append,
  length-drop, replicate, length-replicate,
}
use native.Mathlib.Nat.{mod-eq_of_lt}
use agentapi.Scrollback.{Scrollback, copy_around, fill, write}
use agentapi.Scrollback.Modulo.{mod-bound}
use agentapi.Scrollback.Ring.{copy_around-writes}
use agentapi.Scrollback.Window.{Rings}

length-fill : (size : ℕ) (buf : List ℕ) → length buf ≤ size → length (fill size buf) ≡ size
unfolding fill
length-fill size buf h = ground (
  arith,
  length-append buf (replicate (size - length buf) 0),
  length-replicate (size - length buf) (let z : ℕ = 0 in z),
)

get_elem?-fill :
    (size : ℕ) (buf : List ℕ) (i : ℕ)
    → i < length buf
    → get_elem? (fill size buf) i ≡ get_elem? buf i
unfolding fill
get_elem?-fill size buf i h =
    ground (arith, get_elem?-append buf (replicate (size - length buf) 0) i)

-- The part of a chunk that is written: its last bytes, at most as many as the ring holds.
pub record LastOf (size : ℕ) (chunk kept : List ℕ) : Type 0 where
  pub short : length kept ≡ min (length chunk) size
  pub same : (i : ℕ) → get_elem? kept i ≡ get_elem? chunk (length chunk - length kept + i)

pub LastOf-cut :
    (size : ℕ) (chunk : List ℕ)
    → LastOf size chunk
        (if ltb size (length chunk) then drop (length chunk - size) chunk else chunk)
LastOf-cut size chunk = elim (Bool-cases (ltb size (length chunk))) [
  | inl long ↦ rw long (record {
    short = ground (arith, length-drop (length chunk - size) chunk);
    same = λ i. ground (
      arith,
      length-drop (length chunk - size) chunk,
      get_elem?-drop (length chunk - size) chunk i,
    );
  })
  | inr all ↦ rw all (record { short = ground arith; same = λ i. ground arith })
]

module _ (s : Scrollback) (out chunk kept : List ℕ) (r : Rings s out)
    (l : LastOf s.size chunk kept) where
  write-Rings_room :
      s.stop + length chunk ≤ s.size
      → Rings (record s { buf = s.buf ++ kept; stop = s.stop + length chunk }) (out ++ chunk)
  write-Rings_room room = record {
    ended = omega (arith, r.ended, length-append out chunk);
    filled = omega (arith, r.filled, l.short, length-append s.buf kept);
    placed = λ o lt near. ground (
      arith,
      r.ended,
      r.filled,
      l.short,
      l.same (o - s.stop),
      r.placed o,
      mod-eq_of_lt {n = o} {m = s.size} (omega arith),
      get_elem?-append s.buf kept o,
      get_elem?-append out chunk o,
    );
  }

  -- What the write does not reach of the window is still there.
  old_byte :
      (o : ℕ)
      → o < s.stop
      → s.stop ≤ o + s.size
      → get_elem? (fill s.size s.buf) (o % s.size) ≡ get_elem? out o
  old_byte o lt near =
      let there : o % s.size < length s.buf = elim (Bool-cases (ltb o s.size)) [
        | inl early ↦ ground (arith, r.filled, mod-eq_of_lt {n = o} {m = s.size} (ground arith))
        | inr late ↦ ground (arith, r.filled, mod-bound s.size (omega arith) o)
      ] in
      get_elem?-fill s.size s.buf (o % s.size) there ∙ r.placed o lt near

  write-Rings_full :
      s.size < s.stop + length chunk
      → (buf : List ℕ) × (copy_around
            (length kept)
            s.size
            (s.stop + length chunk - length kept)
            kept
            (fill s.size s.buf)
          ≡ some buf)
        × Rings (record s { buf = buf; stop = s.stop + length chunk }) (out ++ chunk)
  write-Rings_full full =
      let off = s.stop + length chunk - length kept in
      let filled = length-fill s.size s.buf (omega (arith, r.filled)) in
      let (buf, done, long, same) =
        copy_around-writes (length kept) s.size off kept (fill s.size s.buf) filled
          (omega (arith, l.short)) (omega arith) in
      (
        buf,
        done,
        record {
          ended = omega (arith, r.ended, length-append out chunk);
          filled = omega (arith, long);
          placed = λ o lt near. ground (
            arith,
            r.ended,
            l.short,
            l.same (o - off),
            same o (omega (arith, l.short)) (omega (arith, l.short)),
            old_byte o,
            get_elem?-append out chunk o,
          );
        },
      )

  pub write-Rings :
      (buf : List ℕ) × (write (s.stop + length chunk - length kept) kept s
        ≡ some (record s { buf = buf }))
      × Rings (record s { buf = buf; stop = s.stop + length chunk }) (out ++ chunk)
  unfolding write
  write-Rings = elim (Bool-cases (leb (s.stop + length chunk - length kept + length kept) s.size)) [
    | inl room ↦ (s.buf ++ kept, rw room, write-Rings_room (ground (arith, l.short)))
    | inr full ↦
        let (buf, done, rings) = write-Rings_full (ground (arith, l.short)) in
        (buf, rw (full, done), rings)
  ]
