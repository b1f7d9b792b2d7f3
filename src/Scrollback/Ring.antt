-- ===== src/Scrollback/Ring.antt =====
-- What stands in the ring's buffer after a write: every byte at its offset modulo the size.
use agentapi.Prelude.{
  ℕ, zero, suc, ◌+◌, ◌-◌, ◌%◌, ◌≤◌, ◌<◌, min, ◌≡◌, refl, ◌∙◌, ap, List, [], ◌∷◌, ◌++◌, some, arith,
  ltb, if◌then◌else◌, inl, inr, Bool-cases, length, take, drop, get_elem?, get_elem?-append,
  get_elem?-take, get_elem?-drop, length-append, length-take, length-drop,
}
use agentapi.Scrollback.{copy_to, copy_around}
use agentapi.Scrollback.Modulo.{mod-bound, mod-add}

pub length-copy_to :
    (at : ℕ) (chunk buf : List ℕ) → at ≤ length buf → length (copy_to at chunk buf) ≡ length buf
unfolding copy_to
length-copy_to at chunk buf h =
    let n = min (length buf - at) (length chunk) in
    omega (
      arith,
      length-append (take at buf) (take n chunk ++ drop (at + n) buf),
      length-append (take n chunk) (drop (at + n) buf),
      length-take at buf,
      length-take n chunk,
      length-drop (at + n) buf,
    )

pub get_elem?-copy_to :
    (at : ℕ) (chunk buf : List ℕ) (i : ℕ)
    → at ≤ length buf
    → get_elem? (copy_to at chunk buf) i ≡ (
        if ltb i at
        then get_elem? buf i
        else if ltb i (at + min (length buf - at) (length chunk))
        then get_elem? chunk (i - at)
        else get_elem? buf i)
unfolding copy_to
get_elem?-copy_to at chunk buf i h =
    let n = min (length buf - at) (length chunk) in
    ground (
      arith,
      get_elem?-append (take at buf) (take n chunk ++ drop (at + n) buf) i,
      get_elem?-append (take n chunk) (drop (at + n) buf) (i - at),
      get_elem?-take at buf i,
      get_elem?-take n chunk (i - at),
      get_elem?-drop (at + n) buf (i - at - n),
      length-take at buf,
      length-take n chunk,
    )

-- Where an offset lies, seen from an earlier one.
pub place_of :
    (size : ℕ) (pos : 0 < size) (a b : ℕ)
    → a ≤ b
    → b ≤ a + size
    → b % size
      ≡ (if ltb (a % size + (b - a)) size then a % size + (b - a) else a % size + (b - a) - size)
place_of size pos a b le near =
    let e : b ≡ a + (b - a) = omega arith in
    ap (λ k. k % size) e ∙ mod-add size pos a (b - a) (omega arith)

-- One round of the copy: what `n` bytes of the chunk leave at an offset of the window, and where the
-- rest of the chunk goes on.
copy_to-window :
    (size off : ℕ) (chunk buf : List ℕ) (o : ℕ)
    → 0 < size
    → length buf ≡ size
    → length chunk ≤ size
    → off + length chunk ≤ o + size
    → o < off + length chunk
    → let n = min (length buf - off % size) (length chunk) in
      get_elem? (copy_to (off % size) chunk buf) (o % size) ≡ (
        if ltb o off
        then get_elem? buf (o % size)
        else if ltb o (off + n)
        then get_elem? chunk (o - off)
        else get_elem? buf (o % size))
copy_to-window size off chunk buf o pos len le window within = elim (Bool-cases (ltb o off)) [
  | inl before ↦
      let place = place_of size pos o off (ground arith) (ground arith) in
      ground
        (arith, place, get_elem?-copy_to (off % size) chunk buf (o % size), mod-bound size pos off)
  | inr after ↦
      let place = place_of size pos off o (ground arith) (ground arith) in
      ground
        (arith, place, get_elem?-copy_to (off % size) chunk buf (o % size), mod-bound size pos off)
]

pub copy_around-writes :
    (fuel size off : ℕ) (chunk buf : List ℕ)
    → length buf ≡ size
    → length chunk ≤ size
    → length chunk ≤ fuel
    → (buf' : List ℕ) × (copy_around fuel size off chunk buf ≡ some buf')
      × (length buf' ≡ size)
      × ((o : ℕ)
          → off + length chunk ≤ o + size
          → o < off + length chunk
          → get_elem? buf' (o % size)
            ≡ (if ltb o off then get_elem? buf (o % size) else get_elem? chunk (o - off)))
unfolding copy_around
copy_around-writes fuel size off [] buf len le enough =
    (buf, refl, len, λ o window within. ground arith)
copy_around-writes zero size off (c ∷ chunk) buf len le enough = elim enough [ ]
copy_around-writes (suc fuel) size off (c ∷ chunk) buf len le enough =
    let pos : 0 < size = omega arith in
    let n = min (length buf - off % size) (length (c ∷ chunk)) in
    let left : length (drop n (c ∷ chunk)) ≡ length (c ∷ chunk) - n = length-drop n (c ∷ chunk) in
    let (buf', done, long, same) =
      copy_around-writes fuel size (off + n) (drop n (c ∷ chunk))
        (copy_to (off % size) (c ∷ chunk) buf)
        (length-copy_to (off % size) (c ∷ chunk) buf (omega (arith, mod-bound size pos off)) ∙ len)
        (omega (arith, left)) (omega (arith, left, mod-bound size pos off, len)) in
    (
      buf',
      done,
      long,
      λ o window within. ground (
        arith,
        same o (omega (arith, left)) (omega (arith, left)),
        copy_to-window size off (c ∷ chunk) buf o pos len le window within,
        get_elem?-drop n (c ∷ chunk) (o - (off + n)),
      ),
    )
