-- ===== src/Scrollback.antt =====
-- The recent output of a terminal: `scrollback` of lib/shellterm/scrollback.go. A byte is a number,
-- and an offset an int64 that no output reaches the end of.
pub mod Modulo
pub mod Ring
pub mod Window
pub mod Write
pub mod Advance
pub mod Refine
use agentapi.Prelude.{
  ℕ, zero, suc, ◌+◌, ◌-◌, ◌%◌, max, min, Bool, List, [], ◌∷◌, ◌++◌, Option, none, some, ltb, leb,
  ◌==◌, if◌then◌else◌, length, take, drop, slice, replicate, index_func,
}
use mathlib.Core.Option

pub record Scrollback : Type 0 where
  pub size : ℕ
  pub buf : List ℕ
  pub start : ℕ
  pub stop : ℕ
  pub no_newline : ℕ

unfoldable pub new_scrollback : ℕ → Scrollback
new_scrollback size = record { size = size; buf = []; start = 0; stop = 0; no_newline = 0 }

-- Go's copy(buf[at:], chunk).
unfoldable pub copy_to : ℕ → List ℕ → List ℕ → List ℕ
copy_to at chunk buf =
    let n = min (length buf - at) (length chunk) in
    take at buf ++ (take n chunk ++ drop (at + n) buf)

-- The loop of `write`, with fuel: `none` means that the fuel ran out before the chunk did.
unfoldable pub copy_around : ℕ → ℕ → ℕ → List ℕ → List ℕ → Option (List ℕ)
copy_around fuel size off [] buf = some buf
copy_around zero size off chunk buf = none
copy_around (suc fuel) size off chunk buf =
    let n = min (length buf - off % size) (length chunk) in
    copy_around fuel size (off + n) (drop n chunk) (copy_to (off % size) chunk buf)

-- make([]byte, size) for what the ring still lacks.
unfoldable pub fill : ℕ → List ℕ → List ℕ
fill size buf = if ltb (length buf) size then buf ++ replicate (size - length buf) 0 else buf

unfoldable pub write : ℕ → List ℕ → Scrollback → Option Scrollback
unfolding fill
write off chunk s =
    if leb (off + length chunk) s.size
    then some (record s { buf = s.buf ++ chunk })
    else Option.map (λ b. let s' : Scrollback = record s { buf = b } in s')
        (copy_around (length chunk) s.size off chunk (fill s.size s.buf))

-- Where the output ends in the buffer.
unfoldable pub end_place : Scrollback → ℕ
end_place s = if s.stop % s.size == 0 then length s.buf else s.stop % s.size

unfoldable pub segments : ℕ → Scrollback → List ℕ × List ℕ
segments from s =
    if leb s.stop from
    then ([], [])
    else (let i = from % s.size in
        let j = end_place s in
        if ltb i j then (slice i j s.buf, []) else (drop i s.buf, take j s.buf))

abbrev pub newline : ℕ
newline = 10

abbrev pub is_newline : ℕ → Bool
is_newline b = b == newline

-- `none` for -1.
unfoldable pub index_newline : ℕ → Scrollback → Option ℕ
index_newline from s =
    let (first, second) = segments from s in
    elim (index_func is_newline first) [
      | some i ↦ some (from + i)
      | none ↦ Option.map (λ i. from + (length first + i)) (index_func is_newline second)
    ]

-- What `add` does after the data is in the ring.
unfoldable pub advance : ℕ → Scrollback → Scrollback
advance stop s =
    if leb (stop - s.start) s.size
    then record s { stop = stop }
    else (let start = stop - s.size in
        elim (index_newline (max start s.no_newline) (record s { stop = stop })) [
          | some i ↦ record s { stop = stop; start = i + 1; no_newline = i + 1 }
          | none ↦ record s { stop = stop; start = start; no_newline = stop }
        ])

unfoldable pub add : List ℕ → Scrollback → Option Scrollback
add chunk s =
    let stop = s.stop + length chunk in
    let kept = if ltb s.size (length chunk) then drop (length chunk - s.size) chunk else chunk in
    Option.map (advance stop) (write (stop - length kept) kept s)

unfoldable pub bytes : Scrollback → List ℕ
bytes s = let (first, second) = segments s.start s in first ++ second

-- A run of the terminal's output, one chunk after the other.
unfoldable pub add_all : List (List ℕ) → Scrollback → Option Scrollback
add_all [] s = some s
add_all (chunk ∷ rest) s = elim (add chunk s) [ none ↦ none | some s' ↦ add_all rest s' ]
