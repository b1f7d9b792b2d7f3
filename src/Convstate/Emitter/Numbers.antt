-- ===== src/Convstate/Emitter/Numbers.antt =====
-- The numbers that a change of the messages gives.
use agentapi.Prelude.{
  ℕ, suc, ◌≤◌, ◌≡◌, ◌∙◌, true, false, List, [], ◌∷◌, arith, ltb, lt→ltb, inl, inr, Bool-cases,
  length, text_eq_iff, nat_eq,
}
use agentapi.Native.MessageLog.{Message}
use agentapi.Convstate.Replay.{Numbered, Numbered-le, Follows}
use agentapi.Convstate.Emitter.Messages.{message_eq, same_ids, renumber}
use agentapi.Convstate.Emitter.Contents.{message_id}

pub message_eq→eq : (m n : Message) → message_eq m n ≡ true → m ≡ n
unfolding message_eq
message_eq→eq m n h = ground (arith, text_eq_iff m.text n.text)

pub renumber-Numbered :
    (n : ℕ) (olds : List Message) (seqs : List ℕ) (news : List Message)
    → Numbered n olds seqs
    → let r = renumber n olds seqs news in (n ≤ r.0) × Numbered r.0 news r.1
unfolding renumber
renumber-Numbered n olds seqs [] h = (omega arith, tt)
renumber-Numbered n [] [] (m ∷ news) h =
    let (le, rest) = renumber-Numbered (suc n) [] [] news tt in
    (omega arith, (omega arith, omega arith, rest))
renumber-Numbered n [] (s ∷ seqs) (m ∷ news) h = absurd h
renumber-Numbered n (o ∷ olds) [] (m ∷ news) h = absurd h
renumber-Numbered n (o ∷ olds) (s ∷ seqs) (m ∷ news) (pos, bound, rest) =
    elim (Bool-cases (message_eq o m)) [
      | inl same ↦
          rw (same, renumber)
            (let (le, numbered) = renumber-Numbered n olds seqs news rest in
              (le, (pos, omega arith, numbered)))
      | inr changed ↦
          rw (changed, renumber)
            (let (le, numbered) =
                renumber-Numbered (suc n) olds seqs news
                  (Numbered-le n (suc n) olds seqs (omega arith) rest) in
              (omega arith, (omega arith, omega arith, numbered)))
    ]

renumber-Follows_new :
    (since n : ℕ) (news : List Message)
    → since ≤ n
    → Follows message_id since [] news (renumber n [] [] news).1
unfolding renumber
renumber-Follows_new since n [] le = tt
renumber-Follows_new since n (m ∷ news) le =
    (omega arith, renumber-Follows_new since (suc n) news (omega arith))

pub renumber-Follows :
    (since n : ℕ) (copies olds : List Message) (seqs : List ℕ) (news : List Message)
    → since ≤ n
    → ltb (same_ids olds news) (length olds) ≡ false
    → Follows message_id since copies olds seqs
    → Follows message_id since copies news (renumber n olds seqs news).1
unfolding renumber same_ids
renumber-Follows since n [] [] [] news le all f = renumber-Follows_new since n news le
renumber-Follows since n [] [] (s ∷ seqs) news le all f = absurd f
renumber-Follows since n [] (o ∷ olds) [] news le all f = absurd f
renumber-Follows since n (c ∷ copies) [] seqs news le all f = absurd f
renumber-Follows since n (c ∷ copies) (o ∷ olds) [] news le all f = absurd f
renumber-Follows since n copies (o ∷ olds) (s ∷ seqs) [] le all f = absurd (ground arith)
renumber-Follows since n [] (o ∷ olds) (s ∷ seqs) (m ∷ news) le all (lt, rest) =
    let all' : ltb (same_ids olds news) (length olds) ≡ false = ground arith in
    elim (Bool-cases (message_eq o m)) [
      | inl same ↦ rw (same, renumber) (lt, renumber-Follows since n [] olds seqs news le all' rest)
      | inr changed ↦
          rw (changed, renumber)
            (omega arith, renumber-Follows since (suc n) [] olds seqs news (omega arith) all' rest)
    ]
renumber-Follows since n (c ∷ copies) (o ∷ olds) (s ∷ seqs) (m ∷ news) le all (key, kept, rest) =
    let all' : ltb (same_ids olds news) (length olds) ≡ false = ground arith in
    let key' : c.id ≡ m.id = ground arith in
    elim (Bool-cases (message_eq o m)) [
      | inl same ↦
          rw (same, renumber)
            (
              key',
              λ old. kept old ∙ message_eq→eq o m same,
              renumber-Follows since n copies olds seqs news le all' rest,
            )
      | inr changed ↦
          rw (changed, renumber)
            (
              key',
              λ old. absurd (cc (old, lt→ltb since (suc n) (omega arith))),
              renumber-Follows since (suc n) copies olds seqs news (omega arith) all' rest,
            )
    ]
