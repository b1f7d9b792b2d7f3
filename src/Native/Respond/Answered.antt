-- ===== src/Native/Respond/Answered.antt =====
-- Which responses answer a question request (`validateResponse`), and what becomes of one.
use agentapi.Prelude.{
  ℕ, ◌≤◌, ◌≡◌, ◌↔◌, ◌⊎◌, inl, inr, refl, Bool, true, false, not, ◌&&◌, ◌||◌, List, [], ◌∷◌, none,
  String, str_eq, string_eq, arith, length, ltb, contains_func, eq_iff, Bool-cases, Option-cases,
}
use agentapi.Native.Types.{Question, QuestionOption, Request, RequestKind, Response}
use agentapi.Native.Respond.{
  Answers, answers_to, validate_labels, validate_question, validate_questions, validate_response,
  no_options,
}

-- The label is that of an option.
abbrev pub IsLabel : String → List QuestionOption → Type 0
IsLabel a [] = ⊥
IsLabel a (o ∷ os) = (o.label ≡ a) ⊎ IsLabel a os

abbrev pub AllLabels : List String → List QuestionOption → Type 0
AllLabels [] os = Unit {0}
AllLabels (a ∷ as_) os = IsLabel a os × AllLabels as_ os

-- There is an answer, only one unless several may be chosen, and each is the label of an option
-- unless the question has none or takes free text.
abbrev pub Fits : Question → List String → Type 0
Fits q as_ =
    (1 ≤ length as_)
    × ((length as_ ≤ 1) ⊎ (q.multi_select ≡ true))
    × ((q.free_text ≡ true) ⊎ (q.options ≡ []) ⊎ AllLabels as_ q.options)

abbrev pub AllFit : List Question → Answers → Type 0
AllFit [] answers = Unit {0}
AllFit (q ∷ qs) answers = Fits q (answers_to q.id answers) × AllFit qs answers

label_iff :
    (a : String) (os : List QuestionOption)
    → (contains_func (λ o. str_eq o.label a) os ≡ true) ↔ IsLabel a os
label_iff a [] = (λ e. ground arith, λ h. absurd h)
label_iff a (o ∷ os) = (
  λ e. elim (Bool-cases (str_eq o.label a)) [
    | inl same ↦ inl ((eq_iff o.label a).0 same)
    | inr other ↦ inr ((label_iff a os).0 (rw other at e))
  ],
  λ h. elim h [
    | inl p ↦ rw ((eq_iff o.label a).1 p) refl
    | inr q ↦ ground (arith, (label_iff a os).1 q)
  ],
)

labels_iff :
    (q : Question) (as_ : List String) → (validate_labels q as_ ≡ none) ↔ AllLabels as_ q.options
unfolding validate_labels
labels_iff q [] = (λ e. tt, λ h. refl)
labels_iff q (a ∷ as_) = elim (Bool-cases (contains_func (λ o. str_eq o.label a) q.options)) [
  | inl e ↦
      rw (e, validate_labels)
        (λ r. ((label_iff a q.options).0 e, (labels_iff q as_).0 r), λ h. (labels_iff q as_).1 h.1)
  | inr e ↦
      rw (e, validate_labels)
        (λ r. absurd (ground arith), λ h. absurd (ground (arith, e, (label_iff a q.options).1 h.0)))
]

no_options_iff : (os : List QuestionOption) → (no_options os ≡ true) ↔ (os ≡ [])
unfolding no_options
no_options_iff [] = (λ e. refl, λ h. refl)
no_options_iff (o ∷ os) = (λ e. absurd (ground arith), λ h. absurd (cc))

-- Whether the number of answers is allowed.
single_iff :
    (n : ℕ) (several : Bool) → ((ltb 1 n && not several) ≡ false) ↔ ((n ≤ 1) ⊎ (several ≡ true))
single_iff n several = ground arith

-- What the question says of its answers' labels.
abbrev Labelled : Question → List String → Type 0
Labelled q as_ = (q.free_text ≡ true) ⊎ (q.options ≡ []) ⊎ AllLabels as_ q.options

open_answer :
    (q : Question) (as_ : List String)
    → (q.free_text || no_options q.options) ≡ true
    → Labelled q as_
open_answer q as_ h = elim (Bool-cases q.free_text) [
  | inl f ↦ inl f
  | inr f ↦ inr (inl ((no_options_iff q.options).0 (rw f at h)))
]

listed_answer :
    (q : Question) (as_ : List String)
    → (q.free_text || no_options q.options) ≡ false
    → Labelled q as_
    → AllLabels as_ q.options
listed_answer q as_ h l = elim l [
  | inl f ↦ absurd (ground (arith, h, f))
  | inr (inl n) ↦ absurd (ground (arith, h, (no_options_iff q.options).1 n))
  | inr (inr a) ↦ a
]

question_iff : (q : Question) (as_ : List String) → (validate_question q as_ ≡ none) ↔ Fits q as_
unfolding validate_question
question_iff q [] = (λ e. absurd (ground arith), λ h. absurd (omega (arith, h.0)))
question_iff q (a ∷ as_) = elim (Bool-cases (ltb 1 (length (a ∷ as_)) && not q.multi_select)) [
  | inl many ↦
      rw (many, validate_question)
        (
          λ r. absurd (ground arith),
          λ h. absurd (ground (arith, many, (single_iff (length (a ∷ as_)) q.multi_select).1 h.1)),
        )
  | inr e ↦ elim (Bool-cases (q.free_text || no_options q.options)) [
    | inl free ↦
        rw (e, free, validate_question)
          (
            λ r. (
              omega arith,
              (single_iff (length (a ∷ as_)) q.multi_select).0 e,
              open_answer q (a ∷ as_) free,
            ),
            λ h. refl,
          )
    | inr listed ↦
        rw (e, listed, validate_question)
          (
            λ r. (
              omega arith,
              (single_iff (length (a ∷ as_)) q.multi_select).0 e,
              inr (inr ((labels_iff q (a ∷ as_)).0 r)),
            ),
            λ h. (labels_iff q (a ∷ as_)).1 (listed_answer q (a ∷ as_) listed h.2),
          )
  ]
]

questions_iff :
    (qs : List Question) (answers : Answers)
    → (validate_questions qs answers ≡ none) ↔ AllFit qs answers
unfolding validate_questions
questions_iff [] answers = (λ e. tt, λ h. refl)
questions_iff (q ∷ qs) answers =
    elim (Option-cases (validate_question q (answers_to q.id answers))) [
      | inl e ↦
          rw (e, validate_questions)
            (
              λ r. ((question_iff q (answers_to q.id answers)).0 e, (questions_iff qs answers).0 r),
              λ h. (questions_iff qs answers).1 h.1,
            )
      | inr (x, e) ↦
          rw (e, validate_questions)
            (
              λ r. absurd (ground arith),
              λ h. absurd (ground (arith, e, (question_iff q (answers_to q.id answers)).1 h.0)),
            )
    ]

-- A response without a chosen option is accepted for a question request exactly if it answers every
-- question: with an answer, with only one unless several may be chosen, and with labels of the
-- question's options unless it has none or takes free text.
pub validate_response_iff :
    (req : Request) (resp : Response)
    → req.kind ≡ RequestKind.question
    → str_eq resp.option_id "" ≡ true
    → (validate_response req resp ≡ none) ↔ AllFit req.questions resp.answers
unfolding validate_response
validate_response_iff req resp k o =
    rw (k, o, validate_response) (questions_iff req.questions resp.answers)
