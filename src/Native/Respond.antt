-- ===== src/Native/Respond.antt =====
-- Answering a request: `Respond` of lib/native/requests.go, with the checks of the answer and the
-- redaction of secrets.
--
-- The check before the adapter is called is one step, what follows its answer is another. The
-- request stays in the book between them, so it is looked up again by its ID.
pub mod Secrets
pub mod Answered
pub mod Once
use agentapi.Prelude.{
  ℕ, Bool, true, false, not, ◌&&◌, ◌||◌, List, [], ◌∷◌, Option, none, some, String, str_eq,
  string_eq, if◌then◌else◌, length, ltb, contains_func, dict_get, dict_put, is_some, Result, ok,
  err,
}
use agentapi.Native.Types.{Request, RequestKind, RequestOption, Question, QuestionOption, Response}
use agentapi.Native.Requests.{RequestState, find_request, answerable, begin_answer, end_answer}
use agentapi.Native.State.{Conversation, Output, tell, emit_current_status}
use agentapi.Native.Turn.{AgentError}

abbrev pub Answers : Type 0
Answers = List (String × List String)

-- A lookup in the map of answers: no answers for a missing key.
abbrev pub answers_to : String → Answers → List String
answers_to id answers = elim (dict_get id answers) [ none ↦ [] | some a ↦ a ]

abbrev pub redacted_answer : String
redacted_answer = "[redacted]"

abbrev pub no_answers : List String → Bool
no_answers [] = true
no_answers (a ∷ as_) = false

unfoldable pub redact_answers : List Question → Answers → Answers
redact_answers [] answers = answers
redact_answers (q ∷ qs) answers = redact_answers qs (
    if not q.secret || no_answers (answers_to q.id answers)
    then answers
    else dict_put q.id (redacted_answer ∷ []) answers)

unfoldable pub redact_secrets : Request → Response → Response
redact_secrets req resp = record resp { answers = redact_answers req.questions resp.answers }

-- Why a response does not answer the request.
pub data Invalid : Type 0 where
  unknown_option : String → Invalid
  no_answer : String → Invalid
  one_answer : String → Invalid
  not_an_option : String → String → Invalid
  unknown_kind : String → Invalid

unfoldable pub validate_option : Request → String → Option Invalid
validate_option req id =
    if contains_func (λ o. str_eq o.id id) req.options
    then none
    else some (Invalid.unknown_option id)

-- The loop over the answers to a question.
unfoldable pub validate_labels : Question → List String → Option Invalid
validate_labels q [] = none
validate_labels q (a ∷ rest) =
    if contains_func (λ o. str_eq o.label a) q.options
    then validate_labels q rest
    else some (Invalid.not_an_option a q.id)

no_options : List QuestionOption → Bool
no_options [] = true
no_options (o ∷ os) = false

unfoldable pub validate_question : Question → List String → Option Invalid
unfolding no_options
validate_question q answers =
    if no_answers answers
    then some (Invalid.no_answer q.id)
    else if ltb 1 (length answers) && not q.multi_select
    then some (Invalid.one_answer q.id)
    else if q.free_text || no_options q.options
    then none
    else validate_labels q answers

unfoldable pub validate_questions : List Question → Answers → Option Invalid
validate_questions [] answers = none
validate_questions (q ∷ qs) answers = elim (validate_question q (answers_to q.id answers)) [
  | some e ↦ some e
  | none ↦ validate_questions qs answers
]

unfoldable pub validate_response : Request → Response → Option Invalid
validate_response req resp = elim req.kind [
  | RequestKind.approval ↦ validate_option req resp.option_id
  | RequestKind.plan ↦ validate_option req resp.option_id
  | RequestKind.question ↦
      if not (str_eq resp.option_id "")
      then validate_option req resp.option_id
      else validate_questions req.questions resp.answers
  | RequestKind.other k ↦ some (Invalid.unknown_kind k)
]

pub data RespondError : Type 0 where
  not_found not_started : RespondError
  invalid : Invalid → RespondError
  agent : AgentError → RespondError

unfoldable pub respond_check : RequestState → Response → Conversation → Option RespondError
respond_check r response c =
    if not (answerable c.requests r)
    then some RespondError.not_found
    else elim (validate_response r.request response) [
      | some e ↦ some (RespondError.invalid e)
      | none ↦ if is_some c.adapter then none else some RespondError.not_started
    ]

-- The step before the adapter is called.
unfoldable pub begin_respond : String → Response → Conversation → Conversation × Option RespondError
begin_respond id response c = elim (find_request id c.requests.requests) [
  | none ↦ (c, some RespondError.not_found)
  | some r ↦ elim (respond_check r response c) [
    | some e ↦ (c, some e)
    | none ↦ (record c { requests = begin_answer c.requests id }, none)
  ]
]

abbrev pub is_unconfirmed_answer : Option AgentError → Bool
is_unconfirmed_answer answer = elim answer [
  | none ↦ false
  | some e ↦ elim e [ AgentError.unconfirmed ↦ true | _ ↦ false ]
]

-- The step after the adapter answered.
unfoldable pub end_respond : String → Response → Option AgentError → ℕ → Conversation → Conversation
end_respond id response answer now c = elim (find_request id c.requests.requests) [
  | none ↦ c
  | some r ↦
      let resolved : Option Response = elim answer [
        | none ↦ some (redact_secrets r.request response)
        | some e ↦ none
      ] in
      let (book, closed) = end_answer c.requests r resolved (is_unconfirmed_answer answer) now in
      let c' : Conversation = record c { requests = book } in
      emit_current_status (elim closed [ none ↦ c' | some s ↦ tell (Output.request_updated s) c' ])
]
