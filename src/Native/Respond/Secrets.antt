-- ===== src/Native/Respond/Secrets.antt =====
-- Secrets stay out of what is stored and published of an answer (`redactSecrets`).
use agentapi.Prelude.{
  ℕ, ◌≡◌, refl, ap, ◌∙◌, Bool, true, false, not, ◌&&◌, ◌||◌, List, [], ◌∷◌, Option, none, some,
  String, str_eq, string_eq, arith, if◌then◌else◌, contains_func, dict_get, dict_put, dict_get-put,
  eq_iff, Bool-cases, inl, inr,
}
use agentapi.Native.Types.{Question, Request, Response}
use agentapi.Native.Requests.{RequestState, RequestStatus, is_pending, find_request}
use agentapi.Native.Requests.Answers.{end_answer-delivered}
use agentapi.Native.State.{Conversation, Output, status}
use agentapi.Native.Respond.{
  end_respond, Answers, answers_to, redacted_answer, no_answers, redact_answers, redact_secrets,
}

-- Some question with this ID asks for a secret.
abbrev pub is_secret : String → List Question → Bool
is_secret id qs = contains_func (λ q. q.secret && str_eq q.id id) qs

-- The answers that are kept of those to a question, by whether they are secret.
abbrev pub kept : Bool → Option (List String) → Option (List String)
kept secret a =
    if secret && not (no_answers (elim a [ none ↦ [] | some as_ ↦ as_ ]))
    then some (redacted_answer ∷ [])
    else a

redact_once :
    (id : String) (q : Question) (answers : Answers)
    → dict_get id (
        if not q.secret || no_answers (answers_to q.id answers)
        then answers
        else dict_put q.id (redacted_answer ∷ []) answers)
      ≡ kept (q.secret && str_eq q.id id) (dict_get id answers)
redact_once id q answers = elim (Bool-cases (str_eq q.id id)) [
  | inr other ↦ ground (arith, other, dict_get-put q.id id (redacted_answer ∷ []) answers)
  | inl e ↦
      let same : q.id ≡ id = (eq_iff q.id id).0 e in
      rw (← same) (
        ground
          (arith, (eq_iff q.id q.id).1 refl, dict_get-put q.id q.id (redacted_answer ∷ []) answers))
]

kept-kept : (a b : Bool) (o : Option (List String)) → kept b (kept a o) ≡ kept (a || b) o
kept-kept a b o = ground arith

redact_answers-kept :
    (id : String) (qs : List Question) (answers : Answers)
    → dict_get id (redact_answers qs answers) ≡ kept (is_secret id qs) (dict_get id answers)
unfolding redact_answers
redact_answers-kept id [] answers = refl
redact_answers-kept id (q ∷ qs) answers =
    redact_answers-kept id qs _
    ∙ ap (kept (is_secret id qs)) (redact_once id q answers)
    ∙ kept-kept (q.secret && str_eq q.id id) (is_secret id qs) (dict_get id answers)

-- What is stored of a response has, for each ID, the answers that were given, unless a question of
-- that ID asks for a secret and was answered: then it has the one answer "[redacted]". The chosen
-- option and the text stay.
pub redact_secrets-kept :
    (req : Request) (resp : Response)
    → ((id : String)
        → dict_get id (redact_secrets req resp).answers
          ≡ kept (is_secret id req.questions) (dict_get id resp.answers))
      × ((redact_secrets req resp).option_id ≡ resp.option_id)
      × ((redact_secrets req resp).text ≡ resp.text)
unfolding redact_secrets
redact_secrets-kept req resp = (λ id. redact_answers-kept id req.questions resp.answers, refl, refl)

-- An answer that the agent took is published once, in the resolved request and without its
-- secrets, before the status.
pub published_redacted :
    (id : String) (resp : Response) (now : ℕ) (r : RequestState) (c : Conversation)
    → find_request id c.requests.requests ≡ some r
    → is_pending r ≡ true
    → let c' = end_respond id resp none now c in
      c'.outputs
      ≡ Output.emit_status (status c')
        ∷ Output.request_updated (record r {
          request = r.request;
          status = RequestStatus.resolved;
          response = some (redact_secrets r.request resp);
          closed_at = some now;
        })
        ∷ c.outputs
unfolding end_respond status
published_redacted id resp now r c e p =
    let closed = end_answer-delivered c.requests r (redact_secrets r.request resp) false now p in
    rw (e, end_respond) (rw (closed, end_respond) refl)
