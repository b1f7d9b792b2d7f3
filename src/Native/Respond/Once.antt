-- ===== src/Native/Respond/Once.antt =====
-- A request takes one answer at a time (`Respond` of lib/native/requests.go).
use agentapi.Prelude.{
  ◌≡◌, refl, ap, sym, ◌∙◌, List, [], ◌∷◌, none, some, String, str_eq, string_eq, arith, eq_iff,
  Bool-cases, Option-cases, inl, inr,
}
use agentapi.Native.Types.{Response}
use agentapi.Native.Requests.{RequestState, find_request, answerable, begin_answer}
use agentapi.Native.State.{Conversation}
use agentapi.Native.Respond.{respond_check, begin_respond, RespondError}

id-find :
    (id : String) (rs : List RequestState) (r : RequestState)
    → find_request id rs ≡ some r
    → r.id ≡ id
unfolding find_request
id-find id [] r e = absurd (ground arith)
id-find id (x ∷ xs) r e = elim (Bool-cases (str_eq x.id id)) [
  | inl same ↦
      (let found : x ≡ r = ground (arith, e, same) in
        sym (ap (λ s. s.id) found) ∙ (eq_iff x.id id).0 same)
  | inr other ↦ id-find id xs r (rw other at e)
]

not_answerable :
    (id : String) (response : Response) (r : RequestState) (c : Conversation)
    → r.id ≡ id
    → respond_check r response (record c { requests = begin_answer c.requests id })
      ≡ some RespondError.not_found
unfolding respond_check answerable begin_answer
not_answerable id response r c e = rw e (ground (arith, (eq_iff id id).1 refl))

begun :
    (id : String) (response : Response) (r : RequestState) (c : Conversation)
    → find_request id c.requests.requests ≡ some r
    → respond_check r response c ≡ none
    → begin_respond id response c ≡ (record c { requests = begin_answer c.requests id }, none)
unfolding begin_respond
begun id response r c e n = rw (e, n, begin_respond) refl

refused :
    (id : String) (response : Response) (r : RequestState) (c : Conversation) {x : RespondError}
    → find_request id c.requests.requests ≡ some r
    → respond_check r response c ≡ some x
    → begin_respond id response c ≡ (c, some x)
unfolding begin_respond
refused id response r c e n = rw (e, n, begin_respond) refl

unknown :
    (id : String) (response : Response) (c : Conversation)
    → find_request id c.requests.requests ≡ none
    → begin_respond id response c ≡ (c, some RespondError.not_found)
unfolding begin_respond
unknown id response c e = rw (e, begin_respond) refl

same_requests :
    (id : String) (c : Conversation) → (begin_answer c.requests id).requests ≡ c.requests.requests
unfolding begin_answer
same_requests id c = refl

-- Once an answer to a request is on its way, another is refused as if the request were not
-- pending, and changes nothing.
pub second_answer_refused :
    (id : String) (response other : Response) (c : Conversation)
    → (begin_respond id response c).1 ≡ none
    → let c' = (begin_respond id response c).0 in
      begin_respond id other c' ≡ (c', some RespondError.not_found)
second_answer_refused id response other c h =
    elim (Option-cases (find_request id c.requests.requests)) [
      | inl e ↦ absurd (ground (arith, ap (λ p. p.1) (unknown id response c e), h))
      | inr (r, e) ↦ elim (Option-cases (respond_check r response c)) [
        | inr (x, e') ↦ absurd (ground (arith, ap (λ p. p.1) (refused id response r c e e'), h))
        | inl e' ↦ rw (begun id response r c e e') (
            refused id other r (record c { requests = begin_answer c.requests id })
              (ap (find_request id) (same_requests id c) ∙ e)
              (not_answerable id other r c (id-find id c.requests.requests r e)))
      ]
    ]
