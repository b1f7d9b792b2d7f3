-- ===== src/Native/Requests/Answers.antt =====
-- Answers on their way to a request (lib/native/requests.go): while one is being delivered, no
-- second answer can start, and a close waits for the delivery to end.
use agentapi.Prelude.{
  ℕ, ◌≡◌, refl, Bool, true, false, List, ◌∷◌, ◌++◌, none, some, arith, ap, String, str_eq,
  string_eq, eq_iff, dict_get, dict_put, dict_delete, dict_get-delete,
}
use agentapi.Native.Types.{Response}
use agentapi.Native.Requests.{
  RequestState, RequestStatus, RequestBook, RequestClose, Answer, is_pending, close, close_now,
  end_answer, set_request, find_request, trim,
}

str_refl : (s : String) → str_eq s s ≡ true
str_refl s = (eq_iff s s).1 refl

deleted_none : (id : String) (m : List (String × Answer)) → dict_get id (dict_delete id m) ≡ none
deleted_none id m = ground (arith, str_refl id, dict_get-delete id id m)

-- The book with a request as it is now, less the closed ones in excess.
abbrev pub with_state : RequestBook → String → RequestState → List RequestState
with_state b id s = trim (set_request id s b.requests)

-- A request that closed at `now`, by the agent or on its own.
abbrev pub closed_state : RequestState → RequestClose → ℕ → RequestState
closed_state r c now = record r {
  request = record (r.request) { capability = c.capability };
  status = c.status;
  closed_at = some now;
}

close-free :
    (b : RequestBook) (r : RequestState) (c : RequestClose) (now : ℕ)
    → is_pending r ≡ true
    → dict_get r.id b.answering ≡ none
    → close b r c now ≡ close_now b r c now
unfolding close
close-free b r c now p e = rw (p, e, close)

-- A close that came while the answer to a pending request is on its way is kept, and closes nothing.
abbrev deferred : RequestBook → RequestState → RequestClose → RequestBook
deferred b r c = record b {
  answering =
      dict_put r.id (record { closed = some c; unconfirmed = false })
        (dict_put r.id (record { closed = none; unconfirmed = false }) b.answering);
}

-- The request `r` stands in the book, between `front`, where no request has its ID, and `back`.
abbrev pub StandsIn :
    RequestBook → (front : List RequestState) → RequestState → List RequestState → Type 0
StandsIn b front r back = (b.requests ≡ front ++ r ∷ back) × (find_request r.id front ≡ none)

pub end_answer-delivered :
    (b : RequestBook) (r : RequestState) (resp : Response) (unconfirmed : Bool) (now : ℕ)
    → is_pending r ≡ true
    → (end_answer b r (some resp) unconfirmed now).1
      ≡ some (record r {
        request = r.request;
        status = RequestStatus.resolved;
        response = some resp;
        closed_at = some now;
      })
unfolding end_answer close_now
end_answer-delivered b r resp unconfirmed now p =
    ap (λ x. x.1)
      (close-free _ (record r { response = some resp }) _ now p (deleted_none r.id b.answering))

-- A request that was resolved with a response at `now`.
abbrev pub resolved_state : RequestState → Response → ℕ → RequestState
resolved_state r resp now = record r {
  status = RequestStatus.resolved;
  response = some resp;
  closed_at = some now;
}
