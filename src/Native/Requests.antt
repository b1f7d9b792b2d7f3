-- ===== src/Native/Requests.antt =====
-- The requests of an agent (approvals, questions, plans): `requestBook` of lib/native/requests.go.
--
-- The book holds pointers to request states; here it holds the states, and a request is named by
-- its ID, which stands once in the book. A request whose answer is on its way stays pending and in
-- the book, so the pointer that `Respond` keeps across the delivery and the ID name the same state.
pub mod Answers
pub mod Drop
pub mod Excess
pub mod Bound
use agentapi.Prelude.{
  ℕ, ◌-◌, suc, Bool, true, false, not, ◌&&◌, ◌||◌, List, [], ◌∷◌, ◌++◌, map, Option, none, some,
  String, str_eq, string_eq, leb, ltb, ◌==◌, if◌then◌else◌, length, keep, contains_func, index_func,
  delete_at, modify_at, get_elem?, take, dict_get, dict_put, dict_delete, is_some,
}
use agentapi.Native.Types.{
  Request, Response, ResponseCapability, RequestKind, Question, QuestionOption, RequestOption,
}

pub data RequestStatus : Type 0 where
  pending resolved withdrawn expired : RequestStatus

-- A request with what became of it.
pub record RequestState : Type 0 where
  pub request : Request
  pub open request use *
  pub status : RequestStatus
  pub response : Option Response
  pub closed_at : Option ℕ

abbrev pub is_pending : RequestState → Bool
is_pending r = elim r.status [ RequestStatus.pending ↦ true | _ ↦ false ]

abbrev pub max_closed_requests : ℕ
max_closed_requests = 50

-- The closed requests from index `i` on, each with when it closed (the zero time if it has none).
unfoldable pub closed_from : ℕ → List RequestState → List (ℕ × ℕ)
closed_from i [] = []
closed_from i (r ∷ rs) =
    let rest = closed_from (suc i) rs in
    if is_pending r then rest else (i, elim r.closed_at [ none ↦ 0 | some at ↦ at ]) ∷ rest

-- slices.SortStableFunc by the time, by insertion: an entry goes before those that are not earlier.
insert_by_time : ℕ × ℕ → List (ℕ × ℕ) → List (ℕ × ℕ)
insert_by_time (i, t) [] = (i, t) ∷ []
insert_by_time (i, t) ((j, u) ∷ rest) =
    if leb t u then (i, t) ∷ (j, u) ∷ rest else (j, u) ∷ insert_by_time (i, t) rest

unfoldable pub sort_by_time : List (ℕ × ℕ) → List (ℕ × ℕ)
unfolding insert_by_time
sort_by_time [] = []
sort_by_time (c ∷ cs) = insert_by_time c (sort_by_time cs)

-- slices.Sort.
insert : ℕ → List ℕ → List ℕ
insert i [] = i ∷ []
insert i (j ∷ rest) = if leb i j then i ∷ j ∷ rest else j ∷ insert i rest

unfoldable pub sort : List ℕ → List ℕ
unfolding insert
sort [] = []
sort (i ∷ is) = insert i (sort is)

-- The indexes of the closed requests to drop: those that closed first.
unfoldable pub excess_closed : List RequestState → List ℕ
excess_closed rs =
    let closed = closed_from 0 rs in
    sort (map (λ c. c.0) (take (length closed - max_closed_requests) (sort_by_time closed)))

-- The loop that deletes ascending indexes; `n` were deleted before, in front of the next.
unfoldable pub delete_all {ℓ} : {A : Type ℓ} → ℕ → List ℕ → List A → List A
delete_all n [] xs = xs
delete_all n (i ∷ is) xs = delete_all (suc n) is (delete_at (i - n) xs)

unfoldable pub trim : List RequestState → List RequestState
trim rs = delete_all 0 (excess_closed rs) rs

-- How a request closes: its new status, and how it can still be answered.
pub record RequestClose : Type 0 where
  pub status : RequestStatus
  pub capability : ResponseCapability

-- The answer on its way to a request; `closed` is the first close that came meanwhile.
pub record Answer : Type 0 where
  pub closed : Option RequestClose
  pub unconfirmed : Bool

pub record RequestBook : Type 0 where
  pub requests : List RequestState
  pub answering : List (String × Answer)

unfoldable pub find_request : String → List RequestState → Option RequestState
find_request id [] = none
find_request id (r ∷ rs) = if str_eq r.id id then some r else find_request id rs

-- A write through the pointer to the request with an ID.
unfoldable pub set_request : String → RequestState → List RequestState → List RequestState
set_request id s [] = []
set_request id s (r ∷ rs) = if str_eq r.id id then s ∷ rs else r ∷ set_request id s rs

unfoldable pub opened : Request → ℕ → RequestState
opened req now = record {
  request = record req {
    created_at = if req.created_at == 0 then now else req.created_at;
    capability = elim req.capability [ ResponseCapability.unset ↦ ResponseCapability.live | c ↦ c ];
  };
  status = RequestStatus.pending;
  response = none;
  closed_at = none;
}

unfoldable pub open_request : RequestBook → Request → ℕ → RequestBook × RequestState
open_request b req now =
    let state = opened req now in
    elim (find_request req.id b.requests) [
      | none ↦ (record b { requests = b.requests ++ state ∷ [] }, state)
      | some existing ↦ (record b { requests = set_request req.id state b.requests }, state)
    ]

unfoldable pub pending_requests : RequestBook → List RequestState
pending_requests b = keep is_pending b.requests

unfoldable pub answerable : RequestBook → RequestState → Bool
answerable b r = is_pending r && not (is_some (dict_get r.id b.answering))

unfoldable pub waiting_on_user : RequestBook → Bool
waiting_on_user b = contains_func (answerable b) b.requests

-- The end of `close`: the request closes now, and the closed ones in excess go.
unfoldable pub close_now :
    RequestBook → RequestState → RequestClose → ℕ → RequestBook × Option RequestState
close_now b r c now =
    let closed : RequestState = record r {
      request = record (r.request) { capability = c.capability };
      status = c.status;
      closed_at = some now;
    } in
    (record b { requests = trim (set_request r.id closed b.requests) }, some closed)

-- Closes a pending request `r` of the book; the result has its state if it closed.
unfoldable pub close :
    RequestBook → RequestState → RequestClose → ℕ → RequestBook × Option RequestState
close b r c now = if not (is_pending r) then (b, none) else elim (dict_get r.id b.answering) [
  | none ↦ close_now b r c now
  | some a ↦
      if not a.unconfirmed
      then (
        elim a.closed [
          | none ↦ record b { answering = dict_put r.id (record a { closed = some c }) b.answering }
          | some first ↦ b
        ],
        none,
      )
      else close_now (record b { answering = dict_delete r.id b.answering }) r c now
]

-- How a request the agent stopped waiting for can still be answered.
unfoldable pub closed_capability : RequestKind → ResponseCapability
closed_capability RequestKind.question = ResponseCapability.message
closed_capability _ = ResponseCapability.not_resumable

expire_close : Bool → RequestState → RequestClose
unfolding closed_capability
expire_close agent_gone r = record {
  status = RequestStatus.expired;
  capability =
      if not agent_gone then closed_capability r.kind else ResponseCapability.not_resumable;
}

-- The loop over a copy of the requests. Closing one trims the book, so each is looked up again.
unfoldable pub expire_all :
    RequestBook → List RequestState → Bool → ℕ → RequestBook × List RequestState
unfolding expire_close
expire_all b [] agent_gone now = (b, [])
expire_all b (r ∷ rs) agent_gone now = elim (find_request r.id b.requests) [
  | none ↦ expire_all b rs agent_gone now
  | some r' ↦
      let (b', closed) = close b r' (expire_close agent_gone r') now in
      let (b'', more) = expire_all b' rs agent_gone now in
      (b'', elim closed [ none ↦ more | some c ↦ c ∷ more ])
]

unfoldable pub expire : RequestBook → Bool → ℕ → RequestBook × List RequestState
expire b agent_gone now = expire_all b b.requests agent_gone now

unfoldable pub begin_answer : RequestBook → String → RequestBook
begin_answer b id = record b {
  answering = dict_put id (record { closed = none; unconfirmed = false }) b.answering;
}

-- The end of the delivery of an answer to `r`: with a response the delivery worked.
unfoldable pub end_answer :
    RequestBook → RequestState → Option Response → Bool → ℕ → RequestBook × Option RequestState
end_answer b r response unconfirmed now =
    let b' : RequestBook = record b { answering = dict_delete r.id b.answering } in
    let meanwhile : Option RequestClose = elim (dict_get r.id b.answering) [
      | none ↦ none
      | some a ↦ a.closed
    ] in
    elim response [
      | some resp ↦
          let r' : RequestState = record r { response = some resp } in
          close (record b' { requests = set_request r.id r' b'.requests }) r'
            (record { status = RequestStatus.resolved; capability = r.capability }) now
      | none ↦ elim meanwhile [
        | some c ↦ close b' r c now
        | none ↦ (
          if unconfirmed
              then record b' {
                answering =
                    dict_put r.id (record { closed = none; unconfirmed = true }) b'.answering;
              }
              else b',
          none,
        )
      ]
    ]
