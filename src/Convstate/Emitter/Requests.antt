-- ===== src/Convstate/Emitter/Requests.antt =====
-- The requests: lib/convstate/events_requests.go.
use agentapi.Prelude.{
  ℕ, suc, not, ◌&&◌, [], ◌∷◌, ◌++◌, Option, none, some, str_eq, ◌==◌, if◌then◌else◌, modify_at,
  index_func, is_some, nat_eq, string_eq,
}
use agentapi.Native.Requests.{RequestState, is_pending, excess_closed, delete_all}
use agentapi.Convstate.Emitter.{Event, EventEmitter, send, notify_status, pending}

-- trimRequestsLocked, on the requests and their numbers.
unfoldable pub trim_requests : EventEmitter → EventEmitter
trim_requests e =
    let excess = excess_closed e.requests in
    record e {
      requests = delete_all 0 excess e.requests;
      request_seqs = delete_all 0 excess e.request_seqs;
    }

-- The request is stored; the closed requests in excess go.
unfoldable pub put_request : RequestState → Option ℕ → EventEmitter → EventEmitter
put_request state idx e =
    let seq = suc e.seq in
    trim_requests (elim idx [
      | none ↦ record e {
        seq = seq;
        requests = e.requests ++ state ∷ [];
        request_seqs = e.request_seqs ++ seq ∷ [];
      }
      | some i ↦ record e {
        seq = seq;
        requests = modify_at i (λ r. state) e.requests;
        request_seqs = modify_at i (λ s. seq) e.request_seqs;
      }
    ])

unfoldable pub emit_request : RequestState → ℕ → EventEmitter → EventEmitter
emit_request state now e =
    let idx = index_func (λ r. str_eq r.id state.id) e.requests in
    let e₁ = put_request state idx e in
    let e₂ : EventEmitter = record (send (Event.request_update state e₁.seq) e₁) {
      handoff_revision = suc e.handoff_revision;
    } in
    if not (is_some idx) && not (is_pending state)
    then e
    else if pending e₂.requests == pending e.requests
    then e₂
    else notify_status now e₂
