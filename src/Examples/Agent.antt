-- ===== src/Examples/Agent.antt =====
-- Examples of the theorems about the agent's starts and ends, and about answers to its requests.
use agentapi.Prelude.{
  keep, length, min, ◌+◌, ◌-◌, ℕ, suc, ◌≤◌, ◌<◌, ◌≡◌, ◌↔◌, refl, Bool, true, false, List, [], ◌∷◌,
  Option, none, some, Text, String, codes, arith, get_or, dict_get, string_eq,
}
use agentapi.Native.Types.{
  Request, RequestKind, ResponseCapability, Response, Question, Resume, LoginRequired, Capabilities,
  Settings, Input,
}
use agentapi.Native.Requests.{RequestStatus, RequestState, find_request, answerable}
use agentapi.Native.Requests.{trim, is_pending, max_closed_requests}
use agentapi.Native.Requests.Bound.{trim_bounded}
use agentapi.Native.State.{Conversation, Output, Adapter, status}
use agentapi.Native.Sink.{Event, sink}
use agentapi.Native.Lifecycle.{
  restart_resume, created, start_worked, start_failed, login_missing, exited, relaunch_due,
}
use agentapi.Native.Lifecycle.Restarts.{fail_starts, restarts_bounded}
use agentapi.Native.Steps.{Step, step, run}
use agentapi.Native.Steps.Generations.{by_restart, replaced_agent_ignored, ended_agent_ignored}
use agentapi.Native.Respond.{
  begin_respond, end_respond, respond_check, validate_questions, validate_question, redact_secrets,
  validate_response, RespondError,
}
use agentapi.Native.Respond.Secrets.{is_secret, kept, redact_secrets-kept, published_redacted}
use agentapi.Native.Respond.Answered.{AllFit, validate_response_iff}
use agentapi.Native.Respond.Once.{second_answer_refused}
use agentapi.Native.Steps.Ordered.{AllBring, run-IsOrdered}
use agentapi.Native.MessageLog.Ids.{IsOrdered}
use agentapi.Examples.{some_messages, some_messages-IsOrdered, waiting, an_adapter, fix_input}

restarts_bounded_example :
    let d = fail_starts 1 (codes "no such file") 40 waiting in
    let d' = fail_starts 2 (codes "no such file") 40 waiting in
    (1 < 2
      → d'.relaunches
        ≡ (record {
          gen = suc d.generation;
          resume = restart_resume d;
          delay = get_or waiting.cfg.restart_delays 1 0;
        })
          ∷ d.relaunches)
    × (2 ≤ 1 → d'.relaunches ≡ d.relaunches)
restarts_bounded_example = restarts_bounded 1 (codes "no such file") 40 waiting refl

abbrev then_works : List Step
then_works = Step.creates 2 an_adapter ∷ Step.begins_turn fix_input 60 ∷ []

replaced_agent_ignored_example :
    let c' = run waiting then_works in
    ((e : Event) (now : ℕ) → sink 0 e now c' ≡ c')
    × ((a : Adapter) → created 0 a c' ≡ c')
    × ((caps : Capabilities) (s : Settings) (prompt : Input) (now : ℕ)
        → start_worked 0 caps s prompt now c' ≡ (c', none))
    × ((e : Text) (again : Bool) (now : ℕ) → start_failed 0 e again now c' ≡ c')
    × ((r : Resume) (l : LoginRequired) → login_missing 0 r l c' ≡ c')
    × ((at now : ℕ) (e : Option Text) → exited 0 at e now c' ≡ c')
    × ((r : Resume) (delay : ℕ)
        → relaunch_due (record { gen = 0; resume = r; delay = delay }) c' ≡ c')
replaced_agent_ignored_example = replaced_agent_ignored 0 then_works waiting (omega arith)

ended_agent_ignored_example :
    let c' = run (step waiting (Step.restarts 50)) then_works in
    ((e : Event) (now : ℕ) → step c' (Step.reports 1 e now) ≡ c')
    × ((at now : ℕ) (e : Option Text) → step c' (Step.exits 1 at e now) ≡ c')
    × ((e : Text) (again : Bool) (now : ℕ) → step c' (Step.fails_start 1 e again now) ≡ c')
ended_agent_ignored_example = ended_agent_ignored waiting (Step.restarts 50) then_works by_restart

abbrev token_question : Question
token_question = record {
  id = "token";
  header = "";
  text = "Token?";
  options = [];
  multi_select = false;
  free_text = true;
  secret = true;
}

abbrev asks_token : Request
asks_token = record {
  id = "r2";
  kind = RequestKind.question;
  title = "";
  detail = "";
  tool_name = "";
  tool_use_id = "";
  input = "";
  options = [];
  questions = token_question ∷ [];
  feedback = false;
  capability = ResponseCapability.live;
  created_at = 5;
}

abbrev token_state : RequestState
token_state = record {
  request = asks_token;
  status = RequestStatus.pending;
  response = none;
  closed_at = none;
}

abbrev asked_token : Conversation
asked_token = record waiting { requests = record { requests = token_state ∷ []; answering = [] } }

abbrev token : Response
token = record { option_id = ""; answers = ("token", "abc" ∷ []) ∷ []; text = "" }

redact_secrets-kept_example :
    ((id : String)
      → dict_get id (redact_secrets asks_token token).answers
        ≡ kept (is_secret id (token_question ∷ [])) (dict_get id token.answers))
    × ((redact_secrets asks_token token).option_id ≡ "")
    × ((redact_secrets asks_token token).text ≡ "")
redact_secrets-kept_example = redact_secrets-kept asks_token token

token_found : find_request "r2" asked_token.requests.requests ≡ some token_state
unfolding find_request
token_found = refl

published_redacted_example :
    let c' = end_respond "r2" token none 60 asked_token in
    c'.outputs
    ≡ Output.emit_status (status c')
      ∷ Output.request_updated (record token_state {
        request = asks_token;
        status = RequestStatus.resolved;
        response = some (redact_secrets asks_token token);
        closed_at = some 60;
      })
      ∷ []
published_redacted_example =
    published_redacted "r2" token 60 token_state asked_token token_found refl

validate_response_iff_example :
    (validate_response asks_token token ≡ none) ↔ AllFit (token_question ∷ []) token.answers
validate_response_iff_example = validate_response_iff asks_token token refl refl

taken : (begin_respond "r2" token asked_token).1 ≡ none
unfolding begin_respond find_request respond_check answerable validate_response validate_questions
    validate_question
taken = refl

second_answer_refused_example :
    let c' = (begin_respond "r2" token asked_token).0 in
    begin_respond "r2" token c' ≡ (c', some RespondError.not_found)
second_answer_refused_example = second_answer_refused "r2" token token asked_token taken

trim_bounded_example :
    let pending = keep is_pending (token_state ∷ []) in
    (keep is_pending (trim (token_state ∷ [])) ≡ pending)
    × (length (trim (token_state ∷ []))
        ≡ length pending + min max_closed_requests (1 - length pending))
trim_bounded_example = trim_bounded (token_state ∷ [])

abbrev switched : List Step
switched =
    Step.switches (record { ref = "s1"; fork = false }) some_messages.messages 70 ∷ then_works

switched-AllBring : AllBring switched
switched-AllBring = ((1, (omega arith, omega arith)), (tt, (tt, tt)))

run-IsOrdered_example : IsOrdered (run waiting switched).messages
run-IsOrdered_example = run-IsOrdered switched waiting switched-AllBring some_messages-IsOrdered
