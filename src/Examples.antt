-- ===== src/Examples.antt =====
-- The states on which the theorems' examples run: two queued messages, and an agent that waits for
-- a message. The child modules hold the examples.
pub mod Queue
pub mod Native
pub mod Log
pub mod Agent
pub mod Dispatch
pub mod Convstate
pub mod Terminal
pub mod Origins
use agentapi.Prelude.{
  ℕ, ◌≤◌, Bool, true, false, List, [], ◌∷◌, Option, none, some, Text, codes, count, arith, ◌==◌,
  if◌then◌else◌,
}
use agentapi.Queue.{QueuedMessage, MessageQueue}
use agentapi.Queue.Pick.{ids_of, Distinct}
use agentapi.Queue.Ids.{IsValid}
use agentapi.Native.Types.{Capabilities, Settings, AgentUsage, Input, RateLimit}
use agentapi.Native.MessageLog.{Role, Message, MessageLog}
use agentapi.Native.MessageLog.Ids.{IsOrdered}
use agentapi.Native.Requests.{RequestBook}
use agentapi.Native.State.{Config, Conversation, Adapter, LimitStop, RetryWait}
use agentapi.Dispatch.{Server}

abbrev pub fix_it : Text
fix_it = codes "fix it"

abbrev pub first_message : QueuedMessage
first_message = record { id = 1; content = codes "fix it"; time = 10 }

abbrev pub second_message : QueuedMessage
second_message = record { id = 2; content = codes "test it"; time = 20 }

abbrev pub two_messages : MessageQueue
two_messages = record {
  messages = first_message ∷ second_message ∷ [];
  last_id = 2;
  failed_id = 0;
  failures = 0;
  version = 2;
  has_on_change = false;
  reports = [];
}

pub two_messages-Distinct : Distinct (ids_of two_messages.messages)
two_messages-Distinct a = ground arith

pub two_messages-IsValid : IsValid two_messages
two_messages-IsValid = record { distinct = two_messages-Distinct; bounded = λ a h. ground arith }

abbrev pub no_settings : Settings
no_settings = record { permission_mode = ""; model = ""; effort = "" }

abbrev pub an_adapter : Adapter
an_adapter = record { number = 1; is_compacter = false; is_configurable = false }

abbrev pub no_usage : AgentUsage
no_usage = record { context = none; rate_limits = []; prompt_cache = none }

abbrev pub some_messages : MessageLog
some_messages = record {
  messages = (record { id = 0; text = codes "hello"; role = Role.user; time = 1 }) ∷ [];
  next_id = 1;
  building = none;
  texts = [];
  rich = [];
}

pub some_messages-IsOrdered : IsOrdered some_messages
some_messages-IsOrdered = (omega arith, omega arith)

abbrev pub no_requests : RequestBook
no_requests = record { requests = []; answering = [] }

-- A conversation whose agent waits for a message.
abbrev pub waiting : Conversation
waiting = record {
  cfg = record {
    initial_prompt = [];
    login_retry_interval = 30;
    auto_continue = false;
    retry_delays = 5 ∷ 10 ∷ [];
    restart_delays = 1 ∷ 2 ∷ [];
    transient_status = λ t. 0;
    local_host = "box";
    local_user = "dev";
  };
  adapter = some an_adapter;
  caps = record {
    steer = true;
    interrupt = true;
    resume = true;
    images = false;
    settings = false;
    compact = false;
  };
  generation = 1;
  is_started = true;
  turn_active = false;
  unconfirmed_turn = false;
  compacting = false;
  prompt_sent = true;
  session_ref = "";
  forking = false;
  messages = some_messages;
  requests = no_requests;
  login = none;
  login_waiting = false;
  relaunch_wake = false;
  restarts = 0;
  ran = true;
  start_errors = [];
  settings = no_settings;
  chosen = no_settings;
  usage = no_usage;
  limit_stop = none;
  continue_again = false;
  retry_wait = none;
  retrying = 0;
  outputs = [];
  relaunches = [];
}

abbrev pub fix_input : Input
fix_input = record { text = fix_it; images = [] }

abbrev pub test_input : Input
test_input = record { text = codes "test it"; images = [] }

-- A server with two queued messages and an agent that waits.
abbrev pub a_server : Server
a_server = record {
  queue = two_messages;
  conversation = waiting;
  restarting = false;
  updating = false;
  update_holds = false;
  stopping = false;
  errors = [];
}
