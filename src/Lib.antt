-- ===== src/Lib.antt =====
-- AgentAPI's message handling: the queue of messages for the agent, its dispatch, and the
-- conversation that the agent's turns, requests and events change.
--
-- AgentAPI runs a coding agent and serves an HTTP interface to it. A message reaches the agent as a
-- turn of the conversation (lib/native), at once or through the queue (lib/httpapi/queue.go), whose
-- dispatch sends the head when the conversation is idle and nothing holds the queue. The agent's
-- adapter reports through a sink, whose events change the conversation. The conversation tells the
-- event emitter (lib/convstate), which numbers the changes for its clients and derives the tasks. A
-- terminal's recent output is kept in a ring (lib/shellterm), and requests that pages of other origins
-- make are refused before they reach any of this.
--
-- Files and the code they are about:
--   Queue             lib/httpapi/queue.go, messageQueue: one function for each method, named like it
--   Queue/Pick        the map that Reorder fills and empties
--   Queue/Order       what Reorder accepts
--   Queue/Access      Get, Update and Remove in terms of the messages
--   Queue/Ids         the IDs given out; Queue/History: any calls of the methods, in any order
--   Transcript        the rich messages of lib/transcript/transcript.go
--   Native/Types      lib/native/types.go, settings.go, usage.go: the data
--   Native/Requests   lib/native/requests.go, requestBook; Requests/Answers: an answer on its way;
--                     Requests/Drop, Excess and Bound: the closed requests that are kept
--   Native/MessageLog lib/native/message_log.go; MessageLog/Ids, MessageLog/Middle and MessageLog/Rich:
--                     its Ids, the message taken out, its texts
--   Native/State      lib/native/conversation.go, the state of Conversation and its setters
--   Native/Limit      lib/native/limit.go and retry.go: stopped turns and waiting retries;
--                     Limit/Reset: the reset time of a stop
--   Native/Sink       lib/native/sink.go: an event of the adapter
--   Native/Turn       lib/native/conversation.go: StartTurn, Steer, Interrupt, Compact; Turn/Gate and
--                     Turn/Logged: when a turn starts and what it leaves
--   Native/Continue   ContinueIfDue and RetryNow of limit.go and retry.go; Continue/Chain and
--                     Continue/Refused: retries in a row, and refused continuations
--   Native/Respond    lib/native/requests.go, Respond: checks and redaction of an answer; Respond/Secrets,
--                     Respond/Answered and Respond/Once: what is published, accepted and refused
--   Native/Lifecycle  lib/native/lifecycle.go and login.go: starts, exits, replacements;
--                     Lifecycle/Restarts: starts that fail in a row
--   Native/Configure  lib/native/conversation.go: SettingOptions and ApplySettings
--   Native/Steps      the steps of a conversation; Steps/Keeps and Steps/Generations: the
--                     generations; Steps/Logs and Steps/Ordered: the Ids of the log
--   Dispatch          lib/httpapi/queue.go: the dispatch of the queue and its endpoints;
--                     Dispatch/Attempts and Delivery: what a tick does with the head
--   Dispatch/Message  lib/httpapi/native.go, createNativeMessageLocked; Message/Placed: where a
--                     client's message goes
--   Dispatch/Continuation  lib/httpapi/limit.go and retry.go, and beforeQueue of queue.go;
--                     Continuation/First: a due continuation and the queue
--   Convstate/Types   lib/convstate/events.go and text.go, lib/instanceapi/summary.go: the data
--   Convstate/Tasks   lib/convstate/tasks.go, taskTracker: Tasks/Derive the tasks that messages give,
--                     Tasks/Messages what a change of the messages does, Tasks/Status what the status
--                     does; Tasks/Running, Tracked, Keeps, Steps and Ends: the running task;
--                     Tasks/Methods: any calls
--   Convstate/Emitter lib/convstate/events.go, EventEmitter, with Emitter/Messages, Rich, Requests, Status,
--                     Waits and Subscribe for the files events_messages.go, events_requests.go,
--                     events_status.go and the replay; Emitter/Held: the held lifecycle; Emitter/Newest:
--                     late reports of the queue; Emitter/Contents, Keeps, Numbers, Upserts, CatchUp,
--                     Runs, Reconnect and Current: a client and its replay
--   Convstate/Replay  numbered values and the changes after a number; Replay/Changes: one more change
--   Scrollback        lib/shellterm/scrollback.go; Scrollback/Modulo, Ring and Window: the places of the
--                     bytes; Scrollback/Write, Advance and Refine: what is kept
--   Origins           lib/httpapi/crossorigin.go; Origins/Wildcard and Trusted: what a trusted origin
--                     stands for
--   Prelude           shared tests, lists, text and maps; Examples: concrete states
--
-- How the code is read: what runs under a mutex is one step, a function from the state to the state.
-- A call of the adapter runs without the conversation's mutex, so an operation that calls it is two
-- steps; what the adapter answers is an argument, and `meanwhile` is what other steps did in between.
-- Calls of the Emitter, the Observer and onChange are kept as values in the state. A pointer to a
-- shared object is the key of the object: a request's ID, a rich message's ID, an agent message's Id.
--
-- Numbers: times are nanoseconds as natural numbers, Ids and counts are natural numbers (they count
-- messages or starts, and Go's int does not overflow on them), and the queue's uint64 version wraps.
-- Text that the code looks into is a list of code points. The one loop on
-- fuel is the scrollback's copy around its ring, where the chunk's length is enough, as each round
-- copies a byte; every other loop is over a list of the state. The emitter's uint64 counters are natural numbers.
--
-- Not modelled: which images a text names, the HTTP status that an error's text names, and the local host
-- and user (arguments of the definitions or fields of the configuration), the adapters of the agents, the emitter's channels, its SetUsage, its timeline and its summary, the state database, the
-- hub, webhooks, uploads, and the commands.
pub mod Prelude
pub mod Queue
pub mod Transcript
pub mod Native
pub mod Convstate
pub mod Dispatch
pub mod Scrollback
pub mod Examples
pub mod Origins
