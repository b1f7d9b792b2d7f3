-- ===== src/Native/Turn/Gate.antt =====
-- When a turn can start, and what is left of one that the agent refused.
use agentapi.Prelude.{
  ℕ, ◌≡◌, refl, ap, ◌∙◌, sym, true, false, not, ◌&&◌, ◌||◌, Option, none, some, arith, is_empty,
  trim_space, if◌then◌else◌, is_some, Result, ok, err, ◌≢◌, Bool, List, [], ◌∷◌, ◌++◌, ◌==◌,
  Bool-cases, inl, inr,
}
use agentapi.Native.Types.{Input}
use agentapi.Native.MessageLog.{Message, Role, append_user, index, remove}
use agentapi.Native.MessageLog.Middle.{remove-middle}
use agentapi.Native.State.{Conversation, Adapter, idle, set_limit_stop, set_retry_wait}
use agentapi.Native.Turn.{
  AgentError, TurnError, PendingTurn, begin_turn, begin_with, deliver_turn, take_back, start_turn,
  caller_error,
}

-- The message has text, the agent is idle, and there is an adapter.
abbrev pub CanStart : Input → Adapter → Conversation → Type 0
CanStart input a c =
    (is_empty (trim_space input.text) ≡ false) × (idle c ≡ true) × (c.adapter ≡ some a)

begin_turn-starts :
    (input : Input) (now : ℕ) (a : Adapter) (c : Conversation)
    → CanStart input a c
    → begin_turn input now c ≡ (
      (begin_with a (trim_space input.text) input now c).0,
      ok (begin_with a (trim_space input.text) input now c).1,
    )
unfolding begin_turn idle
begin_turn-starts input now a c (text, ready, e) = ground arith

-- Without all of that, nothing begins and nothing changes.
pub begin_turn_refused :
    (input : Input) (now : ℕ) (c : Conversation)
    → (is_empty (trim_space input.text) || not (idle c) || not (is_some c.adapter)) ≡ true
    → begin_turn input now c
      ≡ (c, err (if is_empty (trim_space input.text) then TurnError.empty else TurnError.changing))
unfolding begin_turn idle
begin_turn_refused input now c h = ground arith

-- What a turn that began leaves: the user's message in the log, no stop and no retry that holds
-- the queue, and a turn that no other can join.
pub record Began (input : Input) (now : ℕ) (c c' : Conversation) (turn : PendingTurn) : Type 0 where
  pub active : c'.turn_active ≡ true
  pub confirmed : c'.unconfirmed_turn ≡ false
  pub generation : c'.generation ≡ c.generation
  pub log : c'.messages ≡ (append_user c.messages (trim_space input.text) now).0
  pub no_stop : c'.limit_stop ≡ none
  pub no_wait : c'.retry_wait ≡ none
  pub same_start : c'.is_started ≡ c.is_started
  pub same_compacting : c'.compacting ≡ c.compacting
  pub same_cfg : c'.cfg ≡ c.cfg
  pub same_retrying : c'.retrying ≡ c.retrying
  pub same_caps : c'.caps ≡ c.caps
  pub same_adapter : c'.adapter ≡ c.adapter
  pub of_generation : turn.gen ≡ c.generation
  pub of_message : turn.msg ≡ (append_user c.messages (trim_space input.text) now).1

pub begin_with-Began :
    (input : Input) (now : ℕ) (a : Adapter) (c : Conversation)
    → let (c', turn) = begin_with a (trim_space input.text) input now c in Began input now c c' turn
unfolding begin_with set_limit_stop set_retry_wait append_user
begin_with-Began input now a c = ground arith

-- After a turn that can start began, another message with text is refused and changes nothing.
pub second_turn_refused :
    (input other : Input) (now later : ℕ) (a : Adapter) (c : Conversation)
    → CanStart input a c
    → is_empty (trim_space other.text) ≡ false
    → let c' = (begin_turn input now c).0 in
      begin_turn other later c' ≡ (c', err TurnError.changing)
unfolding idle
second_turn_refused input other now later a c can text =
    let e = begin_turn-starts input now a c can in
    let b = begin_with-Began input now a c in
    rw e (begin_turn_refused other later _ (ground arith) ∙ rw text refl)

pub start_turn-starts :
    (input : Input) (now : ℕ) (f : Conversation → Conversation) (answer : Option AgentError)
    (a : Adapter) (c : Conversation)
    → CanStart input a c
    → let (c', turn) = begin_with a (trim_space input.text) input now c in
      start_turn input now f answer c ≡ deliver_turn turn answer (f c')
unfolding start_turn
start_turn-starts input now f answer a c can = ap finish (begin_turn-starts input now a c can)
  where
    finish : Conversation × Result TurnError PendingTurn → Conversation × Option TurnError
    finish (d, err e) = (d, some e)
    finish (d, ok turn) = deliver_turn turn answer (f d)

pub deliver_turn-refused :
    (turn : PendingTurn) (e : AgentError) (c : Conversation)
    → turn.gen ≡ c.generation
    → e ≢ AgentError.unconfirmed
    → deliver_turn turn (some e) c ≡ (take_back turn c, some (caller_error e))
unfolding deliver_turn
deliver_turn-refused turn e c same ne = ground (arith, ne)

-- The message of a turn that starts.
abbrev pub user_message : Input → ℕ → Conversation → Message
user_message input now c = record {
  id = c.messages.next_id;
  text = trim_space input.text;
  role = Role.user;
  time = now;
}

-- The log of `d`, when the agent answers the turn: other messages may have come meanwhile; `before`
-- stand in front of the turn's message and `news` behind it, none of these with its Id.
abbrev pub Meanwhile :
    Input → ℕ → Conversation → (before news : List Message) → (d : Conversation) → Type 0
Meanwhile input now c before news d =
    (d.messages.messages ≡ before ++ user_message input now c ∷ news)
    × (index c.messages.next_id news ≡ none)

pub begun :
    (input : Input) (now : ℕ) (a : Adapter) (c : Conversation)
    → CanStart input a c
    → (begin_turn input now c).0 ≡ (begin_with a (trim_space input.text) input now c).0
begun input now a c can = ap (λ p. p.0) (begin_turn-starts input now a c can)

-- The log when the agent is called with a turn that can start.
abbrev pub IsCalledWith : Input → ℕ → Conversation → Type 0
IsCalledWith input now c =
    (begin_turn input now c).0.messages.messages
    ≡ c.messages.messages ++ user_message input now c ∷ []

pub begin_turn-IsCalledWith :
    (input : Input) (now : ℕ) (a : Adapter) (c : Conversation)
    → CanStart input a c
    → IsCalledWith input now c
unfolding append_user
begin_turn-IsCalledWith input now a c can =
    ap (λ k. k.messages.messages) (begun input now a c can)
    ∙ ap (λ t. t.messages) (begin_with-Began input now a c).log

-- The agent's answer to a turn that can start comes to what the conversation is by then.
pub start_turn-delivers :
    (input : Input) (now : ℕ) (f : Conversation → Conversation) (answer : Option AgentError)
    (a : Adapter) (c : Conversation)
    → CanStart input a c
    → start_turn input now f answer c
      ≡ deliver_turn
          (begin_with a (trim_space input.text) input now c).1
          answer
          (f (begin_turn input now c).0)
start_turn-delivers input now f answer a c can =
    rw (begun input now a c can) (start_turn-starts input now f answer a c can)

take_back-keeps :
    (turn : PendingTurn) (d : Conversation)
    → ((take_back turn d).messages ≡ remove d.messages turn.msg)
      × ((take_back turn d).turn_active ≡ false)
      × ((take_back turn d).generation ≡ d.generation)
      × (idle (take_back turn d) ≡ (d.is_started && not d.compacting))
unfolding take_back idle
take_back-keeps turn d = (refl, refl, refl, ground arith)

deliver_turn-replaced :
    (turn : PendingTurn) (e : AgentError) (d : Conversation)
    → (turn.gen == d.generation) ≡ false
    → deliver_turn turn (some e) d ≡ (d, some (caller_error e))
unfolding deliver_turn
deliver_turn-replaced turn e d other = ground arith

-- The turn that began has the conversation's generation and its next Id.
turn-of :
    (input : Input) (now : ℕ) (a : Adapter) (c : Conversation)
    → let turn = (begin_with a (trim_space input.text) input now c).1 in
      (turn.gen ≡ c.generation) × (turn.msg ≡ c.messages.next_id)
unfolding append_user
turn-of input now a c = let b = begin_with-Began input now a c in (b.of_generation, b.of_message)

gen_sym : (m n : ℕ) (b : Bool) → (m == n) ≡ b → (n == m) ≡ b
gen_sym m n b h = ground arith

pub refused_turn_taken_back :
    (input : Input) (now : ℕ) (f : Conversation → Conversation) (e : AgentError) (a : Adapter)
    (c : Conversation) (before news : List Message)
    → CanStart input a c
    → e ≢ AgentError.unconfirmed
    → Meanwhile input now c before news (f (begin_turn input now c).0)
    → let d = f (begin_turn input now c).0 in
      let (c', refused) = start_turn input now f (some e) c in
      IsCalledWith input now c
      × (refused ≡ some (caller_error e))
      × (if c.generation == d.generation
          then (c'.messages.messages ≡ before ++ news)
            × (c'.turn_active ≡ false)
            × (c'.generation ≡ c.generation)
            × (idle c' ≡ (d.is_started && not d.compacting))
          else c' ≡ d)
refused_turn_taken_back input now f e a c before news can ne (log, free) =
    let d = f (begin_turn input now c).0 in
    let turn = (begin_with a (trim_space input.text) input now c).1 in
    let (of_gen, of_msg) = turn-of input now a c in
    elim (Bool-cases (c.generation == d.generation)) [
      | inl same ↦
          let eq : c.generation ≡ d.generation = ground arith in
          let (left, over, gen, ready) = take_back-keeps turn d in
          rw
            (start_turn-delivers input now f (some e) a c can
              ∙ deliver_turn-refused turn e d (of_gen ∙ eq) ne)
            (
              begin_turn-IsCalledWith input now a c can,
              refl,
              rw same (
                ap (λ t. t.messages) (left ∙ ap (remove d.messages) of_msg)
                    ∙ remove-middle d.messages before news (user_message input now c) log free,
                over,
                gen ∙ sym eq,
                ready,
              ),
            )
      | inr other ↦
          rw
            (start_turn-delivers input now f (some e) a c can
              ∙ deliver_turn-replaced turn e d (rw of_gen other))
            (begin_turn-IsCalledWith input now a c can, refl, rw other refl)
    ]
