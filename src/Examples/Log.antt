-- ===== src/Examples/Log.antt =====
-- Examples of the theorems about requests and about the message log of lib/native.
use agentapi.Prelude.{
  ℕ, ◌≡◌, refl, true, false, [], ◌∷◌, none, some, codes, dict_put, join, string_eq, Text,
}
use agentapi.Transcript.{RichMessage}
use agentapi.Native.Types.{Request, RequestKind, ResponseCapability, Response}
use agentapi.Native.Requests.{RequestStatus, RequestState, RequestClose, RequestBook}
use agentapi.Native.MessageLog.{
  MessageLog, append_user, remove, add_rich, assistant_text, index, part_texts, blank_line,
}
use agentapi.Native.MessageLog.Ids.{IsOrdered, append-remove, add_rich-IsOrdered}
use agentapi.Native.MessageLog.Rich.{add_rich-keeps, is_among, ids, text_at}
use agentapi.Examples.{some_messages, some_messages-IsOrdered, fix_it}

abbrev an_approval : Request
an_approval = record {
  id = "r1";
  kind = RequestKind.approval;
  title = "";
  detail = "";
  tool_name = "";
  tool_use_id = "";
  input = "";
  options = [];
  questions = [];
  feedback = false;
  capability = ResponseCapability.live;
  created_at = 5;
}

abbrev asked : RequestState
asked = record {
  request = an_approval;
  status = RequestStatus.pending;
  response = none;
  closed_at = none;
}

abbrev one_request : RequestBook
one_request = record { requests = asked ∷ []; answering = [] }

abbrev withdrawing : RequestClose
withdrawing = record {
  status = RequestStatus.withdrawn;
  capability = ResponseCapability.not_resumable;
}

abbrev expiring : RequestClose
expiring = record { status = RequestStatus.expired; capability = ResponseCapability.not_resumable }

abbrev allow : Response
allow = record { option_id = "allow"; answers = []; text = "" }

append-remove_example :
    let (t, id) = append_user some_messages fix_it 40 in
    remove t id ≡ record some_messages { building = none }
append-remove_example = append-remove some_messages fix_it 40 some_messages-IsOrdered

abbrev a_rich_message : Text → RichMessage
a_rich_message text = record {
  message_id = "m1";
  role = "assistant";
  content =
      (record {
        kind = "text";
        text = text;
        thinking = [];
        tool_use_id = "";
        tool_name = "";
        tool_input = "";
        status = "";
        is_error = none;
        images = [];
      })
      ∷ [];
  model = "";
  stop_reason = "";
  usage = none;
  timestamp = 40;
  task_id = none;
}

add_rich-IsOrdered_example : IsOrdered (add_rich some_messages (a_rich_message (codes "done")) 40).0
add_rich-IsOrdered_example =
    add_rich-IsOrdered some_messages (a_rich_message (codes "done")) 40 some_messages-IsOrdered

abbrev with_part : MessageLog
with_part = record some_messages {
  messages = some_messages.messages;
  texts = (0, "m1" ∷ []) ∷ [];
  rich = ("m1", record { msg = 0; text = codes "hello" }) ∷ [];
}

add_rich-keeps_example :
    let t' = (add_rich with_part (a_rich_message (codes "hello you")) 40).0 in
    (ids t'.messages ≡ 0 ∷ [])
    × (t'.next_id ≡ 1)
    × (t'.texts ≡ with_part.texts)
    × (t'.rich
        ≡ dict_put "m1"
            (record { msg = 0; text = assistant_text (a_rich_message (codes "hello you")) })
            with_part.rich)
    × ((i : ℕ)
        → index 0 t'.messages ≡ some i
        → text_at i t'.messages ≡ some (join blank_line (part_texts ("m1" ∷ []) t'.rich)))
    × (is_among (assistant_text (a_rich_message (codes "hello you"))) ("m1" ∷ []) t' ≡ true)
add_rich-keeps_example =
    add_rich-keeps with_part (a_rich_message (codes "hello you")) 40
      (record { msg = 0; text = codes "hello" }) refl refl
