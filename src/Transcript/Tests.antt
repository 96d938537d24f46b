-- ===== src/Transcript/Tests.antt =====
-- A run of `streamMessagesToUi`, and its theorems at that run.
use mobile_agent.Prelude.{
  Text, codes, ◌≡◌, refl, ◌↔◌, false, Option, none, some, List, [], ◌∷◌, map, filter, flat_map, All,
}
use mobile_agent.Prelude.Strings.{
  text_eq, trim, has, includes, to_lower_case, split, replace_all, decimal, strip_prefix,
  span_until,
}
use mobile_agent.Prelude.Maps.{lookup, insert}
use mobile_agent.Value.{Value, str, obj, arr, nil, cons, end, field, present}
use mobile_agent.Types.{Chunk, text, reasoning, image, ToolStatus, completed, in_progress}
use mobile_agent.Transcript.Sdk.{
  ToolCall, human, ai, tool, BaseMessage, Snapshot, Runtime, SnapshotStatus,
}
use mobile_agent.Transcript.Tools.{
  tool_kind, tool_title, parse_tool_args, tool_status, subagent_status, tool_output_text,
}
use mobile_agent.Transcript.Diffs.{maybe_diff_from_args, diff_from_artifact, line_count}
use mobile_agent.Transcript.Content.{message_timestamp, reasoning_text, image_chunks, data_url}
use mobile_agent.Transcript.Merge.{merge_text_chunks}
use mobile_agent.Transcript.Merge.Laws.{not_text, last_text_only, merge_text_chunks-last}
use mobile_agent.Transcript.Stream.{
  id_of_call, id_of_snapshot, tool_results, lookups, flush_turn, extend_turn, human_chunks,
  tool_chunk, call_id, push_calls, ai_chunks, message_id, read_message, read_messages,
  stream_messages_to_ui,
}
use mobile_agent.Transcript.Stream.Conservation.{shown, chunks_from, stream_messages_to_ui-keeps}
use mobile_agent.Transcript.Stream.Cards.{
  tool_cards, face, face_of_call, is_visible, calls_of, stream_messages_to_ui-cards,
}
use mobile_agent.Transcript.Stream.Shape.{IsShown, stream_messages_to_ui-IsShown}
use mobile_agent.Transcript.Stream.Status.{IsUnfinished, last_with, tool_chunk-in_progress_iff}

abbrev js : Runtime
js = record {
  json_parse = λ _. none;
  json_stringify = λ _. none;
  to_string = λ _. codes "[object Object]";
  now = λ _. codes "2026-01-01T00:00:00.000Z";
}

abbrev path_args : Value
path_args = obj (field (codes "path") (str (codes " src/a.ts ")) end)

abbrev ask : BaseMessage
ask = record {
  id = some (codes "h1");
  created_at = some (str (codes "t0"));
  response_metadata = none;
  body = human (record {
    text = codes " fix it ";
    content = some (
        arr (
          cons
            (obj (
              field (codes "type") (str (codes "image")) (
                field (codes "data") (str (codes "AAA"))
                  (field (codes "mimeType") (str (codes "image/png")) end))))
            nil));
  });
}

abbrev answer : Text → Text → List ToolCall → BaseMessage
answer id said calls = record {
  id = some id;
  created_at = some (str (codes "t1"));
  response_metadata = none;
  body = ai (record { text = said; content_blocks = none; tool_calls = calls });
}

abbrev read_call : ToolCall
read_call = record { name = codes "read_file"; args = some path_args; id = some (codes "c1") }

abbrev no_op_call : ToolCall
no_op_call = record { name = codes "no_op"; args = none; id = some (codes "c2") }

abbrev task_call : ToolCall
task_call = record { name = codes "task"; args = none; id = none }

abbrev result : BaseMessage
result = record {
  id = none;
  created_at = none;
  response_metadata = none;
  body = tool (record {
    tool_call_id = some (codes "c1");
    is_error = false;
    text = codes "done ";
    artifact = none;
  });
}

abbrev sample : List BaseMessage
sample =
    ask
    ∷ answer (codes "a1") (codes "looking") (read_call ∷ no_op_call ∷ [])
    ∷ result
    ∷ answer (codes "a2") (codes "fixed") (task_call ∷ [])
    ∷ []

abbrev spawned : List Snapshot
spawned =
    record { id = codes "tool-3-1"; status = SnapshotStatus.running; namespace = codes "ns" ∷ [] }
    ∷ []

stream : Unit {0}
unfolding stream_messages_to_ui read_messages read_message lookups flush_turn extend_turn
    human_chunks tool_chunk call_id push_calls ai_chunks message_id merge_text_chunks
    message_timestamp reasoning_text image_chunks tool_kind tool_title parse_tool_args tool_status
    subagent_status tool_output_text maybe_diff_from_args diff_from_artifact line_count lookup
    insert present trim has includes to_lower_case split replace_all decimal strip_prefix span_until
    text_eq data_url
stream = tt

-- The user's image and text, then one message of the agent with both cards and the last text.
sample_transcript :
    map {B = Text × Text} (λ m. (m.id, m.timestamp)) (stream_messages_to_ui js sample [] spawned)
    ≡ (codes "h1", codes "t0") ∷ (codes "a1", codes "t1") ∷ []
unfolding stream
sample_transcript = refl

sample_cards :
    map {B = Text × ToolStatus}
      (λ t. (t.title, t.status))
      (tool_cards (shown (stream_messages_to_ui js sample [] spawned)))
    ≡ (codes "read_file src/a.ts", completed) ∷ (codes "task", in_progress) ∷ []
unfolding stream
sample_cards = refl

stream_messages_to_ui-keeps_example :
    filter not_text (shown (stream_messages_to_ui js sample [] spawned))
    ≡ filter not_text (chunks_from js (lookups sample [] spawned) 0 sample)
stream_messages_to_ui-keeps_example = stream_messages_to_ui-keeps js sample [] spawned

stream_messages_to_ui-cards_example :
    map face (tool_cards (shown (stream_messages_to_ui js sample [] spawned)))
    ≡ map (face_of_call js) (filter is_visible (flat_map calls_of sample))
stream_messages_to_ui-cards_example = stream_messages_to_ui-cards js sample [] spawned

stream_messages_to_ui-IsShown_example : All IsShown (stream_messages_to_ui js sample [] spawned)
stream_messages_to_ui-IsShown_example = stream_messages_to_ui-IsShown js sample [] spawned

tool_chunk-in_progress_iff_example :
    ((tool_chunk js (lookups sample [] spawned) (codes "c1") (codes "read_file") read_call).status
      ≡ in_progress)
    ↔ IsUnfinished
        (last_with id_of_snapshot (codes "c1") spawned)
        (last_with id_of_call (codes "c1") [])
        (last_with (λ m. m.tool_call_id) (codes "c1") (tool_results sample))
tool_chunk-in_progress_iff_example =
    tool_chunk-in_progress_iff js sample [] spawned (codes "c1") (codes "read_file") read_call

abbrev turn : List Chunk
turn = text (codes "a") ∷ reasoning (codes "r") ∷ text (codes "b") ∷ []

merge_text_chunks-last_example : merge_text_chunks turn ≡ last_text_only turn
merge_text_chunks-last_example = merge_text_chunks-last turn

abbrev url_content : Option Value
url_content = some (
    arr (
      cons
        (obj (
          field (codes "type") (str (codes "image_url")) (
            field (codes "image_url")
              (obj (field (codes "url") (str (codes "data:image/png;base64,QUJD")) end)) end)))
        nil))

url_images :
    image_chunks url_content
    ≡ image (record { base64 = codes "QUJD"; mime_type = codes "image/png"; file_name = none }) ∷ []
unfolding stream
url_images = refl
