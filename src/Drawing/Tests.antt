-- ===== src/Drawing/Tests.antt =====
-- One AI message that calls a tool, from the stream to the rows.
use mobile_agent.Prelude.{codes, ◌≡◌, none, some, List, [], ◌∷◌, map, filter, flat_map}
use mobile_agent.Transcript.Sdk.{ai, human, BaseMessage, Runtime}
use mobile_agent.Transcript.Stream.{stream_messages_to_ui}
use mobile_agent.Transcript.Stream.Cards.{tool_cards, face, face_of_call, is_visible, calls_of}
use mobile_agent.Render.Conservation.{chunks_of_items}
use mobile_agent.Drawing.{drawn_rows}
use mobile_agent.Drawing.Cards.{drawn_rows-cards}

abbrev js : Runtime
js = record {
  json_parse = λ _. none;
  json_stringify = λ _. none;
  to_string = λ _. codes "[object Object]";
  now = λ _. codes "t";
}

abbrev messages : List BaseMessage
messages =
    record {
      id = some (codes "h");
      created_at = none;
      response_metadata = none;
      body = human (record { text = codes "run it"; content = none });
    }
    ∷ record {
      id = some (codes "a");
      created_at = none;
      response_metadata = none;
      body = ai (record {
        text = codes "running";
        content_blocks = none;
        tool_calls = record { name = codes "bash"; args = none; id = some (codes "c") } ∷ [];
      });
    }
    ∷ []

drawn_rows-cards_example :
    map face (tool_cards (chunks_of_items (drawn_rows (stream_messages_to_ui js messages [] []))))
    ≡ map (face_of_call js) (filter is_visible (flat_map calls_of messages))
drawn_rows-cards_example = drawn_rows-cards js messages [] []
