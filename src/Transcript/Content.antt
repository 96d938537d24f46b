-- ===== src/Transcript/Content.antt =====
-- lib/agents/streamMessagesToUi.ts: the time, the reasoning and the images of a message.
pub mod Laws
use mobile_agent.Prelude.{
  ℕ, Text, codes, filled, trim, Option, none, some, List, [], ◌∷◌, ◌++◌, ◌<|>◌, value_or, text_eq,
  if◌then◌else◌,
}
use mobile_agent.Prelude.Strings.{strip_prefix, span_until}
use mathlib.Core.Option
use mobile_agent.Value.{Value, Fields, items, present, as_string, as_object}
use mobile_agent.Types.{Chunk, image}
use mobile_agent.Transcript.Sdk.{ContentBlock, BaseMessage, Runtime}

-- a string that is not empty
abbrev filled_string : Option Value → Option Text
filled_string v = value_or (Option.map filled (as_string v)) none

metadata_created_at : Option Value → Option Text
metadata_created_at metadata = elim (as_object metadata) [
  | none ↦ none
  | some fields ↦ filled_string (present (codes "created_at") fields)
]

unfoldable pub message_timestamp : Runtime → ℕ → BaseMessage → Text
unfolding metadata_created_at
message_timestamp js index raw =
    value_or (filled_string raw.created_at <|> metadata_created_at raw.response_metadata)
      (js.now index)

-- the loop of `reasoningText`
reasoning_from : Text → List ContentBlock → Text
reasoning_from text [] = text
reasoning_from text (block ∷ blocks) =
    reasoning_from
      (if block.is_reasoning then text ++ value_or (as_string block.reasoning) [] else text) blocks

unfoldable pub reasoning_text : Option (List ContentBlock) → Text
unfolding reasoning_from
reasoning_text none = []
reasoning_text (some blocks) = trim (reasoning_from [] blocks)

data_url_payload : Text → Option Text → Option (Text × Text)
data_url_payload subtype none = none
data_url_payload subtype (some []) = none
data_url_payload subtype (some (c ∷ payload)) = some (codes "image/" ++ subtype, c ∷ payload)

data_url_parts : Text × Text → Option (Text × Text)
unfolding data_url_payload
data_url_parts ([], rest) = none
data_url_parts (c ∷ subtype, rest) =
    data_url_payload (c ∷ subtype) (strip_prefix (codes ";base64,") rest)

-- `/^data:(image\/[^;]+);base64,(.+)$/s`: the media type and the payload
unfoldable pub data_url : Text → Option (Text × Text)
unfolding data_url_parts
data_url url = elim (strip_prefix (codes "data:image/") url) [
  | none ↦ none
  | some rest ↦ data_url_parts (span_until b';' rest)
]

-- both parts of an image, where both are strings
both_strings : Option Text → Option Text → Option (Text × Text)
both_strings (some mime) (some base64) = some (mime, base64)
both_strings _ _ = none

url_of_block : Fields → Option Text
url_of_block block = elim (as_object (present (codes "image_url") block)) [
  | none ↦ none
  | some fields ↦ as_string (present (codes "url") fields)
]

-- the media type and the payload of a content block, by its type
image_source : Fields → Option Text → Option (Text × Text)
unfolding both_strings url_of_block data_url
image_source block none = none
image_source block (some type) =
    if text_eq type (codes "image")
    then both_strings
        (as_string (present (codes "mime_type") block <|> present (codes "mimeType") block))
        (as_string (present (codes "data") block <|> present (codes "base64") block))
    else if text_eq type (codes "image_url")
    then value_or (Option.map data_url (url_of_block block)) none
    else none

-- `if (base64 && mimeType)`
image_chunk : Fields → Option (Text × Text) → List Chunk
image_chunk block none = []
image_chunk block (some ([], base64)) = []
image_chunk block (some (mime, [])) = []
image_chunk block (some (mime, base64)) =
    image (record {
      base64 = base64;
      mime_type = mime;
      file_name =
          filled_string (present (codes "fileName") block <|> present (codes "file_name") block);
    })
    ∷ []

image_of_item : Value → List Chunk
unfolding image_source image_chunk
image_of_item (Value.obj block) =
    image_chunk block (image_source block (as_string (present (codes "type") block)))
image_of_item _ = []

images_of_items : List Value → List Chunk
unfolding image_of_item
images_of_items [] = []
images_of_items (item ∷ rest) = image_of_item item ++ images_of_items rest

unfoldable pub image_chunks : Option Value → List Chunk
unfolding images_of_items
image_chunks (some (Value.arr vs)) = images_of_items (items vs)
image_chunks _ = []
