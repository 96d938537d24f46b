-- ===== src/Transcript/Content/Laws.antt =====
-- The images that a user's message shows.
use mobile_agent.Prelude.{Text, ◌≢◌, Option, none, some, List, [], ◌∷◌, All, All-append, arith}
use mobile_agent.Value.{Value, Fields, items}
use mobile_agent.Types.{Chunk, image}
use mobile_agent.Transcript.Content.{image_chunk, image_of_item, images_of_items, image_chunks}

-- An image chunk with a media type and a payload.
abbrev pub IsImage : Chunk → Type 0
IsImage (image i) = (i.mime_type ≢ []) × (i.base64 ≢ [])
IsImage _ = ⊥

image_chunk-IsImage :
    (block : Fields) (source : Option (Text × Text)) → All IsImage (image_chunk block source)
unfolding image_chunk
image_chunk-IsImage block none = tt
image_chunk-IsImage block (some ([], base64)) = tt
image_chunk-IsImage block (some (c ∷ mime, [])) = tt
image_chunk-IsImage block (some (c ∷ mime, d ∷ base64)) = ((ground arith, ground arith), tt)

image_of_item-IsImage : (item : Value) → All IsImage (image_of_item item)
unfolding image_of_item
image_of_item-IsImage (Value.obj block) = image_chunk-IsImage block _
image_of_item-IsImage _ = tt

images_of_items-IsImage : (vs : List Value) → All IsImage (images_of_items vs)
unfolding images_of_items
images_of_items-IsImage [] = tt
images_of_items-IsImage (item ∷ rest) =
    All-append IsImage (image_of_item item) (images_of_items rest) (image_of_item-IsImage item)
      (images_of_items-IsImage rest)

-- Whatever the content of a message is, the chunks taken from it are images with a media type and a
-- payload that are not empty.
pub image_chunks-IsImage : (content : Option Value) → All IsImage (image_chunks content)
unfolding image_chunks
image_chunks-IsImage (some (Value.arr vs)) = images_of_items-IsImage (items vs)
image_chunks-IsImage _ = tt
