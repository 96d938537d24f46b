-- ===== src/CloudPrompt/Images.antt =====
-- components/agents/ported/CloudPromptBar.tsx: the files that become images.
use mobile_agent.Prelude.{
  ℕ, zero, suc, ltb, Text, codes, Bool, not, ◌||◌, Option, none, some, List, [], ◌∷◌, ◌++◌,
  if◌then◌else◌, take, get_elem?, is_nil,
}
use mobile_agent.Prelude.Strings.{has, split}
use mobile_agent.Types.{ImageChunk}

pub record File : Type 0 where
  pub name : Text
  pub mime_type : Text
  pub size : ℕ

abbrev pub max_image_count : ℕ
max_image_count = 5

abbrev pub max_image_bytes : ℕ
max_image_bytes = 10485760

abbrev pub supported_image_types : List Text
supported_image_types =
    codes "image/png" ∷ codes "image/jpeg" ∷ codes "image/gif" ∷ codes "image/webp" ∷ []

-- an empty or missing second part of the data URL is no image
unfoldable pub image_of : File → Option Text → Option ImageChunk
image_of file none = none
image_of file (some []) = none
image_of file (some (c ∷ base64)) =
    some (record { base64 = c ∷ base64; mime_type = file.mime_type; file_name = some file.name })

-- what `FileReader` gives: a data URL, or an error
unfoldable pub read_image : File → Option Text → Option ImageChunk
unfolding image_of
read_image file none = none
read_image file (some data_url) = image_of file (get_elem? (split b',' data_url) 1)

abbrev pub is_refused : File → Bool
is_refused file = not (has supported_image_types file.mime_type) || ltb max_image_bytes file.size

unfoldable pub file_to_image_chunk : File → Option Text → Option ImageChunk
unfolding read_image
file_to_image_chunk file result = if is_refused file then none else read_image file result

unfoldable pub prepend : Option ImageChunk → List ImageChunk → List ImageChunk
prepend none images = images
prepend (some image) images = image ∷ images

-- `validImages`
unfoldable pub valid_images : List (File × Option Text) → List ImageChunk
unfolding file_to_image_chunk prepend
valid_images [] = []
valid_images ((file, result) ∷ files) =
    prepend (file_to_image_chunk file result) (valid_images files)

unfoldable pub add_files : List ImageChunk → List (File × Option Text) → List ImageChunk
unfolding valid_images
add_files prev files =
    if is_nil (valid_images files) then prev else take max_image_count (prev ++ valid_images files)

-- `prev.filter((_, i) => i !== index)`
unfoldable pub remove_at : ℕ → List ImageChunk → List ImageChunk
remove_at index [] = []
remove_at zero (image ∷ images) = images
remove_at (suc index) (image ∷ images) = image ∷ remove_at index images
