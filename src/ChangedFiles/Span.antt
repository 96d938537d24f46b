-- ===== src/ChangedFiles/Span.antt =====
-- The changed files as spans of the diffs of one path.
use mobile_agent.Prelude.{
  Text, text_eq, text_eq_iff, ◌≡◌, refl, ◌∙◌, sym, ap, Bool, Option, none, some, List, [], ◌∷◌,
  ◌++◌, flat_map, find?, if◌then◌else◌, ◌<|>◌, Bool-cases, inl, inr,
}
use mobile_agent.Prelude.Maps.{Dict, lookup, insert, lookup-insert}
use mobile_agent.Types.{Chunk, DiffData}
use mobile_agent.ChangedFiles.{FileChange, changed, diffs_of_chunk, add_diffs, add_chunks}

abbrev pub is_at : Text → DiffData → Bool
is_at path diff = text_eq diff.file_path path

abbrev pub last_at : Text → List DiffData → Option DiffData
last_at path [] = none
last_at path (d ∷ ds) = last_at path ds <|> (if is_at path d then some d else none)

abbrev pub diffs_of : List Chunk → List DiffData
diffs_of chunks = flat_map diffs_of_chunk chunks

-- the change from a first to a last diff
abbrev pub span : Option DiffData → Option DiffData → Option FileChange
span (some first) (some last) = some (record {
  file_path = first.file_path;
  original_content = first.original_content;
  modified_content = last.new_content;
})
span _ _ = none

-- from what is known of the file and its last diff
abbrev extend : Option FileChange → Option DiffData → Option DiffData → Option FileChange
extend none first last = span first last
extend (some file) first none = some file
extend (some file) first (some last) = some (record file { modified_content = last.new_content })

extend_step :
    (o : Option FileChange) (d : DiffData) (first last : Option DiffData)
    → extend (some (changed o d)) first last ≡ extend o (some d) (last <|> some d)
extend_step none d first none = refl
extend_step none d first (some l) = refl
extend_step (some file) d first none = refl
extend_step (some file) d first (some l) = refl

or_none : (o : Option DiffData) → (o <|> none) ≡ o
or_none none = refl
or_none (some d) = refl

lookup-add_diffs :
    (path : Text) (ds : List DiffData) (m : Dict FileChange)
    → lookup path (add_diffs ds m)
      ≡ extend (lookup path m) (find? (is_at path) ds) (last_at path ds)
unfolding add_diffs
lookup-add_diffs path [] m = go (lookup path m)
  where
    go : (o : Option FileChange) → o ≡ extend o none none
    go none = refl
    go (some file) = refl
lookup-add_diffs path (d ∷ ds) m =
    rw
      (
        lookup-add_diffs path ds (insert d.file_path (changed (lookup d.file_path m) d) m),
        lookup-insert d.file_path path (changed (lookup d.file_path m) d) m,
      )
      (elim (Bool-cases (text_eq d.file_path path)) [
        | inl e ↦ rw e (
            ap (λ o. extend (some (changed o d)) (find? (is_at path) ds) (last_at path ds))
              (ap (λ p. lookup p m) ((text_eq_iff d.file_path path).0 e))
            ∙ extend_step (lookup path m) d (find? (is_at path) ds) (last_at path ds))
        | inr e ↦ rw (e, or_none (last_at path ds)) refl
      ])

add_diffs-append :
    (ds es : List DiffData) (m : Dict FileChange)
    → add_diffs (ds ++ es) m ≡ add_diffs es (add_diffs ds m)
unfolding add_diffs
add_diffs-append [] es m = refl
add_diffs-append (d ∷ ds) es m =
    add_diffs-append ds es (insert d.file_path (changed (lookup d.file_path m) d) m)

add_chunks-diffs :
    (chunks : List Chunk) (m : Dict FileChange)
    → add_chunks chunks m ≡ add_diffs (diffs_of chunks) m
unfolding add_chunks add_diffs
add_chunks-diffs [] m = refl
add_chunks-diffs (c ∷ cs) m =
    add_chunks-diffs cs (add_diffs (diffs_of_chunk c) m)
    ∙ sym (add_diffs-append (diffs_of_chunk c) (diffs_of cs) m)

-- The map of the changed files holds a path exactly if a completed tool call of the chunks has a diff
-- of it, with the original content of the first such diff and the new content of the last.
pub lookup-add_chunks :
    (chunks : List Chunk) (path : Text)
    → lookup path (add_chunks chunks [])
      ≡ span (find? (is_at path) (diffs_of chunks)) (last_at path (diffs_of chunks))
unfolding lookup
lookup-add_chunks chunks path =
    ap (lookup path) (add_chunks-diffs chunks []) ∙ lookup-add_diffs path (diffs_of chunks) []
