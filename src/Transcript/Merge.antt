-- ===== src/Transcript/Merge.antt =====
-- lib/agents/streamMessagesToUi.ts, `mergeTextChunks`: of the texts of an agent's turn only the last
-- is shown.
pub mod Laws
use mobile_agent.Prelude.{
  ℕ, zero, suc, Bool, true, false, not, ◌||◌, List, [], ◌∷◌, ◌==◌, if◌then◌else◌,
}
use mobile_agent.Types.{Chunk, text}

abbrev pub is_text : Chunk → Bool
is_text (text t) = true
is_text _ = false

-- the positions of the texts, from position `i` on
text_indices : ℕ → List Chunk → List ℕ
text_indices i [] = []
text_indices i (c ∷ cs) = if is_text c then i ∷ text_indices (suc i) cs else text_indices (suc i) cs

last_of : ℕ → List ℕ → ℕ
last_of i [] = i
last_of i (j ∷ js) = last_of j js

-- `chunks.filter((c, i) => c.kind !== "text" || i === last)`, from position `i` on
keep_at : ℕ → ℕ → List Chunk → List Chunk
keep_at last i [] = []
keep_at last i (c ∷ cs) =
    if not (is_text c) || i == last then c ∷ keep_at last (suc i) cs else keep_at last (suc i) cs

merge_at : List Chunk → List ℕ → List Chunk
unfolding last_of keep_at
merge_at chunks [] = chunks
merge_at chunks (i ∷ []) = chunks
merge_at chunks (i ∷ j ∷ js) = keep_at (last_of j js) zero chunks

unfoldable pub merge_text_chunks : List Chunk → List Chunk
unfolding text_indices merge_at
merge_text_chunks chunks = merge_at chunks (text_indices zero chunks)
