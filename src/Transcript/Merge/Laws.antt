-- ===== src/Transcript/Merge/Laws.antt =====
-- What `mergeTextChunks` keeps, against a description that does not count positions.
use mobile_agent.Prelude.{
  ℕ, zero, suc, ◌≤◌, ◌≡◌, refl, sym, ◌≢◌, Bool, true, false, not, ◌&&◌, List, [], ◌∷◌, any, filter,
  length, arith, if◌then◌else◌,
}
use mobile_agent.Types.{Chunk}
use mobile_agent.Transcript.Merge.{
  is_text, text_indices, last_of, keep_at, merge_at, merge_text_chunks,
}

-- A text goes where a later one stands.
abbrev pub last_text_only : List Chunk → List Chunk
last_text_only [] = []
last_text_only (c ∷ cs) =
    if is_text c && any is_text cs then last_text_only cs else c ∷ last_text_only cs

-- With no text from position `i` on, nothing goes.
no_text :
    (last i : ℕ) (cs : List Chunk)
    → text_indices i cs ≡ []
    → (any is_text cs ≡ false) × (keep_at last i cs ≡ cs) × (last_text_only cs ≡ cs)
unfolding text_indices keep_at
no_text last i [] h = (refl, refl, refl)
no_text last i (c ∷ cs) h = ground (arith, no_text last (suc i) cs)

any_text :
    (i j : ℕ) (js : List ℕ) (cs : List Chunk) → text_indices i cs ≡ j ∷ js → any is_text cs ≡ true
unfolding text_indices
any_text i j js [] h = ground arith
any_text i j js (c ∷ cs) h = ground (arith, any_text (suc i) j js cs)

text_indices-le_last :
    (i j : ℕ) (js : List ℕ) (cs : List Chunk) → text_indices i cs ≡ j ∷ js → i ≤ last_of j js
unfolding text_indices last_of
text_indices-le_last i j js [] h = ground arith
text_indices-le_last i j [] (c ∷ cs) h = ground (arith, text_indices-le_last (suc i) j [] cs)
text_indices-le_last i j (k ∷ js) (c ∷ cs) h =
    ground (arith, text_indices-le_last (suc i) j (k ∷ js) cs, text_indices-le_last (suc i) k js cs)

-- one text: nothing goes
one_text : (i j : ℕ) (cs : List Chunk) → text_indices i cs ≡ j ∷ [] → last_text_only cs ≡ cs
unfolding text_indices
one_text i j [] h = refl
one_text i j (c ∷ cs) h = ground (arith, one_text (suc i) j cs, no_text zero (suc i) cs)

keep_at-last :
    (i j : ℕ) (js : List ℕ) (cs : List Chunk)
    → text_indices i cs ≡ j ∷ js
    → keep_at (last_of j js) i cs ≡ last_text_only cs
unfolding text_indices keep_at last_of
keep_at-last i j js [] h = refl
keep_at-last i j [] (c ∷ cs) h =
    ground (arith, no_text i (suc i) cs, no_text j (suc i) cs, keep_at-last (suc i) j [] cs)
keep_at-last i j (k ∷ js) (c ∷ cs) h = ground (
  arith,
  keep_at-last (suc i) j (k ∷ js) cs,
  keep_at-last (suc i) k js cs,
  text_indices-le_last (suc i) k js cs,
  any_text (suc i) k js cs,
)

merge_at-last :
    (cs : List Chunk) (is : List ℕ) → text_indices zero cs ≡ is → merge_at cs is ≡ last_text_only cs
unfolding merge_at
merge_at-last cs [] h = sym (no_text zero zero cs h).2
merge_at-last cs (i ∷ []) h = sym (one_text zero i cs h)
merge_at-last cs (i ∷ j ∷ js) h = keep_at-last zero i (j ∷ js) cs h

-- The positions that `mergeTextChunks` counts leave out exactly the texts that a later text
-- follows, and keep every other chunk in its place.
pub merge_text_chunks-last : (cs : List Chunk) → merge_text_chunks cs ≡ last_text_only cs
unfolding merge_text_chunks
merge_text_chunks-last cs = merge_at-last cs (text_indices zero cs) refl

abbrev pub not_text : Chunk → Bool
not_text c = not (is_text c)

-- the last element, as a list of at most one
abbrev pub last_one {ℓ} : {A : Type ℓ} → List A → List A
last_one [] = []
last_one (x ∷ []) = x ∷ []
last_one (x ∷ y ∷ ys) = last_one (y ∷ ys)

last_text_only_of_none : (cs : List Chunk) → any is_text cs ≡ false → last_text_only cs ≡ cs
last_text_only_of_none [] h = refl
last_text_only_of_none (c ∷ cs) h = ground (arith, last_text_only_of_none cs)

filter-none : (cs : List Chunk) → any is_text cs ≡ false → filter is_text cs ≡ []
filter-none [] h = refl
filter-none (c ∷ cs) h = ground (arith, filter-none cs)

last_one-cons :
    (c : Chunk) (cs : List Chunk)
    → any is_text cs ≡ true
    → last_one (c ∷ filter is_text cs) ≡ last_one (filter is_text cs)
last_one-cons c [] h = ground arith
last_one-cons c (d ∷ cs) h = ground (arith, last_one-cons c cs)

not_text-last_text_only :
    (cs : List Chunk) → filter not_text (last_text_only cs) ≡ filter not_text cs
not_text-last_text_only [] = refl
not_text-last_text_only (c ∷ cs) = ground (arith, not_text-last_text_only cs)

is_text-last_text_only :
    (cs : List Chunk) → filter is_text (last_text_only cs) ≡ last_one (filter is_text cs)
is_text-last_text_only [] = refl
is_text-last_text_only (c ∷ cs) = ground (
  arith,
  is_text-last_text_only cs,
  last_one-cons c cs,
  filter-none cs,
  last_text_only_of_none cs,
)

-- Of a turn's chunks the merge keeps every chunk that is no text, in order, and of the texts the
-- last one alone.
pub merge_text_chunks_keeps :
    (cs : List Chunk)
    → (filter not_text (merge_text_chunks cs) ≡ filter not_text cs)
      × (filter is_text (merge_text_chunks cs) ≡ last_one (filter is_text cs))
merge_text_chunks_keeps cs =
    rw (merge_text_chunks-last cs) (not_text-last_text_only cs, is_text-last_text_only cs)

last_text_only-ne-nil : (c : Chunk) (cs : List Chunk) → last_text_only (c ∷ cs) ≢ []
last_text_only-ne-nil c [] = ground arith
last_text_only-ne-nil c (d ∷ cs) = ground (arith, last_text_only-ne-nil d cs)

pub merge_text_chunks-ne-nil : (cs : List Chunk) → cs ≢ [] → merge_text_chunks cs ≢ []
merge_text_chunks-ne-nil [] h = absurd (h refl)
merge_text_chunks-ne-nil (c ∷ cs) h =
    rw (merge_text_chunks-last (c ∷ cs)) (last_text_only-ne-nil c cs)

pub length-last_one {ℓ} : {A : Type ℓ} (xs : List A) → length (last_one xs) ≤ 1
length-last_one [] = omega arith
length-last_one (x ∷ []) = omega arith
length-last_one (x ∷ y ∷ ys) = length-last_one (y ∷ ys)
