-- ===== src/GitPanel/Paths.antt =====
-- What the common prefix of the changed files is, and that no path is lost with it.
use mobile_agent.Prelude.{
  ℕ, zero, suc, ◌≤◌, ◌==◌, ltb, Text, codes, text_eq, text_eq_iff, Bool, true, false, List, [], ◌∷◌,
  ◌++◌, map, if◌then◌else◌, length, take, drop, All, Bool-cases, if_cases, inl, inr, arith, ◌≡◌,
  refl, ◌∙◌, sym, ap, append_assoc,
}
use mobile_agent.Prelude.Sort.{All-map}
use mobile_agent.Prelude.Strings.{split, join, join-split, starts_with, starts_with-append}
use mobile_agent.ChangedFiles.{ChangedFileSummaryItem}
use mobile_agent.GitPanel.{tree_path, panel_file, summary_files}
use mobile_agent.GitPanel.Prefix.{
  init, dirs, same, goes_on, while_same, next_depth, depth_of, prefix_of, common_dir_prefix,
}

-- how many of the first `depth` elements two lists share from their start
abbrev pub shared : ℕ → List Text → List Text → ℕ
shared (suc depth) (s ∷ ss) (b ∷ bs) = if text_eq s b then suc (shared depth ss bs) else 0
shared _ _ _ = 0

goes_on-shift :
    (depth : ℕ) (s b : Text) (ss bs : List Text) (i : ℕ)
    → goes_on (suc depth) (s ∷ ss) (b ∷ bs) (suc i) ≡ goes_on depth ss bs i
unfolding goes_on
goes_on-shift depth s b ss bs i = rw (ltb_suc i depth, ltb_suc i (length ss)) refl
  where
    ltb_suc : (m n : ℕ) → ltb (suc m) (suc n) ≡ ltb m n
    ltb_suc m n = ground arith

goes_on-start :
    (depth : ℕ) (s b : Text) (ss bs : List Text)
    → goes_on (suc depth) (s ∷ ss) (b ∷ bs) 0 ≡ text_eq s b
unfolding goes_on same
goes_on-start depth s b ss bs = ground arith

-- The loop ends where one of the lists does.
goes_on-end :
    (depth : ℕ) (ss bs : List Text)
    → (goes_on depth [] bs 0 ≡ false) × (goes_on depth (ss) [] 0 ≡ false)
unfolding goes_on same
goes_on-end depth [] bs = (ground arith, ground arith)
goes_on-end depth (s ∷ ss) bs = (ground arith, ground arith)

while_same-shift :
    (fuel depth : ℕ) (s b : Text) (ss bs : List Text) (i : ℕ)
    → while_same fuel (suc depth) (s ∷ ss) (b ∷ bs) (suc i) ≡ suc (while_same fuel depth ss bs i)
unfolding while_same
while_same-shift zero depth s b ss bs i = refl
while_same-shift (suc fuel) depth s b ss bs i =
    rw (goes_on-shift depth s b ss bs i, while_same-shift fuel depth s b ss bs (suc i))
      (branches (goes_on depth ss bs i) _ _)
  where
    branches : (c : Bool) (x y : ℕ) → (if c then suc x else suc y) ≡ suc (if c then x else y)
    branches true x y = refl
    branches false x y = refl

-- The inner loop ends within its fuel, and counts the segments that the two lists share from
-- their start, up to the depth.
pub next_depth-shared :
    (depth : ℕ) (segments base : List Text)
    → next_depth depth segments base ≡ shared depth segments base
unfolding next_depth while_same
next_depth-shared zero ss bs = refl
next_depth-shared (suc depth) [] bs = rw (goes_on-end (suc depth) [] bs).0 refl
next_depth-shared (suc depth) (s ∷ ss) [] = rw (goes_on-end (suc depth) (s ∷ ss) []).1 refl
next_depth-shared (suc depth) (s ∷ ss) (b ∷ bs) =
    rw
      (
        goes_on-start depth s b ss bs,
        while_same-shift depth depth s b ss bs 0,
        next_depth-shared depth ss bs,
      )
      refl

shared_le :
    (depth : ℕ) (ss bs : List Text)
    → (shared depth ss bs ≤ depth) × (shared depth ss bs ≤ length ss)
shared_le zero ss bs = (omega arith, omega arith)
shared_le (suc depth) [] bs = (omega arith, omega arith)
shared_le (suc depth) (s ∷ ss) [] = (omega arith, omega arith)
shared_le (suc depth) (s ∷ ss) (b ∷ bs) =
    if_cases (λ n. (n ≤ suc depth) × (n ≤ suc (length ss))) (text_eq s b) _ _
      (λ e. let (m, n) = shared_le depth ss bs in (omega arith, omega arith))
      (λ e. (omega arith, omega arith))

-- What is shared is the same in both lists, however little of it is taken.
take-shared : (n depth : ℕ) (ss bs : List Text) → n ≤ shared depth ss bs → take n ss ≡ take n bs
take-shared zero depth ss bs h = refl
take-shared (suc n) zero ss bs h = absurd (omega arith)
take-shared (suc n) (suc depth) [] bs h = absurd (omega arith)
take-shared (suc n) (suc depth) (s ∷ ss) [] h = absurd (omega arith)
take-shared (suc n) (suc depth) (s ∷ ss) (b ∷ bs) h = elim (Bool-cases (text_eq s b)) [
  | inl e ↦ rw ((text_eq_iff s b).0 e) (ap (λ ts. b ∷ ts) (take-shared n depth ss bs (bound e)))
  | inr e ↦ absurd (ground arith)
]
  where
    bound : text_eq s b ≡ true → n ≤ shared depth ss bs
    bound e = ground arith

depth_of_le : (base : List Text) (depth : ℕ) (paths : List Text) → depth_of base depth paths ≤ depth
unfolding depth_of
depth_of_le base depth [] = omega arith
depth_of_le base depth (path ∷ paths) =
    let (m, n) = shared_le depth (dirs path) base in
    omega (
      arith,
      depth_of_le base (next_depth depth (dirs path) base) paths,
      next_depth-shared depth (dirs path) base,
    )

-- a path that has the first `n` segments of `base` as its directories
IsUnder : List Text → ℕ → Text → Type 0
IsUnder base n path = (take n (dirs path) ≡ take n base) × (n ≤ length (dirs path))

depth_of-IsUnder :
    (base : List Text) (depth : ℕ) (paths : List Text)
    → All (IsUnder base (depth_of base depth paths)) paths
unfolding depth_of IsUnder
depth_of-IsUnder base depth [] = tt
depth_of-IsUnder base depth (path ∷ paths) =
    let rest = depth_of_le base (next_depth depth (dirs path) base) paths in
    let e = next_depth-shared depth (dirs path) base in
    let (m, k) = shared_le depth (dirs path) base in
    (
      (
        take-shared (depth_of base (next_depth depth (dirs path) base) paths) depth (dirs path) base
            (omega arith),
        omega arith,
      ),
      depth_of-IsUnder base (next_depth depth (dirs path) base) paths,
    )

-- Joined segments begin with the first of them that are directories.
join-take :
    (n : ℕ) (segments : List Text)
    → suc n ≤ length (init segments)
    → (rest : Text) × (join (codes "/") segments
        ≡ join (codes "/") (take (suc n) (init segments)) ++ codes "/" ++ rest)
unfolding join init
join-take n [] h = absurd (omega arith)
join-take n (x ∷ []) h = absurd (omega arith)
join-take zero (x ∷ y ∷ zs) h = (join (codes "/") (y ∷ zs), refl)
join-take (suc n) (x ∷ y ∷ []) h = absurd (omega arith)
join-take (suc n) (x ∷ y ∷ z ∷ zs) h =
    let (rest, e) = join-take n (y ∷ z ∷ zs) (omega arith) in (rest, rw e (simp append_assoc))

IsUnder-starts_with :
    (base : List Text) (n : ℕ) (path : Text)
    → IsUnder base n path
    → starts_with path (prefix_of base n) ≡ true
unfolding IsUnder prefix_of dirs
IsUnder-starts_with base zero path (e, h) = starts_with-append [] path
IsUnder-starts_with base (suc n) path (e, h) =
    let (rest, f) = join-take n (split b'/' path) h in
    rw (positive n) (
      ap (λ q. starts_with q (join (codes "/") (take (suc n) base) ++ codes "/"))
        (sym (join-split b'/' path) ∙ f ∙ rw e (simp append_assoc))
      ∙ starts_with-append (join (codes "/") (take (suc n) base) ++ codes "/") rest)
  where
    positive : (m : ℕ) → (suc m == 0) ≡ false
    positive m = ground arith

-- Every path begins with the common prefix.
pub common_dir_prefix-starts_with :
    (paths : List Text) → All (λ path. starts_with path (common_dir_prefix paths) ≡ true) paths
unfolding common_dir_prefix
common_dir_prefix-starts_with [] = tt
common_dir_prefix-starts_with (first ∷ rest) =
    All-map (IsUnder (dirs first) (depth_of (dirs first) (length (dirs first)) (first ∷ rest))) _
      (IsUnder-starts_with (dirs first)
        (depth_of (dirs first) (length (dirs first)) (first ∷ rest)))
      (first ∷ rest) (depth_of-IsUnder (dirs first) (length (dirs first)) (first ∷ rest))

starts_with-drop : (s p : Text) → starts_with s p ≡ true → p ++ drop (length p) s ≡ s
unfolding starts_with
starts_with-drop s [] h = refl
starts_with-drop [] (c ∷ p) h = absurd (ground arith)
starts_with-drop (d ∷ s) (c ∷ p) h = ground (arith, starts_with-drop s p)

tree_path-prefix :
    (prefix path : Text) → starts_with path prefix ≡ true → prefix ++ tree_path prefix path ≡ path
unfolding tree_path
tree_path-prefix [] path h = refl
tree_path-prefix (c ∷ prefix) path h = rw h (starts_with-drop path (c ∷ prefix) h)

-- In the tree each changed file has its path without the prefix that all of them share, so the prefix
-- and the path in the tree together are the file's path.
pub summary_files-tree_path :
    (summary : List ChangedFileSummaryItem)
    → All
        (λ file.
          common_dir_prefix (map (λ (i : ChangedFileSummaryItem). i.file_path) summary)
            ++ file.tree_path
          ≡ file.file_path)
        (summary_files summary)
unfolding summary_files panel_file
summary_files-tree_path summary =
    go _ summary
      (common_dir_prefix-starts_with (map (λ (i : ChangedFileSummaryItem). i.file_path) summary))
  where
    go :
        (prefix : Text) (items : List ChangedFileSummaryItem)
        → All
            (λ path. starts_with path prefix ≡ true)
            (map (λ (i : ChangedFileSummaryItem). i.file_path) items)
        → All (λ file. prefix ++ file.tree_path ≡ file.file_path) (map (panel_file prefix) items)
    go prefix [] h = tt
    go prefix (item ∷ items) (h, hs) =
        (tree_path-prefix prefix item.file_path h, go prefix items hs)
