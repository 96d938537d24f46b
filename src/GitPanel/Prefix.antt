-- ===== src/GitPanel/Prefix.antt =====
-- components/agents/AgentGitPanel.tsx: `commonDirPrefix`.
use mobile_agent.Prelude.{
  ℕ, zero, suc, ◌==◌, ltb, Text, codes, text_eq, Bool, true, false, ◌&&◌, Option, none, some, List,
  [], ◌∷◌, ◌++◌, if◌then◌else◌, length, take, get_elem?,
}
use mobile_agent.Prelude.Strings.{split, join}

-- `xs.slice(0, -1)`
unfoldable pub init : List Text → List Text
init [] = []
init (x ∷ []) = []
init (x ∷ y ∷ xs) = x ∷ init (y ∷ xs)

unfoldable pub dirs : Text → List Text
unfolding init
dirs path = init (split b'/' path)

-- `a === b`, where a missing element is `undefined`
unfoldable pub same : Option Text → Option Text → Bool
same none none = true
same (some a) (some b) = text_eq a b
same _ _ = false

-- the condition of the inner loop
unfoldable pub goes_on : ℕ → List Text → List Text → ℕ → Bool
unfolding same
goes_on depth segments base i =
    ltb i depth && ltb i (length segments) && same (get_elem? segments i) (get_elem? base i)

-- the inner loop, on fuel
unfoldable pub while_same : ℕ → ℕ → List Text → List Text → ℕ → ℕ
unfolding goes_on
while_same zero depth segments base i = i
while_same (suc fuel) depth segments base i =
    let rest = while_same fuel depth segments base (suc i) in
    if goes_on depth segments base i then rest else i

-- `i` only grows, and stays below `depth` while the loop goes on.
unfoldable pub next_depth : ℕ → List Text → List Text → ℕ
unfolding while_same
next_depth depth segments base = while_same depth depth segments base 0

-- the outer loop
unfoldable pub depth_of : List Text → ℕ → List Text → ℕ
unfolding next_depth dirs
depth_of base depth [] = depth
depth_of base depth (path ∷ paths) = depth_of base (next_depth depth (dirs path) base) paths

unfoldable pub prefix_of : List Text → ℕ → Text
prefix_of base depth = if depth == 0 then [] else join (codes "/") (take depth base) ++ codes "/"

unfoldable pub common_dir_prefix : List Text → Text
unfolding depth_of prefix_of dirs
common_dir_prefix [] = []
common_dir_prefix (first ∷ rest) =
    prefix_of (dirs first) (depth_of (dirs first) (length (dirs first)) (first ∷ rest))
