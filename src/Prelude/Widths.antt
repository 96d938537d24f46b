-- ===== src/Prelude/Widths.antt =====
-- The width of a panel that a drag changes and that the storage keeps: `components/sidebar-layout.tsx`
-- and `components/agents/AgentGitPanel.tsx` have the same code with other bounds.
use Prim.Native.Nat.{ℕ, ◌≤◌}
use mathlib.Core.Path.{◌≡◌, refl, ◌∙◌}
use mathlib.Core.Option.{Option, none, some}
use mathlib.Core.List.{[], ◌∷◌}
use native.Mathlib.Omega.{arith}
use mobile_agent.Prelude.Tests.{ltb, if◌then◌else◌}
use mobile_agent.Prelude.Strings.{Text, decimal, decimal-ne-nil}

abbrev pub max : ℕ → ℕ → ℕ
max a b = if ltb a b then b else a

abbrev pub min : ℕ → ℕ → ℕ
min a b = if ltb a b then a else b

-- `Math.min(high, Math.max(low, width))`
unfoldable pub clamp : ℕ → ℕ → ℕ → ℕ
clamp low high width = min high (max low width)

clamp_parsed : ℕ → ℕ → ℕ → Option ℕ → ℕ
unfolding clamp
clamp_parsed low high default none = default
clamp_parsed low high default (some width) = clamp low high width

-- The stored text, where an empty one counts as none. `parse_number` is `Number`, where that is finite;
-- a number below 0 may count as 0, since both are below the bounds.
unfoldable pub read_width : ℕ → ℕ → ℕ → (Text → Option ℕ) → Option Text → ℕ
unfolding clamp_parsed
read_width low high default parse_number none = default
read_width low high default parse_number (some []) = default
read_width low high default parse_number (some (c ∷ raw)) =
    clamp_parsed low high default (parse_number (c ∷ raw))

-- The width is in its bounds, and is the one that a reload reads back.
abbrev pub IsStored : ℕ → ℕ → ℕ → (Text → Option ℕ) → ℕ → Option Text → Type 0
IsStored low high default parse_number width stored =
    (low ≤ width) × (width ≤ high) × (read_width low high default parse_number stored ≡ width)

module _ (low high default : ℕ) (bounds : low ≤ high) where
  clamp-bounds : (n : ℕ) → (low ≤ clamp low high n) × (clamp low high n ≤ high)
  unfolding clamp
  clamp-bounds n = (ground arith, ground arith)

  clamp-clamp : (n : ℕ) → clamp low high (clamp low high n) ≡ clamp low high n
  unfolding clamp
  clamp-clamp n = ground arith

  pub read_width-IsStored :
      (parse_number : Text → Option ℕ) (stored : Option Text)
      → low ≤ default
      → default ≤ high
      → IsStored low high default parse_number
          (read_width low high default parse_number stored)
          stored
  unfolding read_width clamp_parsed
  read_width-IsStored parse_number none l h = (l, h, refl)
  read_width-IsStored parse_number (some []) l h = (l, h, refl)
  read_width-IsStored parse_number (some (c ∷ raw)) l h = go (parse_number (c ∷ raw))
    where
      go :
          (n : Option ℕ)
          → (low ≤ clamp_parsed low high default n)
            × (clamp_parsed low high default n ≤ high)
            × (clamp_parsed low high default n ≡ clamp_parsed low high default n)
      go none = (l, h, refl)
      go (some n) = let (a, b) = clamp-bounds n in (a, b, refl)

  pub clamp-IsStored :
      (parse_number : Text → Option ℕ)
      → ((n : ℕ) → parse_number (decimal n) ≡ some n)
      → (next : ℕ)
      → IsStored low high default parse_number
          (clamp low high next)
          (some (decimal (clamp low high next)))
  unfolding read_width clamp_parsed
  clamp-IsStored parse_number parse_decimal next =
      let (a, b) = clamp-bounds next in
      (
        a,
        b,
        read-decimal (clamp low high next) (decimal (clamp low high next)) refl
              (parse_decimal (clamp low high next))
            ∙ clamp-clamp next,
      )
    where
      read-decimal :
          (n : ℕ) (t : Text)
          → decimal n ≡ t
          → parse_number t ≡ some n
          → read_width low high default parse_number (some t) ≡ clamp low high n
      read-decimal n [] e h = absurd (decimal-ne-nil n e)
      read-decimal n (c ∷ t) e h = rw h refl
