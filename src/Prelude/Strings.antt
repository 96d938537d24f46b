-- ===== src/Prelude/Strings.antt =====
-- JavaScript strings as lists of UTF-16 code units, with the string methods that the dashboard
-- calls. `to_lower_case` maps the ASCII letters and the two other characters whose lower case has
-- an ASCII unit; every other unit, which lower case never takes into ASCII, is left as it is.
pub mod Decimal
use Prim.Native.Nat.{ℕ, zero, suc, ◌+◌, ◌/◌, ◌%◌}
use Prim.Native.Char.{code}
use Prim.Native.String.{String}
use mathlib.Core.Path.{◌≡◌, refl, ap, sym}
use mathlib.Core.Logic.{◌↔◌, ◌≢◌}
use mathlib.Core.Bool.{Bool, true, false, ◌&&◌, ◌||◌}
use mathlib.Core.Option.{Option, none, some}
use mathlib.Core.List.{List, [], ◌∷◌, ◌++◌, reverse}
use native.Mathlib.Omega.{arith}
use mobile_agent.Prelude.Tests.{leb, ltb, ◌==◌, if◌then◌else◌, if_cases}
use mobile_agent.Prelude.Lists.{flat_map}

abbrev pub Text : Type 0
Text = List ℕ

-- The units of a literal of the source; all its literals lie in the basic plane.
abbrev pub codes : String → Text
codes String.[] = []
codes (String.◌∷◌ c s) = code c ∷ codes s

-- `a === b`
unfoldable pub text_eq : Text → Text → Bool
text_eq [] [] = true
text_eq (a ∷ s) (b ∷ t) = a == b && text_eq s t
text_eq _ _ = false

text_eq→≡ : (s t : Text) → text_eq s t ≡ true → s ≡ t
unfolding text_eq
text_eq→≡ [] [] h = refl
text_eq→≡ (a ∷ s) (b ∷ t) h = ground (arith, text_eq→≡ s t)
text_eq→≡ [] (b ∷ t) h = ground arith
text_eq→≡ (a ∷ s) [] h = ground arith

pub text_eq_refl : (s : Text) → text_eq s s ≡ true
unfolding text_eq
text_eq_refl [] = refl
text_eq_refl (a ∷ s) = ground (arith, text_eq_refl s)

pub text_eq_iff : (s t : Text) → (text_eq s t ≡ true) ↔ (s ≡ t)
text_eq_iff s t = (text_eq→≡ s t, λ e. rw e (text_eq_refl t))

-- `!s`
abbrev pub is_empty : Text → Bool
is_empty [] = true
is_empty (c ∷ s) = false

-- `s || undefined`, and `s ? s : null`
abbrev pub filled : Text → Option Text
filled [] = none
filled (c ∷ s) = some (c ∷ s)

-- ECMAScript's WhiteSpace and LineTerminator, which `trim` removes and `\s` matches.
unfoldable pub is_space : ℕ → Bool
is_space c =
    (leb 9 c && leb c 13)
    || c == 32
    || c == 160
    || c == 5760
    || (leb 8192 c && leb c 8202)
    || c == 8232
    || c == 8233
    || c == 8239
    || c == 8287
    || c == 12288
    || c == 65279

unfoldable pub trim_start : Text → Text
unfolding is_space
trim_start [] = []
trim_start (c ∷ s) = if is_space c then trim_start s else c ∷ s

unfoldable pub trim_end : Text → Text
unfolding trim_start
trim_end s = reverse (trim_start (reverse s))

unfoldable pub trim : Text → Text
unfolding trim_end
trim s = trim_end (trim_start s)

-- `s.startsWith(t)`
unfoldable pub starts_with : Text → Text → Bool
starts_with s [] = true
starts_with [] (b ∷ t) = false
starts_with (a ∷ s) (b ∷ t) = a == b && starts_with s t

-- `s.includes(t)`
unfoldable pub includes : Text → Text → Bool
unfolding starts_with
includes [] t = starts_with [] t
includes (a ∷ s) t = starts_with (a ∷ s) t || includes s t

-- `xs.includes(s)` and `new Set(xs).has(s)`
unfoldable pub has : List Text → Text → Bool
unfolding text_eq
has [] s = false
has (x ∷ xs) s = text_eq x s || has xs s

lower_unit : ℕ → Text
lower_unit c =
    if leb b'A' c && leb c b'Z'
    then (c + 32) ∷ []
    else if c == 0x212A
    then b'k' ∷ []
    else if c == 0x130
    then b'i' ∷ 0x307 ∷ []
    else c ∷ []

unfoldable pub to_lower_case : Text → Text
unfolding lower_unit
to_lower_case s = flat_map lower_unit s

-- `s.replace(/c/g, d)` for single units
unfoldable pub replace_all : ℕ → ℕ → Text → Text
replace_all c d [] = []
replace_all c d (x ∷ s) = (if x == c then d else x) ∷ replace_all c d s

-- the part before the first `sep`, and the parts after it; `s.split(sep)` never is empty
split_rec : ℕ → Text → Text × List Text
split_rec sep [] = ([], [])
split_rec sep (c ∷ s) =
    let (part, parts) = split_rec sep s in
    if c == sep then ([], part ∷ parts) else (c ∷ part, parts)

unfoldable pub split : ℕ → Text → List Text
unfolding split_rec
split sep s = let (part, parts) = split_rec sep s in part ∷ parts

-- `parts.join(sep)`
unfoldable pub join : Text → List Text → Text
join sep [] = []
join sep (p ∷ []) = p
join sep (p ∷ q ∷ ps) = p ++ sep ++ join sep (q ∷ ps)

-- Joining the parts of a text gives it back.
pub join-split : (sep : ℕ) (s : Text) → join (sep ∷ []) (split sep s) ≡ s
unfolding split split_rec join
join-split sep [] = refl
join-split sep (c ∷ s) =
    if_cases (λ (r : Text × List Text). join (sep ∷ []) (r.0 ∷ r.1) ≡ c ∷ s) (c == sep) _ _
      (λ e. rw (join-split sep s) (ap (λ x. x ∷ s) (sym (eq_of c sep e))))
      (λ _. grown (split_rec sep s).0 (split_rec sep s).1 (join-split sep s))
  where
    eq_of : (a b : ℕ) → (a == b) ≡ true → a ≡ b
    eq_of a b e = ground arith

    grown :
        (part : Text) (parts : List Text)
        → join (sep ∷ []) (part ∷ parts) ≡ s
        → join (sep ∷ []) ((c ∷ part) ∷ parts) ≡ c ∷ s
    grown part [] e = ap (λ x. c ∷ x) e
    grown part (p ∷ ps) e = ap (λ x. c ∷ x) e

pub starts_with-append : (p s : Text) → starts_with (p ++ s) p ≡ true
unfolding starts_with
starts_with-append [] s = refl
starts_with-append (c ∷ p) s = ground (arith, starts_with-append p s)

-- A number in decimal, as a template literal prints it. A number has at most as many digits as
-- its value plus one, which is the fuel.
decimal_rec : ℕ → ℕ → Text → Text
decimal_rec zero n acc = acc
decimal_rec (suc fuel) n acc =
    let more = decimal_rec fuel (n / 10) ((n % 10 + b'0') ∷ acc) in
    if ltb n 10 then (n + b'0') ∷ acc else more

unfoldable pub decimal : ℕ → Text
unfolding decimal_rec
decimal n = decimal_rec (suc n) n []

decimal_rec-cons : (fuel n c : ℕ) (acc : Text) → decimal_rec fuel n (c ∷ acc) ≢ []
unfolding decimal_rec
decimal_rec-cons zero n c acc = ground arith
decimal_rec-cons (suc fuel) n c acc =
    ground (arith, decimal_rec-cons fuel (n / 10) (n % 10 + b'0') (c ∷ acc))

pub decimal-ne-nil : (n : ℕ) → decimal n ≢ []
unfolding decimal decimal_rec
decimal-ne-nil n = ground (arith, decimal_rec-cons n (n / 10) (n % 10 + b'0') [])

-- what follows a prefix
unfoldable pub strip_prefix : Text → Text → Option Text
strip_prefix [] s = some s
strip_prefix (b ∷ t) [] = none
strip_prefix (b ∷ t) (a ∷ s) = if a == b then strip_prefix t s else none

-- the part before the first unit `c`, and the rest from that unit on
unfoldable pub span_until : ℕ → Text → Text × Text
span_until c [] = ([], [])
span_until c (a ∷ s) =
    let (before, rest) = span_until c s in if a == c then ([], a ∷ s) else (a ∷ before, rest)
