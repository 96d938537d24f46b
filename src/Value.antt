-- ===== src/Value.antt =====
-- JavaScript values that reach the dashboard as `unknown` or `Record<string, unknown>`: parsed JSON.
-- A missing property and `undefined` are `none`; `null` is a value, which `??` skips.
use mobile_agent.Prelude.{
  ℕ, Text, Bool, Option, none, some, List, [], ◌∷◌, ◌<|>◌, if◌then◌else◌, text_eq,
}

-- A number is a natural that a double holds exactly, or another double, as JavaScript prints it.
pub data Number : Type 0 where
  nat : ℕ → Number
  other : Text → Number

mutual
  pub data Value : Type 0 where
    null : Value
    bool : Bool → Value
    num : Number → Value
    str : Text → Value
    arr : Items → Value
    obj : Fields → Value

  pub data Items : Type 0 where
    nil : Items
    cons : Value → Items → Items

  pub data Fields : Type 0 where
    end : Fields
    field : Text → Value → Fields → Fields

abbrev pub items : Items → List Value
items nil = []
items (cons v vs) = v ∷ items vs

-- `o[k]`, where `null` counts as missing, as under `??`
unfoldable pub present : Text → Fields → Option Value
present k end = none
present k (field j null fs) = if text_eq j k then none else present k fs
present k (field j v fs) = if text_eq j k then some v else present k fs

-- `o.a ?? o.b ?? o.c`
abbrev pub first_of_3 : Text → Text → Text → Fields → Option Value
first_of_3 a b c o = present a o <|> present b o <|> present c o

-- `typeof v === "string" ? v : undefined`
abbrev pub as_string : Option Value → Option Text
as_string (some (str s)) = some s
as_string _ = none

-- `typeof v === "boolean" ? v : undefined`
abbrev pub as_bool : Option Value → Option Bool
as_bool (some (bool b)) = some b
as_bool _ = none

-- `typeof v === "number" ? v : undefined`
abbrev pub as_number : Option Value → Option Number
as_number (some (num n)) = some n
as_number _ = none

-- The named properties of a value whose `typeof` is "object"; an array has none of those read here.
abbrev pub as_object : Option Value → Option Fields
as_object (some (obj fs)) = some fs
as_object (some (arr vs)) = some end
as_object _ = none

-- `v && typeof v === "object" && !Array.isArray(v) ? v : undefined`
abbrev pub as_record : Option Value → Option Fields
as_record (some (obj fs)) = some fs
as_record _ = none
