-- ===== src/Threads/Seeding.antt =====
-- What the cache of details holds once the list of threads has seeded it.
use mobile_agent.Prelude.{
  Text, text_eq, ◌≡◌, refl, Bool, true, false, Option, none, some, List, [], ◌∷◌, if◌then◌else◌,
  ◌<|>◌, Bool-cases, inl, inr, not, ◌&&◌,
}
use mobile_agent.Prelude.Maps.{Dict, lookup, insert, lookup-insert}
use mobile_agent.Types.{AgentThread}
use mobile_agent.Threads.{Cached, is_active, seed_details}

-- the entry that the last thread of this id leaves, if the thread is not active
abbrev pub seeded : Option Text → Text → List AgentThread → Option Cached
seeded active id [] = none
seeded active id (t ∷ ts) =
    seeded active id ts
    <|> (if text_eq t.id id && not (is_active active t)
        then some (record { thread = t; updated_at = 0 })
        else none)

-- Seeding enters each thread of the list that is not the active one, as the last thread of its id
-- shows it and as stale, and leaves every other entry, the active thread's above all, as it was.
pub lookup-seed_details :
    (active : Option Text) (id : Text) (threads : List AgentThread) (cache : Dict Cached)
    → lookup id (seed_details active threads cache) ≡ (seeded active id threads <|> lookup id cache)
unfolding seed_details
lookup-seed_details active id [] cache = refl
lookup-seed_details active id (t ∷ ts) cache = elim (Bool-cases (is_active active t)) [
  | inl e ↦
      rw (e, lookup-seed_details active id ts cache) (kept (seeded active id ts) (text_eq t.id id))
  | inr e ↦
      rw
        (
          e,
          lookup-seed_details active id ts
              (insert t.id (record { thread = t; updated_at = 0 }) cache),
          lookup-insert t.id id (record { thread = t; updated_at = 0 }) cache,
        )
        (set (seeded active id ts) (text_eq t.id id))
]
  where
    entry : Cached
    entry = record { thread = t; updated_at = 0 }

    kept :
        (o : Option Cached) (b : Bool)
        → (o <|> lookup id cache)
          ≡ ((o <|> (if b && not true then some entry else none)) <|> lookup id cache)
    kept none true = refl
    kept none false = refl
    kept (some c) b = refl

    set :
        (o : Option Cached) (b : Bool)
        → (o <|> (if b then some entry else lookup id cache))
          ≡ ((o <|> (if b && not false then some entry else none)) <|> lookup id cache)
    set none true = refl
    set none false = refl
    set (some c) b = refl
