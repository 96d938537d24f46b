-- ===== src/Models/Selection.antt =====
-- Selections and what the server offers.
use mobile_agent.Prelude.{
  text_eq_refl, ◌≡◌, refl, Bool, true, false, not, ◌&&◌, Option, none, some, List, [], ◌∷◌, ◌<|>◌,
  any, All, is_some, if◌then◌else◌, Bool-cases, inl, inr,
}
use mobile_agent.Prelude.Strings.{has}
use mobile_agent.Types.{AgentThread}
use mobile_agent.Models.{
  ModelOption, OptionsPayload, Profile, ModelSelection, offers, to_supported_selection, if_offered,
  first_selection, models_of, profile_selection, team_selection, default_selection,
  thread_selection, active_selection,
}

-- `none`, or a model with one of its own efforts
abbrev pub IsOffered : List ModelOption → Option ModelSelection → Type 0
IsOffered models none = Unit
IsOffered models (some selection) = any (offers selection) models ≡ true

-- the server's promise about a model
abbrev pub HasOwnDefault : ModelOption → Type 0
HasOwnDefault model = has model.efforts model.default_effort ≡ true

if_offered-IsOffered :
    (models : List ModelOption) (o : Option ModelSelection) → IsOffered models (if_offered models o)
unfolding if_offered
if_offered-IsOffered models none = tt
if_offered-IsOffered models (some s) = elim (Bool-cases (any (offers s) models)) [
  | inl e ↦ rw e e
  | inr e ↦ rw e tt
]

first-IsOffered :
    (models : List ModelOption)
    → All HasOwnDefault models
    → IsOffered models (first_selection models)
unfolding first_selection
first-IsOffered [] h = tt
first-IsOffered (m ∷ ms) (h, hs) = rw (text_eq_refl m.id, h) refl

or-IsOffered :
    (models : List ModelOption) (a b : Option ModelSelection)
    → IsOffered models a
    → IsOffered models b
    → IsOffered models (a <|> b)
or-IsOffered models none b h k = k
or-IsOffered models (some s) b h k = h

team-IsOffered :
    (models : List ModelOption) (options : Option OptionsPayload)
    → IsOffered models (team_selection models options)
unfolding team_selection to_supported_selection
team-IsOffered models none = tt
team-IsOffered models (some options) = if_offered-IsOffered models _

profile-IsOffered :
    (models : List ModelOption) (profile : Option Profile)
    → IsOffered models (profile_selection models profile)
unfolding profile_selection to_supported_selection
profile-IsOffered models none = tt
profile-IsOffered models (some profile) = if_offered-IsOffered models _

-- If each model of the server's has its default effort among its efforts, then the selection in
-- force, where the user chose none, is a model of the server's with one of that model's efforts.
pub active_selection-IsOffered :
    (options : Option OptionsPayload) (profile : Option Profile) (profile_is_loading : Bool)
    (thread : AgentThread)
    → All HasOwnDefault (models_of options)
    → IsOffered (models_of options) (
        active_selection none
          (thread_selection (models_of options) thread)
          (default_selection options profile profile_is_loading))
unfolding active_selection thread_selection default_selection to_supported_selection
active_selection-IsOffered options profile profile_is_loading thread h =
    or-IsOffered (models_of options) _ _ (if_offered-IsOffered (models_of options) _)
      (go (is_some options && not profile_is_loading))
  where
    go :
        (b : Bool)
        → IsOffered (models_of options) (
            if b
            then profile_selection (models_of options) profile
              <|> team_selection (models_of options) options
              <|> first_selection (models_of options)
            else none)
    go true =
        or-IsOffered (models_of options) (profile_selection (models_of options) profile) _
          (profile-IsOffered (models_of options) profile)
          (or-IsOffered (models_of options) (team_selection (models_of options) options) _
            (team-IsOffered (models_of options) options) (first-IsOffered (models_of options) h))
    go false = tt
