-- ===== src/Models.antt =====
-- lib/agents/provider/useModelOptions.ts, lib/profile.ts (buildProfileUpdate) and the choice of a model
-- in components/agents/AgentThreadView.tsx. The data of a query that has none yet is `none`.
pub mod Selection
pub mod Profiles
mod Tests
use mobile_agent.Prelude.{
  Text, codes, text_eq, filled, Bool, true, false, not, ◌&&◌, Option, none, some, List, [], ◌∷◌,
  ◌++◌, if◌then◌else◌, ◌<|>◌, value_or, any, find?, is_some,
}
use mobile_agent.Prelude.Maps.{Dict, lookup}
use mobile_agent.Prelude.Strings.{has}
use mobile_agent.Types.{AgentThread}

pub record ModelOption : Type 0 where
  pub id : Text
  pub label : Text
  pub efforts : List Text
  pub default_effort : Text
  pub supports_images : Bool

pub record OptionsPayload : Type 0 where
  pub models : List ModelOption
  pub default_agent_model : Text
  pub default_agent_reasoning_effort : Text
  pub default_agent_subagent_model : Text
  pub default_agent_subagent_reasoning_effort : Text

pub record Profile : Type 0 where
  pub login : Option Text
  pub email : Option Text
  pub default_model : Option Text
  pub reasoning_effort : Option Text
  pub default_subagent_model : Option Text
  pub subagent_reasoning_effort : Option Text
  pub default_repo : Option Text
  pub base_branch : Option Text
  pub branch_prefix : Option Text
  pub auto_fix_ci : Option Bool
  pub create_prs : Option Bool
  pub review_draft_prs : Option Bool
  pub updated_at : Option Text

pub record ModelSelection : Type 0 where
  pub model_id : Text
  pub effort : Text

-- `!modelId || !effort` fails: both are there and not empty
unfoldable pub both_filled : Option Text → Option Text → Option ModelSelection
both_filled (some (c ∷ id)) (some (d ∷ effort)) =
    some (record { model_id = c ∷ id; effort = d ∷ effort })
both_filled _ _ = none

abbrev pub offers : ModelSelection → ModelOption → Bool
offers selection model = text_eq model.id selection.model_id && has model.efforts selection.effort

unfoldable pub if_offered : List ModelOption → Option ModelSelection → Option ModelSelection
if_offered models none = none
if_offered models (some selection) = if any (offers selection) models then some selection else none

unfoldable pub to_supported_selection :
    List ModelOption → Option Text → Option Text → Option ModelSelection
unfolding both_filled if_offered
to_supported_selection models model_id effort = if_offered models (both_filled model_id effort)

unfoldable pub first_selection : List ModelOption → Option ModelSelection
first_selection [] = none
first_selection (model ∷ models) =
    some (record { model_id = model.id; effort = model.default_effort })

abbrev pub models_of : Option OptionsPayload → List ModelOption
models_of none = []
models_of (some options) = options.models

unfoldable pub profile_selection : List ModelOption → Option Profile → Option ModelSelection
unfolding to_supported_selection
profile_selection models none = none
profile_selection models (some profile) =
    to_supported_selection models profile.default_model profile.reasoning_effort

unfoldable pub team_selection : List ModelOption → Option OptionsPayload → Option ModelSelection
unfolding to_supported_selection
team_selection models none = none
team_selection models (some options) =
    to_supported_selection models (some options.default_agent_model)
      (some options.default_agent_reasoning_effort)

-- `defaultSelection` of `useModelOptions`
unfoldable pub default_selection :
    Option OptionsPayload → Option Profile → Bool → Option ModelSelection
unfolding profile_selection team_selection first_selection
default_selection options profile profile_is_loading =
    if is_some options && not profile_is_loading
    then profile_selection (models_of options) profile
      <|> team_selection (models_of options) options
      <|> first_selection (models_of options)
    else none

-- `threadSelection` of `AgentThreadView`
unfoldable pub thread_selection : List ModelOption → AgentThread → Option ModelSelection
unfolding to_supported_selection
thread_selection models thread = to_supported_selection models (some thread.model) thread.effort

unfoldable pub active_selection :
    Option ModelSelection → Option ModelSelection → Option ModelSelection → Option ModelSelection
active_selection selection thread default = selection <|> thread <|> default

abbrev pub effort_labels : Dict Text
effort_labels =
    (codes "none", codes "None")
    ∷ (codes "low", codes "Low")
    ∷ (codes "medium", codes "Medium")
    ∷ (codes "high", codes "High")
    ∷ (codes "xhigh", codes "XHigh")
    ∷ (codes "max", codes "Max")
    ∷ []

label_of : Option ModelOption → Text → Text
label_of none id = id
label_of (some model) id = model.label

-- The labels are looked up among the six of the source.
unfoldable pub format_model_selection : List ModelOption → Option ModelSelection → Text
unfolding label_of
format_model_selection models none = codes "Default"
format_model_selection models (some selection) =
    label_of (find? (λ m. text_eq m.id selection.model_id) models) selection.model_id
    ++ codes " "
    ++ value_or (lookup selection.effort effort_labels) selection.effort

-- A field of `ProfileUpdate` that may be null is an `Option`.
pub record ProfileUpdate : Type 0 where
  pub default_model : Text
  pub reasoning_effort : Text
  pub default_subagent_model : Option Text
  pub subagent_reasoning_effort : Option Text
  pub default_repo : Option Text
  pub base_branch : Option Text
  pub branch_prefix : Option Text
  pub auto_fix_ci : Bool
  pub create_prs : Bool
  pub review_draft_prs : Option Bool

abbrev pub no_profile : Profile
no_profile = record {
  login = none;
  email = none;
  default_model = none;
  reasoning_effort = none;
  default_subagent_model = none;
  subagent_reasoning_effort = none;
  default_repo = none;
  base_branch = none;
  branch_prefix = none;
  auto_fix_ci = none;
  create_prs = none;
  review_draft_prs = none;
  updated_at = none;
}

-- `Partial<ProfileUpdate>`: a field that is there, possibly as null, is a `some`.
pub record ProfilePatch : Type 0 where
  pub default_model : Option Text
  pub reasoning_effort : Option Text
  pub default_subagent_model : Option (Option Text)
  pub subagent_reasoning_effort : Option (Option Text)
  pub default_repo : Option (Option Text)
  pub base_branch : Option (Option Text)
  pub branch_prefix : Option (Option Text)
  pub auto_fix_ci : Option Bool
  pub create_prs : Option Bool
  pub review_draft_prs : Option (Option Bool)

-- `current?.x` of no profile is missing.
unfoldable pub build_profile_update : Option Profile → ProfilePatch → Text → Text → ProfileUpdate
build_profile_update current patch fallback_model fallback_effort =
    let profile = value_or current no_profile in
    record {
      default_model = value_or patch.default_model (value_or profile.default_model fallback_model);
      reasoning_effort =
          value_or patch.reasoning_effort (value_or profile.reasoning_effort fallback_effort);
      default_subagent_model =
          value_or patch.default_subagent_model
            (profile.default_subagent_model <|> profile.default_model <|> some fallback_model);
      subagent_reasoning_effort =
          value_or patch.subagent_reasoning_effort (
            profile.subagent_reasoning_effort
            <|> profile.reasoning_effort
            <|> some fallback_effort);
      default_repo = value_or patch.default_repo profile.default_repo;
      base_branch = value_or patch.base_branch profile.base_branch;
      branch_prefix = value_or patch.branch_prefix profile.branch_prefix;
      auto_fix_ci = value_or patch.auto_fix_ci (value_or profile.auto_fix_ci true);
      create_prs = value_or patch.create_prs (value_or profile.create_prs false);
      review_draft_prs = value_or patch.review_draft_prs profile.review_draft_prs;
    }
