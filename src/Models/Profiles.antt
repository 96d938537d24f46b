-- ===== src/Models/Profiles.antt =====
-- A profile that is saved, and the update built from it.
use mobile_agent.Prelude.{Text, ◌≡◌, refl, true, is_some, Option, none, some, arith}
use mobile_agent.Models.{Profile, ProfileUpdate, ProfilePatch, build_profile_update}

abbrev pub no_patch : ProfilePatch
no_patch = record {
  default_model = none;
  reasoning_effort = none;
  default_subagent_model = none;
  subagent_reasoning_effort = none;
  default_repo = none;
  base_branch = none;
  branch_prefix = none;
  auto_fix_ci = none;
  create_prs = none;
  review_draft_prs = none;
}

-- the profile that the server answers a saved update with
abbrev pub saved : ProfileUpdate → Profile
saved u = record {
  login = none;
  email = none;
  default_model = some u.default_model;
  reasoning_effort = some u.reasoning_effort;
  default_subagent_model = u.default_subagent_model;
  subagent_reasoning_effort = u.subagent_reasoning_effort;
  default_repo = u.default_repo;
  base_branch = u.base_branch;
  branch_prefix = u.branch_prefix;
  auto_fix_ci = some u.auto_fix_ci;
  create_prs = some u.create_prs;
  review_draft_prs = u.review_draft_prs;
  updated_at = none;
}

-- An update built with no patch from a profile that was saved is the saved update again, whatever
-- the fallbacks are, unless that had no model or no effort for the subagents.
pub build_profile_update-saved :
    (u : ProfileUpdate) (model effort : Text)
    → is_some u.default_subagent_model ≡ true
    → is_some u.subagent_reasoning_effort ≡ true
    → build_profile_update (some (saved u)) no_patch model effort ≡ u
unfolding build_profile_update
build_profile_update-saved u model effort h k =
    go u.default_subagent_model u.subagent_reasoning_effort h k
  where
    go :
        (m e : Option Text)
        → is_some m ≡ true
        → is_some e ≡ true
        → build_profile_update
            (some (saved (record u { default_subagent_model = m; subagent_reasoning_effort = e })))
            no_patch
            model
            effort
          ≡ record u { default_subagent_model = m; subagent_reasoning_effort = e }
    go (some m) (some e) h k = refl
    go none e h k = absurd (ground arith)
    go m none h k = absurd (ground arith)
