-- ===== src/Models/Tests.antt =====
-- The models at a concrete answer of the server.
use mobile_agent.Prelude.{codes, ◌≡◌, refl, true, false, some, none, [], ◌∷◌, text_eq}
use mobile_agent.Prelude.Strings.{has}
use mobile_agent.Types.{AgentThread, running}
use mobile_agent.Models.{
  OptionsPayload, active_selection, thread_selection, default_selection, models_of, ProfileUpdate,
  build_profile_update,
}
use mobile_agent.Models.Profiles.{saved, no_patch, build_profile_update-saved}
use mobile_agent.Models.Selection.{IsOffered, active_selection-IsOffered}

abbrev options : OptionsPayload
options = record {
  models =
      record {
        id = codes "m";
        label = codes "M";
        efforts = codes "low" ∷ codes "high" ∷ [];
        default_effort = codes "high";
        supports_images = false;
      }
      ∷ [];
  default_agent_model = codes "gone";
  default_agent_reasoning_effort = codes "high";
  default_agent_subagent_model = codes "m";
  default_agent_subagent_reasoning_effort = codes "low";
}

abbrev thread : AgentThread
thread = record {
  id = codes "t";
  title = codes "t";
  repo = [];
  repo_full_name = [];
  branch = codes "main";
  model = codes "m";
  effort = some (codes "max");
  source = none;
  status = running;
  error_message = none;
  viewed = true;
  viewed_at = none;
  created_at = 0;
  updated_at = 0;
  trace_url = none;
  workspace_id = none;
  workspace_label = none;
  workspace_branch = none;
  messages = [];
  pr = none;
  diff_stats = none;
  changed_files = none;
}

own_default : has (codes "low" ∷ codes "high" ∷ []) (codes "high") ≡ true
unfolding has text_eq
own_default = refl

active_selection-IsOffered_example : IsOffered (models_of (some options)) (
    active_selection none
      (thread_selection (models_of (some options)) thread)
      (default_selection (some options) none false))
active_selection-IsOffered_example =
    active_selection-IsOffered (some options) none false thread (own_default, tt)

abbrev update : ProfileUpdate
update = record {
  default_model = codes "m";
  reasoning_effort = codes "high";
  default_subagent_model = some (codes "m");
  subagent_reasoning_effort = some (codes "low");
  default_repo = none;
  base_branch = some (codes "main");
  branch_prefix = none;
  auto_fix_ci = false;
  create_prs = true;
  review_draft_prs = none;
}

build_profile_update-saved_example :
    build_profile_update (some (saved update)) no_patch (codes "x") (codes "y") ≡ update
build_profile_update-saved_example =
    build_profile_update-saved update (codes "x") (codes "y") refl refl
