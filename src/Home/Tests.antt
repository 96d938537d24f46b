-- ===== src/Home/Tests.antt =====
-- The page of a new thread on concrete prompts.
use mobile_agent.Prelude.{
  ◌≤◌, ◌+◌, Text, codes, trim, text_eq, ◌≡◌, refl, true, false, Option, none, some, List, [], ◌∷◌,
  if◌then◌else◌, value_or,
}
use mobile_agent.Prelude.Maps.{lookup}
use mobile_agent.Prelude.Strings.{has, includes, starts_with, to_lower_case}
use mobile_agent.Threads.{CreateAgentThreadVariables, optimistic_thread}
use mobile_agent.Home.{
  Props, State, Configurable, submit, navigate, prompt_content, selected_workspace, not_azure,
  integration, untouched, handle_submit, on_thread_id, Event, submitted, minted, run,
}
use mobile_agent.Home.Azure.{is_azure_remote}
use mobile_agent.Home.Laws.{
  navigations, submissions, waiting, IsDistinct, run-navigates, IsConfigured,
  handle_submit-configures, on_thread_id-seeds,
}

abbrev props : Props
props = record {
  default_selection = none;
  default_repo = some (codes "p/r");
  workspaces =
      record {
        id = codes "w";
        label = codes "W";
        current_branch = none;
        remote_url = some (codes "git@ssh.dev.azure.com:v3/o/p/r");
      }
      ∷ [];
  allow_non_azure = false;
  parse_host = λ url. none;
}

abbrev state : State
state = record {
  selection = none;
  submitting = false;
  selected_workspace_id = some (codes "w");
  repo_override = untouched;
  base_mode = integration;
  compose_error = none;
  draft = none;
  details = [];
  threads = none;
}

abbrev events : List (Props × Event)
events =
    (props, submitted (codes "hi") [])
    ∷ (props, submitted (codes "hi") [])
    ∷ (props, minted 5 (codes "now") (some (codes "t")))
    ∷ (props, minted 6 (codes "now") (some (codes "t")))
    ∷ []

run-navigates_example :
    (navigations (run state events).1 + waiting (run state events).0.draft
      ≤ submissions (run state events).1 + waiting state.draft)
    × IsDistinct (value_or (run state events).0.threads [])
run-navigates_example = run-navigates state events tt

-- the second click finds the prompt disabled
run-once : (navigations (run state events).1 ≡ 1) × (submissions (run state events).1 ≡ 1)
unfolding run trim includes starts_with to_lower_case text_eq has is_azure_remote
run-once = (refl, refl)

handle_submit-configures_example :
    (not_azure props (selected_workspace props state) ≡ true
      → ((handle_submit props state (codes "hi") []).1 ≡ [])
        × ((handle_submit props state (codes "hi") []).0.draft ≡ none))
    × (not_azure props (selected_workspace props state) ≡ false
        → (draft : CreateAgentThreadVariables) × (c : Configurable) × ((handle_submit props state
              (codes "hi")
              []).0.draft
            ≡ some draft)
          × ((handle_submit props state (codes "hi") []).1
              ≡ submit (prompt_content (codes "hi") []) c ∷ [])
          × IsConfigured draft c)
handle_submit-configures_example = handle_submit-configures props state (codes "hi") []

abbrev draft : CreateAgentThreadVariables
draft = record {
  prompt = codes "hi";
  images = some [];
  repo = none;
  repo_explicitly_none = some true;
  workspace_id = some (codes "w");
  workspace_label = some (codes "W");
  model_id = none;
  effort = none;
}

abbrev drafted : State
drafted = record state { draft = some draft; submitting = true }

on_thread_id-seeds_example :
    ((on_thread_id 5 (codes "now") (some (codes "t")) drafted).1 ≡ navigate (codes "t") ∷ [])
    × ((j : Text)
        → lookup j (on_thread_id 5 (codes "now") (some (codes "t")) drafted).0.details ≡ (
            if text_eq (codes "t") j
            then some (optimistic_thread 5 (codes "now") (codes "t") draft)
            else lookup j []))
    × ((other : Option Text)
        → on_thread_id 6
            (codes "now")
            other
            (on_thread_id 5 (codes "now") (some (codes "t")) drafted).0
          ≡ ((on_thread_id 5 (codes "now") (some (codes "t")) drafted).0, []))
on_thread_id-seeds_example =
    on_thread_id-seeds 5 6 (codes "now") (codes "now") b't' [] drafted draft refl

-- The host may be spelled without a scheme, as a remote of ssh is.
azure :
    (is_azure_remote (λ url. none) (some (codes "git@ssh.dev.azure.com:v3/o/p/r")) ≡ true)
    × (is_azure_remote (λ url. some (codes "ORG.VisualStudio.com")) (some (codes "https://x"))
        ≡ true)
    × (is_azure_remote (λ url. some (codes "github.com")) (some (codes "https://x")) ≡ false)
unfolding is_azure_remote includes starts_with to_lower_case text_eq
azure = (refl, refl, refl)
