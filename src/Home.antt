-- ===== src/Home.antt =====
-- components/agents/AgentsHome.tsx: the page that starts a thread. Its hooks and the two caches that it
-- writes are the fields of a state; what the queries hold is an argument, and so is `parse_host`,
-- the host of a URL that `new URL` accepts.
pub mod Azure
pub mod Laws
mod Tests
use mobile_agent.Prelude.{
  ℕ, Text, codes, text_eq, is_empty, filled, trim, Bool, true, false, not, ◌||◌, ◌&&◌, Option, none,
  some, List, [], ◌∷◌, ◌++◌, map, if◌then◌else◌, filter, find?, value_or, ◌<|>◌, is_some,
}
use mobile_agent.Prelude.Maps.{Dict, lookup, insert}
use mobile_agent.Prelude.Strings.{starts_with}
use mobile_agent.Types.{ImageChunk, AgentThread, AgentStatus}
use mobile_agent.Models.{ModelSelection}
use mobile_agent.Submit.{Block, image_block, text_block, Config, config_of}
use mobile_agent.Threads.{CreateAgentThreadVariables, optimistic_thread}
use mobile_agent.Home.Azure.{is_azure_remote}

pub record Workspace : Type 0 where
  pub id : Text
  pub label : Text
  pub current_branch : Option Text
  pub remote_url : Option Text

pub data BaseMode : Type 0 where
  integration local_branch : BaseMode

-- of the repository to use: not chosen yet, or the choice, where `none` is "no repo"
pub data RepoOverride : Type 0 where
  untouched : RepoOverride
  chosen : Option Text → RepoOverride

pub record Props : Type 0 where
  pub default_selection : Option ModelSelection
  pub default_repo : Option Text
  pub workspaces : List Workspace
  pub allow_non_azure : Bool
  pub parse_host : Text → Option Text

pub record State : Type 0 where
  pub selection : Option ModelSelection
  pub submitting : Bool
  pub selected_workspace_id : Option Text
  pub repo_override : RepoOverride
  pub base_mode : BaseMode
  pub compose_error : Option Text
  pub draft : Option CreateAgentThreadVariables
  pub details : Dict AgentThread
  pub threads : Option (List AgentThread)

pub record Configurable : Type 0 where
  pub agent : Option Config
  pub repo : Option Text
  pub repo_explicitly_none : Bool
  pub workspace_id : Option Text
  pub base_mode : Option BaseMode

pub data Call : Type 0 where
  submit : List Block → Configurable → Call
  navigate : Text → Call

workspace_not_azure_message : Text
workspace_not_azure_message =
    codes
      "Solo puedes seleccionar repositorios de Azure DevOps como workspace. Este repositorio no apunta a Azure DevOps."

workspace_error_labels : Dict Text
unfolding workspace_not_azure_message
workspace_error_labels =
    (codes "workspace_path_not_azure_repo", workspace_not_azure_message)
    ∷ (
      codes "workspace_path_wrong_azure_org",
      codes "El repositorio pertenece a otra organización de Azure DevOps.",
    )
    ∷ (
      codes "workspace_source_dirty",
      codes "Tu repositorio tiene cambios sin commitear. Haz commit o stash antes de iniciar.",
    )
    ∷ (
      codes "workspace_integration_branch_missing",
      codes "No existe la rama de integración (develop) en origin. Verifica el remoto.",
    )
    ∷ (
      codes "workspace_base_branch_required",
      codes "Tu repositorio está en HEAD desacoplado. Cambia a una rama nombrada.",
    )
    ∷ (
      codes "workspace_integration_merge_conflict",
      codes "Tu rama tiene conflictos con develop. Resuélvelos antes de usar el workspace.",
    )
    ∷ (
      codes "workspace_fetch_failed",
      codes
          "No se pudo traer el último develop desde origin (red/credenciales). El agente debe partir del último develop.",
    )
    ∷ (
      codes "workspace_snapshot_failed",
      codes "No se pudo calcular el snapshot del workspace (worktree inaccesible).",
    )
    ∷ []

unfoldable pub workspace_run_error_message : Text → Text
unfolding workspace_error_labels
workspace_run_error_message detail =
    value_or (lookup detail workspace_error_labels)
      (codes "No se pudo preparar el workspace para esta corrida.")

filled_name : Option Text → Option Text
filled_name none = none
filled_name (some name) = filled name

unfoldable pub prompt_content : Text → List ImageChunk → List Block
unfolding filled_name
prompt_content content images =
    map (λ (i : ImageChunk). image_block i.base64 i.mime_type (filled_name i.file_name)) images
    ++ (if is_empty (trim content) then [] else text_block (trim content) ∷ [])

has_id : Option Text → Workspace → Bool
has_id none workspace = false
has_id (some id) workspace = text_eq workspace.id id

unfoldable pub selected_workspace : Props → State → Option Workspace
unfolding has_id
selected_workspace p s = find? (has_id s.selected_workspace_id) p.workspaces

unfoldable pub not_azure : Props → Option Workspace → Bool
not_azure p none = false
not_azure p (some workspace) =
    not p.allow_non_azure && not (is_azure_remote p.parse_host workspace.remote_url)

overridden : Option Text → RepoOverride → Option Text
overridden default untouched = default
overridden default (chosen repo) = repo

unfoldable pub repo_of : Props → State → Option Workspace → Option Text
unfolding overridden
repo_of p s none = overridden p.default_repo s.repo_override
repo_of p s (some workspace) = none

is_no_repo : RepoOverride → Bool
is_no_repo (chosen none) = true
is_no_repo _ = false

id_of : Option Workspace → Option Text
id_of none = none
id_of (some workspace) = some workspace.id

label_of : Option Workspace → Option Text
label_of none = none
label_of (some workspace) = some workspace.label

abbrev model_id_of : Option ModelSelection → Option Text
model_id_of none = none
model_id_of (some selection) = some selection.model_id

abbrev effort_of : Option ModelSelection → Option Text
effort_of none = none
effort_of (some selection) = some selection.effort

-- what `draftRef` keeps of a prompt
unfoldable pub draft_of :
    Props → State → Option Workspace → Text → List ImageChunk → CreateAgentThreadVariables
unfolding repo_of is_no_repo id_of label_of
draft_of p s workspace prompt images = record {
  prompt = prompt;
  images = some images;
  repo = repo_of p s workspace;
  repo_explicitly_none = some (is_some workspace || is_no_repo s.repo_override);
  workspace_id = id_of workspace;
  workspace_label = label_of workspace;
  model_id = model_id_of (s.selection <|> p.default_selection);
  effort = effort_of (s.selection <|> p.default_selection);
}

unfoldable pub filled_option : Option Text → Option Text
filled_option none = none
filled_option (some t) = filled t

mode_for : BaseMode → Option Text → Option BaseMode
mode_for mode none = none
mode_for mode (some id) = some mode

-- the run's configuration; a repository or an id that is empty is left out
unfoldable pub configurable_of : Props → State → Option Workspace → Configurable
unfolding repo_of is_no_repo id_of filled_option mode_for
configurable_of p s workspace = record {
  agent =
      config_of (model_id_of (s.selection <|> p.default_selection))
        (effort_of (s.selection <|> p.default_selection));
  repo = if is_some workspace then none else filled_option (repo_of p s workspace);
  repo_explicitly_none = is_some workspace || is_no_repo s.repo_override;
  workspace_id = filled_option (id_of workspace);
  base_mode = mode_for s.base_mode (filled_option (id_of workspace));
}

unfoldable pub submit_for :
    Props → State → Option Workspace → Text → List ImageChunk → State × List Call
unfolding draft_of configurable_of prompt_content not_azure workspace_not_azure_message
submit_for p s workspace prompt images =
    if not_azure p workspace
    then (record s { compose_error = some workspace_not_azure_message }, [])
    else (
      record s {
        compose_error = none;
        draft = some (draft_of p s workspace prompt images);
        submitting = true;
      },
      submit (prompt_content prompt images) (configurable_of p s workspace) ∷ [],
    )

unfoldable pub handle_submit : Props → State → Text → List ImageChunk → State × List Call
unfolding submit_for selected_workspace
handle_submit p s prompt images = submit_for p s (selected_workspace p s) prompt images

unfoldable pub failure_message : Text → Text
unfolding workspace_run_error_message
failure_message detail =
    if starts_with detail (codes "workspace")
    then workspace_run_error_message detail
    else codes "No se pudo iniciar la corrida. Intenta de nuevo."

mark_failed : Text → Option AgentThread → Text → Dict AgentThread → Dict AgentThread
mark_failed message none id details = details
mark_failed message (some prev) id details =
    insert id (record prev { status = AgentStatus.error; error_message = some message }) details

mark_detail : Text → Option Text → Dict AgentThread → Dict AgentThread
unfolding mark_failed
mark_detail message none details = details
mark_detail message (some []) details = details
mark_detail message (some (c ∷ id)) details =
    mark_failed message (lookup (c ∷ id) details) (c ∷ id) details

-- the `catch` of the run; `detail` is the error's message, empty if it is not an `AgentsApiError`
unfoldable pub submit_failed : Option Text → Text → State → State
unfolding mark_detail failure_message
submit_failed id detail s = record s {
  details = mark_detail (failure_message detail) id s.details;
  compose_error = some (failure_message detail);
  draft = none;
  submitting = false;
}

-- the list with the new thread first, and once
unfoldable pub add_first : AgentThread → Option (List AgentThread) → List AgentThread
add_first thread prev =
    thread ∷ filter (λ existing. not (text_eq existing.id thread.id)) (value_or prev [])

unfoldable pub seed :
    ℕ → Text → Text → State → Option CreateAgentThreadVariables → State × List Call
unfolding add_first
seed now iso id s none = (s, [])
seed now iso id s (some draft) = (
  record s {
    draft = none;
    details = insert id (optimistic_thread now iso id draft) s.details;
    threads = some (add_first (optimistic_thread now iso id draft) s.threads);
  },
  navigate id ∷ [],
)

-- the effect on `stream.threadId`
unfoldable pub on_thread_id : ℕ → Text → Option Text → State → State × List Call
unfolding seed
on_thread_id now iso none s = (s, [])
on_thread_id now iso (some []) s = (s, [])
on_thread_id now iso (some (c ∷ id)) s = seed now iso (c ∷ id) s s.draft

-- `ModelCatalogPicker` chooses a model, with its default effort if it has one
unfoldable pub select_model : Props → Text → Option Text → State → State
select_model p model_id default_effort s = record s {
  selection = some (record {
    model_id = model_id;
    effort =
        value_or (default_effort <|> effort_of (s.selection <|> p.default_selection))
          (codes "medium");
  });
}

pub data Event : Type 0 where
  submitted : Text → List ImageChunk → Event
  minted : ℕ → Text → Option Text → Event
  failed : Option Text → Text → Event
  synced : Option Text → Event
  picked_repo : Option Text → Event
  picked_mode : BaseMode → Event
  picked_model : Text → Option Text → Event

-- The prompt bar is disabled while `submitting`, and offers no repository while there is a workspace.
unfoldable pub step : Props → State → Event → State × List Call
unfolding handle_submit on_thread_id submit_failed select_model selected_workspace
step p s (submitted prompt images) =
    if s.submitting then (s, []) else handle_submit p s prompt images
step p s (minted now iso id) = on_thread_id now iso id s
step p s (failed id detail) = (submit_failed id detail s, [])
step p s (synced id) = (record s { selected_workspace_id = id }, [])
step p s (picked_repo repo) =
    if is_some (selected_workspace p s)
    then (s, [])
    else (record s { repo_override = chosen repo }, [])
step p s (picked_mode mode) = (record s { base_mode = mode }, [])
step p s (picked_model model_id default_effort) = (select_model p model_id default_effort s, [])

unfoldable pub run : State → List (Props × Event) → State × List Call
unfolding step
run s [] = (s, [])
run s ((p, event) ∷ events) =
    let (next, calls) = step p s event in let (end, rest) = run next events in (end, calls ++ rest)
