-- ===== src/Sidebar.antt =====
-- components/agents/AgentsSidebar.tsx: the list of workspaces and of threads beside the pages.
pub mod Layout
pub mod Frame
pub mod Scope
mod Tests
use mobile_agent.Prelude.{
  ℕ, ltb, Text, codes, text_eq, is_empty, filled, decimal, Bool, true, false, not, ◌&&◌, Option,
  none, some, List, [], ◌∷◌, ◌++◌, if◌then◌else◌, filter, find?, length, value_or, is_nil,
}
use mobile_agent.Prelude.Maps.{Dict, lookup}
use mobile_agent.Prelude.Strings.{starts_with}
use mobile_agent.Types.{
  AgentThread, AgentStatus, running, finished, AgentSource, dashboard, github, slack, linear,
  schedule, PrState, draft, open_pr, merged, closed, PullRequest, DiffStats,
}
use mobile_agent.Home.{Workspace}
use mobile_agent.Threads.{Groups, group_threads}

source_label : AgentSource → Text
source_label dashboard = codes "Started from the dashboard"
source_label github = codes "Triggered from GitHub"
source_label slack = codes "Triggered from Slack"
source_label linear = codes "Triggered from Linear"
source_label schedule = codes "Triggered from a schedule"

-- the label of a thread's source, if it is shown
unfoldable pub row_source : Option AgentSource → Option Text
unfolding source_label
row_source none = none
row_source (some dashboard) = none
row_source (some source) = some (source_label source)

pr_state_label : PrState → Text
pr_state_label draft = codes "Draft pull request"
pr_state_label open_pr = codes "Open pull request"
pr_state_label merged = codes "Merged pull request"
pr_state_label closed = codes "Closed pull request"

unfoldable pub row_pr : Option PullRequest → Option Text
unfolding pr_state_label
row_pr none = none
row_pr (some pr) = some (pr_state_label pr.state)

unfoldable pub row_badge : Option DiffStats → Option Text
row_badge none = none
row_badge (some stats) =
    if ltb 0 stats.additions then some (codes "+" ++ decimal stats.additions) else none

status_is_running : AgentStatus → Bool
status_is_running running = true
status_is_running _ = false

status_is_finished : AgentStatus → Bool
status_is_finished finished = true
status_is_finished _ = false

-- the label of the mark before a title
unfoldable pub row_mark : AgentThread → Text
unfolding status_is_running status_is_finished
row_mark thread =
    if status_is_running thread.status
    then codes "Hilo en ejecución"
    else if status_is_finished thread.status && not thread.viewed
    then codes "Hilo terminado"
    else codes "Hilo visto"

-- a row: whether its dialog is open, and whether its thread is being deleted
pub record Row : Type 0 where
  pub delete_open : Bool
  pub is_deleting : Bool

pub data RowEvent : Type 0 where
  clicked_delete confirmed : RowEvent
  dialog_changed delete_settled : Bool → RowEvent

-- The second component says whether the server is asked to delete the thread.
unfoldable pub row_step : Row → RowEvent → Row × Bool
row_step row clicked_delete =
    if row.is_deleting then (row, false) else (record row { delete_open = true }, false)
row_step row confirmed =
    if row.is_deleting then (row, false) else (record row { is_deleting = true }, true)
row_step row (dialog_changed open_dialog) = (record row { delete_open = open_dialog }, false)
row_step row (delete_settled ok) =
    (record { delete_open = not ok && row.delete_open; is_deleting = false }, false)

has_workspace : Option Text → Bool
has_workspace none = false
has_workspace (some []) = false
has_workspace (some (c ∷ id)) = true

in_workspace : Text → Option Text → Bool
in_workspace id none = false
in_workspace id (some workspace_id) = text_eq workspace_id id

-- the test of `visibleThreads`
unfoldable pub in_scope : Option Text → AgentThread → Bool
unfolding has_workspace in_workspace
in_scope none thread = not (has_workspace thread.workspace_id)
in_scope (some []) thread = not (has_workspace thread.workspace_id)
in_scope (some (c ∷ id)) thread = in_workspace (c ∷ id) thread.workspace_id

unfoldable pub visible_threads : Option Text → List AgentThread → List AgentThread
visible_threads selected threads = filter (in_scope selected) threads

-- the count beside "Chats corrientes"
unfoldable pub thread_count : List AgentThread → ℕ
unfolding has_workspace
thread_count threads = length (filter (λ t. not (has_workspace t.workspace_id)) threads)

-- The clock and the local midnight are arguments, as those of `group_threads`.
unfoldable pub sidebar_groups : ℕ → ℕ → ℕ → Option Text → List AgentThread → Groups
unfolding visible_threads
sidebar_groups today_start now_7 now_30 selected threads =
    group_threads today_start now_7 now_30 (visible_threads selected threads)

has_id : Option Text → Workspace → Bool
has_id none workspace = false
has_id (some id) workspace = text_eq workspace.id id

heading_for : Option Workspace → Text
heading_for none = codes "Chats corrientes"
heading_for (some workspace) = codes "Chats de " ++ workspace.label

unfoldable pub heading : Option Text → List Workspace → Text
unfolding heading_for has_id
heading selected workspaces = heading_for (find? (has_id selected) workspaces)

-- what the storage holds after a click on a workspace, or on "Chats corrientes"
pub data ScopeEvent : Type 0 where
  picked : Text → ScopeEvent
  cleared : ScopeEvent

unfoldable pub scope_step : Option Text → ScopeEvent → Option Text
scope_step stored (picked id) = some id
scope_step stored cleared = none

-- `onPickWorkspace`: whether the folder picker is asked for
unfoldable pub on_pick_workspace : Bool → Bool
on_pick_workspace is_pending = not is_pending

-- the message of an `Error`, if there is one
unfoldable pub shown_error : Bool → Option Text → Option Text → Option Text
shown_error true pick_error list_error = none
shown_error false (some message) list_error = some message
shown_error false none list_error = list_error

workspace_labels : Dict Text
workspace_labels =
    (codes "workspace_picker_cancelled", codes "Selección cancelada.")
    ∷ (codes "workspace_picker_disabled", codes "Selector de carpetas deshabilitado.")
    ∷ (codes "workspace_picker_unsupported", codes "Selector no soportado en este sistema.")
    ∷ (codes "workspace_path_not_directory", codes "La ruta seleccionada no es una carpeta.")
    ∷ (
      codes "workspace_path_not_git_repo",
      codes "Selecciona una carpeta que sea un repositorio Git.",
    )
    ∷ (
      codes "workspace_path_missing_origin",
      codes "El repositorio seleccionado no tiene remote origin configurado.",
    )
    ∷ (
      codes "workspace_path_not_azure_repo",
      codes "Selecciona un repositorio conectado a Azure DevOps.",
    )
    ∷ (
      codes "workspace_path_wrong_azure_org",
      codes "El repositorio pertenece a otra organización de Azure DevOps.",
    )
    ∷ (
      codes "workspace_source_dirty",
      codes "Tu repositorio tiene cambios sin commitear. Haz commit o stash antes de iniciar.",
    )
    ∷ (
      codes "workspace_integration_branch_missing",
      codes "No existe la rama de integración (develop) en origin. Verifica el remoto.",
    )
    ∷ (
      codes "workspace_base_branch_required",
      codes "Tu repositorio está en HEAD desacoplado. Cambia a una rama nombrada.",
    )
    ∷ (
      codes "workspace_integration_merge_conflict",
      codes "Tu rama tiene conflictos con develop. Resuélvelos antes de usar el workspace.",
    )
    ∷ (
      codes "workspace_fetch_failed",
      codes "No se pudo actualizar desde el remoto. Revisa conexión, permisos o credenciales.",
    )
    ∷ (codes "workspace_base_mode_invalid", codes "Modo de base de workspace inválido.")
    ∷ (codes "workspace_not_attached", codes "Este hilo no tiene un workspace asociado.")
    ∷ []

unfoldable pub workspace_error_label : Text → Text
unfolding workspace_labels
workspace_error_label error =
    if starts_with error (codes "workspace_git_error:")
    then codes "Selecciona una carpeta que sea un repositorio Git conectado a Azure DevOps."
    else value_or (lookup error workspace_labels) error

-- what `ThreadGroup` draws of its threads
unfoldable pub group_rows : Bool → List AgentThread → List AgentThread
group_rows collapsed threads = if collapsed then [] else threads
