-- ===== src/Sidebar/Tests.antt =====
-- The sidebar on concrete storage and events.
use mobile_agent.Prelude.{codes, ◌≡◌, refl, true, false, List, [], ◌∷◌}
use mobile_agent.Prelude.Strings.{starts_with, text_eq}
use mobile_agent.Prelude.Maps.{lookup}
use mobile_agent.Sidebar.{workspace_error_label, row_step, confirmed}
use mobile_agent.Sidebar.Layout.{Event, pointer_down, pointer_move, toggled, navigated}

abbrev events : List Event
events = pointer_down 250 ∷ pointer_move 900 ∷ toggled ∷ toggled ∷ navigated false ∷ []

labels :
    (workspace_error_label (codes "workspace_git_error: x")
      ≡ codes "Selecciona una carpeta que sea un repositorio Git conectado a Azure DevOps.")
    × (workspace_error_label (codes "other") ≡ codes "other")
unfolding workspace_error_label starts_with lookup text_eq
labels = (refl, refl)

-- The server is asked once.
delete_once :
    (row_step (record { delete_open = true; is_deleting = false }) confirmed).1 ≡ true
    × (row_step (record { delete_open = true; is_deleting = true }) confirmed).1 ≡ false
unfolding row_step
delete_once = (refl, refl)
