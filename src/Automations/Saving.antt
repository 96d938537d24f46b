-- ===== src/Automations/Saving.antt =====
-- What the form of an automation asks the server for.
use mobile_agent.Prelude.{
  Text, text_eq, is_empty, trim, true, false, not, ◌&&◌, Option, none, some, List, [], ◌∷◌, any,
  value_or, if_cases, Bool-cases, ◌≢◌, ◌↔◌, inl, inr, ◌⊎◌, arith, ◌≡◌, refl,
}
use mobile_agent.Models.{ModelOption, ModelSelection}
use mobile_agent.Automations.{
  AgentSchedule, Form, active_selection, has_cron, can_save, ScheduleBody, Request, create, update,
  id_of, effort_of, is_model, sent_selection, body_of, Mode, create_mode, edit_mode, save_request,
  handle_save,
}

-- the model and the effort of a request: those of the selection, if its model is offered
abbrev pub IsModel : List ModelOption → Option ModelSelection → Option Text → Option Text → Type 0
IsModel models none model_id effort = (model_id ≡ none) × (effort ≡ none)
IsModel models (some selection) model_id effort =
    (any (λ (m : ModelOption). text_eq m.id selection.model_id) models ≡ true)
      × (model_id ≡ some selection.model_id)
      × (effort ≡ some selection.effort)
    ⊎ (any (λ (m : ModelOption). text_eq m.id selection.model_id) models ≡ false)
      × (model_id ≡ none)
      × (effort ≡ none)

-- the body of a request, with the repository that it names
abbrev pub IsBody :
    List ModelOption → Option ModelSelection → Form → Option Text → ScheduleBody → Type 0
IsBody models selection s repo body =
    (body.name ≡ trim s.name)
    × (body.prompt ≡ trim s.prompt)
    × ((cron : Text) × (s.cron ≡ some cron) × (body.schedule ≡ trim cron))
    × (body.repo ≡ repo)
    × IsModel models selection body.model_id body.effort

-- the name, the prompt and the trigger are there: the first two not blank, the last not empty
abbrev pub IsFilled : Form → Type 0
IsFilled s = (trim s.name ≢ []) × (trim s.prompt ≢ []) × (s.cron ≢ none) × (s.cron ≢ some [])

-- what saving asks for, with the selection that is shown
abbrev pub IsSaved :
    Mode
    → List ModelOption
    → Option AgentSchedule
    → Option ModelSelection
    → Form
    → Option Request
    → Type 0
IsSaved create_mode models schedule selection s none = ¬ IsFilled s
IsSaved create_mode models schedule selection s (some (create body)) =
    IsFilled s × IsBody models selection s s.repo body
IsSaved create_mode models schedule selection s (some _) = ⊥
IsSaved edit_mode models none selection s none = Unit
IsSaved edit_mode models none selection s (some _) = ⊥
IsSaved edit_mode models (some schedule) selection s none = ¬ IsFilled s
IsSaved edit_mode models (some schedule) selection s (some (update id body enabled)) =
    IsFilled s
    × (id ≡ schedule.id)
    × (enabled ≡ s.enabled)
    × IsBody models selection s (some (value_or s.repo [])) body
IsSaved edit_mode models (some schedule) selection s (some _) = ⊥

sent_selection-IsModel :
    (models : List ModelOption) (selection : Option ModelSelection)
    → IsModel models selection
        (id_of (sent_selection models selection))
        (effort_of (sent_selection models selection))
unfolding sent_selection id_of effort_of is_model
sent_selection-IsModel models none = elim (Bool-cases (any (is_model none) models)) [
  | inl e ↦ rw e (refl, refl)
  | inr e ↦ rw e (refl, refl)
]
sent_selection-IsModel models (some selection) =
    elim (Bool-cases (any (is_model (some selection)) models)) [
      | inl e ↦ rw e (inl (refl, refl, refl))
      | inr e ↦ rw e (inr (refl, refl, refl))
    ]

-- what `can_save` tests
fillings :
    (name prompt : Text) (cron : Option Text)
    → ((not (is_empty name) && not (is_empty prompt) && has_cron cron) ≡ true)
      ↔ ((name ≢ []) × (prompt ≢ []) × (cron ≢ none) × (cron ≢ some []))
unfolding has_cron
fillings [] prompt cron = (λ h. absurd (ground arith), λ h. absurd (h.0 refl))
fillings (c ∷ name) [] cron = (λ h. absurd (ground arith), λ h. absurd (h.1 refl))
fillings (c ∷ name) (d ∷ prompt) none = (λ h. absurd (ground arith), λ h. absurd (h.2 refl))
fillings (c ∷ name) (d ∷ prompt) (some []) = (λ h. absurd (ground arith), λ h. absurd (h.3 refl))
fillings (c ∷ name) (d ∷ prompt) (some (e ∷ cron)) = (
  λ _. (
    λ k. absurd (ground arith),
    λ k. absurd (ground arith),
    λ k. absurd (ground arith),
    λ k. absurd (ground arith),
  ),
  λ _. refl,
)

can_save-IsFilled : (s : Form) → (can_save s ≡ true) ↔ IsFilled s
unfolding can_save
can_save-IsFilled s = fillings (trim s.name) (trim s.prompt) s.cron

unsaved : (s : Form) → can_save s ≡ false → ¬ IsFilled s
unsaved s e h = let f = (can_save-IsFilled s).1 h in ground arith

body_of-IsBody :
    (models : List ModelOption) (selection : Option ModelSelection) (s : Form) (repo : Option Text)
    → can_save s ≡ true
    → IsBody models selection s repo
        (body_of s (value_or s.cron []) (sent_selection models selection) repo)
unfolding body_of
body_of-IsBody models selection s repo e = (
  refl,
  refl,
  trigger s.cron (((can_save-IsFilled s).0 e).2),
  refl,
  sent_selection-IsModel models selection,
)
  where
    trigger :
        (cron : Option Text)
        → cron ≢ none
        → (t : Text) × (cron ≡ some t) × (trim (value_or cron []) ≡ trim t)
    trigger none h = absurd (h refl)
    trigger (some t) h = (t, refl, refl)

-- Saving asks for nothing exactly while the name or the prompt is blank, or the trigger is missing or
-- empty, or there is no automation to edit. Otherwise it creates an automation, or updates the one
-- that is edited and its switch, with the trimmed name, prompt and trigger, the repository (where
-- none is chosen, the update sends an empty text), and the model and the effort of the selection
-- that is shown, or neither if its model is not offered.
pub handle_save-IsSaved :
    (mode : Mode) (models : List ModelOption) (schedule : Option AgentSchedule)
    → (default : Option ModelSelection) (s : Form)
    → IsSaved mode models schedule
        (active_selection models schedule default s)
        s
        (handle_save mode models schedule default s)
unfolding handle_save save_request
handle_save-IsSaved create_mode models schedule default s =
    let selection = active_selection models schedule default s in
    if_cases (IsSaved create_mode models schedule selection s) (can_save s) _ _
      (λ e. ((can_save-IsFilled s).0 e, body_of-IsBody models selection s s.repo e))
      (λ e. unsaved s e)
handle_save-IsSaved edit_mode models none default s =
    if_cases (IsSaved edit_mode models none (active_selection models none default s) s) (can_save s)
      _ _ (λ _. tt) (λ _. tt)
handle_save-IsSaved edit_mode models (some schedule) default s =
    let selection = active_selection models (some schedule) default s in
    if_cases (IsSaved edit_mode models (some schedule) selection s) (can_save s) _ _
      (λ e. (
        (can_save-IsFilled s).0 e,
        refl,
        refl,
        body_of-IsBody models selection s (some (value_or s.repo [])) e,
      ))
      (λ e. unsaved s e)
