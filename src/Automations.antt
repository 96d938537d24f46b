-- ===== src/Automations.antt =====
-- components/agents/AutomationEditor.tsx and components/agents/ScheduleTriggerPicker.tsx: the form of an
-- automation. Its fields are a state, and what it asks of the server is a request.
pub mod Cron
pub mod Editor
mod Saving
mod Tests
use mobile_agent.Prelude.{
  ℕ, Text, codes, text_eq, is_empty, trim, Bool, true, false, not, ◌&&◌, Option, none, some, ◌<|>◌,
  List, [], ◌∷◌, ◌++◌, if◌then◌else◌, map, any, value_or, is_some,
}
use mobile_agent.Prelude.Strings.{has}
use mobile_agent.Models.{ModelOption, ModelSelection}
use mobile_agent.Automations.Cron.{CronPreset, cron_presets, preset_for_cron}

pub record AgentSchedule : Type 0 where
  pub id : Text
  pub name : Text
  pub prompt : Text
  pub schedule : Text
  pub repo : Option Text
  pub model : Text
  pub effort : Option Text
  pub enabled : Bool

pub record TriggerOption : Type 0 where
  pub id : Text
  pub label : Text
  pub cron : Option Text

-- `OPTIONS` of the picker
unfoldable pub trigger_options : List TriggerOption
trigger_options =
    map (λ (p : CronPreset). record { id = p.id; label = p.label; cron = some p.value })
      cron_presets
    ++ record { id = codes "custom"; label = codes "Personalizado (cron)"; cron = none } ∷ []

unfoldable pub selection_for : List ModelOption → Text → Option Text → Option ModelSelection
selection_for models [] effort = none
selection_for models (c ∷ id) none = none
selection_for models (c ∷ id) (some []) = none
selection_for models (c ∷ id) (some (d ∷ effort)) =
    if any (λ (model : ModelOption). text_eq model.id (c ∷ id) && has model.efforts (d ∷ effort))
      models
    then some (record { model_id = c ∷ id; effort = d ∷ effort })
    else none

unfoldable pub schedule_to_selection :
    List ModelOption → Option AgentSchedule → Option ModelSelection
unfolding selection_for
schedule_to_selection models none = none
schedule_to_selection models (some schedule) = selection_for models schedule.model schedule.effort

-- an override is a choice, and `none` within it the choice of no model
pub data SelectionOverride : Type 0 where
  untouched : SelectionOverride
  chosen : Option ModelSelection → SelectionOverride

pub record Form : Type 0 where
  pub name : Text
  pub prompt : Text
  pub cron : Option Text
  pub custom_mode : Bool
  pub repo : Option Text
  pub enabled : Bool
  pub selection_override : SelectionOverride

unfoldable pub open_form : Option AgentSchedule → Form
open_form none = record {
  name = [];
  prompt = [];
  cron = none;
  custom_mode = false;
  repo = none;
  enabled = true;
  selection_override = untouched;
}
open_form (some schedule) = record {
  name = schedule.name;
  prompt = schedule.prompt;
  cron = some schedule.schedule;
  custom_mode = text_eq (preset_for_cron schedule.schedule) (codes "custom");
  repo = schedule.repo;
  enabled = schedule.enabled;
  selection_override = untouched;
}

active_for :
    SelectionOverride → Option ModelSelection → Option ModelSelection → Option ModelSelection
active_for untouched scheduled default = scheduled <|> default
active_for (chosen selection) scheduled default = selection

unfoldable pub active_selection :
    List ModelOption → Option AgentSchedule → Option ModelSelection → Form → Option ModelSelection
unfolding active_for
active_selection models schedule default s =
    active_for s.selection_override (schedule_to_selection models schedule) default

unfoldable pub has_cron : Option Text → Bool
has_cron none = false
has_cron (some cron) = not (is_empty cron)

-- whether the trigger is drawn, with the input of a custom one
unfoldable pub shows_cron : Form → Bool
unfolding has_cron
shows_cron s = has_cron s.cron

unfoldable pub can_save : Form → Bool
unfolding has_cron
can_save s = not (is_empty (trim s.name)) && not (is_empty (trim s.prompt)) && has_cron s.cron

unfoldable pub on_pick_trigger : Option Text → Form → Form
on_pick_trigger none s = record s {
  custom_mode = true;
  cron = some (value_or s.cron (codes "0 9 * * *"));
}
on_pick_trigger (some value) s = record s { custom_mode = false; cron = some value }

unfoldable pub remove_trigger : Form → Form
remove_trigger s = record s { cron = none; custom_mode = false }

pub record ScheduleBody : Type 0 where
  pub name : Text
  pub prompt : Text
  pub schedule : Text
  pub repo : Option Text
  pub model_id : Option Text
  pub effort : Option Text

pub data Request : Type 0 where
  create : ScheduleBody → Request
  update : Text → ScheduleBody → Bool → Request
  delete : Text → Request

unfoldable pub id_of : Option ModelSelection → Option Text
id_of none = none
id_of (some selection) = some selection.model_id

unfoldable pub effort_of : Option ModelSelection → Option Text
effort_of none = none
effort_of (some selection) = some selection.effort

unfoldable pub is_model : Option ModelSelection → ModelOption → Bool
is_model none model = false
is_model (some selection) model = text_eq model.id selection.model_id

-- a selection whose model is not offered is not sent
unfoldable pub sent_selection : List ModelOption → Option ModelSelection → Option ModelSelection
unfolding is_model
sent_selection models selection = if any (is_model selection) models then selection else none

unfoldable pub body_of : Form → Text → Option ModelSelection → Option Text → ScheduleBody
unfolding id_of effort_of
body_of s cron selection repo = record {
  name = trim s.name;
  prompt = trim s.prompt;
  schedule = trim cron;
  repo = repo;
  model_id = id_of selection;
  effort = effort_of selection;
}

pub data Mode : Type 0 where
  create_mode edit_mode : Mode

unfoldable pub save_request :
    Mode → Option AgentSchedule → Form → Text → Option ModelSelection → Option Request
unfolding body_of
save_request create_mode schedule s cron selection = some (create (body_of s cron selection s.repo))
save_request edit_mode none s cron selection = none
save_request edit_mode (some schedule) s cron selection =
    some (update schedule.id (body_of s cron selection (some (value_or s.repo []))) s.enabled)

unfoldable pub handle_save :
    Mode → List ModelOption → Option AgentSchedule → Option ModelSelection → Form → Option Request
unfolding save_request
handle_save mode models schedule default s =
    if can_save s
    then save_request mode schedule s (value_or s.cron [])
        (sent_selection models (active_selection models schedule default s))
    else none

-- `confirmed` is the answer to `window.confirm`
unfoldable pub handle_delete : Option AgentSchedule → Bool → Option Request
handle_delete none confirmed = none
handle_delete (some schedule) confirmed = if confirmed then some (delete schedule.id) else none

-- the cron is edited in the input, which is there in custom mode while a cron is drawn
pub data Event : Type 0 where
  typed_name typed_prompt typed_cron : Text → Event
  picked : TriggerOption → Event
  removed : Event
  picked_repo : Option Text → Event
  switched : Bool → Event
  picked_model : ModelSelection → Event

unfoldable pub step : Form → Event → Form
unfolding on_pick_trigger remove_trigger
step s (typed_name name) = record s { name = name }
step s (typed_prompt prompt) = record s { prompt = prompt }
step s (typed_cron cron) =
    if shows_cron s && s.custom_mode then record s { cron = some cron } else s
step s (picked option) = on_pick_trigger option.cron s
step s removed = if shows_cron s then remove_trigger s else s
step s (picked_repo repo) = record s { repo = repo }
step s (switched enabled) = record s { enabled = enabled }
step s (picked_model selection) = record s { selection_override = chosen (some selection) }
