-- ===== src/Automations/Tests.antt =====
-- The form of an automation on concrete events.
use mobile_agent.Prelude.{
  codes, text_eq, trim, decimal, if◌then◌else◌, ◌≡◌, refl, false, none, some, List, [], ◌∷◌,
}
use mobile_agent.Prelude.Strings.{is_space, join}
use mobile_agent.Automations.Cron.{preset_for_cron, split_spaces, describe_cron}
use mobile_agent.Automations.{
  TriggerOption, trigger_options, active_selection, schedule_to_selection, Form, open_form,
  shows_cron, on_pick_trigger, Event, picked, typed_cron, handle_save, create_mode, untouched, step,
}
use mobile_agent.Automations.Editor.{run, IsShown, IsPicked, run-IsShown_form}
use mobile_agent.Automations.Saving.{IsSaved, handle_save-IsSaved}

abbrev custom : TriggerOption
custom = record { id = codes "custom"; label = codes "Personalizado (cron)"; cron = none }

abbrev events : List Event
events = picked custom ∷ typed_cron (codes "* * * * *") ∷ []

run-IsShown_form_example :
    IsShown (run (open_form none) events)
    × ((option : TriggerOption)
        → IsPicked
            (run (open_form none) events)
            option.cron
            (step (run (open_form none) events) (picked option)))
unfolding trigger_options
run-IsShown_form_example = run-IsShown_form none events ((3, refl), (tt, tt))

abbrev form : Form
form = record {
  name = codes " n ";
  prompt = codes "p";
  cron = some (codes "0 * * * *");
  custom_mode = false;
  repo = none;
  enabled = false;
  selection_override = untouched;
}

handle_save-IsSaved_example :
    IsSaved create_mode [] none none form (handle_save create_mode [] none none form)
unfolding active_selection schedule_to_selection
handle_save-IsSaved_example = handle_save-IsSaved create_mode [] none none form

-- A custom trigger that is emptied is drawn no more, and picking a custom one again leaves it so.
emptied :
    (shows_cron (run (open_form none) (picked custom ∷ typed_cron [] ∷ [])) ≡ false)
    × (shows_cron (run (open_form none) (picked custom ∷ typed_cron [] ∷ picked custom ∷ []))
        ≡ false)
unfolding shows_cron step on_pick_trigger open_form
emptied = (refl, refl)

described :
    (describe_cron (λ t. if text_eq t (codes "1") then some 1 else some 9) (codes " 9  9 * * 1 ")
      ≡ codes "Cada lunes a las 09:09 UTC")
    × (preset_for_cron (codes "0  * * * *") ≡ codes "hourly")
unfolding describe_cron preset_for_cron split_spaces trim is_space join text_eq decimal
described = (refl, refl)
