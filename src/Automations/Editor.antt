-- ===== src/Automations/Editor.antt =====
-- What the form of an automation shows.
use mobile_agent.Prelude.{
  ℕ, zero, suc, Text, codes, text_eq, trim, true, false, ◌&&◌, Option, none, some, List, [], ◌∷◌,
  get_elem?, value_or, All, if_cases, ◌≢◌, arith, ◌≡◌, refl,
}
use mathlib.Core.Path.{subst}
use mobile_agent.Prelude.Strings.{is_space, join}
use mobile_agent.Models.{ModelOption, to_supported_selection, both_filled, if_offered}
use mobile_agent.Automations.Cron.{preset_for_cron, split_spaces}
use mobile_agent.Automations.{
  AgentSchedule, TriggerOption, trigger_options, selection_for, schedule_to_selection, Form,
  open_form, has_cron, shows_cron, on_pick_trigger, remove_trigger, Event, typed_name, typed_prompt,
  typed_cron, picked, removed, picked_repo, switched, picked_model, step,
}

-- The form of an automation reads the automation's model as a thread's model is read.
pub schedule_to_selection-eq :
    (models : List ModelOption) (schedule : AgentSchedule)
    → schedule_to_selection models (some schedule)
      ≡ to_supported_selection models (some schedule.model) schedule.effort
unfolding schedule_to_selection to_supported_selection
schedule_to_selection-eq models schedule = go schedule.model schedule.effort
  where
    go :
        (model : Text) (effort : Option Text)
        → selection_for models model effort ≡ if_offered models (both_filled (some model) effort)
    go [] none = refl
    go [] (some effort) = refl
    go (c ∷ id) none = refl
    go (c ∷ id) (some []) = refl
    go (c ∷ id) (some (d ∷ effort)) = refl

abbrev pub run : Form → List Event → Form
run s [] = s
run s (event ∷ events) = run (step s event) events

-- A trigger that is not drawn with an input is one of the presets.
abbrev pub IsShown : Form → Type 0
IsShown s =
    s.custom_mode ≡ false
    → (cron : Text) → s.cron ≡ some cron
    → text_eq (preset_for_cron cron) (codes "custom") ≡ false

-- only what the picker offers is picked
abbrev pub IsOffered : Event → Type 0
IsOffered (picked option) = (i : ℕ) × (get_elem? trigger_options i ≡ some option)
IsOffered _ = Unit

abbrev PresetShown : Option Text → Type 0
PresetShown none = Unit
PresetShown (some cron) = text_eq (preset_for_cron cron) (codes "custom") ≡ false

trigger_options-PresetShown :
    All (λ (option : TriggerOption). PresetShown option.cron) trigger_options
unfolding trigger_options preset_for_cron split_spaces trim is_space join text_eq
trigger_options-PresetShown = (refl, (refl, (refl, (tt, tt))))

get_elem?-All {ℓ κ} :
    {A : Type ℓ} (P : A → Type κ) (xs : List A) (i : ℕ) (x : A)
    → All P xs
    → get_elem? xs i ≡ some x
    → P x
get_elem?-All P [] i x h e = absurd (ground arith)
get_elem?-All P (y ∷ ys) zero x (h, hs) e = subst P (some_injective e) h
  where
    some_injective : some y ≡ some x → y ≡ x
    some_injective f = ground arith
get_elem?-All P (y ∷ ys) (suc i) x (h, hs) e = get_elem?-All P ys i x hs e

pick-IsShown : (cron : Option Text) (s : Form) → PresetShown cron → IsShown (on_pick_trigger cron s)
unfolding on_pick_trigger
pick-IsShown none s h = λ e. absurd (ground arith)
pick-IsShown (some value) s h = λ _ cron e. rw⁻¹ (some_injective value cron e) h
  where
    some_injective : (a b : Text) → some a ≡ some b → a ≡ b
    some_injective a b f = ground arith

step-IsShown : (s : Form) (event : Event) → IsOffered event → IsShown s → IsShown (step s event)
unfolding step remove_trigger
step-IsShown s (typed_name name) o h = h
step-IsShown s (typed_prompt prompt) o h = h
step-IsShown s (typed_cron cron) o h =
    if_cases IsShown (shows_cron s && s.custom_mode) _ _ (λ e. λ f. absurd (ground arith)) (λ _. h)
step-IsShown s (picked option) (i, e) h = pick-IsShown option.cron s (
    get_elem?-All (λ (o : TriggerOption). PresetShown o.cron) trigger_options i option
      trigger_options-PresetShown e)
step-IsShown s removed o h =
    if_cases IsShown (shows_cron s) _ _ (λ _. λ _ cron e. absurd (ground arith)) (λ _. h)
step-IsShown s (picked_repo repo) o h = h
step-IsShown s (switched enabled) o h = h
step-IsShown s (picked_model selection) o h = h

open-IsShown : (schedule : Option AgentSchedule) → IsShown (open_form schedule)
unfolding open_form
open-IsShown none = λ _ cron e. absurd (ground arith)
open-IsShown (some schedule) = λ f cron e. rw⁻¹ (some_injective schedule.schedule cron e) f
  where
    some_injective : (a b : Text) → some a ≡ some b → a ≡ b
    some_injective a b f = ground arith

-- what a pick makes of the form
abbrev pub IsPicked : Form → Option Text → Form → Type 0
IsPicked s none t = (t.custom_mode ≡ true) × (s.cron ≢ some [] → shows_cron t ≡ true)
IsPicked s (some cron) t = (t.custom_mode ≡ false) × (t.cron ≡ some cron)

pick-IsPicked : (cron : Option Text) (s : Form) → IsPicked s cron (on_pick_trigger cron s)
unfolding on_pick_trigger shows_cron has_cron
pick-IsPicked none s = (refl, shown s.cron)
  where
    shown :
        (cron : Option Text)
        → cron ≢ some []
        → has_cron (some (value_or cron (codes "0 9 * * *"))) ≡ true
    shown none h = refl
    shown (some []) h = absurd (h refl)
    shown (some (c ∷ cron)) h = refl
pick-IsPicked (some cron) s = (refl, refl)

-- Whatever is typed, picked and removed in the form of an automation, new or opened: a trigger that it
-- draws without an input is a preset. Picking a preset then sets it, and picking a trigger of the
-- user's own turns the input on, and draws it unless the trigger was emptied.
pub run-IsShown_form :
    (schedule : Option AgentSchedule) (events : List Event)
    → All IsOffered events
    → IsShown (run (open_form schedule) events)
      × ((option : TriggerOption)
          → IsPicked
              (run (open_form schedule) events)
              option.cron
              (step (run (open_form schedule) events) (picked option)))
unfolding step
run-IsShown_form schedule events o = (
  go (open_form schedule) events o (open-IsShown schedule),
  λ option. pick-IsPicked option.cron (run (open_form schedule) events),
)
  where
    go : (s : Form) (es : List Event) → All IsOffered es → IsShown s → IsShown (run s es)
    go s [] _ h = h
    go s (e ∷ es) (k, ks) h = go (step s e) es ks (step-IsShown s e k h)
