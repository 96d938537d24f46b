-- ===== src/CloudPrompt/Tests.antt =====
-- The prompt of the cloud on concrete events.
use mobile_agent.Prelude.{
  Text, codes, trim, ◌≡◌, refl, true, false, Option, none, some, List, [], ◌∷◌, ◌++◌, All, arith,
}
use mobile_agent.Prelude.Strings.{has, split}
use mobile_agent.Types.{ImageChunk}
use mobile_agent.Models.{ModelOption, ModelSelection}
use mobile_agent.CloudPrompt.{
  Props, State, Event, typed, clicked_replace, settled, files_read, dragged, drag_enter,
  pressed_enter, initial, can_submit, step, run, submit, discard,
}
use mobile_agent.CloudPrompt.Images.{File}
use mobile_agent.CloudPrompt.Laws.{IsWellFormed, IsGood, run-IsWellFormed}
use mobile_agent.CloudPrompt.Queue.{IsOther, IsReplaced, handle_queued_replace-submits}
use mobile_agent.CloudPrompt.Stop.{World, answered, handle_stop, after_reply, after_first}

abbrev model : ModelOption
model = record {
  id = codes "m";
  label = codes "M";
  efforts = codes "low" ∷ codes "high" ∷ [];
  default_effort = codes "low";
  supports_images = true;
}

abbrev props : Props
props = record {
  disabled = false;
  models = model ∷ [];
  has_discard = true;
  has_direct = true;
  has_clear_all = true;
  has_selection_change = true;
  queued_follow_ups = codes "q" ∷ [];
}

abbrev png : File
png = record { name = codes "a.png"; mime_type = codes "image/png"; size = 3 }

abbrev read : File × Option Text
read = (png, some (codes "data:image/png;base64,AAA"))

abbrev six_files : Event
six_files = files_read (read ∷ read ∷ read ∷ read ∷ read ∷ read ∷ [])

abbrev events : List (Props × Event)
events =
    (props, six_files)
    ∷ (props, dragged true drag_enter)
    ∷ (props, typed (codes " hi "))
    ∷ (props, pressed_enter false)
    ∷ []

run-IsWellFormed_example : IsWellFormed (run initial events).0 × All IsGood (run initial events).1
unfolding initial
run-IsWellFormed_example =
    run-IsWellFormed initial events (omega arith, tt, refl, (λ e. absurd (ground arith)), tt)

abbrev image : ImageChunk
image = record {
  base64 = codes "AAA";
  mime_type = codes "image/png";
  file_name = some (codes "a.png");
}

-- of six images five are sent
run-five :
    (run initial events).1 ≡ submit (codes "hi") (image ∷ image ∷ image ∷ image ∷ image ∷ []) ∷ []
unfolding run step trim has split initial
run-five = refl

abbrev typed_state : State
typed_state = record {
  value = codes "a";
  pending_images = [];
  is_drag_over = false;
  model_dropdown_open = false;
  queued_menu_open = some (codes "q");
  queued_action_pending = false;
  drag_depth = 0;
  in_flight = none;
}

handle_queued_replace-submits_example :
    ((step props typed_state (clicked_replace (codes "q"))).1 ≡ discard (codes "q") ∷ [])
    × All IsOther
        (run
          (step props typed_state (clicked_replace (codes "q"))).0
          ((props, typed (codes "b")) ∷ [])).1
    × IsReplaced
        (codes "a")
        []
        (run
          (step props typed_state (clicked_replace (codes "q"))).0
          ((props, typed (codes "b")) ∷ [])).0
        true
        (step props
          (run
            (step props typed_state (clicked_replace (codes "q"))).0
            ((props, typed (codes "b")) ∷ [])).0
          (settled true))
unfolding can_submit trim
handle_queued_replace-submits_example =
    handle_queued_replace-submits props props typed_state (codes "q")
      ((props, typed (codes "b")) ∷ []) true refl refl refl (refl, tt)

-- Enter during a replacement sends the draft, and the replacement sends it again.
replace-twice :
    (run typed_state (
      (props, clicked_replace (codes "q"))
      ∷ (props, pressed_enter false)
      ∷ (props, settled true)
      ∷ [])).1
    ≡ discard (codes "q") ∷ submit (codes "a") [] ∷ submit (codes "a") [] ∷ []
unfolding run step trim
replace-twice = refl

abbrev selection : ModelSelection
selection = record { model_id = codes "m"; effort = codes "high" }

-- two messages wait when the user stops the run: their count was answered before the clear, and
-- arrives after it
abbrev world : World
world = record {
  queue = 2;
  running = true;
  runs = 1;
  todo = [];
  stopped = false;
  completions = answered 2 ∷ [];
}

abbrev cleared_world : World
cleared_world = after_first (handle_stop false (some (codes "t")) true) world

abbrev counted_world : World
counted_world = record cleared_world { completions = [] ++ after_reply (codes "t") 2 ++ [] }
