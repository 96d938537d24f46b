-- ===== src/CloudPrompt.antt =====
-- components/agents/ported/CloudPromptBar.tsx: the prompt of a thread in the cloud. Its hooks are the
-- fields of a state, what it does between two draws is an event, and what an event asks of the
-- parent is the list of its calls, in order. `disabled` buttons take no clicks.
pub mod Images
pub mod Laws
pub mod Queue
pub mod Stop
mod Quelled
mod Tests
use mobile_agent.Prelude.{
  ℕ, zero, suc, ◌-◌, ◌+◌, ◌==◌, ltb, leb, Text, text_eq, is_empty, trim, Bool, true, false, not,
  ◌||◌, ◌&&◌, Option, none, some, List, [], ◌∷◌, ◌++◌, map, if◌then◌else◌, is_nil, is_some, length,
  flat_map,
}
use mobile_agent.Types.{ImageChunk}
use mobile_agent.Models.{ModelOption, ModelSelection}
use mobile_agent.CloudPrompt.Images.{File, add_files, remove_at}

-- `CloudPromptBarProps`; of a callback, whether it is given
pub record Props : Type 0 where
  pub disabled : Bool
  pub models : List ModelOption
  pub has_discard : Bool
  pub has_direct : Bool
  pub has_clear_all : Bool
  pub has_selection_change : Bool
  pub queued_follow_ups : List Text

-- what the promise that a handler awaits is for; a replacement keeps the draft of its click
pub data Pending : Type 0 where
  action : Pending
  replacement : Text → List ImageChunk → Pending

pub record State : Type 0 where
  pub value : Text
  pub pending_images : List ImageChunk
  pub is_drag_over : Bool
  pub model_dropdown_open : Bool
  pub queued_menu_open : Option Text
  pub queued_action_pending : Bool
  pub drag_depth : ℕ
  pub in_flight : Option Pending

pub data Call : Type 0 where
  submit : Text → List ImageChunk → Call
  discard direct : Text → Call
  clear_all : Call
  select : ModelSelection → Call

pub data DragEvent : Type 0 where
  drag_enter drag_over drag_leave : DragEvent

-- `files_read` is the end of `addFiles`; `settled` is the end of what is awaited.
pub data Event : Type 0 where
  typed : Text → Event
  pressed_enter : Bool → Event
  clicked_submit : Event
  files_read : List (File × Option Text) → Event
  removed_image : ℕ → Event
  dragged : Bool → DragEvent → Event
  dropped : Bool → Event
  clicked_direct clicked_discard clicked_menu clicked_replace : Text → Event
  clicked_clear_all : Event
  settled : Bool → Event
  clicked_models clicked_outside : Event
  clicked_model : ModelSelection → Event

unfoldable pub initial : State
initial = record {
  value = [];
  pending_images = [];
  is_drag_over = false;
  model_dropdown_open = false;
  queued_menu_open = none;
  queued_action_pending = false;
  drag_depth = 0;
  in_flight = none;
}

combos_of : ModelOption → List ModelSelection
combos_of model = map (λ effort. record { model_id = model.id; effort = effort }) model.efforts

unfoldable pub combos : List ModelOption → List ModelSelection
unfolding combos_of
combos models = flat_map combos_of models

abbrev pub picker_disabled : Props → Bool
unfolding combos
picker_disabled p = is_nil (combos p.models) || not p.has_selection_change

unfoldable pub can_submit : Props → State → Bool
can_submit p s = not p.disabled && (not (is_empty (trim s.value)) || not (is_nil s.pending_images))

abbrev cleared : State → State
cleared s = record s { value = []; pending_images = [] }

unfoldable pub handle_submit : Props → State → State × List Call
unfolding can_submit
handle_submit p s =
    if can_submit p s then (cleared s, submit (trim s.value) s.pending_images ∷ []) else (s, [])

-- `handleQueuedAction`, up to its `await`
unfoldable pub handle_queued_action : Call → State → State × List Call
handle_queued_action call s =
    if s.queued_action_pending
    then (s, [])
    else (record s { queued_action_pending = true; in_flight = some action }, call ∷ [])

-- `handleQueuedReplace`, up to its `await`
unfoldable pub handle_queued_replace : Props → Text → State → State × List Call
unfolding can_submit
handle_queued_replace p id s =
    if not (can_submit p s) || not p.has_discard || s.queued_action_pending then (s, []) else (
      record s {
        queued_action_pending = true;
        in_flight = some (replacement (trim s.value) s.pending_images);
      },
      discard id ∷ [],
    )

-- what follows the `await`, and the `finally`
unfoldable pub settle : Bool → State → Option Pending → State × List Call
settle ok s none = (s, [])
settle ok s (some action) = (record s { queued_action_pending = false; in_flight = none }, [])
settle true s (some (replacement trimmed images)) = (
  record s {
    value = [];
    pending_images = [];
    queued_menu_open = none;
    queued_action_pending = false;
    in_flight = none;
  },
  submit trimmed images ∷ [],
)
settle false s (some (replacement trimmed images)) =
    (record s { queued_action_pending = false; in_flight = none }, [])

unfoldable pub handle_drag : DragEvent → State → State
handle_drag drag_enter s = record s { drag_depth = suc s.drag_depth; is_drag_over = true }
handle_drag drag_over s = record s { is_drag_over = true }
handle_drag drag_leave s = record s {
  drag_depth = s.drag_depth - 1;
  is_drag_over = not (s.drag_depth - 1 == 0) && s.is_drag_over;
}

unfoldable pub handle_drop : State → State
handle_drop s = record s { drag_depth = 0; is_drag_over = false }

is_open : Option Text → Text → Bool
is_open none id = false
is_open (some shown) id = text_eq shown id

unfoldable pub toggle_menu : Text → Option Text → Option Text
unfolding is_open
toggle_menu id menu = if is_open menu id then none else some id

unfoldable pub step : Props → State → Event → State × List Call
unfolding handle_submit handle_queued_action handle_queued_replace settle handle_drag handle_drop
    toggle_menu add_files
step p s (typed value) = if p.disabled then (s, []) else (record s { value = value }, [])
step p s (pressed_enter shift) = if shift then (s, []) else handle_submit p s
step p s clicked_submit = handle_submit p s
step p s (files_read files) = (record s { pending_images = add_files s.pending_images files }, [])
step p s (removed_image index) =
    (record s { pending_images = remove_at index s.pending_images }, [])
step p s (dragged has_files event) = if has_files then (handle_drag event s, []) else (s, [])
step p s (dropped has_files) = if has_files then (handle_drop s, []) else (s, [])
step p s (clicked_direct id) = if p.has_direct then handle_queued_action (direct id) s else (s, [])
step p s (clicked_discard id) =
    if p.has_discard then handle_queued_action (discard id) s else (s, [])
step p s (clicked_menu id) =
    if s.queued_action_pending
    then (s, [])
    else (record s { queued_menu_open = toggle_menu id s.queued_menu_open }, [])
step p s (clicked_replace id) = handle_queued_replace p id s
step p s clicked_clear_all =
    if ltb 1 (length p.queued_follow_ups) && p.has_clear_all
    then handle_queued_action clear_all s
    else (s, [])
step p s (settled ok) = settle ok s s.in_flight
step p s clicked_models =
    if picker_disabled p
    then (s, [])
    else (record s { model_dropdown_open = not s.model_dropdown_open }, [])
step p s clicked_outside = (record s { model_dropdown_open = false }, [])
step p s (clicked_model combo) = (
  record s { model_dropdown_open = false },
  (if p.has_selection_change then select combo ∷ [] else []),
)

-- The parent's properties may change between two events.
unfoldable pub run : State → List (Props × Event) → State × List Call
unfolding step
run s [] = (s, [])
run s ((p, event) ∷ events) =
    let (next, calls) = step p s event in let (end, rest) = run next events in (end, calls ++ rest)
