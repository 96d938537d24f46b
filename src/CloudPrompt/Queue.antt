-- ===== src/CloudPrompt/Queue.antt =====
-- The actions on queued messages of a prompt of the cloud, one at a time, and the models it offers.
use mobile_agent.Prelude.{
  ltb, Text, text_eq, trim, Bool, true, false, not, ◌||◌, ◌&&◌, Option, some, List, [], ◌∷◌, ◌++◌,
  map, any, length, All, All-append, if_cases, arith, ◌≡◌, refl, ◌∙◌,
}
use mobile_agent.Prelude.Strings.{has}
use mobile_agent.Types.{ImageChunk}
use mobile_agent.Models.{ModelOption, ModelSelection, offers}
use mobile_agent.CloudPrompt.{
  Props, Pending, replacement, State, Call, submit, discard, direct, clear_all, select, DragEvent,
  drag_enter, drag_over, drag_leave, Event, typed, pressed_enter, clicked_submit, files_read,
  removed_image, dragged, dropped, clicked_direct, clicked_discard, clicked_menu, clicked_replace,
  clicked_clear_all, settled, clicked_models, clicked_outside, clicked_model, can_submit,
  handle_submit, handle_queued_action, handle_queued_replace, settle, handle_drag, handle_drop,
  step, run, combos, combos_of,
}

-- a call that is not about the queue
abbrev pub IsOther : Call → Type 0
IsOther (submit content images) = Unit
IsOther (select combo) = Unit
IsOther _ = ⊥

abbrev pub is_settled : Event → Bool
is_settled (settled ok) = true
is_settled _ = false

-- `pending` is still awaited after the calls, none of which is about the queue
abbrev Awaits : Option Pending → State × List Call → Type 0
Awaits pending (s, calls) =
    (s.in_flight ≡ pending) × (s.queued_action_pending ≡ true) × All IsOther calls

handle_submit-Awaits :
    (p : Props) (s : State)
    → s.queued_action_pending ≡ true
    → Awaits s.in_flight (handle_submit p s)
unfolding handle_submit
handle_submit-Awaits p s h =
    if_cases (Awaits s.in_flight) (can_submit p s) _ _ (λ _. (refl, h, (tt, tt)))
      (λ _. (refl, h, tt))

handle_queued_action-Awaits :
    (call : Call) (s : State)
    → s.queued_action_pending ≡ true
    → Awaits s.in_flight (handle_queued_action call s)
unfolding handle_queued_action
handle_queued_action-Awaits call s h =
    if_cases (Awaits s.in_flight) s.queued_action_pending _ _ (λ _. (refl, h, tt))
      (λ e. absurd (ground arith))

handle_queued_replace-Awaits :
    (p : Props) (id : Text) (s : State)
    → s.queued_action_pending ≡ true
    → Awaits s.in_flight (handle_queued_replace p id s)
unfolding handle_queued_replace
handle_queued_replace-Awaits p id s h =
    if_cases (Awaits s.in_flight)
      (not (can_submit p s) || not p.has_discard || s.queued_action_pending) _ _
      (λ _. (refl, h, tt)) (λ e. absurd (ground arith))

handle_drag-Awaits :
    (event : DragEvent) (s : State)
    → s.queued_action_pending ≡ true
    → Awaits s.in_flight (handle_drag event s, [])
unfolding handle_drag
handle_drag-Awaits drag_enter s h = (refl, h, tt)
handle_drag-Awaits drag_over s h = (refl, h, tt)
handle_drag-Awaits drag_leave s h = (refl, h, tt)

step-Awaits :
    (p : Props) (s : State) (event : Event)
    → s.queued_action_pending ≡ true
    → is_settled event ≡ false
    → Awaits s.in_flight (step p s event)
unfolding step handle_drop
step-Awaits p s (typed value) h _ =
    if_cases (Awaits s.in_flight) p.disabled _ _ (λ _. (refl, h, tt)) (λ _. (refl, h, tt))
step-Awaits p s (pressed_enter shift) h _ =
    if_cases (Awaits s.in_flight) shift _ _ (λ _. (refl, h, tt)) (λ _. handle_submit-Awaits p s h)
step-Awaits p s clicked_submit h _ = handle_submit-Awaits p s h
step-Awaits p s (files_read files) h _ = (refl, h, tt)
step-Awaits p s (removed_image i) h _ = (refl, h, tt)
step-Awaits p s (dragged has_files event) h _ =
    if_cases (Awaits s.in_flight) has_files _ _ (λ _. handle_drag-Awaits event s h)
      (λ _. (refl, h, tt))
step-Awaits p s (dropped has_files) h _ =
    if_cases (Awaits s.in_flight) has_files _ _ (λ _. (refl, h, tt)) (λ _. (refl, h, tt))
step-Awaits p s (clicked_direct id) h _ =
    if_cases (Awaits s.in_flight) p.has_direct _ _
      (λ _. handle_queued_action-Awaits (direct id) s h) (λ _. (refl, h, tt))
step-Awaits p s (clicked_discard id) h _ =
    if_cases (Awaits s.in_flight) p.has_discard _ _
      (λ _. handle_queued_action-Awaits (discard id) s h) (λ _. (refl, h, tt))
step-Awaits p s (clicked_menu id) h _ =
    if_cases (Awaits s.in_flight) s.queued_action_pending _ _ (λ _. (refl, h, tt))
      (λ _. (refl, h, tt))
step-Awaits p s (clicked_replace id) h _ = handle_queued_replace-Awaits p id s h
step-Awaits p s clicked_clear_all h _ =
    if_cases (Awaits s.in_flight) (ltb 1 (length p.queued_follow_ups) && p.has_clear_all) _ _
      (λ _. handle_queued_action-Awaits clear_all s h) (λ _. (refl, h, tt))
step-Awaits p s (settled ok) h e = absurd (ground arith)
step-Awaits p s clicked_models h _ =
    if_cases (Awaits s.in_flight) _ _ _ (λ _. (refl, h, tt)) (λ _. (refl, h, tt))
step-Awaits p s clicked_outside h _ = (refl, h, tt)
step-Awaits p s (clicked_model combo) h _ =
    (refl, h, if_cases (All IsOther) p.has_selection_change _ _ (λ _. (tt, tt)) (λ _. tt))

run-Awaits :
    (s : State) (events : List (Props × Event)) (pending : Option Pending)
    → s.in_flight ≡ pending
    → s.queued_action_pending ≡ true
    → All (λ e. is_settled e.1 ≡ false) events
    → Awaits pending (run s events)
unfolding run
run-Awaits s [] pending e h _ = (e, h, tt)
run-Awaits s ((p, event) ∷ events) pending e h (n, ns) =
    let (f, g, k) = step-Awaits p s event h n in
    let (u, v, w) = run-Awaits (step p s event).0 events pending (f ∙ e) g ns in
    (u, v, All-append IsOther _ _ k w)

-- the end of a replacement
abbrev pub IsReplaced : Text → List ImageChunk → State → Bool → State × List Call → Type 0
IsReplaced content images before true (s, calls) = calls ≡ submit content images ∷ []
IsReplaced content images before false (s, calls) =
    (calls ≡ []) × (s.value ≡ before.value) × (s.pending_images ≡ before.pending_images)

settle-IsReplaced :
    (content : Text) (images : List ImageChunk) (s : State) (pending : Option Pending) (ok : Bool)
    → pending ≡ some (replacement content images)
    → IsReplaced content images s ok (settle ok s pending)
unfolding settle
settle-IsReplaced content images s pending true e = rw e refl
settle-IsReplaced content images s pending false e = rw e (refl, refl, refl)

-- A click on `replace` with something to send, while no action is pending, first asks to discard the
-- queued message. Until the reply nothing else is asked of the queue, whatever happens; then the
-- draft of the click is submitted if the discard succeeded, whatever was typed since, and otherwise
-- nothing is submitted and the draft on the screen stays.
pub handle_queued_replace-submits :
    (p q : Props) (s : State) (id : Text) (events : List (Props × Event)) (ok : Bool)
    → can_submit p s ≡ true
    → p.has_discard ≡ true
    → s.queued_action_pending ≡ false
    → All (λ e. is_settled e.1 ≡ false) events
    → let after = run (step p s (clicked_replace id)).0 events in
      ((step p s (clicked_replace id)).1 ≡ discard id ∷ [])
      × All IsOther after.1
      × IsReplaced (trim s.value) s.pending_images after.0 ok (step q after.0 (settled ok))
unfolding step handle_queued_replace
handle_queued_replace-submits p q s id events ok c d n k =
    rw (c, d, n)
      (let (e, _, w) = run-Awaits (clicked_state s) events _ refl refl k in
        (refl, w, settle-IsReplaced (trim s.value) s.pending_images _ _ ok e))
  where
    clicked_state : State → State
    clicked_state s = record s {
      queued_action_pending = true;
      in_flight = some (replacement (trim s.value) s.pending_images);
    }

module _ {ℓ} {A : Type ℓ} where
  any-append : (p : A → Bool) (xs ys : List A) → any p (xs ++ ys) ≡ (any p xs || any p ys)
  any-append p [] ys = refl
  any-append p (x ∷ xs) ys = ground (arith, any-append p xs ys)

abbrev pub is_same : ModelSelection → ModelSelection → Bool
is_same a b = text_eq b.model_id a.model_id && text_eq b.effort a.effort

any-combos_of :
    (selection : ModelSelection) (model : ModelOption)
    → any (is_same selection) (combos_of model) ≡ offers selection model
unfolding combos_of has
any-combos_of selection model = go model.efforts
  where
    go :
        (efforts : List Text)
        → any
            (is_same selection)
            (map (λ effort. record { model_id = model.id; effort = effort }) efforts)
          ≡ (text_eq model.id selection.model_id && has efforts selection.effort)
    go [] = ground arith
    go (e ∷ es) = ground (arith, go es)

-- The pairs that the picker shows are exactly the selections that some model offers.
pub combos-offers :
    (models : List ModelOption) (selection : ModelSelection)
    → any (is_same selection) (combos models) ≡ any (offers selection) models
unfolding combos
combos-offers [] selection = refl
combos-offers (model ∷ models) selection =
    any-append (is_same selection) (combos_of model) _
    ∙ rw (any-combos_of selection model, combos-offers models selection) refl
