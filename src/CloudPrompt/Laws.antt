-- ===== src/CloudPrompt/Laws.antt =====
-- What a prompt of the cloud holds and sends, whatever happens to it.
use mobile_agent.Prelude.{
  ℕ, zero, suc, ◌≤◌, ltb, Text, is_empty, trim, Bool, true, false, not, ◌||◌, ◌&&◌, Option, none,
  some, List, [], ◌∷◌, ◌++◌, is_nil, is_some, length, take, All, All-append, if_cases, arith, ◌≡◌,
  refl,
}
use mobile_agent.Prelude.Strings.{has}
use mobile_agent.Types.{ImageChunk}
use mobile_agent.CloudPrompt.{
  Props, Pending, action, replacement, State, Call, submit, discard, direct, clear_all, DragEvent,
  drag_enter, drag_over, drag_leave, Event, typed, pressed_enter, clicked_submit, files_read,
  removed_image, dragged, dropped, clicked_direct, clicked_discard, clicked_menu, clicked_replace,
  clicked_clear_all, settled, clicked_models, clicked_outside, clicked_model, can_submit,
  handle_submit, handle_queued_action, handle_queued_replace, settle, handle_drag, handle_drop,
  step, run,
}
use mobile_agent.CloudPrompt.Images.{
  File, supported_image_types, image_of, read_image, file_to_image_chunk, is_refused,
  max_image_bytes, valid_images, add_files, remove_at, prepend,
}

abbrev pub IsImage : ImageChunk → Type 0
IsImage image = (has supported_image_types image.mime_type ≡ true) × (is_empty image.base64 ≡ false)

-- something to send, with at most five images
abbrev pub IsDraft : Text → List ImageChunk → Type 0
IsDraft content images =
    ((not (is_empty content) || not (is_nil images)) ≡ true)
    × (length images ≤ 5)
    × All IsImage images

abbrev pub IsKept : Option Pending → Type 0
IsKept (some (replacement content images)) = IsDraft content images
IsKept _ = Unit

abbrev pub IsGood : Call → Type 0
IsGood (submit content images) = IsDraft content images
IsGood _ = Unit

abbrev pub IsWellFormed : State → Type 0
IsWellFormed s =
    (length s.pending_images ≤ 5)
    × All IsImage s.pending_images
    × (is_some s.in_flight ≡ s.queued_action_pending)
    × (ltb 0 s.drag_depth ≡ true → s.is_drag_over ≡ true)
    × IsKept s.in_flight

abbrev IsSound : State × List Call → Type 0
IsSound (s, calls) = IsWellFormed s × All IsGood calls

IsRead : Option ImageChunk → Type 0
IsRead none = Unit
IsRead (some image) = IsImage image

image_of-IsRead :
    (file : File) (base64 : Option Text)
    → has supported_image_types file.mime_type ≡ true
    → IsRead (image_of file base64)
unfolding image_of IsRead
image_of-IsRead file none h = tt
image_of-IsRead file (some []) h = tt
image_of-IsRead file (some (c ∷ base64)) h = (h, refl)

read_image-IsRead :
    (file : File) (result : Option Text)
    → has supported_image_types file.mime_type ≡ true
    → IsRead (read_image file result)
unfolding read_image IsRead
read_image-IsRead file none h = tt
read_image-IsRead file (some data_url) h = image_of-IsRead file _ h

file_to_image_chunk-IsRead :
    (file : File) (result : Option Text) → IsRead (file_to_image_chunk file result)
unfolding file_to_image_chunk IsRead
file_to_image_chunk-IsRead file result =
    if_cases IsRead (is_refused file) _ _ (λ _. tt)
      (λ e. read_image-IsRead file result (supported _ (ltb max_image_bytes file.size) e))
  where
    supported : (a b : Bool) → (not a || b) ≡ false → a ≡ true
    supported true b e = refl
    supported false b e = absurd (ground arith)

valid_images-IsImage : (files : List (File × Option Text)) → All IsImage (valid_images files)
unfolding valid_images prepend IsRead
valid_images-IsImage [] = tt
valid_images-IsImage ((file, result) ∷ files) =
    go _ _ (file_to_image_chunk-IsRead file result) (valid_images-IsImage files)
  where
    go :
        (image : Option ImageChunk) (images : List ImageChunk)
        → IsRead image
        → All IsImage images
        → All IsImage (prepend image images)
    go none images _ hs = hs
    go (some image) images h hs = (h, hs)

take-All {ℓ} : {A : Type ℓ} (P : A → Type 0) (n : ℕ) (xs : List A) → All P xs → All P (take n xs)
take-All P zero xs h = tt
take-All P (suc n) [] h = tt
take-All P (suc n) (x ∷ xs) (h, hs) = (h, take-All P n xs hs)

length-take_le {ℓ} : {A : Type ℓ} (n : ℕ) (xs : List A) → length (take n xs) ≤ n
length-take_le zero xs = omega arith
length-take_le (suc n) [] = omega arith
length-take_le (suc n) (x ∷ xs) = omega (arith, length-take_le n xs)

remove_at-length : (i : ℕ) (images : List ImageChunk) → length (remove_at i images) ≤ length images
unfolding remove_at
remove_at-length i [] = omega arith
remove_at-length zero (x ∷ xs) = omega arith
remove_at-length (suc i) (x ∷ xs) = omega (arith, remove_at-length i xs)

remove_at-All :
    (i : ℕ) (images : List ImageChunk) → All IsImage images → All IsImage (remove_at i images)
unfolding remove_at
remove_at-All i [] h = tt
remove_at-All zero (x ∷ xs) (h, hs) = hs
remove_at-All (suc i) (x ∷ xs) (h, hs) = (h, remove_at-All i xs hs)

add_files-images :
    (images : List ImageChunk) (files : List (File × Option Text))
    → length images ≤ 5
    → All IsImage images
    → (length (add_files images files) ≤ 5) × All IsImage (add_files images files)
unfolding add_files
add_files-images images files n h =
    if_cases (λ xs. (length xs ≤ 5) × All IsImage xs) _ _ _ (λ _. (n, h))
      (λ _. (
        length-take_le 5 (images ++ valid_images files),
        take-All IsImage 5 (images ++ valid_images files)
            (All-append IsImage images _ h (valid_images-IsImage files)),
      ))

handle_submit-IsSound : (p : Props) (s : State) → IsWellFormed s → IsSound (handle_submit p s)
unfolding handle_submit can_submit
handle_submit-IsSound p s (n, h, k, d, f) =
    if_cases IsSound (can_submit p s) _ _ (λ e. ((omega arith, tt, k, d, f), ((draft e, n, h), tt)))
      (λ _. ((n, h, k, d, f), tt))
  where
    draft :
        (not p.disabled && (not (is_empty (trim s.value)) || not (is_nil s.pending_images))) ≡ true
        → (not (is_empty (trim s.value)) || not (is_nil s.pending_images)) ≡ true
    draft e = ground arith

handle_queued_action-IsSound :
    (call : Call) (s : State) → IsGood call → IsWellFormed s → IsSound (handle_queued_action call s)
unfolding handle_queued_action
handle_queued_action-IsSound call s g (n, h, k, d, f) =
    if_cases IsSound s.queued_action_pending _ _ (λ _. ((n, h, k, d, f), tt))
      (λ _. ((n, h, refl, d, tt), (g, tt)))

handle_queued_replace-IsSound :
    (p : Props) (id : Text) (s : State) → IsWellFormed s → IsSound (handle_queued_replace p id s)
unfolding handle_queued_replace can_submit
handle_queued_replace-IsSound p id s (n, h, k, d, f) =
    if_cases IsSound (not (can_submit p s) || not p.has_discard || s.queued_action_pending) _ _
      (λ _. ((n, h, k, d, f), tt)) (λ e. ((n, h, refl, d, (draft e, n, h)), (tt, tt)))
  where
    draft :
        (not (not p.disabled && (not (is_empty (trim s.value)) || not (is_nil s.pending_images)))
            || not p.has_discard
            || s.queued_action_pending)
          ≡ false
        → (not (is_empty (trim s.value)) || not (is_nil s.pending_images)) ≡ true
    draft e = ground arith

settle-IsSound :
    (ok : Bool) (s : State) (pending : Option Pending)
    → IsKept pending
    → IsWellFormed s
    → IsSound (settle ok s pending)
unfolding settle
settle-IsSound ok s none g w = (w, tt)
settle-IsSound ok s (some action) g (n, h, k, d, f) = ((n, h, refl, d, tt), tt)
settle-IsSound true s (some (replacement content images)) g (n, h, k, d, f) =
    ((omega arith, tt, refl, d, tt), (g, tt))
settle-IsSound false s (some (replacement content images)) g (n, h, k, d, f) =
    ((n, h, refl, d, tt), tt)

handle_drag-WellFormed :
    (event : DragEvent) (s : State) → IsWellFormed s → IsWellFormed (handle_drag event s)
unfolding handle_drag
handle_drag-WellFormed drag_enter s (n, h, k, d, f) = (n, h, k, (λ _. refl), f)
handle_drag-WellFormed drag_over s (n, h, k, d, f) = (n, h, k, (λ _. refl), f)
handle_drag-WellFormed drag_leave s (n, h, k, d, f) = (n, h, k, (λ e. ground arith), f)

quiet : (s : State) → IsWellFormed s → IsSound (s, [])
quiet s w = (w, tt)

step-IsSound : (p : Props) (s : State) (event : Event) → IsWellFormed s → IsSound (step p s event)
unfolding step handle_drop
step-IsSound p s (typed value) w = if_cases IsSound p.disabled _ _ (λ _. quiet s w) (λ _. (w, tt))
step-IsSound p s (pressed_enter shift) w =
    if_cases IsSound shift _ _ (λ _. quiet s w) (λ _. handle_submit-IsSound p s w)
step-IsSound p s clicked_submit w = handle_submit-IsSound p s w
step-IsSound p s (files_read files) (n, h, k, d, f) =
    let (m, g) = add_files-images s.pending_images files n h in ((m, g, k, d, f), tt)
step-IsSound p s (removed_image i) (n, h, k, d, f) = (
  (omega (arith, remove_at-length i s.pending_images), remove_at-All i s.pending_images h, k, d, f),
  tt,
)
step-IsSound p s (dragged has_files event) w =
    if_cases IsSound has_files _ _ (λ _. (handle_drag-WellFormed event s w, tt)) (λ _. quiet s w)
step-IsSound p s (dropped has_files) (n, h, k, d, f) =
    if_cases IsSound has_files _ _ (λ _. ((n, h, k, (λ e. absurd (ground arith)), f), tt))
      (λ _. quiet s (n, h, k, d, f))
step-IsSound p s (clicked_direct id) w =
    if_cases IsSound p.has_direct _ _ (λ _. handle_queued_action-IsSound (direct id) s tt w)
      (λ _. quiet s w)
step-IsSound p s (clicked_discard id) w =
    if_cases IsSound p.has_discard _ _ (λ _. handle_queued_action-IsSound (discard id) s tt w)
      (λ _. quiet s w)
step-IsSound p s (clicked_menu id) w =
    if_cases IsSound s.queued_action_pending _ _ (λ _. quiet s w) (λ _. (w, tt))
step-IsSound p s (clicked_replace id) w = handle_queued_replace-IsSound p id s w
step-IsSound p s clicked_clear_all w =
    if_cases IsSound _ _ _ (λ _. handle_queued_action-IsSound clear_all s tt w) (λ _. quiet s w)
step-IsSound p s (settled ok) w = settle-IsSound ok s s.in_flight w.4 w
step-IsSound p s clicked_models w = if_cases IsSound _ _ _ (λ _. quiet s w) (λ _. (w, tt))
step-IsSound p s clicked_outside w = (w, tt)
step-IsSound p s (clicked_model combo) w =
    (w, if_cases (All IsGood) p.has_selection_change _ _ (λ _. (tt, tt)) (λ _. tt))

-- Whatever events a well-formed prompt takes, with whatever properties, it stays well-formed: at most
-- five images wait, all of a supported type and not empty, an action is pending exactly while a
-- promise is awaited, and the prompt shows that something is dragged over it while it counts a drag.
-- And every message it submits has text or an image, and at most five images, all of that kind.
pub run-IsWellFormed :
    (s : State) (events : List (Props × Event))
    → IsWellFormed s
    → IsWellFormed (run s events).0 × All IsGood (run s events).1
unfolding run
run-IsWellFormed s [] w = (w, tt)
run-IsWellFormed s ((p, event) ∷ events) w =
    let (v, g) = step-IsSound p s event w in
    let (u, h) = run-IsWellFormed (step p s event).0 events v in (u, All-append IsGood _ _ g h)
