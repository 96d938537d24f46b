-- ===== src/GitPanel/Width.antt =====
-- What the panel keeps of its width, and when it opens.
use mobile_agent.Prelude.{
  ℕ, ◌+◌, ◌-◌, Text, text_eq, text_eq_refl, decimal, Bool, true, false, not, ◌&&◌, Option, none,
  some, List, [], ◌∷◌, Bool-cases, if_cases, inl, inr, arith, ◌≡◌, refl,
}
use mobile_agent.Prelude.Widths.{IsStored, clamp-IsStored, read_width-IsStored}
use mobile_agent.GitPanel.Panel.{
  clamp_width, read_stored_panel_width, Panel, open_panel, set_width, move_from, on_render, Event,
  pointer_down, pointer_move, pointer_up, expand, collapse, toggle_full_screen, render, step, run,
}

abbrev pub IsKept : (Text → Option ℕ) → Panel → Type 0
IsKept parse_number s = IsStored 320 720 420 parse_number s.width s.stored_width

module _ (parse_number : Text → Option ℕ)
    (parse_decimal : (n : ℕ) → parse_number (decimal n) ≡ some n) where
  set_width-IsKept : (next : ℕ) (s : Panel) → IsKept parse_number (set_width next s)
  unfolding set_width clamp_width
  set_width-IsKept next s = clamp-IsStored 320 720 420 (omega arith) parse_number parse_decimal next

  step-IsKept :
      (s : Panel) (event : Event) → IsKept parse_number s → IsKept parse_number (step s event)
  unfolding step on_render
  step-IsKept s (pointer_down client_x) k = k
  step-IsKept s (pointer_move client_x) k = go s.resize_start
    where
      go : (start : Option (ℕ × ℕ)) → IsKept parse_number (move_from start client_x s)
      go none = k
      go (some (x, width)) = set_width-IsKept (width + x - client_x) s
  step-IsKept s pointer_up k = k
  step-IsKept s expand k = k
  step-IsKept s collapse k = k
  step-IsKept s toggle_full_screen k = k
  step-IsKept s (render thread_id has_pr) k =
      if_cases (IsKept parse_number) (not (text_eq s.seen_thread thread_id)) _ _ (λ _. k)
        (λ _. if_cases (IsKept parse_number) (has_pr && not s.seen_pr) _ _ (λ _. k) (λ _. k))

  run-IsKept_from :
      (s : Panel) (events : List Event) → IsKept parse_number s → IsKept parse_number (run s events)
  unfolding run
  run-IsKept_from s [] k = k
  run-IsKept_from s (event ∷ events) k =
      run-IsKept_from (step s event) events (step-IsKept s event k)

  -- Where `Number` reads back the numbers that `String` writes, the panel's width stays between 320 and
  -- 720 pixels whatever the storage held, whatever is dragged and whatever thread is shown, and
  -- a reload of the page reads the same width again.
  pub run-IsKept :
      (stored : Option Text) (thread_id : Text) (has_pr : Bool) (events : List Event)
      → IsKept parse_number (run (open_panel parse_number stored thread_id has_pr) events)
  unfolding open_panel read_stored_panel_width
  run-IsKept stored thread_id has_pr events =
      run-IsKept_from (open_panel parse_number stored thread_id has_pr) events (
        read_width-IsStored 320 720 420 (omega arith) parse_number stored (omega arith)
          (omega arith))

-- What a draw sets for a thread is settled after one more draw: drawn again with the same thread it
-- sets nothing, so React's loop of draws ends. A thread that is not the last one closes the panel,
-- and a pull request that arrives for the same thread opens it.
pub on_render-settles :
    (thread_id : Text) (has_pr : Bool) (s : Panel)
    → (on_render thread_id has_pr (on_render thread_id has_pr s) ≡ on_render thread_id has_pr s)
      × (text_eq s.seen_thread thread_id ≡ false → (on_render thread_id has_pr s).collapsed ≡ true)
      × (text_eq s.seen_thread thread_id ≡ true
          → has_pr ≡ true
          → s.seen_pr ≡ false
          → (on_render thread_id has_pr s).collapsed ≡ false)
unfolding on_render
on_render-settles thread_id false s = elim (Bool-cases (text_eq s.seen_thread thread_id)) [
  | inr e ↦ rw (e, text_eq_refl thread_id) (refl, (λ _. refl), λ h. absurd (ground arith))
  | inl e ↦ rw (e, e) (refl, (λ h. absurd (ground arith)), λ _ h. absurd (ground arith))
]
on_render-settles thread_id true s = elim (Bool-cases (text_eq s.seen_thread thread_id)) [
  | inr e ↦ rw (e, text_eq_refl thread_id) (refl, (λ _. refl), λ h. absurd (ground arith))
  | inl e ↦ elim (Bool-cases s.seen_pr) [
    | inl f ↦ rw (e, f, e) (refl, (λ h. absurd (ground arith)), λ _ _ h. absurd (ground arith))
    | inr f ↦ rw (e, f, e) (refl, (λ h. absurd (ground arith)), λ _ _ _. refl)
  ]
]
