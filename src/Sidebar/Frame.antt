-- ===== src/Sidebar/Frame.antt =====
-- What the sidebar keeps of its width and of being open.
use mobile_agent.Prelude.{
  ℕ, ◌+◌, ◌-◌, Text, decimal, Bool, true, false, not, Option, none, some, List, [], ◌∷◌,
  if◌then◌else◌, if_cases, arith, ◌≡◌, refl,
}
use mobile_agent.Prelude.Strings.{text_eq}
use mobile_agent.Prelude.Widths.{IsStored, clamp-IsStored, read_width-IsStored}
use mobile_agent.Sidebar.Layout.{
  clamp_width, read_stored_width, read_stored_collapsed, SidebarLayout, mount, set_width,
  set_collapsed, toggle, close_on_mobile, move_from, Event, pointer_down, pointer_move, pointer_up,
  toggled, navigated, step, run, is_one,
}

-- The width is the stored one; a sidebar that is open is stored as open.
abbrev pub IsKept : (Text → Option ℕ) → SidebarLayout → Type 0
IsKept parse_number s =
    IsStored 200 420 260 parse_number s.width s.stored_width
    × (s.collapsed ≡ false → read_stored_collapsed false s.stored_collapsed ≡ false)

module _ (parse_number : Text → Option ℕ)
    (parse_decimal : (n : ℕ) → parse_number (decimal n) ≡ some n) where
  set_collapsed-IsKept :
      (next : Bool) (s : SidebarLayout)
      → IsKept parse_number s
      → IsKept parse_number (set_collapsed next s)
  unfolding set_collapsed read_stored_collapsed is_one text_eq
  set_collapsed-IsKept true s (w, h) = (w, λ e. absurd (ground arith))
  set_collapsed-IsKept false s (w, h) = (w, λ _. refl)

  move_from-IsKept :
      (start : Option (ℕ × ℕ)) (client_x : ℕ) (s : SidebarLayout)
      → IsKept parse_number s
      → IsKept parse_number (move_from start client_x s)
  unfolding move_from set_width clamp_width
  move_from-IsKept none client_x s k = k
  move_from-IsKept (some (x, width)) client_x s (w, h) = (
    clamp-IsStored 200 420 260 (omega arith) parse_number parse_decimal (width + client_x - x),
    h,
  )

  step-IsKept :
      (s : SidebarLayout) (event : Event)
      → IsKept parse_number s
      → IsKept parse_number (step s event)
  unfolding step toggle close_on_mobile
  step-IsKept s (pointer_down client_x) k = k
  step-IsKept s (pointer_move client_x) k = move_from-IsKept s.resize_start client_x s k
  step-IsKept s pointer_up k = k
  step-IsKept s toggled k = set_collapsed-IsKept (not s.collapsed) s k
  step-IsKept s (navigated is_mobile) (w, h) =
      if_cases (IsKept parse_number) is_mobile _ _ (λ _. (w, λ e. absurd (ground arith)))
        (λ _. (w, h))

  run-IsKept_from :
      (s : SidebarLayout) (events : List Event)
      → IsKept parse_number s
      → IsKept parse_number (run s events)
  unfolding run
  run-IsKept_from s [] k = k
  run-IsKept_from s (event ∷ events) k =
      run-IsKept_from (step s event) events (step-IsKept s event k)

  -- Where `Number` reads back the numbers that `String` writes: whatever the storage held, on a phone
  -- or not, after any drags, toggles and navigations the sidebar's width is between 200 and 420
  -- pixels and the one that a reload reads, and a sidebar that is open is one that a reload on
  -- a desktop opens.
  pub run-IsKept_layout :
      (is_mobile : Bool) (stored_width stored_collapsed : Option Text) (events : List Event)
      → IsKept parse_number
          (run (mount parse_number is_mobile stored_width stored_collapsed) events)
  unfolding mount read_stored_width read_stored_collapsed
  run-IsKept_layout is_mobile stored_width stored_collapsed events =
      run-IsKept_from (mount parse_number is_mobile stored_width stored_collapsed) events (
        read_width-IsStored 200 420 260 (omega arith) parse_number stored_width (omega arith)
            (omega arith),
        shown is_mobile (is_one stored_collapsed),
      )
    where
      shown : (m b : Bool) → (if m then true else b) ≡ false → b ≡ false
      shown true b e = absurd (ground arith)
      shown false b e = e
