-- ===== src/Sidebar/Layout.antt =====
-- components/sidebar-layout.tsx: the width of the sidebar, and whether it is collapsed, with their
-- storage. Widths and positions are whole pixels.
use mobile_agent.Prelude.{
  ℕ, ◌+◌, ◌-◌, Text, codes, text_eq, decimal, Bool, true, false, not, Option, none, some, List, [],
  ◌∷◌, if◌then◌else◌,
}
use mobile_agent.Prelude.Widths.{clamp, read_width}

abbrev pub sidebar_default_width : ℕ
sidebar_default_width = 260

abbrev pub sidebar_min_width : ℕ
sidebar_min_width = 200

abbrev pub sidebar_max_width : ℕ
sidebar_max_width = 420

unfoldable pub clamp_width : ℕ → ℕ
clamp_width width = clamp sidebar_min_width sidebar_max_width width

unfoldable pub read_stored_width : (Text → Option ℕ) → Option Text → ℕ
read_stored_width parse_number stored =
    read_width sidebar_min_width sidebar_max_width sidebar_default_width parse_number stored

unfoldable pub is_one : Option Text → Bool
is_one none = false
is_one (some raw) = text_eq raw (codes "1")

unfoldable pub read_stored_collapsed : Bool → Option Text → Bool
unfolding is_one
read_stored_collapsed is_mobile stored = if is_mobile then true else is_one stored

pub record SidebarLayout : Type 0 where
  pub width : ℕ
  pub collapsed : Bool
  pub stored_width : Option Text
  pub stored_collapsed : Option Text
  pub resize_start : Option (ℕ × ℕ)
  pub dragging : Bool

unfoldable pub mount : (Text → Option ℕ) → Bool → Option Text → Option Text → SidebarLayout
unfolding read_stored_width read_stored_collapsed
mount parse_number is_mobile stored_width stored_collapsed = record {
  width = read_stored_width parse_number stored_width;
  collapsed = read_stored_collapsed is_mobile stored_collapsed;
  stored_width = stored_width;
  stored_collapsed = stored_collapsed;
  resize_start = none;
  dragging = false;
}

unfoldable pub set_width : ℕ → SidebarLayout → SidebarLayout
unfolding clamp_width
set_width next s = record s {
  width = clamp_width next;
  stored_width = some (decimal (clamp_width next));
}

unfoldable pub set_collapsed : Bool → SidebarLayout → SidebarLayout
set_collapsed next s = record s {
  collapsed = next;
  stored_collapsed = some (if next then codes "1" else codes "0");
}

unfoldable pub toggle : SidebarLayout → SidebarLayout
unfolding set_collapsed
toggle s = set_collapsed (not s.collapsed) s

-- the state only, so the preference of the desktop stays
unfoldable pub close_on_mobile : Bool → SidebarLayout → SidebarLayout
close_on_mobile is_mobile s = if is_mobile then record s { collapsed = true } else s

-- The handle is at the right edge. The width is clamped, so a difference below 0 may stop at 0.
unfoldable pub move_from : Option (ℕ × ℕ) → ℕ → SidebarLayout → SidebarLayout
unfolding set_width
move_from none client_x s = s
move_from (some (x, width)) client_x s = set_width (width + client_x - x) s

pub data Event : Type 0 where
  pointer_down pointer_move : ℕ → Event
  pointer_up toggled : Event
  navigated : Bool → Event

unfoldable pub step : SidebarLayout → Event → SidebarLayout
unfolding move_from toggle close_on_mobile
step s (pointer_down client_x) = record s {
  resize_start = some (client_x, s.width);
  dragging = true;
}
step s (pointer_move client_x) = move_from s.resize_start client_x s
step s pointer_up = record s { resize_start = none; dragging = false }
step s toggled = toggle s
step s (navigated is_mobile) = close_on_mobile is_mobile s

unfoldable pub run : SidebarLayout → List Event → SidebarLayout
unfolding step
run s [] = s
run s (event ∷ events) = run (step s event) events
