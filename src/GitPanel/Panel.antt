-- ===== src/GitPanel/Panel.antt =====
-- components/agents/AgentGitPanel.tsx: the panel itself, which a drag makes wider, and which opens when
-- a pull request arrives. Widths and positions are whole pixels.
use mobile_agent.Prelude.{
  ℕ, ◌+◌, ◌-◌, Text, text_eq, decimal, Bool, true, false, not, ◌&&◌, Option, none, some, List, [],
  ◌∷◌, if◌then◌else◌,
}
use mobile_agent.Prelude.Widths.{clamp, read_width}

abbrev pub panel_default_width : ℕ
panel_default_width = 420

abbrev pub panel_min_width : ℕ
panel_min_width = 320

abbrev pub panel_max_width : ℕ
panel_max_width = 720

unfoldable pub clamp_width : ℕ → ℕ
clamp_width width = clamp panel_min_width panel_max_width width

unfoldable pub read_stored_panel_width : (Text → Option ℕ) → Option Text → ℕ
read_stored_panel_width parse_number stored =
    read_width panel_min_width panel_max_width panel_default_width parse_number stored

pub record Panel : Type 0 where
  pub width : ℕ
  pub stored_width : Option Text
  pub resize_start : Option (ℕ × ℕ)
  pub dragging : Bool
  pub collapsed : Bool
  pub full_screen : Bool
  pub seen_thread : Text
  pub seen_pr : Bool

unfoldable pub open_panel : (Text → Option ℕ) → Option Text → Text → Bool → Panel
unfolding read_stored_panel_width
open_panel parse_number stored thread_id has_pr = record {
  width = read_stored_panel_width parse_number stored;
  stored_width = stored;
  resize_start = none;
  dragging = false;
  collapsed = true;
  full_screen = false;
  seen_thread = thread_id;
  seen_pr = has_pr;
}

unfoldable pub set_width : ℕ → Panel → Panel
unfolding clamp_width
set_width next s = record s {
  width = clamp_width next;
  stored_width = some (decimal (clamp_width next));
}

-- The handle is at the left edge. The width is clamped, so a difference below 0 may stop at 0.
unfoldable pub move_from : Option (ℕ × ℕ) → ℕ → Panel → Panel
unfolding set_width
move_from none client_x s = s
move_from (some (x, width)) client_x s = set_width (width + x - client_x) s

-- what a draw does with the thread that it shows
unfoldable pub on_render : Text → Bool → Panel → Panel
on_render thread_id has_pr s =
    if not (text_eq s.seen_thread thread_id)
    then record s { seen_thread = thread_id; seen_pr = has_pr; collapsed = true }
    else if has_pr && not s.seen_pr
    then record s { seen_pr = true; collapsed = false }
    else s

pub data Event : Type 0 where
  pointer_down pointer_move : ℕ → Event
  pointer_up expand collapse toggle_full_screen : Event
  render : Text → Bool → Event

unfoldable pub step : Panel → Event → Panel
unfolding move_from on_render
step s (pointer_down client_x) = record s {
  resize_start = some (client_x, s.width);
  dragging = true;
}
step s (pointer_move client_x) = move_from s.resize_start client_x s
step s pointer_up = record s { resize_start = none; dragging = false }
step s expand = record s { collapsed = false }
step s collapse = record s { full_screen = false; collapsed = true }
step s toggle_full_screen = record s { full_screen = not s.full_screen }
step s (render thread_id has_pr) = on_render thread_id has_pr s

unfoldable pub run : Panel → List Event → Panel
unfolding step
run s [] = s
run s (event ∷ events) = run (step s event) events
