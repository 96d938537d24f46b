-- ===== src/Theme.antt =====
-- lib/theme.ts: the theme as a state with the storage and the class of the document, and its events.
pub mod Agreement
mod Tests
use mobile_agent.Prelude.{Bool, true, false, Option, none, some, List, [], ◌∷◌, if◌then◌else◌}

pub data Theme : Type 0 where
  light dark system : Theme

pub data ResolvedTheme : Type 0 where
  light dark : ResolvedTheme

-- `systemPrefersDark() ? "dark" : "light"`
unfoldable pub system_theme : Bool → ResolvedTheme
system_theme prefers_dark = if prefers_dark then ResolvedTheme.dark else ResolvedTheme.light

unfoldable pub resolve_theme : Bool → Theme → ResolvedTheme
unfolding system_theme
resolve_theme prefers_dark system = system_theme prefers_dark
resolve_theme prefers_dark Theme.light = ResolvedTheme.light
resolve_theme prefers_dark Theme.dark = ResolvedTheme.dark

-- The state of the hook and what it shares: `ref` is `themeRef`, `stored` the entry of the local
-- storage if it is a theme, `applied` the class and the color scheme of the document, and
-- `prefers_dark` the answer of the media query.
pub record State : Type 0 where
  pub theme : Theme
  pub resolved : ResolvedTheme
  pub ref : Theme
  pub stored : Option Theme
  pub applied : ResolvedTheme
  pub prefers_dark : Bool

-- `isTheme(stored) ? stored : "system"`
abbrev pub read_stored_theme : Option Theme → Theme
read_stored_theme none = system
read_stored_theme (some theme) = theme

-- the effect that runs when the hook is mounted
unfoldable pub mount : State → State
unfolding resolve_theme
mount s = record s {
  ref = read_stored_theme s.stored;
  theme = read_stored_theme s.stored;
  resolved = resolve_theme s.prefers_dark (read_stored_theme s.stored);
  applied = resolve_theme s.prefers_dark (read_stored_theme s.stored);
}

abbrev is_system : Theme → Bool
is_system system = true
is_system _ = false

-- `onChange`, when the system's preference becomes `prefers_dark`
unfoldable pub on_change : Bool → State → State
unfolding system_theme
on_change prefers_dark s =
    if is_system s.ref
    then record s {
      resolved = system_theme prefers_dark;
      applied = system_theme prefers_dark;
      prefers_dark = prefers_dark;
    }
    else record s { prefers_dark = prefers_dark }

unfoldable pub set_theme : Theme → State → State
unfolding resolve_theme
set_theme next s = record s {
  stored = some next;
  ref = next;
  theme = next;
  resolved = resolve_theme s.prefers_dark next;
  applied = resolve_theme s.prefers_dark next;
}

abbrev opposite : ResolvedTheme → Theme
opposite ResolvedTheme.dark = Theme.light
opposite ResolvedTheme.light = Theme.dark

unfoldable pub toggle_theme : State → State
unfolding set_theme
toggle_theme s = set_theme (opposite s.resolved) s

pub data Event : Type 0 where
  media_changed : Bool → Event
  theme_set : Theme → Event
  toggled : Event

unfoldable pub step : Event → State → State
unfolding on_change set_theme toggle_theme
step (media_changed prefers_dark) s = on_change prefers_dark s
step (theme_set next) s = set_theme next s
step toggled s = toggle_theme s

unfoldable pub run : List Event → State → State
unfolding step
run [] s = s
run (event ∷ events) s = run events (step event s)
