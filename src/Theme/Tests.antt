-- ===== src/Theme/Tests.antt =====
-- A theme that is toggled.
use mobile_agent.Prelude.{◌≡◌, refl, true, false, none, List, [], ◌∷◌}
use mobile_agent.Theme.{ResolvedTheme, system, State, Event, media_changed, toggled, mount, run}
use mobile_agent.Theme.Agreement.{IsAgreed, run-IsAgreed}

abbrev first : State
first = record {
  theme = system;
  resolved = ResolvedTheme.light;
  ref = system;
  stored = none;
  applied = ResolvedTheme.light;
  prefers_dark = true;
}

abbrev events : List Event
events = toggled ∷ media_changed false ∷ toggled ∷ []

toggled_twice : (run events (mount first)).applied ≡ ResolvedTheme.dark
unfolding run mount
toggled_twice = refl

run-IsAgreed_example : IsAgreed (run events (mount first))
run-IsAgreed_example = run-IsAgreed events first
