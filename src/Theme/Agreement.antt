-- ===== src/Theme/Agreement.antt =====
-- How the parts of the theme's state belong together.
use mobile_agent.Prelude.{◌≡◌, ◌≢◌, refl, Bool, Option, List, [], ◌∷◌, arith, ◌∙◌}
use mobile_agent.Theme.{
  Theme, ResolvedTheme, system, State, read_stored_theme, resolve_theme, mount, on_change,
  set_theme, toggle_theme, Event, media_changed, theme_set, toggled, step, run,
}

-- What is shown and applied is what the theme resolves to, which is the stored one.
pub record IsAgreed (s : State) : Type 0 where
  pub resolves : s.resolved ≡ resolve_theme s.prefers_dark s.theme
  pub applies : s.applied ≡ s.resolved
  pub refers : s.ref ≡ s.theme
  pub stores : read_stored_theme s.stored ≡ s.theme

mount-IsAgreed : (s : State) → IsAgreed (mount s)
unfolding mount
mount-IsAgreed s = record { resolves = refl; applies = refl; refers = refl; stores = refl }

set_theme-IsAgreed : (next : Theme) (s : State) → IsAgreed (set_theme next s)
unfolding set_theme
set_theme-IsAgreed next s = record { resolves = refl; applies = refl; refers = refl; stores = refl }

state : Theme → Theme → ResolvedTheme → ResolvedTheme → Option Theme → Bool → State
state theme ref resolved applied stored prefers_dark = record {
  theme = theme;
  resolved = resolved;
  ref = ref;
  stored = stored;
  applied = applied;
  prefers_dark = prefers_dark;
}

-- only the system's theme depends on the preference
fixed :
    (p q : Bool) (theme ref : Theme)
    → ref ≡ theme
    → ref ≢ system
    → resolve_theme q theme ≡ resolve_theme p theme
unfolding resolve_theme
fixed p q theme Theme.light e h = rw (← e) refl
fixed p q theme Theme.dark e h = rw (← e) refl
fixed p q theme system e h = absurd (h refl)

on_change-state :
    (p q : Bool) (theme ref : Theme) (resolved applied : ResolvedTheme) (stored : Option Theme)
    → IsAgreed (state theme ref resolved applied stored q)
    → IsAgreed (on_change p (state theme ref resolved applied stored q))
unfolding on_change state resolve_theme
on_change-state p q theme system resolved applied stored h = record {
  resolves = rw (← h.refers) refl;
  applies = refl;
  refers = h.refers;
  stores = h.stores;
}
on_change-state p q theme Theme.light resolved applied stored h = record {
  resolves = h.resolves ∙ fixed p q theme Theme.light h.refers (λ e. absurd (ground arith));
  applies = h.applies;
  refers = h.refers;
  stores = h.stores;
}
on_change-state p q theme Theme.dark resolved applied stored h = record {
  resolves = h.resolves ∙ fixed p q theme Theme.dark h.refers (λ e. absurd (ground arith));
  applies = h.applies;
  refers = h.refers;
  stores = h.stores;
}

on_change-IsAgreed :
    (prefers_dark : Bool) (s : State) → IsAgreed s → IsAgreed (on_change prefers_dark s)
unfolding state
on_change-IsAgreed prefers_dark s h =
    on_change-state prefers_dark s.prefers_dark s.theme s.ref s.resolved s.applied s.stored h

step-IsAgreed : (event : Event) (s : State) → IsAgreed s → IsAgreed (step event s)
unfolding step toggle_theme
step-IsAgreed (media_changed prefers_dark) s h = on_change-IsAgreed prefers_dark s h
step-IsAgreed (theme_set next) s h = set_theme-IsAgreed next s
step-IsAgreed toggled s h = set_theme-IsAgreed _ s

run_from : (events : List Event) (s : State) → IsAgreed s → IsAgreed (run events s)
unfolding run
run_from [] s h = h
run_from (event ∷ events) s h = run_from events (step event s) (step-IsAgreed event s h)

-- After the hook is mounted, whatever the user and the system do, the document shows what the
-- chosen theme resolves to for the system's preference, and that theme is the stored one.
pub run-IsAgreed : (events : List Event) (s : State) → IsAgreed (run events (mount s))
run-IsAgreed events s = run_from events (mount s) (mount-IsAgreed s)
