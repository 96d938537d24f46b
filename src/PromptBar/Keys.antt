-- ===== src/PromptBar/Keys.antt =====
-- What the keys of the input submit.
use mobile_agent.Prelude.{
  ◌<◌, Text, filled, trim, ◌≡◌, refl, Bool, true, false, Option, none, some, [], ◌∷◌, length, arith,
  Bool-cases, inl, inr, ltb, is_some, if◌then◌else◌,
}
use mobile_agent.PromptBar.{Key, arrow_down, arrow_up, tab, enter, escape, other}
use mobile_agent.PromptBar.Input.{
  FileContext, Completions, Input, Outcome, command_query, shows_commands, command_key, file_key,
  plain_key, handle_key_down, submit_command, submit_query, suggestion_key, loading_key,
  completion_key, or_plain,
}

abbrev pub IsSubmit : Key → Input → Option Text → Type 0
IsSubmit key s none = Unit
IsSubmit key s (some t) = (key ≡ enter) × (s.query ≡ []) × (0 < length t)

abbrev IsGoodOutcome : Key → Option Outcome → Type 0
IsGoodOutcome key none = Unit
IsGoodOutcome key (some o) = IsSubmit key o.input o.submitted

module _ (ext : Completions) where
  command_key-IsSubmit : (key : Key) (s : Input) → IsGoodOutcome key (command_key ext key s)
  unfolding command_key submit_command
  command_key-IsSubmit enter s = go (ext.command_at (command_query s.query) s.command_index)
    where
      go :
          (o : Option Text)
          → IsSubmit enter (submit_command ext s o).input (submit_command ext s o).submitted
      go none = tt
      go (some name) = (refl, refl, omega arith)
  command_key-IsSubmit arrow_down s = tt
  command_key-IsSubmit arrow_up s = tt
  command_key-IsSubmit tab s = tt
  command_key-IsSubmit escape s = tt
  command_key-IsSubmit other s = tt

  plain_key-IsSubmit :
      (key : Key) (shift : Bool) (s : Input)
      → IsSubmit key (plain_key ext key shift s).input (plain_key ext key shift s).submitted
  unfolding plain_key submit_query
  plain_key-IsSubmit enter true s = tt
  plain_key-IsSubmit enter false s = go (trim s.query)
    where
      go :
          (t : Text)
          → IsSubmit enter
              (submit_query ext s (filled t)).input
              (submit_query ext s (filled t)).submitted
      go [] = tt
      go (c ∷ t) = (refl, refl, omega arith)
  plain_key-IsSubmit arrow_down shift s = tt
  plain_key-IsSubmit arrow_up shift s = tt
  plain_key-IsSubmit tab shift s = tt
  plain_key-IsSubmit escape shift s = tt
  plain_key-IsSubmit other shift s = tt

  suggestion_key-IsSubmit :
      (context : FileContext) (key : Key) (s : Input)
      → IsGoodOutcome key (suggestion_key ext context key s)
  unfolding suggestion_key
  suggestion_key-IsSubmit context enter s = tt
  suggestion_key-IsSubmit context arrow_down s = tt
  suggestion_key-IsSubmit context arrow_up s = tt
  suggestion_key-IsSubmit context tab s = tt
  suggestion_key-IsSubmit context escape s = tt
  suggestion_key-IsSubmit context other s = tt

  loading_key-IsSubmit :
      (files_loading : Bool) (context : FileContext) (key : Key) (s : Input)
      → IsGoodOutcome key (loading_key ext files_loading context key s)
  unfolding loading_key
  loading_key-IsSubmit true context enter s = tt
  loading_key-IsSubmit false context enter s = tt
  loading_key-IsSubmit true context tab s = tt
  loading_key-IsSubmit false context tab s = tt
  loading_key-IsSubmit files_loading context arrow_down s = tt
  loading_key-IsSubmit files_loading context arrow_up s = tt
  loading_key-IsSubmit files_loading context escape s = tt
  loading_key-IsSubmit files_loading context other s = tt

  file_key-IsSubmit :
      (files_loading : Bool) (context : FileContext) (key : Key) (s : Input)
      → IsGoodOutcome key (file_key ext files_loading context key s)
  unfolding file_key
  file_key-IsSubmit files_loading context key s =
      elim (Bool-cases (ltb 0 (length (ext.suggestions context)))) [
        | inl e ↦
            rw e (either (suggestion_key ext context key s) (suggestion_key-IsSubmit context key s))
        | inr e ↦ rw e (loading_key-IsSubmit files_loading context key s)
      ]
    where
      either :
          (o : Option Outcome)
          → IsGoodOutcome key o
          → IsGoodOutcome key (if is_some o then o else loading_key ext files_loading context key s)
      either none h = loading_key-IsSubmit files_loading context key s
      either (some o) h = h

  completion_key-IsSubmit :
      (commands files_loading : Bool) (key : Key) (s : Input) (context : Option FileContext)
      → IsGoodOutcome key (completion_key ext commands files_loading key s context)
  unfolding completion_key
  completion_key-IsSubmit true files_loading key s none = command_key-IsSubmit key s
  completion_key-IsSubmit false files_loading key s none = tt
  completion_key-IsSubmit true files_loading key s (some context) = command_key-IsSubmit key s
  completion_key-IsSubmit false files_loading key s (some context) =
      file_key-IsSubmit files_loading context key s

  or_plain-IsSubmit :
      (key : Key) (shift : Bool) (s : Input) (o : Option Outcome)
      → IsGoodOutcome key o
      → IsSubmit key (or_plain ext key shift s o).input (or_plain ext key shift s o).submitted
  unfolding or_plain
  or_plain-IsSubmit key shift s none h = plain_key-IsSubmit key shift s
  or_plain-IsSubmit key shift s (some o) h = h

  -- The input submits only on Enter while no approval is pending; what it submits is not empty, and
  -- the input is empty then.
  pub handle_key_down-IsSubmit :
      (pending files_loading : Bool) (key : Key) (shift : Bool) (s : Input)
      → IsSubmit key
          (handle_key_down ext pending files_loading key shift s).input
          (handle_key_down ext pending files_loading key shift s).submitted
        × (pending ≡ true
            → handle_key_down ext pending files_loading key shift s
              ≡ record { input = s; submitted = none })
  unfolding handle_key_down
  handle_key_down-IsSubmit true files_loading key shift s = (tt, λ _. refl)
  handle_key_down-IsSubmit false files_loading key shift s = (
    or_plain-IsSubmit key shift s
        (completion_key ext (shows_commands false s.query) files_loading key s
          (ext.file_context s.query s.cursor))
        (completion_key-IsSubmit (shows_commands false s.query) files_loading key s
          (ext.file_context s.query s.cursor)),
    λ h. absurd (ground arith),
  )
