-- ===== src/PromptBar/Input.antt =====
-- components/agents/ported/PromptBar.tsx: the keys of the input. What it takes from the modules for
-- commands and files, which the repository lacks, is the parameter `ext`.
use mobile_agent.Prelude.{
  ℕ, ◌==◌, Text, codes, filled, trim, Bool, false, not, ◌&&◌, ◌||◌, Option, none, some, List, [],
  ◌∷◌, ◌++◌, take, length, if◌then◌else◌, is_some, ltb,
}
use mobile_agent.Prelude.Strings.{is_space}
use mobile_agent.PromptBar.{
  Key, arrow_down, arrow_up, tab, enter, escape, next_index, previous_index, at_index,
}

-- `none` is a position below 0
pub record FileContext : Type 0 where
  pub position : Option ℕ
  pub token_end : ℕ
  pub file_query : Text

pub record Completions : Type 0 where
  pub command_count : Text → ℕ
  pub command_at : Text → Option ℕ → Option Text
  pub file_context : Text → ℕ → Option FileContext
  pub suggestions : FileContext → List Text
  pub insert_file_tag : Text → Text → FileContext → Text × ℕ

pub record Input : Type 0 where
  pub query : Text
  pub cursor : ℕ
  pub command_index : Option ℕ
  pub file_index : Option ℕ

-- the input after a key, and the text that `onSubmit` is called with
pub record Outcome : Type 0 where
  pub input : Input
  pub submitted : Option Text

unfoldable pub up_to_space : Text → Text
up_to_space [] = []
up_to_space (c ∷ s) = if is_space c then [] else c ∷ up_to_space s

abbrev pub is_typing_command : Text → Bool
is_typing_command [] = false
is_typing_command (c ∷ s) = c == b'/'

unfoldable pub command_query : Text → Text
unfolding up_to_space
command_query [] = []
command_query (c ∷ s) = if c == b'/' then up_to_space s else []

abbrev has_space : Text → Bool
has_space [] = false
has_space (c ∷ s) = c == 32 || has_space s

abbrev pub shows_commands : Bool → Text → Bool
shows_commands pending query = not pending && is_typing_command query && not (has_space query)

abbrev drop_units : ℕ → Text → Text
drop_units Prim.Native.Nat.zero t = t
drop_units (Prim.Native.Nat.suc n) [] = []
drop_units (Prim.Native.Nat.suc n) (c ∷ t) = drop_units n t

abbrev pub stay : Input → Option Outcome
stay s = some (record { input = s; submitted = none })

module _ (ext : Completions) where
  unfoldable pub select_command : Input → Option Text → Input
  select_command s none = s
  select_command s (some name) = record s { query = codes "/" ++ name ++ codes " " }

  unfoldable pub submit_command : Input → Option Text → Outcome
  submit_command s none = record { input = s; submitted = none }
  submit_command s (some name) = record {
    input = record s { query = [] };
    submitted = some (codes "/" ++ name);
  }

  -- the keys while commands are offered; `none` lets the key through
  unfoldable pub command_key : Key → Input → Option Outcome
  unfolding select_command submit_command
  command_key arrow_down s = stay (record s {
    command_index = next_index (ext.command_count (command_query s.query)) s.command_index;
  })
  command_key arrow_up s = stay (record s {
    command_index = previous_index (ext.command_count (command_query s.query)) s.command_index;
  })
  command_key tab s =
      stay (select_command s (ext.command_at (command_query s.query) s.command_index))
  command_key escape s = stay (record s { query = [] })
  command_key enter s =
      some (submit_command s (ext.command_at (command_query s.query) s.command_index))
  command_key _ s = none

  unfoldable pub select_file : FileContext → Input → Option Text → Input
  select_file context s none = s
  select_file context s (some []) = s
  select_file context s (some (c ∷ path)) =
      let (next_query, next_cursor) = ext.insert_file_tag s.query (c ∷ path) context in
      record s { query = next_query; cursor = next_cursor }

  unfoldable pub remove_token : FileContext → Input → Option ℕ → Input
  remove_token context s none = s
  remove_token context s (some position) = record s {
    query = take position s.query ++ drop_units context.token_end s.query;
    cursor = length (take position s.query);
  }

  unfoldable pub suggestion_key : FileContext → Key → Input → Option Outcome
  unfolding select_file
  suggestion_key context arrow_down s =
      stay (record s { file_index = next_index (length (ext.suggestions context)) s.file_index })
  suggestion_key context arrow_up s =
      stay
        (record s { file_index = previous_index (length (ext.suggestions context)) s.file_index })
  suggestion_key context tab s =
      stay (select_file context s (at_index (ext.suggestions context) s.file_index))
  suggestion_key context enter s =
      stay (select_file context s (at_index (ext.suggestions context) s.file_index))
  suggestion_key context _ s = none

  -- the keys that follow, while files are offered
  unfoldable pub loading_key : Bool → FileContext → Key → Input → Option Outcome
  unfolding remove_token
  loading_key files_loading context enter s = if files_loading then stay s else none
  loading_key files_loading context tab s = if files_loading then stay s else none
  loading_key files_loading context escape s = stay (remove_token context s context.position)
  loading_key files_loading context _ s = none

  unfoldable pub file_key : Bool → FileContext → Key → Input → Option Outcome
  unfolding suggestion_key loading_key
  file_key files_loading context key s =
      let offered =
        (if ltb 0 (length (ext.suggestions context)) then suggestion_key context key s else none) in
      if is_some offered then offered else loading_key files_loading context key s

  unfoldable pub submit_query : Input → Option Text → Outcome
  submit_query s none = record { input = s; submitted = none }
  submit_query s (some content) = record {
    input = record s { query = [] };
    submitted = some content;
  }

  unfoldable pub plain_key : Key → Bool → Input → Outcome
  unfolding submit_query
  plain_key enter shift s = submit_query s (if shift then none else filled (trim s.query))
  plain_key _ shift s = record { input = s; submitted = none }

  unfoldable pub or_plain : Key → Bool → Input → Option Outcome → Outcome
  unfolding plain_key
  or_plain key shift s none = plain_key key shift s
  or_plain key shift s (some o) = o

  unfoldable pub completion_key : Bool → Bool → Key → Input → Option FileContext → Option Outcome
  unfolding command_key file_key
  completion_key commands files_loading key s none = if commands then command_key key s else none
  completion_key commands files_loading key s (some context) =
      if commands then command_key key s else file_key files_loading context key s

  -- `handleKeyDown` of the input
  unfoldable pub handle_key_down : Bool → Bool → Key → Bool → Input → Outcome
  unfolding or_plain completion_key
  handle_key_down pending files_loading key shift s =
      if pending
      then record { input = s; submitted = none }
      else or_plain key shift s (
          completion_key (shows_commands pending s.query) files_loading key s
            (ext.file_context s.query s.cursor))
