-- ===== src/Cards.antt =====
-- components/agents/ported: what the cards of a tool show. `Slack` is the text of ReplyCard.tsx; here
-- are ToolExecution.tsx, ShellCommand.tsx and TodoList.tsx.
pub mod Slack
pub mod Tokens
pub mod Picker
mod Tests
use mobile_agent.Prelude.{
  ℕ, zero, suc, ◌-◌, ltb, Text, codes, is_empty, filled, Bool, true, false, not, ◌||◌, ◌&&◌, Option,
  none, some, ◌<|>◌, List, [], ◌∷◌, ◌++◌, length, take, drop, filter, value_or, if◌then◌else◌,
}
use mobile_agent.Prelude.Strings.{starts_with, split, replace_all}
use mobile_agent.Types.{
  ToolKind, read, edit, delete, move, search_tool, execute, think, fetch, slack, linear, task,
  other, ToolStatus, pending, in_progress, completed, error, TodoItem, TodoStatus,
}

-- the fields of a tool's input that are read, as texts
pub record ToolInput : Type 0 where
  pub path : Option Text
  pub pattern : Option Text
  pub query : Option Text
  pub url : Option Text
  pub command : Option Text

strip_prefix_of : Text → Text → Text
strip_prefix_of [] path = path
strip_prefix_of (c ∷ project_path) path =
    if not (starts_with path (c ∷ project_path))
    then path
    else (if starts_with (drop (length (c ∷ project_path)) path) (codes "/")
        then codes "."
        else codes "./")
      ++ drop (length (c ∷ project_path)) path

unfoldable pub strip_project_path : Text → Option Text → Text
unfolding strip_prefix_of
strip_project_path path none = path
strip_project_path path (some project_path) = strip_prefix_of project_path path

last_filled : List Text → Text → Text
last_filled [] path = path
last_filled (part ∷ []) path = part
last_filled (part ∷ next ∷ parts) path = last_filled (next ∷ parts) path

unfoldable pub get_file_name : Text → Text
unfolding last_filled
get_file_name path =
    last_filled (filter (λ part. not (is_empty part)) (split b'/' (replace_all 92 b'/' path))) path

-- the first `n` units, and dots if there are more
unfoldable pub shortened : ℕ → Text → Text
shortened n t = if ltb n (length t) then take n t ++ codes "..." else t

abbrev quote : Text
quote = 34 ∷ []

read_display : Text → Option Text → Option Text → Text
read_display title none project_path = title
read_display title (some []) project_path = title
read_display title (some (c ∷ path)) project_path =
    codes "Read(" ++ strip_project_path (c ∷ path) project_path ++ codes ")"

query_display : Text → Option Text → Text
unfolding shortened
query_display title none = title
query_display title (some []) = title
query_display title (some (c ∷ query)) =
    codes "Search(" ++ quote ++ shortened 40 (c ∷ query) ++ quote ++ codes ")"

search_display : Text → Option Text → Option Text → Text
unfolding query_display
search_display title (some (c ∷ pattern)) query = query_display title (some (c ∷ pattern))
search_display title _ query = query_display title query

fetch_display : Text → Option Text → Text
unfolding shortened
fetch_display title none = title
fetch_display title (some []) = title
fetch_display title (some (c ∷ url)) = codes "Fetch(" ++ shortened 50 (c ∷ url) ++ codes ")"

execute_display : Text → Option Text → Text
unfolding shortened
execute_display title none = title
execute_display title (some []) = title
execute_display title (some (c ∷ command)) =
    codes "Shell(" ++ shortened 60 (c ∷ command) ++ codes ")"

unfoldable pub format_tool_display : Text → ToolKind → ToolInput → Option Text → Text
unfolding read_display search_display fetch_display execute_display
format_tool_display title read input project_path = read_display title input.path project_path
format_tool_display title search_tool input project_path =
    search_display title input.pattern input.query
format_tool_display title fetch input project_path = fetch_display title input.url
format_tool_display title execute input project_path = execute_display title input.command
format_tool_display title think input project_path = codes "Thinking..."
format_tool_display title _ input project_path = title

unfoldable pub get_header_text : Option Text → ToolStatus → Text
unfolding shortened
get_header_text command in_progress = codes "Running " ++ shortened 80 (value_or command [])
get_header_text command pending = codes "Run " ++ shortened 80 (value_or command [])
get_header_text command _ =
    codes "Background terminal finished with " ++ shortened 80 (value_or command [])

-- whether a command starts collapsed
unfoldable pub is_settled : ToolStatus → Bool
is_settled completed = true
is_settled error = true
is_settled _ = false

todo_is_active : TodoItem → Bool
todo_is_active todo = go todo.status
  where
    go : TodoStatus → Bool
    go TodoStatus.in_progress = true
    go _ = false

todo_is_completed : TodoItem → Bool
todo_is_completed todo = go todo.status
  where
    go : TodoStatus → Bool
    go TodoStatus.completed = true
    go _ = false

unfoldable pub first_active : List TodoItem → Option ℕ
unfolding todo_is_active
first_active [] = none
first_active (todo ∷ todos) =
    let rest = first_active todos in if todo_is_active todo then some 0 else next_index rest
  where
    next_index : Option ℕ → Option ℕ
    next_index none = none
    next_index (some i) = some (suc i)

-- the task that is scrolled to, if there are tasks
unfoldable pub target_index : List TodoItem → ℕ
unfolding first_active
target_index todos = value_or (first_active todos) (length todos - 1)

unfoldable pub completed_count : List TodoItem → ℕ
unfolding todo_is_completed
completed_count todos = length (filter todo_is_completed todos)

pub record TodoPanel : Type 0 where
  pub collapsed : Bool
  pub prev_run_active : Bool

-- the effect on `runActive`: the end of a run collapses the list
unfoldable pub on_run_active : Bool → TodoPanel → TodoPanel
on_run_active run_active s = record {
  collapsed = s.prev_run_active && not run_active || s.collapsed;
  prev_run_active = run_active;
}
