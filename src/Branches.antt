-- ===== src/Branches.antt =====
-- components/agents/ported/BranchSelector.tsx: the selector of branches. What git replies to a request
-- is an event of its own, which may come after others.
pub mod Requests
use mobile_agent.Prelude.{
  Text, codes, text_eq, is_empty, trim, Bool, true, false, not, ◌||◌, Option, none, some, List, [],
  ◌∷◌, filter, if◌then◌else◌, value_or,
}
use mobile_agent.Prelude.Strings.{includes, to_lower_case}

pub record Selector : Type 0 where
  pub is_open : Bool
  pub branches : List Text
  pub loading : Bool
  pub search_query : Text
  pub new_branch_name : Text
  pub show_new_branch_input : Bool
  pub error : Option Text

pub data Request : Type 0 where
  list_branches : Request
  switch_branch create_branch : Text → Request

-- the reply to a list, which may be rejected, and to a change, with its error
pub data Reply : Type 0 where
  listed : Option (List Text) → Reply
  switched created : Bool → Option Text → Reply

pub data Key : Type 0 where
  escape enter other_key : Key

pub data Event : Type 0 where
  clicked_button : Event
  clicked_branch : Text → Event
  clicked_create : Event
  clicked_new : Event
  typed_search typed_name : Text → Event
  pressed : Key → Event
  replied : Reply → Event

unfoldable pub filtered_branches : Selector → List Text
filtered_branches s =
    if is_empty (trim s.search_query)
    then s.branches
    else filter (λ branch. includes (to_lower_case branch) (to_lower_case s.search_query))
        s.branches

unfoldable pub handle_open : Selector → Selector × Option Request
handle_open s = (
  record s {
    is_open = true;
    show_new_branch_input = false;
    new_branch_name = [];
    search_query = [];
    loading = true;
    error = none;
  },
  some list_branches,
)

unfoldable pub handle_close : Selector → Selector
handle_close s = record s {
  is_open = false;
  show_new_branch_input = false;
  new_branch_name = [];
  search_query = [];
  error = none;
}

-- `current` is the branch of the worktree
unfoldable pub handle_switch_branch : Text → Text → Selector → Selector × Option Request
unfolding handle_close
handle_switch_branch current branch_name s =
    if text_eq branch_name current
    then (handle_close s, none)
    else (record s { loading = true; error = none }, some (switch_branch branch_name))

unfoldable pub handle_create_branch : Selector → Selector × Option Request
handle_create_branch s =
    if is_empty (trim s.new_branch_name)
    then (s, none)
    else (record s { loading = true; error = none }, some (create_branch (trim s.new_branch_name)))

-- an empty error counts as none
error_or : Option Text → Text → Text
error_or none default = default
error_or (some []) default = default
error_or (some (c ∷ message)) default = c ∷ message

after_change : Bool → Text → Selector → Selector
unfolding handle_close
after_change true message s = handle_close (record s { loading = false })
after_change false message s = record s { loading = false; error = some message }

unfoldable pub on_reply : Reply → Selector → Selector
unfolding after_change error_or
on_reply (listed none) s = record s {
  loading = false;
  error = some (codes "Failed to load branches");
}
on_reply (listed (some branches)) s = record s { loading = false; branches = branches }
on_reply (switched ok message) s =
    after_change ok (error_or message (codes "Failed to switch branch")) s
on_reply (created ok message) s =
    after_change ok (error_or message (codes "Failed to create branch")) s

unfoldable pub on_key : Key → Selector → Selector × Option Request
unfolding handle_close handle_create_branch
on_key escape s = (handle_close s, none)
on_key enter s = if s.show_new_branch_input then handle_create_branch s else (s, none)
on_key other_key s = (s, none)

-- Branches are disabled while `loading`; so is the button that creates one, but not its key.
unfoldable pub step : Text → Selector → Event → Selector × Option Request
unfolding handle_open handle_switch_branch handle_create_branch on_reply on_key
step current s clicked_button = if s.is_open then (handle_close s, none) else handle_open s
step current s (clicked_branch branch) =
    if s.loading then (s, none) else handle_switch_branch current branch s
step current s clicked_create = if s.loading then (s, none) else handle_create_branch s
step current s clicked_new = (record s { show_new_branch_input = true }, none)
step current s (typed_search query) = (record s { search_query = query }, none)
step current s (typed_name name) = (record s { new_branch_name = name }, none)
step current s (pressed key) = on_key key s
step current s (replied reply) = (on_reply reply s, none)
