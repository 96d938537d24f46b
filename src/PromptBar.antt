-- ===== src/PromptBar.antt =====
-- components/agents/ported/PromptBar.tsx: the prompt of an approval, the keys that answer it, and the
-- keys of the input. The completions of commands and files are in files that the repository lacks.
pub mod Input
pub mod Approval
pub mod Keys
mod Tests
use mobile_agent.Prelude.{
  ℕ, ◌+◌, ◌-◌, ◌%◌, Text, codes, is_empty, filled, trim, Bool, true, false, not, ◌&&◌, ◌||◌, Option,
  none, some, List, [], ◌∷◌, ◌++◌, take, length, get_elem?, if◌then◌else◌, value_or, is_some, leb,
  ltb, ◌==◌, ◌<|>◌,
}
use mobile_agent.Value.{Fields, Value, str, present, as_string}
use mobile_agent.Types.{DiffData, ToolKind, edit, delete, move, execute}

pub data ApprovalDecision : Type 0 where
  approve reject auto_approve : ApprovalDecision

pub record PromptApprovalRequest : Type 0 where
  pub request_id : Text
  pub title : Text
  pub tool_kind : ToolKind
  pub input : Fields
  pub diff_data : Option DiffData

pub record ApprovalOption : Type 0 where
  pub label : Text
  pub decision : ApprovalDecision

pub record ApprovalPromptContent : Type 0 where
  pub question : Text
  pub preview : Text
  pub options : List ApprovalOption

-- `text.slice(0, max - 1)`, where −1 leaves out the last unit
abbrev slice_before : Text → ℕ → Text
slice_before content max =
    if max == 0 then take (length content - 1) content else take (max - 1) content

unfoldable pub truncate_text : Text → ℕ → Text
truncate_text content max =
    if leb (length content) max then content else slice_before content max ++ codes "…"

path_of_diff : Option DiffData → Option Text
path_of_diff none = none
path_of_diff (some diff) = filled diff.file_path

unfoldable pub get_file_path_from_approval : PromptApprovalRequest → Option Text
unfolding path_of_diff
get_file_path_from_approval request =
    path_of_diff request.diff_data
    <|> as_string (present (codes "filePath") request.input)
    <|> as_string (present (codes "path") request.input)

abbrev kind_is_update : ToolKind → Bool
kind_is_update edit = true
kind_is_update delete = true
kind_is_update move = true
kind_is_update _ = false

abbrev is_file_update : PromptApprovalRequest → Bool
is_file_update request = kind_is_update request.tool_kind || is_some request.diff_data

abbrev pub option : Text → ApprovalDecision → ApprovalOption
option label decision = record { label = label; decision = decision }

abbrev pub choices : Text → List ApprovalOption
choices always =
    option (codes "Yes") approve
    ∷ option always auto_approve
    ∷ option (codes "No, and tell Open SWE what to do differently") reject
    ∷ []

-- `(typeof input.command === 'string' ? input.command.trim() : '') || '(empty command)'`
unfoldable pub command_preview : PromptApprovalRequest → Text
command_preview request = elim (as_string (present (codes "command") request.input)) [
  | none ↦ codes "(empty command)"
  | some command ↦ value_or (filled (trim command)) (codes "(empty command)")
]

abbrev about_path : Text → Text → Option Text → Text
about_path verb missing none = codes "Do you want to allow " ++ verb ++ missing
about_path verb missing (some path) =
    codes "Do you want to allow " ++ verb ++ codes " " ++ path ++ codes "?"

-- An empty path is no path, as in `targetPath ? … : …`.
unfoldable pub filled_path : Option Text → Option Text
filled_path none = none
filled_path (some path) = filled path

update_question : ToolKind → Option Text → Text
update_question delete path = about_path (codes "deleting") (codes " this file?") path
update_question move path = about_path (codes "moving") (codes " this file?") path
update_question _ path = about_path (codes "updating") (codes " this file?") path

preview_of : (Fields → Text) → PromptApprovalRequest → Option Text → Text
unfolding truncate_text
preview_of stringify request none =
    request.title ++ codes " " ++ truncate_text (stringify request.input) 180
preview_of stringify request (some path) = request.title ++ codes " " ++ path

unfoldable pub command_content : PromptApprovalRequest → ApprovalPromptContent
unfolding command_preview truncate_text
command_content request = record {
  question = codes "Do you want to allow running this command?";
  preview = command_preview request;
  options = choices (
      codes "Yes, and don't ask again for commands that start with "
      ++ truncate_text (command_preview request) 64);
}

unfoldable pub action_content :
    (Fields → Text) → PromptApprovalRequest → Option Text → ApprovalPromptContent
unfolding update_question preview_of
action_content stringify request path = record {
  question =
      if is_file_update request
      then update_question request.tool_kind path
      else codes "Do you want to allow this action?";
  preview = preview_of stringify request path;
  options = choices (
      if is_file_update request
      then codes "Yes, and allow all edits for this session"
      else codes "Yes, and allow similar actions for this session");
}

unfoldable pub kind_is_execute : ToolKind → Bool
kind_is_execute execute = true
kind_is_execute _ = false

-- `stringify` is `JSON.stringify`
unfoldable pub build_approval_prompt_content :
    (Fields → Text) → PromptApprovalRequest → ApprovalPromptContent
unfolding kind_is_execute command_content action_content filled_path
build_approval_prompt_content stringify request =
    if kind_is_execute request.tool_kind
    then command_content request
    else action_content stringify request (filled_path (get_file_path_from_approval request))

pub data Key : Type 0 where
  arrow_down arrow_up tab enter escape other : Key

-- `(prev + 1) % count` and `(prev - 1 + count) % count`, where `none` is `NaN`
unfoldable pub next_index : ℕ → Option ℕ → Option ℕ
next_index count none = none
next_index count (some i) = if count == 0 then none else some ((i + 1) % count)

unfoldable pub previous_index : ℕ → Option ℕ → Option ℕ
previous_index count none = none
previous_index count (some i) =
    if count == 0 then none else some ((if i == 0 then count - 1 else i - 1 + count) % count)

abbrev at_index {ℓ} : {A : Type ℓ} → List A → Option ℕ → Option A
at_index xs none = none
at_index xs (some i) = get_elem? xs i

-- The call of a callback of the bar, with the id of a request.
pub data ApprovalCall : Type 0 where
  on_approve_approval on_auto_approve_approval on_reject_approval : Text → ApprovalCall

unfoldable pub dispatch : ApprovalDecision → Text → ApprovalCall
dispatch approve id = on_approve_approval id
dispatch auto_approve id = on_auto_approve_approval id
dispatch reject id = on_reject_approval id

-- An empty id is no request; a callback that is not given is called to no effect.
unfoldable pub submit_approval_decision : Text → ApprovalDecision → Option ApprovalCall
unfolding dispatch
submit_approval_decision [] decision = none
submit_approval_decision (c ∷ id) decision = some (dispatch decision (c ∷ id))

unfoldable pub choose : Text → Option ApprovalOption → Option ApprovalCall
unfolding submit_approval_decision
choose id none = none
choose id (some chosen) = submit_approval_decision id chosen.decision

-- `handleApprovalKeyDown`: the index that is selected then, and the callback that is called.
unfoldable pub handle_approval_key_down :
    Text → List ApprovalOption → Key → Option ℕ → Option ℕ × Option ApprovalCall
unfolding choose next_index previous_index submit_approval_decision
handle_approval_key_down id options arrow_down i = (next_index (length options) i, none)
handle_approval_key_down id options arrow_up i = (previous_index (length options) i, none)
handle_approval_key_down id options enter i = (i, choose id (at_index options i))
handle_approval_key_down id options escape i = (i, submit_approval_decision id reject)
handle_approval_key_down id options _ i = (i, none)
