-- ===== src/SourceControl.antt =====
-- components/agents/ported/SourceControlTile.tsx: the panel of a git working tree. A reply of
-- `window.git` is an argument; a promise that rejects is `thrown`, and stops the handler there.
pub mod Handlers
pub mod Tree
pub mod Categories
pub mod Session
pub mod Replies
pub mod Commit
pub mod Polling
mod Arrival
pub mod Explorer
mod Selection
mod Tests
use mobile_agent.Prelude.{
  ℕ, Text, codes, is_empty, filled, trim, Bool, true, false, not, ◌&&◌, ◌||◌, Option, none, some,
  List, [], ◌++◌, filter, is_nil, if◌then◌else◌, value_or, is_none,
}

pub data GitFileStatus : Type 0 where
  index_modified index_added index_deleted index_renamed index_copied : GitFileStatus
  modified deleted untracked ignored type_changed intent_to_add : GitFileStatus
  both_modified both_added both_deleted added_by_us added_by_them : GitFileStatus
  deleted_by_us deleted_by_them : GitFileStatus

pub record GitStatusEntry : Type 0 where
  pub path : Text
  pub status : GitFileStatus
  pub staged : Bool
  pub original_path : Option Text

pub record SyncStatus : Type 0 where
  pub ahead : ℕ
  pub behind : ℕ
  pub remote : Option Text
  pub branch_name : Option Text

pub record FileDiff : Type 0 where
  pub path : Text
  pub entry : GitStatusEntry
  pub original : Text
  pub modified : Text
  pub additions : ℕ
  pub deletions : ℕ

unfoldable pub is_untracked : GitFileStatus → Bool
is_untracked untracked = true
is_untracked _ = false

unfoldable pub is_conflict : GitFileStatus → Bool
is_conflict both_modified = true
is_conflict both_added = true
is_conflict both_deleted = true
is_conflict added_by_us = true
is_conflict added_by_them = true
is_conflict deleted_by_us = true
is_conflict deleted_by_them = true
is_conflict _ = false

abbrev pub is_staged_entry : GitStatusEntry → Bool
is_staged_entry e = e.staged && not (is_conflict e.status)

abbrev pub is_changed_entry : GitStatusEntry → Bool
is_changed_entry e = not e.staged && not (is_conflict e.status) && not (is_untracked e.status)

abbrev pub staged_entries : List GitStatusEntry → List GitStatusEntry
staged_entries entries = filter is_staged_entry entries

abbrev pub changed_entries : List GitStatusEntry → List GitStatusEntry
changed_entries entries = filter is_changed_entry entries

abbrev pub untracked_entries : List GitStatusEntry → List GitStatusEntry
untracked_entries entries = filter (λ e. is_untracked e.status) entries

pub record Toast : Type 0 where
  pub text : Text
  pub error : Bool

pub record Panel : Type 0 where
  pub entries : List GitStatusEntry
  pub sync_status : Option SyncStatus
  pub file_diffs : List FileDiff
  pub loading : Bool
  pub status_msg : Option Toast
  pub git_actions_open : Bool
  pub commit_dialog_open : Bool
  pub commit_message : Text
  pub committing : Bool
  pub pushing : Bool
  pub pulling : Bool
  pub create_branch_open : Bool
  pub new_branch_name : Text

-- `{ success, error }`
pub data Reply : Type 0 where
  success : Reply
  failure : Option Text → Reply
  thrown : Reply

-- The panel after a handler, the argument with which it asked git, if it did, and whether it asks
-- for a refresh.
pub record Outcome : Type 0 where
  pub panel : Panel
  pub asked : Option Text
  pub refreshes : Bool

abbrev pub idle : Panel → Outcome
idle s = record { panel = s; asked = none; refreshes = false }

abbrev pub show_status : Text → Bool → Panel → Panel
show_status text error s = record s { status_msg = some (record { text = text; error = error }) }

abbrev pub failed_with : Text → Text → Option Text → Panel → Outcome
failed_with asked otherwise error s = record {
  panel = show_status (value_or error otherwise) true s;
  asked = some asked;
  refreshes = false;
}
