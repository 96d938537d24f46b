-- ===== src/SourceControl/Handlers.antt =====
-- components/agents/ported/SourceControlTile.tsx: the handlers of the panel's buttons and its refresh,
-- each a function of the panel. The path of the project is `none` where it is absent or empty.
use mobile_agent.Prelude.{
  Text, codes, filled, trim, Bool, true, false, Option, none, some, List, [], ◌++◌, is_nil,
}
use mobile_agent.SourceControl.{
  GitStatusEntry, SyncStatus, FileDiff, staged_entries, Panel, Reply, success, failure, thrown,
  Outcome, idle, show_status, failed_with,
}

-- `stageAll`, `discardAll` and `unstageAll`, which differ in the message
unfoldable pub after_all : Text → Text → Reply → Panel → Outcome
after_all path otherwise success s = record { panel = s; asked = some path; refreshes = true }
after_all path otherwise (failure error) s = failed_with path otherwise error s
after_all path otherwise thrown s = record { panel = s; asked = some path; refreshes = false }

-- A handler is what it does before it awaits git, with the argument of its request, if it makes one,
-- and what it does with the reply.
unfoldable pub settle : (Text → Reply → Panel → Outcome) → Reply → Panel × Option Text → Outcome
settle after reply (s, none) = idle s
settle after reply (s, some asked) = after asked reply s

unfoldable pub handle_all : Text → Option Text → Reply → Panel → Outcome
unfolding after_all settle
handle_all otherwise path reply s = settle (λ asked. after_all asked otherwise) reply (s, path)

unfoldable pub commit_message_of : Option Text → Panel → Option Text
commit_message_of none s = none
commit_message_of (some path) s = filled (trim s.commit_message)

-- by the message, if there is one to send, and by whether nothing is staged
unfoldable pub begin_commit : Option Text → Bool → Panel → Panel × Option Text
begin_commit none nothing_staged s = (s, none)
begin_commit (some message) true s =
    (show_status (codes "No staged changes to commit") true s, none)
begin_commit (some message) false s = (record s { committing = true }, some message)

unfoldable pub start_commit : Option Text → Panel → Panel × Option Text
unfolding begin_commit commit_message_of
start_commit path s = begin_commit (commit_message_of path s) (is_nil (staged_entries s.entries)) s

-- `asked` is the message
unfoldable pub after_commit : Text → Reply → Panel → Outcome
after_commit message success s = record {
  panel =
      show_status (codes "Committed successfully") false
        (record s { committing = false; commit_message = []; commit_dialog_open = false });
  asked = some message;
  refreshes = true;
}
after_commit message (failure error) s =
    failed_with message (codes "Commit failed") error (record s { committing = false })
after_commit message thrown s = record { panel = s; asked = some message; refreshes = false }

unfoldable pub handle_commit : Option Text → Reply → Panel → Outcome
unfolding settle start_commit after_commit
handle_commit path reply s = settle after_commit reply (start_commit path s)

unfoldable pub start_push : Option Text → Panel → Panel × Option Text
start_push none s = (s, none)
start_push (some path) s = (record s { pushing = true }, some path)

unfoldable pub after_push : Text → Reply → Panel → Outcome
after_push path success s = record {
  panel = record (show_status (codes "Pushed successfully") false (record s { pushing = false })) {
    git_actions_open = false;
  };
  asked = some path;
  refreshes = true;
}
after_push path (failure error) s =
    failed_with path (codes "Push failed") error (record s { pushing = false })
after_push path thrown s = record { panel = s; asked = some path; refreshes = false }

unfoldable pub handle_push : Option Text → Reply → Panel → Outcome
unfolding settle start_push after_push
handle_push path reply s = settle after_push reply (start_push path s)

unfoldable pub start_pull : Option Text → Panel → Panel × Option Text
start_pull none s = (s, none)
start_pull (some path) s = (record s { pulling = true }, some path)

unfoldable pub after_pull : Text → Reply → Panel → Outcome
after_pull path success s = record {
  panel = record (show_status (codes "Pulled successfully") false (record s { pulling = false })) {
    git_actions_open = false;
  };
  asked = some path;
  refreshes = true;
}
after_pull path (failure error) s =
    failed_with path (codes "Pull failed") error (record s { pulling = false })
after_pull path thrown s = record { panel = s; asked = some path; refreshes = false }

unfoldable pub handle_pull : Option Text → Reply → Panel → Outcome
unfolding settle start_pull after_pull
handle_pull path reply s = settle after_pull reply (start_pull path s)

unfoldable pub after_create_pr : Text → Reply → Panel → Outcome
after_create_pr path success s = record {
  panel =
      show_status (codes "Opening PR in browser...") false (record s { git_actions_open = false });
  asked = some path;
  refreshes = false;
}
after_create_pr path (failure error) s =
    failed_with path (codes "Failed to create PR") error (record s { git_actions_open = false })
after_create_pr path thrown s = record { panel = s; asked = some path; refreshes = false }

unfoldable pub handle_create_pr : Option Text → Reply → Panel → Outcome
unfolding settle after_create_pr
handle_create_pr path reply s = settle after_create_pr reply (s, path)

unfoldable pub branch_name_of : Option Text → Panel → Option Text
branch_name_of none s = none
branch_name_of (some path) s = filled (trim s.new_branch_name)

-- `asked` is the name
unfoldable pub after_create_branch : Text → Reply → Panel → Outcome
after_create_branch name success s = record {
  panel =
      show_status (codes "Created branch: " ++ name) false
        (record s { new_branch_name = []; create_branch_open = false; git_actions_open = false });
  asked = some name;
  refreshes = true;
}
after_create_branch name (failure error) s =
    failed_with name (codes "Failed to create branch") error s
after_create_branch name thrown s = record { panel = s; asked = some name; refreshes = false }

unfoldable pub handle_create_branch : Option Text → Reply → Panel → Outcome
unfolding settle after_create_branch branch_name_of
handle_create_branch path reply s = settle after_create_branch reply (s, branch_name_of path s)

-- The replies of `status` and `syncStatus`, with the diffs that `loadDiffs` then gathers; `none` if
-- one of the promises rejects.
pub record Refreshed : Type 0 where
  pub entries : List GitStatusEntry
  pub sync_status : Option SyncStatus
  pub file_diffs : List FileDiff

refreshed : Option Refreshed → Panel → Panel
refreshed none s = record s { entries = []; sync_status = none; file_diffs = []; loading = false }
refreshed (some r) s = record s {
  entries = r.entries;
  sync_status = r.sync_status;
  file_diffs = r.file_diffs;
  loading = false;
}

unfoldable pub refresh : Option Text → Option Refreshed → Panel → Panel
unfolding refreshed
refresh none reply s = s
refresh (some path) reply s = refreshed reply s
