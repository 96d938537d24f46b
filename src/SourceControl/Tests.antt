-- ===== src/SourceControl/Tests.antt =====
-- The panel of a working tree at concrete entries and replies.
use mathlib.Core.List.{Permᴰ}
use mobile_agent.Prelude.{
  Text, codes, ◌≡◌, ◌≢◌, refl, ◌↔◌, Bool, true, false, Option, none, some, List, [], ◌∷◌, arith,
  ◌<|>◌, is_some, text_eq, ltb, length,
}
use mobile_agent.Prelude.Strings.{split}
use mobile_agent.Prelude.Sort.{IsOrder}
use mobile_agent.SourceControl.Polling.{
  DiffReply, contents, all_entries, load_diffs, Loads, opened, initial_load, load_changed,
  same_path, on_render,
}
use mobile_agent.SourceControl.Arrival.{load_diffs-arrivals}
use mobile_agent.SourceControl.{
  GitFileStatus, GitStatusEntry, FileDiff, Panel, success, is_conflict,
}
use mobile_agent.SourceControl.Handlers.{handle_commit}
use mobile_agent.SourceControl.Session.{
  commit, push, pull, start, Session, awaiting, clicked, here, next,
}
use mobile_agent.SourceControl.Replies.{IsIdle, IsOwing, Reach-IsWaiting}
use mobile_agent.SourceControl.Commit.{IsAsked, handle_commit-asked}
use mobile_agent.SourceControl.Tree.{
  nil, insert_diffs, insert_tree_node, change_named, strip_project_path,
}
use mobile_agent.SourceControl.Tree.Lookup.{find_tree, find_diff, last_diff, find_diff-insert_diffs}

abbrev entry : Text → GitFileStatus → Bool → GitStatusEntry
entry path status staged = record {
  path = path;
  status = status;
  staged = staged;
  original_path = none;
}

abbrev entries : List GitStatusEntry
entries =
    entry (codes "a.ts") GitFileStatus.index_added true
    ∷ entry (codes "b.ts") GitFileStatus.untracked false
    ∷ entry (codes "c.ts") GitFileStatus.both_modified false
    ∷ []

abbrev panel : Panel
panel = record {
  entries = entries;
  sync_status = none;
  file_diffs = [];
  loading = false;
  status_msg = none;
  git_actions_open = true;
  commit_dialog_open = true;
  commit_message = codes " first ";
  committing = false;
  pushing = false;
  pulling = false;
  create_branch_open = false;
  new_branch_name = [];
}

-- a commit is asked for and replied to
abbrev clicked_once : Session
clicked_once = record {
  panel = (start commit (some (codes "/p")) panel).0;
  awaited = awaiting commit (start commit (some (codes "/p")) panel).1 [];
  lost = [];
}

Reach-IsWaiting_example :
    IsOwing clicked_once
    × (clicked_once.awaited ≡ [] → clicked_once.lost ≡ [] → IsIdle clicked_once.panel)
    × ((path : Option Text)
        → (is_some (start commit path clicked_once.panel).1 ≡ true
            → (start commit path clicked_once.panel).0.committing ≡ true)
          × (is_some (start push path clicked_once.panel).1 ≡ true
              → (start push path clicked_once.panel).0.pushing ≡ true)
          × (is_some (start pull path clicked_once.panel).1 ≡ true
              → (start pull path clicked_once.panel).0.pulling ≡ true))
Reach-IsWaiting_example =
    Reach-IsWaiting (record { panel = panel; awaited = []; lost = [] }) clicked_once
      (refl, refl, refl) (next here (clicked commit (some (codes "/p"))))

handle_commit-asked_example :
    (((handle_commit (some (codes "/p")) success panel).asked ≡ some (codes "first"))
      ↔ IsAsked (some (codes "/p")) panel (codes "first"))
    × ((handle_commit (some (codes "/p")) success panel).refreshes ≡ true → success ≡ success)
    × (success ≢ success
        → (handle_commit (some (codes "/p")) success panel).panel.commit_message
          ≡ panel.commit_message)
handle_commit-asked_example = handle_commit-asked (some (codes "/p")) success panel (codes "first")

abbrev diff_of_path : Text → Bool → FileDiff
diff_of_path path staged = record {
  path = path;
  entry = entry path GitFileStatus.modified staged;
  original = codes "old";
  modified = codes "new";
  additions = 1;
  deletions = 1;
}

abbrev diffs : List FileDiff
diffs =
    diff_of_path (codes "src/a.ts") true
    ∷ diff_of_path (codes "src/b.ts") false
    ∷ diff_of_path (codes "src/a.ts") false
    ∷ []

find_diff-insert_diffs_example :
    find_diff (codes "src" ∷ codes "a.ts" ∷ []) (insert_diffs none diffs nil) ≡ (
      last_diff none (codes "src" ∷ codes "a.ts" ∷ []) diffs
      <|> find_diff (codes "src" ∷ codes "a.ts" ∷ []) nil)
find_diff-insert_diffs_example =
    find_diff-insert_diffs none diffs nil (codes "src") (codes "a.ts" ∷ [])

-- The unstaged diff of a file takes the place of its staged one.
a_file_twice :
    find_diff (codes "src" ∷ codes "a.ts" ∷ []) (insert_diffs none diffs nil)
    ≡ some (diff_of_path (codes "src/a.ts") false)
unfolding find_diff find_tree insert_diffs insert_tree_node change_named strip_project_path split
    text_eq
a_file_twice = refl

abbrev shorter : Text → Text → Bool
shorter a b = ltb (length a) (length b)

shorter-IsOrder : IsOrder shorter
shorter-IsOrder = record { asym = λ a b h. ground arith; trans = λ a b c h k. ground arith }

abbrev status_entries : List GitStatusEntry
status_entries =
    entry (codes "a.ts") GitFileStatus.index_added true
    ∷ entry (codes "bb.ts") GitFileStatus.untracked false
    ∷ entry (codes "c.ts") GitFileStatus.both_modified false
    ∷ []

abbrev arrived : List GitStatusEntry
arrived =
    entry (codes "bb.ts") GitFileStatus.untracked false
    ∷ entry (codes "a.ts") GitFileStatus.index_added true
    ∷ []

abbrev replies : GitStatusEntry → DiffReply
replies e = contents [] e.path

load_diffs-arrivals_example :
    load_diffs (λ original modified path. (1, 0)) replies shorter arrived
    ≡ load_diffs (λ original modified path. (1, 0)) replies shorter (all_entries status_entries)
unfolding is_conflict
load_diffs-arrivals_example =
    load_diffs-arrivals (λ original modified path. (1, 0)) replies shorter status_entries arrived
      shorter-IsOrder ((refl, tt), (tt, tt)) (Permᴰ.swap refl refl)

abbrev opened_with : Option Text → Loads
opened_with path = record { initial_load_done = true; active_poll_path = path }

-- A project that is opened where none was open is refreshed twice in one draw.
opened_twice :
    on_render (some (codes "/p")) (opened none)
    ≡ (opened_with (some (codes "/p")), codes "/p" ∷ codes "/p" ∷ [])
unfolding on_render initial_load load_changed same_path
opened_twice = refl
