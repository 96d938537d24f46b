-- ===== src/SourceControl/Polling.antt =====
-- components/agents/ported/SourceControlTile.tsx: the diffs that the panel loads, the refreshes that a
-- draw asks for, and the poll of the status. The promises of `window.git` are arguments.
use mobile_agent.Prelude.{
  ℕ, Text, text_eq, Bool, true, false, not, Option, none, some, List, [], ◌∷◌, filter,
  if◌then◌else◌,
}
use mobile_agent.Prelude.Sort.{sort}
use mobile_agent.SourceControl.{GitStatusEntry, SyncStatus, FileDiff, is_conflict, Panel}

-- what `diffFile` resolves to for an entry: the two contents, `null`, or a rejection
pub data DiffReply : Type 0 where
  contents : Text → Text → DiffReply
  no_diff : DiffReply
  rejected : DiffReply

abbrev pub all_entries : List GitStatusEntry → List GitStatusEntry
all_entries status_entries = filter (λ e. not (is_conflict e.status)) status_entries

-- `count_changes original modified path` are the additions and the deletions.
unfoldable pub file_diff :
    (Text → Text → Text → ℕ × ℕ) → GitStatusEntry → DiffReply → Option FileDiff
file_diff count_changes e (contents original modified) =
    let (additions, deletions) = count_changes original modified e.path in
    some (record {
      path = e.path;
      entry = e;
      original = original;
      modified = modified;
      additions = additions;
      deletions = deletions;
    })
file_diff count_changes e no_diff = none
file_diff count_changes e rejected = none

unfoldable pub push_some : Option FileDiff → List FileDiff → List FileDiff
push_some none diffs = diffs
push_some (some diff) diffs = diff ∷ diffs

abbrev pub path_before : (Text → Text → Bool) → FileDiff → FileDiff → Bool
path_before before a b = before a.path b.path

module _ (count_changes : Text → Text → Text → ℕ × ℕ) (diff_file : GitStatusEntry → DiffReply) where
  -- the diffs that were pushed, when the entries' promises settle in the order of the list
  unfoldable pub pushed : List GitStatusEntry → List FileDiff
  unfolding file_diff push_some
  pushed [] = []
  pushed (e ∷ arrived) = push_some (file_diff count_changes e (diff_file e)) (pushed arrived)

  unfoldable pub load_diffs : (Text → Text → Bool) → List GitStatusEntry → List FileDiff
  unfolding pushed
  load_diffs before arrived = sort (path_before before) (pushed arrived)

-- The refs of the panel: whether the first load was done, and the path that is polled. A path is `none`
-- where it is absent or empty.
pub record Loads : Type 0 where
  pub initial_load_done : Bool
  pub active_poll_path : Option Text

abbrev pub opened : Option Text → Loads
opened active_path = record { initial_load_done = false; active_poll_path = active_path }

unfoldable pub same_path : Option Text → Option Text → Bool
same_path none none = true
same_path (some a) (some b) = text_eq a b
same_path _ _ = false

-- the first test of a draw, with the paths that it refreshes
unfoldable pub initial_load : Option Text → Loads → Loads × List Text
initial_load none s = (s, [])
initial_load (some path) s =
    if s.initial_load_done then (s, []) else (record s { initial_load_done = true }, path ∷ [])

unfoldable pub load_changed : Option Text → List Text → Loads × List Text
load_changed none asked = (record { initial_load_done = false; active_poll_path = none }, asked)
load_changed (some path) asked =
    (record { initial_load_done = true; active_poll_path = some path }, path ∷ asked)

unfoldable pub on_render : Option Text → Loads → Loads × List Text
unfolding initial_load load_changed same_path
on_render active_path s =
    let (t, asked) = initial_load active_path s in
    if same_path t.active_poll_path active_path then (t, asked) else load_changed active_path asked

unfoldable pub set_polled :
    (List GitStatusEntry → List GitStatusEntry → Bool)
    → Option (List GitStatusEntry × Option SyncStatus)
    → Panel
    → Panel
set_polled same_json none s = s
set_polled same_json (some (status_entries, sync)) s = record s {
  entries = if same_json status_entries s.entries then s.entries else status_entries;
  sync_status = sync;
}

poll_path :
    (List GitStatusEntry → List GitStatusEntry → Bool)
    → Option Text
    → Option (List GitStatusEntry × Option SyncStatus)
    → Panel
    → Panel
unfolding set_polled
poll_path same_json none reply s = s
poll_path same_json (some path) reply s = set_polled same_json reply s

-- The reply is `none` if one of the promises rejects.
unfoldable pub on_poll :
    (List GitStatusEntry → List GitStatusEntry → Bool)
    → Loads
    → Option (List GitStatusEntry × Option SyncStatus)
    → Panel
    → Panel
unfolding poll_path
on_poll same_json loads reply s = poll_path same_json loads.active_poll_path reply s
