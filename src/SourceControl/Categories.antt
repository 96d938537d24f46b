-- ===== src/SourceControl/Categories.antt =====
-- How the categories of the panel count the entries.
use mobile_agent.Prelude.{◌+◌, ◌≡◌, List, [], ◌∷◌, ◌&&◌, false, length, filter, arith}
use mobile_agent.SourceControl.{
  GitFileStatus, GitStatusEntry, is_conflict, is_untracked, staged_entries, changed_entries,
  untracked_entries,
}

abbrev pub conflicts : List GitStatusEntry → List GitStatusEntry
conflicts entries = filter (λ e. is_conflict e.status) entries

-- git reports no such entry
abbrev pub staged_untracked : List GitStatusEntry → List GitStatusEntry
staged_untracked entries = filter (λ e. e.staged && is_untracked e.status) entries

not_both : (s : GitFileStatus) → is_conflict s && is_untracked s ≡ false
unfolding is_conflict is_untracked
not_both s = ground arith

-- An entry is in conflict or else in one of the panel's three lists; only one that is both staged and
-- untracked is in two of them.
pub length-categories :
    (entries : List GitStatusEntry)
    → (length (staged_entries entries)
          + length (changed_entries entries)
          + length (untracked_entries entries))
        + length (conflicts entries)
      ≡ length entries + length (staged_untracked entries)
length-categories [] = omega arith
length-categories (e ∷ entries) = ground (arith, not_both e.status, length-categories entries)
