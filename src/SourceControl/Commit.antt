-- ===== src/SourceControl/Commit.antt =====
-- When the panel asks git for a commit, and with which message.
use mobile_agent.Prelude.{
  Text, trim, ◌≡◌, ◌≢◌, refl, ◌↔◌, Bool, true, false, not, ◌&&◌, Option, none, some, is_some, List,
  [], ◌∷◌, any, filter, is_nil, is_empty, filled, arith,
}
use mobile_agent.SourceControl.{GitStatusEntry, is_conflict, Panel, Reply, success, failure, thrown}
use mobile_agent.SourceControl.Handlers.{
  commit_message_of, begin_commit, start_commit, after_commit, handle_commit, settle,
}

is_nil-filter {ℓ} :
    {A : Type ℓ} (p : A → Bool) (xs : List A) → is_nil (filter p xs) ≡ not (any p xs)
is_nil-filter p [] = refl
is_nil-filter p (x ∷ xs) = ground (arith, is_nil-filter p xs)

-- an entry that is staged and is no conflict
abbrev pub is_committed : GitStatusEntry → Bool
is_committed e = e.staged && not (is_conflict e.status)

abbrev pub IsAsked : Option Text → Panel → Text → Type 0
IsAsked path s m =
    (is_some path ≡ true)
    × (trim s.commit_message ≡ m)
    × (is_empty m ≡ false)
    × (any is_committed s.entries ≡ true)

-- A commit is asked of git exactly when there is a path and a staged entry that is no conflict, and
-- the message has more than white space; it is asked with that message trimmed. The entries are
-- read again only if it succeeds, and the message stays for another attempt unless it succeeds.
pub handle_commit-asked :
    (path : Option Text) (reply : Reply) (s : Panel) (m : Text)
    → (((handle_commit path reply s).asked ≡ some m) ↔ IsAsked path s m)
      × ((handle_commit path reply s).refreshes ≡ true → reply ≡ success)
      × (reply ≢ success → (handle_commit path reply s).panel.commit_message ≡ s.commit_message)
unfolding handle_commit start_commit begin_commit settle after_commit commit_message_of
handle_commit-asked none reply s m = (ground arith, λ h. absurd (ground arith), λ _. refl)
handle_commit-asked (some path) reply s m =
    rw (is_nil-filter is_committed s.entries)
      (go (trim s.commit_message) (any is_committed s.entries) reply)
  where
    go :
        (t : Text) (staged : Bool) (reply : Reply)
        → (((settle after_commit reply (begin_commit (filled t) (not staged) s)).asked ≡ some m)
            ↔ ((true ≡ true) × (t ≡ m) × (is_empty m ≡ false) × (staged ≡ true)))
          × ((settle after_commit reply (begin_commit (filled t) (not staged) s)).refreshes ≡ true
              → reply ≡ success)
          × (reply ≢ success
              → (settle after_commit reply
                  (begin_commit (filled t) (not staged) s)).panel.commit_message
                ≡ s.commit_message)
    go [] staged reply = (ground arith, λ h. absurd (ground arith), λ _. refl)
    go (c ∷ t) false reply = (ground arith, λ h. absurd (ground arith), λ _. refl)
    go (c ∷ t) true success = (ground arith, λ _. refl, λ h. absurd (h refl))
    go (c ∷ t) true (failure error) = (ground arith, λ h. absurd (ground arith), λ _. refl)
    go (c ∷ t) true thrown = (ground arith, λ h. absurd (ground arith), λ _. refl)
