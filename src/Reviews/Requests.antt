-- ===== src/Reviews/Requests.antt =====
-- What the panel of reviews asks for.
use mobile_agent.Prelude.{
  Text, true, false, Option, none, some, List, Bool-cases, ◌⊎◌, inl, inr, ◌≡◌, refl,
}
use mobile_agent.Reviews.{
  normalize_repo_full_name, ReviewStyle, Panel, configured, can_add, is_addable, create,
  create_request, handle_add,
}

-- A repository is added exactly when the button is on, and then it is none of those that are configured.
pub handle_add-can_add :
    (styles : List ReviewStyle) (s : Panel)
    → ((can_add styles s ≡ false) × (handle_add styles s ≡ none))
      ⊎ ((name : Text) × (can_add styles s ≡ true)
          × (handle_add styles s ≡ some (create name))
          × (configured styles name ≡ false))
unfolding can_add handle_add is_addable create_request
handle_add-can_add styles s = go (normalize_repo_full_name s.add_repo)
  where
    go :
        (name : Option Text)
        → ((is_addable styles name ≡ false) × (create_request styles name ≡ none))
          ⊎ ((n : Text) × (is_addable styles name ≡ true)
              × (create_request styles name ≡ some (create n))
              × (configured styles n ≡ false))
    go none = inl (refl, refl)
    go (some n) = elim (Bool-cases (configured styles n)) [
      | inl e ↦ inl (rw e (refl, refl))
      | inr e ↦ inr (n, rw e refl, rw e refl, e)
    ]
