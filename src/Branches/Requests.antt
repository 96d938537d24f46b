-- ===== src/Branches/Requests.antt =====
-- What the selector of branches asks git for.
use mobile_agent.Prelude.{
  Text, text_eq, is_empty, trim, true, false, Option, none, some, if_cases, ◌≡◌, refl,
}
use mobile_agent.Branches.{
  Selector, Request, list_branches, switch_branch, create_branch, escape, enter, other_key, Event,
  clicked_button, clicked_branch, clicked_create, clicked_new, typed_search, typed_name, pressed,
  replied, handle_open, handle_switch_branch, handle_create_branch, on_key, step,
}

-- a request sets the mark and clears the error; another branch is switched to, and a name is not blank
abbrev pub IsAsked : Text → Selector × Option Request → Type 0
IsAsked current (s, none) = Unit
IsAsked current (s, some list_branches) = (s.loading ≡ true) × (s.error ≡ none) × (s.is_open ≡ true)
IsAsked current (s, some (switch_branch branch)) =
    (s.loading ≡ true) × (s.error ≡ none) × (text_eq branch current ≡ false)
IsAsked current (s, some (create_branch name)) =
    (s.loading ≡ true) × (s.error ≡ none) × (is_empty name ≡ false)

create-IsAsked : (current : Text) (s : Selector) → IsAsked current (handle_create_branch s)
unfolding handle_create_branch
create-IsAsked current s =
    if_cases (IsAsked current) (is_empty (trim s.new_branch_name)) _ _ (λ _. tt)
      (λ e. (refl, refl, e))

-- Whatever happens to the selector, a request that it makes marks it as loading and clears its error;
-- it asks to switch only to another branch than the current one, and to create only a branch whose
-- name is not blank.
pub step-IsAsked :
    (current : Text) (s : Selector) (event : Event) → IsAsked current (step current s event)
unfolding step handle_open handle_switch_branch on_key
step-IsAsked current s clicked_button =
    if_cases (IsAsked current) s.is_open _ _ (λ _. tt) (λ _. (refl, refl, refl))
step-IsAsked current s (clicked_branch branch) =
    if_cases (IsAsked current) s.loading _ _ (λ _. tt)
      (λ _.
        if_cases (IsAsked current) (text_eq branch current) _ _ (λ _. tt) (λ e. (refl, refl, e)))
step-IsAsked current s clicked_create =
    if_cases (IsAsked current) s.loading _ _ (λ _. tt) (λ _. create-IsAsked current s)
step-IsAsked current s clicked_new = tt
step-IsAsked current s (typed_search query) = tt
step-IsAsked current s (typed_name name) = tt
step-IsAsked current s (pressed escape) = tt
step-IsAsked current s (pressed enter) =
    if_cases (IsAsked current) s.show_new_branch_input _ _ (λ _. create-IsAsked current s) (λ _. tt)
step-IsAsked current s (pressed other_key) = tt
step-IsAsked current s (replied reply) = tt
