-- ===== src/Reviews.antt =====
-- components/ReviewStylesPanel.tsx, with lib/repo.ts and isGithubReauthError of lib/api.ts: the prompts
-- of repositories' reviews. A request is an output, its reply a later event.
pub mod Requests
use mobile_agent.Prelude.{
  ℕ, ◌==◌, Text, codes, text_eq, is_empty, trim, Bool, true, false, not, ◌||◌, ◌&&◌, Option, none,
  some, ◌<|>◌, List, [], ◌∷◌, ◌++◌, map, filter, find?, any, drop, length, if◌then◌else◌, value_or,
}
use mobile_agent.Prelude.Strings.{has, includes, starts_with, to_lower_case, split}

-- an `ApiError`, with its status, or another error
pub record Failure : Type 0 where
  pub status : Option ℕ
  pub message : Text

names_github : Text → Bool
names_github message =
    includes (to_lower_case message) (codes "github token")
    || includes (to_lower_case message) (codes "re-login required")

unfoldable pub is_github_reauth_error : Failure → Bool
unfolding names_github
is_github_reauth_error e = go e.status
  where
    go : Option ℕ → Bool
    go none = false
    go (some status) = status == 401 || names_github e.message

unfoldable pub format_mutation_error : Failure → Text
unfolding is_github_reauth_error
format_mutation_error e =
    if is_github_reauth_error e
    then codes "GitHub token expired — sign in again using the link above."
    else e.message

strip_if : Text → Text → Text
strip_if prefix v = if starts_with (to_lower_case v) prefix then drop (length prefix) v else v

-- `v.replace(/suffix$/, "")`
without_suffix : Text → Text → Text
without_suffix suffix [] = []
without_suffix suffix (c ∷ s) =
    let rest = without_suffix suffix s in if text_eq (c ∷ s) suffix then [] else c ∷ rest

two_parts : List Text → Option Text
two_parts (owner ∷ name ∷ []) = some (owner ++ codes "/" ++ name)
two_parts _ = none

unfoldable pub normalize_repo_full_name : Text → Option Text
unfolding strip_if without_suffix two_parts
normalize_repo_full_name raw =
    let v0 = strip_if (codes "https://github.com/") (trim raw) in
    let v1 = strip_if (codes "http://github.com/") v0 in
    let v2 = strip_if (codes "github.com/") v1 in
    let v3 = without_suffix (codes ".git") (without_suffix (codes "/") v2) in
    two_parts (filter (λ part. not (is_empty part)) (split b'/' v3))

pub data ReviewStatus : Type 0 where
  idle running completed failed : ReviewStatus

pub record ReviewStyle : Type 0 where
  pub full_name : Text
  pub status : ReviewStatus
  pub custom_prompt : Option Text

status_is_running : ReviewStatus → Bool
status_is_running running = true
status_is_running _ = false

-- the interval of a query, where `none` stands for `false`
unfoldable pub styles_interval : List ReviewStyle → Option ℕ
unfolding status_is_running
styles_interval styles =
    if any (λ (r : ReviewStyle). status_is_running r.status) styles then some 4000 else none

pub record Panel : Type 0 where
  pub error : Option Text
  pub add_repo : Text
  pub selected : Option Text
  pub draft_prompt : Text

abbrev pub configured : List ReviewStyle → Text → Bool
configured styles name = any (λ (s : ReviewStyle). text_eq s.full_name name) styles

unfoldable pub suggested_repos : List ReviewStyle → List Text → List Text
suggested_repos styles repos = filter (λ r. not (configured styles r)) repos

unfoldable pub is_addable : List ReviewStyle → Option Text → Bool
is_addable styles none = false
is_addable styles (some name) = not (configured styles name)

unfoldable pub can_add : List ReviewStyle → Panel → Bool
unfolding is_addable
can_add styles s = is_addable styles (normalize_repo_full_name s.add_repo)

selected_style : List ReviewStyle → Option Text → Option ReviewStyle
selected_style styles none = none
selected_style styles (some name) = find? (λ (s : ReviewStyle). text_eq s.full_name name) styles

-- the style that is shown: its detail, or what the list has
unfoldable pub active : List ReviewStyle → Option ReviewStyle → Panel → Option ReviewStyle
unfolding selected_style
active styles detail s = detail <|> selected_style styles s.selected

pub data Request : Type 0 where
  create analyze cancel remove : Text → Request
  save : Text → Text → Request

unfoldable pub create_request : List ReviewStyle → Option Text → Option Request
create_request styles none = none
create_request styles (some name) = if configured styles name then none else some (create name)

unfoldable pub handle_add : List ReviewStyle → Panel → Option Request
unfolding create_request
handle_add styles s = create_request styles (normalize_repo_full_name s.add_repo)

unfoldable pub analyze_request : Option ReviewStyle → Option Request
unfolding status_is_running
analyze_request none = none
analyze_request (some style) =
    if status_is_running style.status then none else some (analyze style.full_name)

unfoldable pub cancel_request : Option ReviewStyle → Option Request
unfolding status_is_running
cancel_request none = none
cancel_request (some style) =
    if status_is_running style.status then some (cancel style.full_name) else none

unfoldable pub save_request : Option ReviewStyle → Panel → Option Request
save_request none s = none
save_request (some style) s =
    if is_empty (trim s.draft_prompt) then none else some (save style.full_name s.draft_prompt)

-- `confirmed` is the answer to `window.confirm`
unfoldable pub remove_request : Option ReviewStyle → Bool → Option Request
remove_request none confirmed = none
remove_request (some style) confirmed = if confirmed then some (remove style.full_name) else none

-- the draft follows the prompt of the detail
unfoldable pub on_detail : Option ReviewStyle → Panel → Panel
on_detail none s = s
on_detail (some style) s = record s { draft_prompt = value_or style.custom_prompt [] }

unfoldable pub is_selected : Option Text → Text → Bool
is_selected none name = false
is_selected (some selected) name = text_eq selected name

unfoldable pub on_success : Request → Panel → Panel
unfolding is_selected
on_success (create name) s = record s { selected = some name; error = none; add_repo = [] }
on_success (remove name) s =
    if is_selected s.selected name
    then record s { selected = none; draft_prompt = []; error = none }
    else record s { error = none }
on_success _ s = record s { error = none }

unfoldable pub on_error : Failure → Panel → Panel
unfolding format_mutation_error
on_error e s = record s { error = some (format_mutation_error e) }
