-- ===== src/Home/Laws.antt =====
-- What a new thread's page sends, and what it leaves in the caches.
use mobile_agent.Prelude.{
  ℕ, ◌≤◌, ◌+◌, Text, text_eq, Bool, true, false, not, Option, none, some, List, [], ◌∷◌, ◌++◌,
  if◌then◌else◌, filter, value_or, is_some, All, if_cases, arith, ◌≡◌, refl,
}
use mobile_agent.Prelude.Maps.{lookup, insert, lookup-insert}
use mobile_agent.Prelude.Sort.{All-filter, filter-All, All-map, All-tt}
use mobile_agent.Types.{ImageChunk, AgentThread}
use mobile_agent.Submit.{config_of}
use mobile_agent.Threads.{CreateAgentThreadVariables, optimistic_thread}
use mobile_agent.Home.{
  Workspace, Props, State, Configurable, Call, submit, navigate, prompt_content, selected_workspace,
  not_azure, draft_of, filled_option, configurable_of, submit_for, handle_submit, submit_failed,
  add_first, seed, on_thread_id, select_model, Event, submitted, minted, failed, synced,
  picked_repo, picked_mode, picked_model, step, run, repo_of, id_of,
}

abbrev pub submissions : List Call → ℕ
submissions [] = 0
submissions (submit content configurable ∷ calls) = 1 + submissions calls
submissions (navigate id ∷ calls) = submissions calls

abbrev pub navigations : List Call → ℕ
navigations [] = 0
navigations (submit content configurable ∷ calls) = navigations calls
navigations (navigate id ∷ calls) = 1 + navigations calls

abbrev pub waiting : Option CreateAgentThreadVariables → ℕ
waiting none = 0
waiting (some draft) = 1

-- no two threads have the same id
abbrev pub IsDistinct : List AgentThread → Type 0
IsDistinct [] = Unit
IsDistinct (t ∷ ts) = All (λ u. text_eq u.id t.id ≡ false) ts × IsDistinct ts

submissions-append : (a b : List Call) → submissions (a ++ b) ≡ submissions a + submissions b
submissions-append [] b = omega arith
submissions-append (submit _ _ ∷ a) b = omega (arith, submissions-append a b)
submissions-append (navigate _ ∷ a) b = submissions-append a b

navigations-append : (a b : List Call) → navigations (a ++ b) ≡ navigations a + navigations b
navigations-append [] b = omega arith
navigations-append (submit _ _ ∷ a) b = navigations-append a b
navigations-append (navigate _ ∷ a) b = omega (arith, navigations-append a b)

-- from `s`, the calls navigate at most once for each prompt that waits or is submitted
abbrev IsSound : State → State × List Call → Type 0
IsSound s (end, calls) =
    (navigations calls + waiting end.draft ≤ submissions calls + waiting s.draft)
    × IsDistinct (value_or end.threads [])

filter-IsDistinct :
    (p : AgentThread → Bool) (ts : List AgentThread) → IsDistinct ts → IsDistinct (filter p ts)
filter-IsDistinct p [] h = tt
filter-IsDistinct p (t ∷ ts) (h, hs) =
    if_cases IsDistinct (p t) _ _
      (λ _. (All-filter (λ u. text_eq u.id t.id ≡ false) p ts h, filter-IsDistinct p ts hs))
      (λ _. filter-IsDistinct p ts hs)

add_first-IsDistinct :
    (t : AgentThread) (prev : Option (List AgentThread))
    → IsDistinct (value_or prev [])
    → IsDistinct (add_first t prev)
unfolding add_first
add_first-IsDistinct t prev h = (
  All-map _ (λ u. text_eq u.id t.id ≡ false) (λ u k. fresh u k.1)
      (filter (λ u. not (text_eq u.id t.id)) (value_or prev []))
      (filter-All (λ _. Unit {0}) (λ u. not (text_eq u.id t.id)) (value_or prev [])
        (All-tt (value_or prev []))),
  filter-IsDistinct (λ u. not (text_eq u.id t.id)) (value_or prev []) h,
)
  where
    fresh : (u : AgentThread) → not (text_eq u.id t.id) ≡ true → text_eq u.id t.id ≡ false
    fresh u k = ground arith

seed-IsSound :
    (now : ℕ) (iso id : Text) (s : State) (draft : Option CreateAgentThreadVariables)
    → s.draft ≡ draft
    → IsDistinct (value_or s.threads [])
    → IsSound s (seed now iso id s draft)
unfolding seed
seed-IsSound now iso id s none e h = (omega arith, h)
seed-IsSound now iso id s (some draft) e h =
    (rw e (omega arith), add_first-IsDistinct (optimistic_thread now iso id draft) s.threads h)

waiting_le : (o : Option CreateAgentThreadVariables) → waiting o ≤ 1
waiting_le none = omega arith
waiting_le (some _) = omega arith

submit-IsSound :
    (p : Props) (s : State) (prompt : Text) (images : List ImageChunk)
    → IsDistinct (value_or s.threads [])
    → IsSound s (handle_submit p s prompt images)
unfolding handle_submit submit_for
submit-IsSound p s prompt images h =
    if_cases (IsSound s) (not_azure p (selected_workspace p s)) _ _ (λ _. (omega arith, h))
      (λ _. (omega arith, h))

step-IsSound :
    (p : Props) (s : State) (event : Event)
    → IsDistinct (value_or s.threads [])
    → IsSound s (step p s event)
unfolding step on_thread_id submit_failed select_model
step-IsSound p s (submitted prompt images) h =
    if_cases (IsSound s) s.submitting _ _ (λ _. (omega arith, h))
      (λ _. submit-IsSound p s prompt images h)
step-IsSound p s (minted now iso none) h = (omega arith, h)
step-IsSound p s (minted now iso (some [])) h = (omega arith, h)
step-IsSound p s (minted now iso (some (c ∷ id))) h = seed-IsSound now iso (c ∷ id) s s.draft refl h
step-IsSound p s (failed id detail) h = (omega arith, h)
step-IsSound p s (synced id) h = (omega arith, h)
step-IsSound p s (picked_repo repo) h =
    if_cases (IsSound s) (is_some (selected_workspace p s)) _ _ (λ _. (omega arith, h))
      (λ _. (omega arith, h))
step-IsSound p s (picked_mode mode) h = (omega arith, h)
step-IsSound p s (picked_model id effort) h = (omega arith, h)

-- Whatever happens on the page, it navigates at most once for each prompt that it submits, counting
-- one that waits already, and the cached list of threads never holds the same id twice.
pub run-navigates :
    (s : State) (events : List (Props × Event))
    → IsDistinct (value_or s.threads [])
    → let (end, calls) = run s events in
      (navigations calls + waiting end.draft ≤ submissions calls + waiting s.draft)
      × IsDistinct (value_or end.threads [])
unfolding run
run-navigates s [] h = (omega arith, h)
run-navigates s ((p, event) ∷ events) h =
    let (n, k) = step-IsSound p s event h in
    let (m, l) = run-navigates (step p s event).0 events k in
    (
      omega (
        arith,
        navigations-append (step p s event).1 (run (step p s event).0 events).1,
        submissions-append (step p s event).1 (run (step p s event).0 events).1,
      ),
      l,
    )

-- what a run is configured with is what the draft shows
abbrev pub IsConfigured : CreateAgentThreadVariables → Configurable → Type 0
IsConfigured draft c =
    (c.repo ≡ filled_option draft.repo)
    × (c.workspace_id ≡ filled_option draft.workspace_id)
    × (some c.repo_explicitly_none ≡ draft.repo_explicitly_none)
    × (c.agent ≡ config_of draft.model_id draft.effort)
    × (is_some draft.workspace_id ≡ true → c.repo ≡ none)

configurable_of-IsConfigured :
    (p : Props) (s : State) (workspace : Option Workspace) (prompt : Text)
    (images : List ImageChunk)
    → IsConfigured (draft_of p s workspace prompt images) (configurable_of p s workspace)
unfolding draft_of configurable_of repo_of id_of filled_option
configurable_of-IsConfigured p s none prompt images =
    (refl, refl, refl, refl, λ e. absurd (ground arith))
configurable_of-IsConfigured p s (some w) prompt images = (refl, refl, refl, refl, λ _. refl)

-- A prompt for a workspace that is not of Azure DevOps, where only those are allowed, starts nothing
-- and leaves the draft as it was. Every other prompt starts one run, whose repository, workspace and
-- model are those of the draft that it leaves; with a workspace no repository is sent.
pub handle_submit-configures :
    (p : Props) (s : State) (prompt : Text) (images : List ImageChunk)
    → let workspace = selected_workspace p s in
      (not_azure p workspace ≡ true
        → ((handle_submit p s prompt images).1 ≡ [])
          × ((handle_submit p s prompt images).0.draft ≡ s.draft))
      × (not_azure p workspace ≡ false
          → (draft : CreateAgentThreadVariables) × (c : Configurable) × ((handle_submit p s prompt
                images).0.draft
              ≡ some draft)
            × ((handle_submit p s prompt images).1 ≡ submit (prompt_content prompt images) c ∷ [])
            × IsConfigured draft c)
unfolding handle_submit submit_for
handle_submit-configures p s prompt images = (
  (λ e. rw e (refl, refl)),
  (λ e. rw e (
    draft_of p s (selected_workspace p s) prompt images,
    configurable_of p s (selected_workspace p s),
    refl,
    refl,
    configurable_of-IsConfigured p s (selected_workspace p s) prompt images,
  )),
)

-- Once a thread has its id, the draft becomes the placeholder in the cache of details, whose other
-- entries stay, and the page navigates to the thread; the effect then does nothing more, whatever id
-- it sees, until the next prompt.
pub on_thread_id-seeds :
    (now later : ℕ) (iso again : Text) (c : ℕ) (id : Text) (s : State)
    (draft : CreateAgentThreadVariables)
    → s.draft ≡ some draft
    → let (seeded, calls) = on_thread_id now iso (some (c ∷ id)) s in
      (calls ≡ navigate (c ∷ id) ∷ [])
      × ((j : Text)
          → lookup j seeded.details ≡ (
              if text_eq (c ∷ id) j
              then some (optimistic_thread now iso (c ∷ id) draft)
              else lookup j s.details))
      × ((other : Option Text) → on_thread_id later again other seeded ≡ (seeded, []))
unfolding on_thread_id seed
on_thread_id-seeds now later iso again c id s draft e = rw e (
  refl,
  (λ j. lookup-insert (c ∷ id) j (optimistic_thread now iso (c ∷ id) draft) s.details),
  idle,
)
  where
    seeded_state : State
    seeded_state = record s {
      draft = none;
      details = insert (c ∷ id) (optimistic_thread now iso (c ∷ id) draft) s.details;
      threads = some (add_first (optimistic_thread now iso (c ∷ id) draft) s.threads);
    }

    idle : (other : Option Text) → on_thread_id later again other seeded_state ≡ (seeded_state, [])
    idle none = refl
    idle (some []) = refl
    idle (some (d ∷ other)) = refl
