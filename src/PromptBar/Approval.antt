-- ===== src/PromptBar/Approval.antt =====
-- The answers of an approval, and the indices that the arrows select.
use mobile_agent.Prelude.{
  ℕ, zero, suc, ◌∙◌, ◌+◌, ◌-◌, ◌%◌, ◌≤◌, ◌<◌, Text, ◌≡◌, refl, Bool, true, false, Option, some,
  List, [], ◌∷◌, ◌++◌, length, length-append, take, arith, Bool-cases, inl, inr, leb, ◌==◌,
  if◌then◌else◌, ap,
}
use native.Mathlib.Nat.{mod_self, mod-eq_of_lt, add-mod_right}
use mobile_agent.Value.{Fields}
use mobile_agent.PromptBar.{
  PromptApprovalRequest, ApprovalOption, truncate_text, build_approval_prompt_content, Key,
  arrow_down, arrow_up, tab, enter, escape, next_index, previous_index, submit_approval_decision,
  handle_approval_key_down, choices, choose, kind_is_execute, other, ApprovalPromptContent,
  command_content, action_content, filled_path, get_file_path_from_approval, ApprovalCall,
  on_approve_approval, on_auto_approve_approval, on_reject_approval, dispatch,
}

length-take_le : (n : ℕ) (t : Text) → length (take n t) ≤ n
length-take_le zero t = omega arith
length-take_le (suc n) [] = omega arith
length-take_le (suc n) (c ∷ t) = omega (arith, length-take_le n t)

-- A truncated text has at most the units it is allowed, and a text that fits is left as it is.
pub length-truncate_text :
    (content : Text) (max : ℕ)
    → 0 < max
    → (length (truncate_text content max) ≤ max)
      × (length content ≤ max → truncate_text content max ≡ content)
unfolding truncate_text
length-truncate_text content max positive = elim (Bool-cases (leb (length content) max)) [
  | inl fits ↦ rw fits (ground arith, λ _. refl)
  | inr long ↦ rw (long, zero_test) (bound, λ h. absurd (ground arith))
]
  where
    zero_test : (max == 0) ≡ false
    zero_test = ground arith

    bound : length (take (max - 1) content ++ 8230 ∷ []) ≤ max
    bound = omega (
      arith,
      length-append (take (max - 1) content) (8230 ∷ []),
      length-take_le (max - 1) content,
    )

step_mod : (count i : ℕ) → i < count → (i + 1) % count ≡ (if i + 1 == count then 0 else i + 1)
step_mod count i h = elim (Bool-cases (i + 1 == count)) [
  | inl e ↦ rw e (ap (λ n. n % count) (wraps e) ∙ mod_self count)
  | inr e ↦ rw e (mod-eq_of_lt (fits e))
]
  where
    wraps : (i + 1 == count) ≡ true → i + 1 ≡ count
    wraps e = ground arith

    fits : (i + 1 == count) ≡ false → i + 1 < count
    fits e = ground arith

next_index-eq :
    (count i : ℕ)
    → i < count
    → next_index count (some i) ≡ some (if i + 1 == count then 0 else i + 1)
unfolding next_index
next_index-eq count i h = rw (not_zero, step_mod count i h) refl
  where
    not_zero : (count == 0) ≡ false
    not_zero = ground arith

previous_index-eq :
    (count i : ℕ)
    → i < count
    → previous_index count (some i) ≡ some (if i == 0 then count - 1 else i - 1)
unfolding previous_index
previous_index-eq count i h = elim (Bool-cases (i == 0)) [
  | inl e ↦ rw (not_zero, e) (ap some (mod-eq_of_lt below))
  | inr e ↦ rw (not_zero, e) (ap some (add-mod_right (i - 1) count ∙ mod-eq_of_lt before))
]
  where
    not_zero : (count == 0) ≡ false
    not_zero = ground arith

    below : count - 1 < count
    below = omega arith

    before : i - 1 < count
    before = omega arith

abbrev down : ℕ → ℕ → ℕ
down count i = if i + 1 == count then 0 else i + 1

abbrev up : ℕ → ℕ → ℕ
up count i = if i == 0 then count - 1 else i - 1

down_lt : (count i : ℕ) → i < count → down count i < count
down_lt count i h = ground arith

up_lt : (count i : ℕ) → i < count → up count i < count
up_lt count i h = ground arith

up-down : (count i : ℕ) → i < count → up count (down count i) ≡ i
up-down count i h = ground arith

down-up : (count i : ℕ) → i < count → down count (up count i) ≡ i
down-up count i h = ground arith

-- Where there is something to select, the arrow up takes back the arrow down and the other way
-- round, and both select something that is there.
pub previous_index-next_index :
    (count i : ℕ)
    → i < count
    → (previous_index count (next_index count (some i)) ≡ some i)
      × (next_index count (previous_index count (some i)) ≡ some i)
previous_index-next_index count i h = (
  rw (next_index-eq count i h, previous_index-eq count (down count i) (down_lt count i h))
      (ap some (up-down count i h)),
  rw (previous_index-eq count i h, next_index-eq count (up count i) (up_lt count i h))
      (ap some (down-up count i h)),
)

-- the callback of the first option, of the second, and of the third
abbrev pub call_at : ℕ → Text → ApprovalCall
call_at zero = on_approve_approval
call_at (suc zero) = on_auto_approve_approval
call_at _ = on_reject_approval

-- the index that keys select
abbrev pub press : Text → List ApprovalOption → List Key → Option ℕ → Option ℕ
press id options [] i = i
press id options (key ∷ keys) i =
    press id options keys (handle_approval_key_down id options key i).0

abbrev pub options_of : (Fields → Text) → PromptApprovalRequest → List ApprovalOption
options_of stringify request = (build_approval_prompt_content stringify request).options

abbrev HasChoices : ApprovalPromptContent → Type 0
HasChoices content = (always : Text) × (content.options ≡ choices always)

command_content-HasChoices :
    (request : PromptApprovalRequest) → HasChoices (command_content request)
unfolding command_content
command_content-HasChoices request = (_, refl)

action_content-HasChoices :
    (stringify : Fields → Text) (request : PromptApprovalRequest) (path : Option Text)
    → HasChoices (action_content stringify request path)
unfolding action_content
action_content-HasChoices stringify request path = (_, refl)

options_of-choices :
    (stringify : Fields → Text) (request : PromptApprovalRequest)
    → HasChoices (build_approval_prompt_content stringify request)
unfolding build_approval_prompt_content
options_of-choices stringify request = go (kind_is_execute request.tool_kind)
  where
    path : Option Text
    path = filled_path (get_file_path_from_approval request)

    go :
        (b : Bool)
        → HasChoices (if b then command_content request else action_content stringify request path)
    go true = command_content-HasChoices request
    go false = action_content-HasChoices stringify request path

key_in_range :
    (id always : Text) (key : Key) (i : ℕ)
    → i < 3
    → (j : ℕ) × (j < 3) × ((handle_approval_key_down id (choices always) key (some i)).0 ≡ some j)
unfolding handle_approval_key_down
key_in_range id always arrow_down i h = (down 3 i, down_lt 3 i h, next_index-eq 3 i h)
key_in_range id always arrow_up i h = (up 3 i, up_lt 3 i h, previous_index-eq 3 i h)
key_in_range id always enter i h = (i, h, refl)
key_in_range id always escape i h = (i, h, refl)
key_in_range id always tab i h = (i, h, refl)
key_in_range id always other i h = (i, h, refl)

press_in_range :
    (id always : Text) (keys : List Key) (i : ℕ)
    → i < 3
    → (j : ℕ) × (j < 3) × (press id (choices always) keys (some i) ≡ some j)
press_in_range id always [] i h = (i, h, refl)
press_in_range id always (key ∷ keys) i h =
    let (j, below, same) = key_in_range id always key i h in
    rw same (press_in_range id always keys j below)

enter_answers :
    (c : ℕ) (id always : Text) (j : ℕ)
    → j < 3
    → (handle_approval_key_down (c ∷ id) (choices always) enter (some j)).1
      ≡ some (call_at j (c ∷ id))
unfolding handle_approval_key_down choose submit_approval_decision dispatch
enter_answers c id always zero h = refl
enter_answers c id always (suc zero) h = refl
enter_answers c id always (suc (suc zero)) h = refl
enter_answers c id always (suc (suc (suc j))) h = absurd (omega arith)

escape_rejects :
    (c : ℕ) (id : Text) (options : List ApprovalOption) (i : Option ℕ)
    → (handle_approval_key_down (c ∷ id) options escape i).1 ≡ some (on_reject_approval (c ∷ id))
unfolding handle_approval_key_down submit_approval_decision dispatch
escape_rejects c id options i = refl

-- Whatever keys are pressed from the first option on, for a request whose id is not empty, one of the
-- three options is selected. Enter then calls onApproveApproval for the first, onAutoApproveApproval
-- for the second and onRejectApproval for the third, and Escape calls onRejectApproval, each with
-- the id of the request.
pub press-answers :
    (stringify : Fields → Text) (request : PromptApprovalRequest) (c : ℕ) (id : Text)
    (keys : List Key)
    → (j : ℕ) × (j < 3)
      × (press (c ∷ id) (options_of stringify request) keys (some 0) ≡ some j)
      × ((handle_approval_key_down (c ∷ id) (options_of stringify request) enter (some j)).1
          ≡ some (call_at j (c ∷ id)))
      × ((handle_approval_key_down (c ∷ id) (options_of stringify request) escape (some j)).1
          ≡ some (on_reject_approval (c ∷ id)))
press-answers stringify request c id keys =
    let (always, same) = options_of-choices stringify request in
    let (j, below, pressed) = press_in_range (c ∷ id) always keys 0 (omega arith) in
    rw same (
      j,
      below,
      pressed,
      enter_answers c id always j below,
      escape_rejects c id (choices always) (some j),
    )
