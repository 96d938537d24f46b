-- ===== src/PromptBar/Tests.antt =====
-- The prompt bar on concrete requests and inputs.
use mobile_agent.Prelude.{ℕ, ◌<◌, Text, codes, ◌≡◌, refl, none, some, List, [], ◌∷◌}
use mobile_agent.Value.{Fields, end, field, str}
use mobile_agent.Types.{ToolKind}
use mobile_agent.PromptBar.{
  PromptApprovalRequest, truncate_text, Key, arrow_up, enter, next_index, previous_index, escape,
  on_reject_approval, handle_approval_key_down,
}
use mobile_agent.PromptBar.Approval.{press, options_of, call_at, press-answers}
use mobile_agent.PromptBar.Input.{Completions, Input}

truncated : truncate_text (codes "abcdef") 4 ≡ codes "abc…"
unfolding truncate_text
truncated = refl

-- No command matches: the arrow makes the index NaN, and it stays that.
no_commands : previous_index 3 (next_index 0 (some 1)) ≡ none
unfolding previous_index next_index
no_commands = refl

abbrev request : PromptApprovalRequest
request = record {
  request_id = codes "r";
  title = codes "execute";
  tool_kind = ToolKind.execute;
  input = field (codes "command") (str (codes " ls ")) end;
  diff_data = none;
}

abbrev stringify : Fields → Text
stringify fields = codes "{}"

abbrev keys : List Key
keys = arrow_up ∷ arrow_up ∷ []

press-answers_example :
    (j : ℕ) × (j < 3)
    × (press (codes "r") (options_of stringify request) keys (some 0) ≡ some j)
    × ((handle_approval_key_down (codes "r") (options_of stringify request) enter (some j)).1
        ≡ some (call_at j (codes "r")))
    × ((handle_approval_key_down (codes "r") (options_of stringify request) escape (some j)).1
        ≡ some (on_reject_approval (codes "r")))
press-answers_example = press-answers stringify request b'r' [] keys

abbrev no_completions : Completions
no_completions = record {
  command_count = λ _. 0;
  command_at = λ _ _. none;
  file_context = λ _ _. none;
  suggestions = λ _. [];
  insert_file_tag = λ query _ _. (query, 0);
}

abbrev typed : Input
typed = record { query = codes " hi "; cursor = 4; command_index = some 0; file_index = some 0 }
