-- ===== src/Cards/Slack.antt =====
-- components/agents/ported/ReplyCard.tsx: the header, and how Slack's links and mentions are drawn.
use mobile_agent.Prelude.{
  ℕ, zero, suc, ◌==◌, Text, codes, is_empty, trim, Bool, true, false, ◌||◌, Option, none, some,
  List, [], ◌∷◌, ◌++◌, map, length, take, if◌then◌else◌,
}
use mobile_agent.Prelude.Strings.{span_until}
use mobile_agent.Types.{ToolStatus, pending, in_progress}

status_is_pending : ToolStatus → Bool
status_is_pending pending = true
status_is_pending in_progress = true
status_is_pending _ = false

unfoldable pub header_label : Bool → ToolStatus → Text
unfolding status_is_pending
header_label is_linear status =
    if is_linear
    then (if status_is_pending status
        then codes "Commenting on Linear…"
        else codes "Commented on Linear")
    else if status_is_pending status
    then codes "Replying in Slack…"
    else codes "Replied in Slack"

-- a part of a text, and the token between `<` and `>`
pub data Part : Type 0 where
  plain token : Text → Part

abbrev pub flush : Text → List Part
flush [] = []
flush (c ∷ s) = plain (c ∷ s) ∷ []

unfoldable pub closed : Text → Text → Option Text
closed [] rest = none
closed (c ∷ word) [] = none
closed (c ∷ word) (d ∷ rest) = some (c ∷ word)

-- the token of `/<([^>]+)>/` after a `<`: it is not empty, and is closed
unfoldable pub match_token : Text → Option Text
unfolding closed
match_token s = closed (span_until b'>' s).0 (span_until b'>' s).1

unfoldable pub match_at : ℕ → Text → Option Text
unfolding match_token
match_at c s = if c == b'<' then match_token s else none

abbrev pub skip_of : Option Text → ℕ
skip_of none = 0
skip_of (some word) = suc (length word)

abbrev pub buffer_of : Text → ℕ → Option Text → Text
buffer_of buffer c none = buffer ++ c ∷ []
buffer_of buffer c (some word) = []

abbrev pub parts_of : Text → Option Text → List Part
parts_of buffer none = []
parts_of buffer (some word) = flush buffer ++ token word ∷ []

-- The loop over the matches, unit by unit: `skip` units of the last match are still to pass, and
-- `buffer` is the text since then.
unfoldable pub scan : ℕ → Text → Text → List Part
unfolding match_at
scan skip buffer [] = flush buffer
scan (suc skip) buffer (c ∷ s) = scan skip buffer s
scan zero buffer (c ∷ s) =
    let found = match_at c s in
    parts_of buffer found ++ scan (skip_of found) (buffer_of buffer c found) s

unfoldable pub slack_parts : Text → List Part
unfolding scan
slack_parts text = scan 0 [] text

pub data Node : Type 0 where
  text_node : Text → Node
  span_node : Text → Node
  link_node : Text → Text → Node

or_else : Text → Text → Text
or_else [] t = t
or_else (c ∷ s) t = c ∷ s

after_bar : Text → Text
after_bar [] = []
after_bar (c ∷ label) = label

node_for : Text → Text → Node
unfolding or_else
node_for [] label = link_node [] (or_else label [])
node_for (c ∷ target) label =
    if c == b'@' || c == b'#'
    then span_node (c ∷ or_else label target)
    else if c == b'!'
    then span_node (b'@' ∷ or_else label target)
    else link_node (c ∷ target) (or_else label (c ∷ target))

-- the token up to `|`, and the label after it
node_of : Part → Node
unfolding node_for after_bar
node_of (plain t) = text_node t
node_of (token t) = let (target, rest) = span_until b'|' t in node_for target (after_bar rest)

unfoldable pub render_slack_body : Text → List Node
unfolding node_of slack_parts
render_slack_body text = map node_of (slack_parts text)

-- an option that is no text is `none`
pub data SlackBlock : Type 0 where
  section : Text → SlackBlock
  actions : List Text → SlackBlock

clean : List (Option Text) → List Text
clean [] = []
clean (none ∷ options) = clean options
clean (some option ∷ options) =
    let rest = clean options in if is_empty (trim option) then rest else option ∷ rest

with_actions : Text → List Text → Option (List SlackBlock)
with_actions message [] = none
with_actions message (option ∷ options) =
    some (section message ∷ actions (take 5 (option ∷ options)) ∷ [])

-- `none` is an argument that is no array
unfoldable pub blocks_from_options : Text → Option (List (Option Text)) → Option (List SlackBlock)
unfolding clean with_actions
blocks_from_options message none = none
blocks_from_options message (some options) = with_actions message (clean options)
