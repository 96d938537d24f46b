-- ===== src/Cards/Tests.antt =====
-- The cards on concrete texts.
use mobile_agent.Prelude.{codes, ◌≡◌, refl, none, some, [], ◌∷◌, flat_map}
use mobile_agent.Prelude.Strings.{span_until, starts_with, split, replace_all}
use mobile_agent.Cards.{strip_project_path, get_file_name}
use mobile_agent.Cards.Slack.{slack_parts, render_slack_body, text_node, span_node, link_node}
use mobile_agent.Cards.Tokens.{source, slack_parts-source}
use mobile_agent.Cards.Picker.{handle_key_down, moved, arrow_down}

slack_parts-source_example :
    flat_map source (slack_parts (codes "a <b> <<c|d>")) ≡ codes "a <b> <<c|d>"
slack_parts-source_example = slack_parts-source (codes "a <b> <<c|d>")

drawn :
    render_slack_body (codes "hi <@U1|bob> <> <http://x>")
    ≡ text_node (codes "hi ")
      ∷ span_node (codes "@bob")
      ∷ text_node (codes " <> ")
      ∷ link_node (codes "http://x") (codes "http://x")
      ∷ []
unfolding render_slack_body span_until
drawn = refl

-- An arrow on an empty list leaves the index -1, and the list may fill up after it.
lost_index : handle_key_down [] (some 0) arrow_down ≡ moved none
unfolding handle_key_down
lost_index = refl

paths :
    (strip_project_path (codes "/p/a") (some (codes "/p")) ≡ codes "./a")
    × (get_file_name (codes "a\\b/") ≡ codes "b")
unfolding strip_project_path get_file_name starts_with split replace_all
paths = (refl, refl)
