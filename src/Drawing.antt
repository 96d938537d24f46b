-- ===== src/Drawing.antt =====
-- components/agents/messages/Messages.tsx and AgentMessage.tsx: which messages are drawn, and the rows
-- of those that the agent's component draws. The user's component draws texts and images alone.
pub mod Cards
mod Tests
use mobile_agent.Prelude.{Bool, true, false, not, Option, none, some, List, [], filter, flat_map}
use mobile_agent.Types.{Author, user, Message}
use mobile_agent.Render.{RenderItem, build_render_items}

abbrev is_hidden : Option Bool → Bool
is_hidden none = false
is_hidden (some hidden) = hidden

unfoldable pub visible_messages : List Message → List Message
visible_messages messages = filter (λ m. not (is_hidden m.hidden)) messages

rows_by : Author → Message → List RenderItem
rows_by user m = []
rows_by _ m = build_render_items m.chunks (some m.id)

-- the rows of a message, none if it is the user's
unfoldable pub agent_rows : Message → List RenderItem
unfolding rows_by
agent_rows m = rows_by m.author m

unfoldable pub drawn_rows : List Message → List RenderItem
drawn_rows messages = flat_map agent_rows (visible_messages messages)
