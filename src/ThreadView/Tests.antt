-- ===== src/ThreadView/Tests.antt =====
-- The theorems on an open thread, at concrete threads.
use mathlib.Core.List.{Memᴰ}
use mobile_agent.Prelude.{
  Text, codes, ◌≡◌, refl, true, false, Option, none, some, List, [], ◌∷◌, All, text_eq, trim, not,
  Bool,
}
use mobile_agent.Prelude.Strings.{has, join}
use mobile_agent.Types.{Author, user, agent, text, Message, AgentStatus, AgentThread}
use mobile_agent.ThreadView.{
  QueuedFollowUp, View, user_message_text, user_texts, base_messages, prune_directed, without,
  bubble, is_conflict, direct_queued, DirectReply, ReloadReply, directed, replied,
}
use mobile_agent.ThreadView.Laws.{
  base_messages-prune_directed, IsOnScreen, base_messages-shows_directed,
}
use mobile_agent.ThreadView.Direct.{
  HasOtherId, HasOtherText, direct_queued_failed, direct_queued_directed,
}

abbrev said : Text → Author → Text → Message
said id author content = record {
  id = id;
  author = author;
  timestamp = codes "t";
  chunks = text content ∷ [];
  hidden = none;
}

abbrev live : List Message
live = said (codes "h1") user (codes "do it") ∷ said (codes "a1") agent (codes "done") ∷ []

abbrev shown : List Message
shown =
    bubble (codes "q1") (codes "t") (codes " do it")
    ∷ bubble (codes "q2") (codes "t") (codes "more")
    ∷ []

abbrev follow_up : Text → Text → QueuedFollowUp
follow_up id content = record { id = id; text = content; image_count = 0 }

abbrev view : View
view = record {
  queued_follow_ups =
      follow_up (codes "q2") (codes "more") ∷ follow_up (codes "q3") (codes "do it") ∷ [];
  directed_optimistic = [];
  resolved_interrupt_id = none;
}

base_messages-prune_directed_example :
    base_messages live [] (prune_directed live shown) ≡ base_messages live [] shown
base_messages-prune_directed_example = base_messages-prune_directed live [] shown

base_messages-shows_directed_example :
    IsOnScreen (base_messages live [] shown) (bubble (codes "q2") (codes "t") (codes "more"))
base_messages-shows_directed_example =
    base_messages-shows_directed live [] shown (bubble (codes "q2") (codes "t") (codes "more"))
      (Memᴰ.tail (Memᴰ.head refl))

-- The text of "q1" is on the screen already, that of "q2" is appended.
shown_once :
    base_messages live [] shown
    ≡ said (codes "h1") user (codes "do it")
      ∷ said (codes "a1") agent (codes "done")
      ∷ bubble (codes "q2") (codes "t") (codes "more")
      ∷ []
unfolding base_messages user_texts user_message_text has text_eq join trim
shown_once = refl

abbrev failed_direct : View × Bool
failed_direct =
    direct_queued live [] (codes "t") (codes "q2") (DirectReply.failed (some 409))
      (ReloadReply.failed none) view

direct_queued_failed_example :
    (failed_direct.1 ≡ not (is_conflict (some 409)))
    × (failed_direct.0.directed_optimistic ≡ without (codes "q2") [])
    × All (HasOtherText (codes "more")) failed_direct.0.queued_follow_ups
unfolding text_eq trim user_texts user_message_text has join
direct_queued_failed_example =
    direct_queued_failed live [] (codes "t") (codes "q2") (some 409) (ReloadReply.failed none) view
      (follow_up (codes "q2") (codes "more")) refl refl refl refl

abbrev directed_direct : View × Bool
directed_direct =
    direct_queued live [] (codes "t") (codes "q2") (replied directed []) (ReloadReply.failed none)
      view

direct_queued_directed_example :
    (directed_direct.1 ≡ false)
    × All (HasOtherId (codes "q2")) directed_direct.0.queued_follow_ups
    × IsOnScreen
        (base_messages live [] directed_direct.0.directed_optimistic)
        (bubble (codes "q2") (codes "t") (codes "more"))
unfolding text_eq
direct_queued_directed_example =
    direct_queued_directed live [] (codes "t") (codes "q2") [] (ReloadReply.failed none) view
      (follow_up (codes "q2") (codes "more")) live [] refl refl

abbrev thread : AgentStatus → AgentThread
thread status = record {
  id = codes "th";
  title = codes "title";
  repo = [];
  repo_full_name = [];
  branch = codes "main";
  model = codes "m";
  effort = none;
  source = none;
  status = status;
  error_message = none;
  viewed = true;
  viewed_at = none;
  created_at = 0;
  updated_at = 0;
  trace_url = none;
  workspace_id = none;
  workspace_label = none;
  workspace_branch = none;
  messages = [];
  pr = none;
  diff_stats = none;
  changed_files = none;
}

abbrev failing : AgentThread
failing = thread AgentStatus.error

abbrev interrupt_id : Option Text
interrupt_id = some (codes "i1")
