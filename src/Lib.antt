-- ===== src/Lib.antt =====
-- Verification of the dashboard of the coding agent (apps/dashboard/src).
--
-- The dashboard shows threads of an agent that runs on a server: it turns the messages that the
-- LangChain SDK streams into a transcript, groups a message's chunks into rows and draws them,
-- and lets the user queue, direct and retry messages. An operation bears the name of its
-- function in the source, in lower case with underscores; a child module named for what it
-- states holds proofs, and a module Tests concrete runs.
--
--   Prelude: names of the library, Boolean tests, lists, dictionaries, the stable sort and
--     texts. A text is the list of its UTF-16 units, as a JavaScript string is.
--   Value: JSON values that reach the code as `unknown`.
--   Types: apps/dashboard/src/lib/agents/types.ts: chunks, messages and threads.
--   Transcript: apps/dashboard/src/lib/agents/streamMessagesToUi.ts (streamMessagesToUi).
--     `Tools` is what a card shows, `Diffs` its diff, `Content` time, reasoning and images,
--     `Merge` is mergeTextChunks, and `Stream` the turns of the agent, whose two variables are
--     the state of a fold.
--   Render: apps/dashboard/src/components/agents/messages/renderItems.ts (buildRenderItems):
--     the rows of a message. Its buffers are the fields of a state, and each function that
--     changes them is a function of it.
--   Drawing: apps/dashboard/src/components/agents/messages/Messages.tsx and AgentMessage.tsx:
--     from the transcript to the rows of the messages. It calls `Transcript` and `Render` as
--     the components do.
--   ThreadView: apps/dashboard/src/components/agents/AgentThreadView.tsx: the messages on the
--     screen, the queue of follow-ups with its handlers, and (`Run`) the banner, retry and the
--     approval card.
--   Submit: apps/dashboard/src/lib/agents/provider/useSubmitAgentMessage.ts and
--     apps/dashboard/src/lib/agents/AgentThreadStreamProvider.tsx (onCompleted): sending a
--     message, and the end of a run.
--   Threads: apps/dashboard/src/lib/agents/api.ts (groupThreads) and
--     apps/dashboard/src/lib/agents/queries.ts: the groups of the list of threads, a new
--     thread's placeholder, and the cache of details.
--   Models: apps/dashboard/src/lib/agents/provider/useModelOptions.ts and
--     apps/dashboard/src/lib/profile.ts (buildProfileUpdate): which model is selected, and the
--     update of a profile.
--   PromptBar: apps/dashboard/src/components/agents/ported/PromptBar.tsx: the prompt of an
--     approval and the keys that answer it; `Input` is the keys of the input.
--   CloudPrompt: apps/dashboard/src/components/agents/ported/CloudPromptBar.tsx: the prompt of
--     a thread in the cloud, as a state and events. `Images` reads files, and `Stop` is the
--     button that stops a run, with the steps of the run's end and of the server that it meets.
--   Home: apps/dashboard/src/components/agents/AgentsHome.tsx: the page that starts a thread;
--     `Azure` is isAzureRemote.
--   GitPanel: apps/dashboard/src/components/agents/AgentGitPanel.tsx: the panel of changed
--     files. `Prefix` is commonDirPrefix, `Panel` the width and what opens it.
--   Chat: apps/dashboard/src/components/agents/ported/ChatView.tsx: the history sent to the
--     agent and the queue of submissions.
--   LiveMessage: apps/dashboard/src/lib/agents/provider/useLiveMarkdownMessageId.ts: the
--     message that is drawn as it streams, as a step relation.
--   Cards: apps/dashboard/src/components/agents/ported/ToolExecution.tsx, ShellCommand.tsx and
--     TodoList.tsx; `Slack` is ReplyCard.tsx and `Picker` is ThreadPicker.tsx.
--   Sidebar: apps/dashboard/src/components/agents/AgentsSidebar.tsx; `Layout` is
--     apps/dashboard/src/components/sidebar-layout.tsx.
--   Automations: apps/dashboard/src/components/agents/AutomationEditor.tsx and
--     ScheduleTriggerPicker.tsx; `Cron` is apps/dashboard/src/lib/agents/cron.ts.
--   Branches: apps/dashboard/src/components/agents/ported/BranchSelector.tsx: the selector of
--     branches.
--   Reviews: apps/dashboard/src/components/ReviewStylesPanel.tsx and
--     apps/dashboard/src/lib/repo.ts: the prompts of reviews.
--   SourceControl: apps/dashboard/src/components/agents/ported/SourceControlTile.tsx: the panel
--     of a git working tree. `Handlers`, `Polling`, `Tree` and `Explorer` are its parts, and
--     `Session` is its buttons and the replies of git in any order. A node of its tree (`Tree`)
--     is changed by returning the changed forest.
--   Usage: apps/dashboard/src/routes/usage.tsx: the page of the use of Azure DevOps.
--   ChangedFiles: apps/dashboard/src/components/agents/messages/summarizeChangedFiles.ts
--     (summarizeChangedFiles): the files a turn changed.
--   Theme: apps/dashboard/src/lib/theme.ts (useTheme): the theme, its storage and the events
--     that change it.
--
-- A loop is structural recursion on the list it reads; only the inner loop of commonDirPrefix
-- runs on fuel, which is the depth that bounds its index. A hook of React is the function that
-- it computes; a handler is a function of the state, of the replies of its requests, and of the
-- time. A parameter stands for the clock, for JSON.parse and JSON.stringify, and for each other
-- function that is not in the repository. A number is a natural of the machine where the source
-- only counts or compares.
--
-- Not modelled: how things are drawn (JSX, styles, routes, icons), the HTTP requests
-- themselves, which only pass values on, the parts of the components named above that only
-- draw, and the packages in Python, which are the server.
mod Prelude
pub mod Value
pub mod Types
pub mod Usage
pub mod Automations
pub mod Branches
pub mod Reviews
pub mod Cards
pub mod Chat
pub mod CloudPrompt
pub mod Sidebar
pub mod LiveMessage
pub mod GitPanel
pub mod Home
pub mod Transcript
pub mod Render
pub mod ThreadView
pub mod Threads
pub mod PromptBar
pub mod SourceControl
pub mod Models
pub mod Submit
pub mod ChangedFiles
pub mod Theme
pub mod Drawing
