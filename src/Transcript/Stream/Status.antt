-- ===== src/Transcript/Stream/Status.antt =====
-- The three maps, and the status of a card.
use mobile_agent.Prelude.{
  Text, ◌≡◌, refl, ◌↔◌, Bool, false, Option, none, some, List, [], ◌∷◌, ◌<|>◌, arith, text_eq,
  if◌then◌else◌,
}
use mobile_agent.Prelude.Maps.{Dict, lookup, lookup-insert}
use mobile_agent.Types.{in_progress}
use mobile_agent.Transcript.Sdk.{
  ToolCall, ToolMessage, BaseMessage, AssembledToolCall, Snapshot, Runtime, AssembledStatus,
  SnapshotStatus,
}
use mobile_agent.Transcript.Tools.{tool_status, subagent_status}
use mobile_agent.Transcript.Stream.{
  insert_at, index_by, id_of_call, id_of_snapshot, tool_results, lookups, tool_chunk,
}

-- The last element of a list with an id.
abbrev carries : Option Text → Text → Bool
carries none k = false
carries (some j) k = text_eq j k

abbrev pub last_with {ℓ} : {V : Type ℓ} → (V → Option Text) → Text → List V → Option V
last_with id k [] = none
last_with id k (v ∷ vs) = last_with id k vs <|> (if carries (id v) k then some v else none)

module _ {ℓ} {V : Type ℓ} (id : V → Option Text) (k : Text) where
  lookup-insert_at :
      (o : Option Text) (v : V) (m : Dict V)
      → lookup k (insert_at o v m) ≡ (if carries o k then some v else none) <|> lookup k m
  lookup-insert_at none v m = refl
  lookup-insert_at (some j) v m = ground (arith, lookup-insert j k v m)

  or_assoc : (a b c : Option V) → a <|> (b <|> c) ≡ (a <|> b) <|> c
  or_assoc none b c = refl
  or_assoc (some a) b c = refl

  lookup-index_by_from :
      (m : Dict V) (vs : List V) → lookup k (index_by id m vs) ≡ last_with id k vs <|> lookup k m
  unfolding index_by
  lookup-index_by_from m [] = refl
  lookup-index_by_from m (v ∷ vs) = rw (
    lookup-index_by_from (insert_at (id v) v m) vs,
    lookup-insert_at (id v) v m,
    or_assoc (last_with id k vs) (if carries (id v) k then some v else none) (lookup k m),
  )

  or_none : (a : Option V) → a <|> none ≡ a
  or_none none = refl
  or_none (some a) = refl

  pub lookup-index_by : (vs : List V) → lookup k (index_by id [] vs) ≡ last_with id k vs
  unfolding lookup
  lookup-index_by vs = rw (lookup-index_by_from [] vs) (or_none (last_with id k vs))

-- What must not have ended for a card to be in progress: its subagent if one was discovered, else
-- its assembled call if there is one, else the result must be missing.
abbrev pub IsUnfinished : Option Snapshot → Option AssembledToolCall → Option ToolMessage → Type 0
IsUnfinished (some snapshot) call result = snapshot.status ≡ SnapshotStatus.running
IsUnfinished none (some call) result = call.status ≡ AssembledStatus.running
IsUnfinished none none result = result ≡ none

status_iff :
    (snapshot : Option Snapshot) (call : Option AssembledToolCall) (result : Option ToolMessage)
    → ((elim snapshot [ none ↦ tool_status call result | some s ↦ subagent_status s.status ])
        ≡ in_progress)
      ↔ IsUnfinished snapshot call result
unfolding tool_status subagent_status
status_iff (some s) call result = ground arith
status_iff none (some c) result = ground arith
status_iff none none result = ground arith

-- A card is in progress exactly when the last snapshot with its id runs; or there is none and the
-- last assembled call with its id runs; or there is neither and no tool result carries its id.
pub tool_chunk-in_progress_iff :
    (js : Runtime) (messages : List BaseMessage) (calls : List AssembledToolCall)
    (subagents : List Snapshot) (id name : Text) (call : ToolCall)
    → ((tool_chunk js (lookups messages calls subagents) id name call).status ≡ in_progress)
      ↔ IsUnfinished
          (last_with id_of_snapshot id subagents)
          (last_with id_of_call id calls)
          (last_with (λ m. m.tool_call_id) id (tool_results messages))
unfolding tool_chunk lookups
tool_chunk-in_progress_iff js messages calls subagents id name call =
    rw
      (
        ← lookup-index_by id_of_snapshot id subagents,
        ← lookup-index_by id_of_call id calls,
        ← lookup-index_by (λ (m : ToolMessage). m.tool_call_id) id (tool_results messages),
      )
      (status_iff _ _ _)
