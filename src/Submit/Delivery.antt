-- ===== src/Submit/Delivery.antt =====
-- What the server accepts of a message, and what the end of a run continues.
use mobile_agent.Prelude.{
  ℕ, Text, ◌≡◌, refl, Bool, true, false, Option, some, List, [], ◌∷◌, arith, Bool-cases, inl, inr,
  if◌then◌else◌, ◌+◌, ◌≤◌, any, ltb, not, ◌&&◌, ◌||◌,
}
use mobile_agent.Submit.{
  SendAgentMessageVariables, Reply, ok, Call, queue_message, stream_submit, Result, sent, threw,
  submit_message, is_conflict, after_conflict, after_queue, start_run, after_submit, Effect,
  QueueReply, counted, ContinueReply, continued, continue_queued, announce_continued, warn,
  is_directed,
}

-- What a reply says of whether the server stored the message: a reply that is ok, that it did; a
-- conflict, that it did not. Any other rejection says neither, for the reply may be lost.
abbrev pub IsLawful : Reply → Bool → Type 0
IsLawful ok stored = stored ≡ true
IsLawful (Reply.failed status) stored = is_conflict status ≡ true → stored ≡ false

-- how many of the calls leave the message with the server, by whether each stores it
abbrev pub deliveries : Bool → Bool → List Call → ℕ
deliveries queued submitted [] = 0
deliveries queued submitted (queue_message vars ∷ calls) =
    (if queued then 1 else 0) + deliveries queued submitted calls
deliveries queued submitted (stream_submit content config ∷ calls) =
    (if submitted then 1 else 0) + deliveries queued submitted calls

abbrev pub is_sent : Result → Bool
is_sent (sent queued message) = true
is_sent threw = false

abbrev pub is_ok : Reply → Bool
is_ok ok = true
is_ok (Reply.failed status) = false

abbrev pub conflicts : Reply → Bool
conflicts ok = false
conflicts (Reply.failed status) = is_conflict status

-- of the calls with their result: what it says of the deliveries, and whether it is a success
abbrev pub IsDelivered : Bool → Bool → Bool → List Call × Result → Type 0
IsDelivered success queued submitted (calls, result) =
    (deliveries queued submitted calls ≤ 1)
    × (is_sent result ≡ true → deliveries queued submitted calls ≡ 1)
    × (is_sent result ≡ success)

-- A conflict: the message is not stored by the queue, and the run decides.
run-IsDelivered :
    (submit : Reply) (queued submitted : Bool) (vars : SendAgentMessageVariables)
    → queued ≡ false
    → IsLawful submit submitted
    → IsDelivered
        (is_ok submit)
        queued
        submitted
        (queue_message vars ∷ (start_run submit vars).0, (start_run submit vars).1)
unfolding start_run after_submit
run-IsDelivered ok queued submitted vars q l = rw (q, l) (ground arith, λ _. refl, refl)
run-IsDelivered (Reply.failed f) queued submitted vars q l =
    rw q (ground arith, λ h. absurd (ground arith), refl)

-- Where an ok reply means that the server stored the message and a conflict that it did not, while any
-- other reply says neither: a message is never stored twice, and it is stored exactly once if the
-- mutation succeeds. That succeeds if the message is queued, and if, while no run is loading, the
-- queue conflicts and the run that is started instead is accepted; otherwise it throws.
pub submit_message-once :
    (is_loading : Bool) (queue submit : Reply) (queued submitted : Bool)
    → (vars : SendAgentMessageVariables) → IsLawful queue queued
    → IsLawful submit submitted
    → IsDelivered
        (is_ok queue || (not is_loading && conflicts queue && is_ok submit))
        queued
        submitted
        (submit_message is_loading queue submit vars)
unfolding submit_message after_queue after_conflict
submit_message-once is_loading ok submit queued submitted vars l _ =
    rw l (ground arith, λ _. refl, refl)
submit_message-once true (Reply.failed status) submit queued submitted vars _ _ =
    (ground arith, λ h. absurd (ground arith), refl)
submit_message-once false (Reply.failed status) submit queued submitted vars l m =
    elim (Bool-cases (is_conflict status)) [
      | inl c ↦ rw c (run-IsDelivered submit queued submitted vars (l c) m)
      | inr c ↦ rw c (ground arith, λ h. absurd (ground arith), refl)
    ]

abbrev pub is_continue : Effect → Bool
is_continue (continue_queued id) = true
is_continue _ = false

abbrev pub is_announce : Effect → Bool
is_announce (announce_continued id) = true
is_announce _ = false

abbrev pub is_warning : Effect → Bool
is_warning warn = true
is_warning _ = false

-- there is a thread, and messages wait for it
abbrev pub is_waiting : Option Text → QueueReply → Bool
is_waiting (some (c ∷ id)) (counted n) = ltb 0 n
is_waiting _ _ = false

abbrev pub is_answered : ContinueReply → Bool
is_answered (continued status) = not (is_directed status)
is_answered (ContinueReply.failed status) = false

-- another failure than a conflict
abbrev pub is_trouble : Option ℕ → Bool
is_trouble status = not (is_conflict status)

abbrev pub is_refused : ContinueReply → Bool
is_refused (continued status) = false
is_refused (ContinueReply.failed status) = is_trouble status

-- a request that is made fails otherwise than by a conflict
abbrev pub is_troubled : Option Text → QueueReply → ContinueReply → Bool
is_troubled (some (c ∷ id)) (QueueReply.failed status) reply = is_trouble status
is_troubled (some (c ∷ id)) (counted n) reply = ltb 0 n && is_refused reply
is_troubled _ _ _ = false

-- what the effects contain: a continuation, its announcement, a warning
abbrev pub Contains : Bool → Bool → Bool → List Effect → Type 0
Contains continues announces warns effects =
    (any is_continue effects ≡ continues)
    × (any is_announce effects ≡ announces)
    × (any is_warning effects ≡ warns)
