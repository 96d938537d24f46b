-- ===== src/Chat/Queue.antt =====
-- What becomes of the submissions of a chat.
use mobile_agent.Prelude.{
  ℕ, zero, suc, Text, text_eq_refl, Bool, true, false, ◌||◌, Option, none, some, List, [], ◌∷◌,
  ◌++◌, if◌then◌else◌, take, length, All, append-nil, append_assoc, if_cases, ◌≡◌, refl, ◌∙◌, sym,
  ap,
}
use mathlib.Core.List.{Perm, perm_append_comm}
use mathlib.Core.List.Perm
use mathlib.Core.Path.{subst}
use mobile_agent.Chat.{
  Session, Submission, State, Call, start_run, cancel, chat_history, start_agent_run, is_busy,
  drain_for, drain_queue, scheduled_for, submit_for, handle_submit, same_session, change_session,
  Event, session_changed, queue_effect, scheduled, submitted, image_loaded, image_removed,
  drag_enter, drag_over, drag_leave, dropped, step, run,
}

-- the submissions that are started
abbrev pub started : List Call → List Submission
started [] = []
started (start_run s history ∷ calls) = s ∷ started calls
started (cancel id ∷ calls) = started calls

abbrev pub submitted_for : Option Session → Submission → List Submission
submitted_for none s = []
submitted_for (some session) s = if session.is_compacting then [] else s ∷ []

abbrev pub prompted_for : Option Session → Submission → List Submission
prompted_for none s = []
prompted_for (some session) s = if is_busy session then [] else s ∷ []

-- the submissions that an event brings: no command, and with a session that does not compact; a
-- scheduled prompt waits in the store while the session is busy
abbrev pub entered : State → Event → List Submission
entered s (submitted command_executed query) =
    if command_executed
    then []
    else submitted_for s.session (record { query = query; images = s.pending_images })
entered s (scheduled prompt) = prompted_for s.session (record { query = prompt; images = [] })
entered s _ = []

abbrev pub all_entered : State → List Event → List Submission
all_entered s [] = []
all_entered s (event ∷ events) = entered s event ++ all_entered (step s event).0 events

-- the session of that id
abbrev pub IsSession : Text → Option Session → Type 0
IsSession id none = ⊥
IsSession id (some session) = session.id ≡ id

abbrev pub Keeps : Text → Event → Type 0
Keeps id (session_changed session) = IsSession id session
Keeps id _ = Unit

-- nothing is lost: what is started or still queued is what was queued or has entered
abbrev IsKept : List Submission → List Submission → State × List Call → Type 0
IsKept before came (s, calls) = Perm (started calls ++ s.queued_submissions) (before ++ came)

same : (queue : List Submission) → Perm queue (queue ++ [])
same queue = rw (append-nil queue) Perm.rfl

drain-IsKept :
    (session : Option Session) (queue : List Submission) (s : State)
    → s.queued_submissions ≡ queue
    → IsKept queue [] (drain_for session queue s)
unfolding drain_for start_agent_run
drain-IsKept none queue s e = rw e (same queue)
drain-IsKept (some session) [] s e = rw e (same [])
drain-IsKept (some session) (first ∷ rest) s e =
    if_cases (IsKept (first ∷ rest) []) (is_busy session) _ _ (λ _. rw e (same (first ∷ rest)))
      (λ _. same (first ∷ rest))

scheduled-IsKept :
    (session : Option Session) (prompt : Text) (s : State)
    → IsKept s.queued_submissions
        (prompted_for session (record { query = prompt; images = [] }))
        (scheduled_for session prompt s)
unfolding scheduled_for start_agent_run
scheduled-IsKept none prompt s = same s.queued_submissions
scheduled-IsKept (some session) prompt s = go (is_busy session)
  where
    entry : Submission
    entry = record { query = prompt; images = [] }

    go :
        (b : Bool)
        → IsKept s.queued_submissions
            (if b then [] else entry ∷ [])
            (if b then (s, []) else (s, start_run entry (chat_history session.messages entry) ∷ []))
    go true = same s.queued_submissions
    go false = perm_append_comm (entry ∷ []) s.queued_submissions

submit-IsKept :
    (session : Option Session) (query : Text) (s : State)
    → IsKept s.queued_submissions
        (submitted_for session (record { query = query; images = s.pending_images }))
        (submit_for session query s)
unfolding submit_for start_agent_run
submit-IsKept none query s = same s.queued_submissions
submit-IsKept (some session) query s =
    go session.is_compacting (session.is_streaming || session.busy)
  where
    entry : Submission
    entry = record { query = query; images = s.pending_images }

    go :
        (a b : Bool)
        → IsKept s.queued_submissions (if a then [] else entry ∷ []) (
            if a
            then (s, [])
            else if b
            then (
              record s {
                pending_images = [];
                queued_submissions = s.queued_submissions ++ entry ∷ [];
              },
              cancel session.id ∷ [],
            )
            else (
              record s { pending_images = [] },
              start_run entry (chat_history session.messages entry) ∷ [],
            ))
    go true b = same s.queued_submissions
    go false true = Perm.rfl
    go false false = perm_append_comm (entry ∷ []) s.queued_submissions

change-IsKept :
    (id : Text) (before after : Option Session) (s : State)
    → s.session ≡ before
    → IsSession id before
    → IsSession id after
    → IsKept s.queued_submissions [] (change_session after s, [])
unfolding change_session same_session
change-IsKept id none after s e h k = absurd h
change-IsKept id (some a) none s e h k = absurd k
change-IsKept id (some a) (some b) s e h k =
    rw (e, h, k, text_eq_refl id) (same s.queued_submissions)

step-IsKept :
    (id : Text) (s : State) (event : Event)
    → IsSession id s.session
    → Keeps id event
    → IsKept s.queued_submissions (entered s event) (step s event)
unfolding step drain_queue handle_submit
step-IsKept id s (session_changed session) h k = change-IsKept id s.session session s refl h k
step-IsKept id s queue_effect h k = drain-IsKept s.session s.queued_submissions s refl
step-IsKept id s (scheduled prompt) h k = scheduled-IsKept s.session prompt s
step-IsKept id s (submitted true query) h k = same s.queued_submissions
step-IsKept id s (submitted false query) h k = submit-IsKept s.session query s
step-IsKept id s (image_loaded chunk) h k = same s.queued_submissions
step-IsKept id s (image_removed index) h k = same s.queued_submissions
step-IsKept id s (drag_enter true) h k = same s.queued_submissions
step-IsKept id s (drag_enter false) h k = same s.queued_submissions
step-IsKept id s (drag_over true) h k = same s.queued_submissions
step-IsKept id s (drag_over false) h k = same s.queued_submissions
step-IsKept id s (drag_leave true) h k = same s.queued_submissions
step-IsKept id s (drag_leave false) h k = same s.queued_submissions
step-IsKept id s (dropped true) h k = same s.queued_submissions
step-IsKept id s (dropped false) h k = same s.queued_submissions

-- the session's id stays
step-IsSession :
    (id : Text) (s : State) (event : Event)
    → IsSession id s.session
    → Keeps id event
    → IsSession id (step s event).0.session
unfolding step drain_queue handle_submit change_session drain_for scheduled_for submit_for
step-IsSession id s (session_changed session) h k =
    if_cases (λ (t : State). IsSession id t.session) (same_session s.session session) _ _ (λ _. k)
      (λ _. k)
step-IsSession id s queue_effect h k = go s.session s.queued_submissions h
  where
    go :
        (session : Option Session) (queue : List Submission)
        → IsSession id s.session
        → IsSession id (drain_for session queue s).0.session
    go none queue g = g
    go (some session) [] g = g
    go (some session) (first ∷ rest) g =
        if_cases (λ (r : State × List Call). IsSession id r.0.session) (is_busy session) _ _
          (λ _. g) (λ _. g)
step-IsSession id s (scheduled prompt) h k = go s.session h
  where
    go :
        (session : Option Session)
        → IsSession id s.session
        → IsSession id (scheduled_for session prompt s).0.session
    go none g = g
    go (some session) g =
        if_cases (λ (r : State × List Call). IsSession id r.0.session) (is_busy session) _ _
          (λ _. g) (λ _. g)
step-IsSession id s (submitted true query) h k = h
step-IsSession id s (submitted false query) h k = go s.session h
  where
    go :
        (session : Option Session)
        → IsSession id s.session
        → IsSession id (submit_for session query s).0.session
    go none g = g
    go (some session) g =
        if_cases (λ (r : State × List Call). IsSession id r.0.session) session.is_compacting _ _
          (λ _. g)
          (λ _.
            if_cases (λ (r : State × List Call). IsSession id r.0.session)
              (session.is_streaming || session.busy) _ _ (λ _. g) (λ _. g))
step-IsSession id s (image_loaded chunk) h k = h
step-IsSession id s (image_removed index) h k = h
step-IsSession id s (drag_enter true) h k = h
step-IsSession id s (drag_enter false) h k = h
step-IsSession id s (drag_over true) h k = h
step-IsSession id s (drag_over false) h k = h
step-IsSession id s (drag_leave true) h k = h
step-IsSession id s (drag_leave false) h k = h
step-IsSession id s (dropped true) h k = h
step-IsSession id s (dropped false) h k = h

started-append : (a b : List Call) → started (a ++ b) ≡ started a ++ started b
started-append [] b = refl
started-append (start_run s history ∷ a) b = ap (λ c. s ∷ c) (started-append a b)
started-append (cancel id ∷ a) b = started-append a b

-- While the chat stays with one session, no submission is lost and none is started twice: those that
-- are started and those that wait at the end are, up to their order, those that waited at the
-- start and those that entered, by the input or as a scheduled prompt.
pub run-IsKept_queue :
    (id : Text) (s : State) (events : List Event)
    → IsSession id s.session
    → All (Keeps id) events
    → Perm
        (started (run s events).1 ++ (run s events).0.queued_submissions)
        (s.queued_submissions ++ all_entered s events)
unfolding run
run-IsKept_queue id s [] h k = same s.queued_submissions
run-IsKept_queue id s (event ∷ events) h (k, ks) =
    let next = (step s event).0 in
    let rest = (run next events).0.queued_submissions in
    rw
      (
        started-append (step s event).1 (run next events).1,
        append_assoc (started (step s event).1) (started (run next events).1) rest,
      )
      (Perm.trans
        (Perm.append_left (started (step s event).1)
          (run-IsKept_queue id next events (step-IsSession id s event h k) ks))
        (rw⁻¹
          (append_assoc (started (step s event).1) next.queued_submissions
            (all_entered next events))
          (rw⁻¹ (append_assoc s.queued_submissions (entered s event) (all_entered next events))
            (Perm.append_right (all_entered next events) (step-IsKept id s event h k)))))

-- each session is ready, and the queue's effect runs
abbrev pub rounds : List Session → List Event
rounds [] = []
rounds (session ∷ sessions) = session_changed (some session) ∷ queue_effect ∷ rounds sessions

abbrev pub IsReady : Text → Session → Type 0
IsReady id session = (session.id ≡ id) × (is_busy session ≡ false)

change-eq :
    (id : Text) (before : Option Session) (after : Session) (s : State)
    → s.session ≡ before
    → IsSession id before
    → after.id ≡ id
    → change_session (some after) s ≡ record s { session = some after }
unfolding change_session same_session
change-eq id none after s e h k = absurd h
change-eq id (some a) after s e h k = rw (e, h, k, text_eq_refl id) refl

-- the first submissions are started, the others wait
abbrev IsDrained : ℕ → List Submission → State × List Call → Type 0
IsDrained n queue (s, calls) =
    (started calls ++ s.queued_submissions ≡ queue) × (started calls ≡ take n queue)

drain-IsDrained :
    (n : ℕ) (session : Session) (events : List Event) (queue : List Submission) (s : State)
    → s.queued_submissions ≡ queue
    → is_busy session ≡ false
    → ((t : State) → t.session ≡ s.session → IsDrained n t.queued_submissions (run t events))
    → IsDrained (suc n) queue (
        let (next, calls) = drain_for (some session) queue s in
        let (end, rest) = run next events in (end, calls ++ rest))
unfolding drain_for start_agent_run
drain-IsDrained n session events [] s e b ih =
    let (f, g) = ih s refl in (f ∙ e, g ∙ rw e (take-nil n))
  where
    take-nil : (m : ℕ) → take {A = Submission} m [] ≡ []
    take-nil zero = refl
    take-nil (suc m) = refl
drain-IsDrained n session events (first ∷ rest) s e b ih =
    let (f, g) = ih (record s { queued_submissions = rest }) refl in
    rw b (ap (λ q. first ∷ q) f, ap (λ q. first ∷ q) g)

-- Each time the session is ready again the first submission that waits is started: after `n` times
-- the first `n` are, in order, and the others still wait.
pub run-rounds :
    (id : Text) (s : State) (sessions : List Session)
    → IsSession id s.session
    → All (IsReady id) sessions
    → started (run s (rounds sessions)).1 ++ (run s (rounds sessions)).0.queued_submissions
        ≡ s.queued_submissions
      × started (run s (rounds sessions)).1 ≡ take (length sessions) s.queued_submissions
unfolding run step drain_queue
run-rounds id s [] h k = (refl, refl)
run-rounds id s (session ∷ sessions) h ((e, b), ks) =
    subst (λ (t : State). IsDrained (suc (length sessions)) s.queued_submissions (after t))
      (sym (change-eq id s.session session s refl h e))
      (drain-IsDrained (length sessions) session (rounds sessions) s.queued_submissions
        (record s { session = some session }) refl b (λ t f. run-rounds id t sessions (rw f e) ks))
  where
    after : State → State × List Call
    after t =
        let (next, calls) = drain_for t.session t.queued_submissions t in
        let (end, rest) = run next (rounds sessions) in (end, calls ++ rest)
