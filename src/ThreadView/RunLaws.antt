-- ===== src/ThreadView/RunLaws.antt =====
-- The banner of a failed run, the retry, and the approval card.
use mobile_agent.Prelude.{
  ℕ, zero, suc, ◌<◌, Text, text_eq_iff, is_empty, ◌≡◌, ◌≢◌, ◌↔◌, refl, ◌∙◌, Bool, true, false,
  Option, none, some, List, [], ◌∷◌, ◌++◌, length, arith, All, ◌==◌, ◌||◌, filled, if◌then◌else◌,
  Bool-cases, inl, inr, ◌⊎◌,
}
use mobile_agent.Types.{running, interrupted, error, AgentThread, Message}
use mobile_agent.ThreadView.{author_is_user, user_message_text}
use mobile_agent.ThreadView.Run.{
  StreamError, is_truthy, is_streaming, run_stopped, run_error, last_user_text, last_text, retry,
  Decision, same_id, show_approval, handle_approval, repeat_decision,
}

-- The banner of an error is there exactly when the run neither streams nor was stopped, and the
-- stream or the thread reports an error; it is never there beside the notice of a stopped run.
pub run_error-eq-none_iff :
    (thread : AgentThread) (is_loading : Bool) (failure : StreamError)
    → (run_error thread is_loading failure ≡ none) ↔ (
        (thread.status ≡ running)
        ⊎ ((is_loading ≡ true)
            ⊎ ((thread.status ≡ interrupted)
                ⊎ ((is_truthy failure ≡ false) × (thread.status ≢ error)))))
unfolding run_error is_streaming run_stopped
run_error-eq-none_iff thread is_loading failure = ground arith

same_id_iff : (a b : Option Text) → (same_id a b ≡ true) ↔ (a ≡ b)
same_id_iff none none = ground arith
same_id_iff none (some b) = ground arith
same_id_iff (some a) none = ground arith
same_id_iff (some a) (some b) = ground (arith, text_eq_iff a b)

-- The approval card is shown exactly when the interrupt has actions and its id is not the one
-- resolved last, where a missing id counts as one id.
pub show_approval_iff :
    (actions : ℕ) (current resolved : Option Text)
    → (show_approval actions current resolved ≡ true) ↔ ((actions ≢ 0) × (current ≢ resolved))
unfolding show_approval
show_approval_iff actions current resolved = ground (arith, same_id_iff current resolved)

length-repeat : (n : ℕ) (d : Decision) → length (repeat_decision n d) ≡ n
unfolding repeat_decision
length-repeat zero d = refl
length-repeat (suc n) d = omega (arith, length-repeat n d)

All-repeat : (n : ℕ) (d : Decision) → All (λ e. e ≡ d) (repeat_decision n d)
unfolding repeat_decision
All-repeat zero d = tt
All-repeat (suc n) d = (refl, All-repeat n d)

-- A click on the card sends the clicked decision once for every action of the interrupt, and hides
-- the card of that interrupt.
pub handle_approval_resolves :
    (actions : ℕ) (current : Option Text) (d : Decision)
    → 0 < actions
    → (length (handle_approval actions current d).1 ≡ actions)
      × All (λ e. e ≡ d) (handle_approval actions current d).1
      × (show_approval actions current (handle_approval actions current d).0 ≡ false)
unfolding handle_approval show_approval
handle_approval_resolves actions current d h = elim (Bool-cases (actions == 0)) [
  | inl no_action ↦ absurd (ground arith)
  | inr some_action ↦ rw some_action (
    length-repeat actions d,
    All-repeat actions d,
    rw ((same_id_iff current current).1 refl) refl,
  )
]

abbrev pub IsNotUsers : Message → Type 0
IsNotUsers m = author_is_user m.author ≡ false

last_text-skip : (found : Text) (ms : List Message) → All IsNotUsers ms → last_text found ms ≡ found
unfolding last_text
last_text-skip found [] _ = refl
last_text-skip found (m ∷ ms) (p, h) = rw p (last_text-skip found ms h)

last_text-append :
    (found : Text) (ms : List Message) (m : Message) (rest : List Message)
    → author_is_user m.author ≡ true
    → All IsNotUsers rest
    → last_text found (ms ++ m ∷ rest) ≡ user_message_text m
unfolding last_text
last_text-append found [] m rest p h = last_text-skip _ rest h ∙ rw p
last_text-append found (x ∷ ms) m rest p h =
    last_text-append (if author_is_user x.author then user_message_text x else found) ms m rest p h

-- Retrying an idle thread sends the text of its last message of the user, if that is not empty, and
-- while the run streams or a send is pending it sends nothing.
pub retry_last :
    (ms : List Message) (m : Message) (rest : List Message) (streaming pending : Bool)
    → author_is_user m.author ≡ true
    → All IsNotUsers rest
    → retry (ms ++ m ∷ rest) streaming pending
      ≡ (if streaming || pending then none else filled (user_message_text m))
unfolding retry last_user_text
retry_last ms m rest streaming pending p h =
    rw (last_text-append [] ms m rest p h) (go (user_message_text m))
  where
    go :
        (t : Text)
        → (if is_empty t || streaming || pending then none else some t)
          ≡ (if streaming || pending then none else filled t)
    go [] = ground arith
    go (c ∷ t) = ground arith
