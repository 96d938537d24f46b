-- ===== src/ThreadView/Direct.antt =====
-- Directing a queued follow-up, "Dirigir": what is on the screen and in the queue after each reply.
use mathlib.Core.List.{Memᴰ}
use mobile_agent.Prelude.{
  ℕ, Text, text_eq, text_eq_refl, text_eq_iff, trim, ◌≡◌, refl, ap, ◌∙◌, Bool, true, false, not,
  ◌||◌, Option, some, List, [], ◌∷◌, ◌++◌, append-nil, filter, any, filter-append,
  filter-filter_self, find?, All, is_empty, is_nil, Bool-cases, inl, inr, if_cases, arith,
}
use mobile_agent.Prelude.Strings.{has, join}
use mobile_agent.Prelude.Sort.{All-filter}
use mobile_agent.Types.{Message}
use mobile_agent.ThreadView.{
  QueuedFollowUp, QueuedThreadMessage, View, user_message_text, user_texts, author_is_user,
  is_pending, base_of, base_messages, stays_queued, has_pending, on_directed_set, without, bubble,
  id_is, show_directed, show_bubble, directed, DirectReply, replied, ReloadReply, roll_back,
  after_direct, direct_queued, follow_ups_of, other_ids, is_conflict,
}
use mobile_agent.ThreadView.Laws.{
  IsOnScreen, base_messages-shows_directed, base_messages-eq, mem-filter, prune_queued-eq,
}

without-append :
    (id : Text) (xs ys : List Message) → without id (xs ++ ys) ≡ without id xs ++ without id ys
without-append id xs ys = filter-append (λ (m : Message). not (text_eq m.id id)) xs ys

without-bubble :
    (now id content : Text) (ms : List Message)
    → without id (without id ms ++ bubble id now content ∷ []) ≡ without id ms
without-bubble now id content ms =
    rw (without-append id (without id ms) (bubble id now content ∷ []), text_eq_refl id)
      (append-nil _ ∙ filter-filter_self (λ (m : Message). not (text_eq m.id id)) ms)

mem-last : (ms : List Message) (m : Message) → Memᴰ m (ms ++ m ∷ [])
mem-last [] m = Memᴰ.head refl
mem-last (x ∷ ms) m = Memᴰ.tail (mem-last ms m)

mem-append : (xs : List Message) {ys : List Message} {m : Message} → Memᴰ m ys → Memᴰ m (xs ++ ys)
mem-append [] t = t
mem-append (x ∷ xs) t = Memᴰ.tail (mem-append xs t)

directed-on_directed_set :
    (live seeded : List Message) (v w : View)
    → (on_directed_set live seeded v w).directed_optimistic ≡ w.directed_optimistic
unfolding on_directed_set
directed-on_directed_set live seeded v w =
    if_cases (λ (u : View). u.directed_optimistic ≡ w.directed_optimistic)
      (not (is_nil live) || has_pending live seeded v || has_pending live seeded w) _ _ (λ _. refl)
      (λ _. refl)

directed-show_bubble :
    (live seeded : List Message) (now id : Text) (f : QueuedFollowUp) (v : View)
    → is_empty f.text ≡ false
    → (show_bubble live seeded now id (some f) v).directed_optimistic
      ≡ without id v.directed_optimistic ++ bubble id now f.text ∷ []
unfolding show_bubble
directed-show_bubble live seeded now id f v h = rw h (directed-on_directed_set live seeded v _)

has_text_of_mem :
    (m : Message) (ms : List Message)
    → Memᴰ m ms
    → author_is_user m.author ≡ true
    → is_empty (user_message_text m) ≡ false
    → has (user_texts ms) (user_message_text m) ≡ true
unfolding has user_texts
has_text_of_mem m [] t u h = elim t [ ]
has_text_of_mem m (x ∷ ms) (Memᴰ.head e) u h =
    rw (← e) (rw (u, h, text_eq_refl (user_message_text m)) refl)
has_text_of_mem m (x ∷ ms) (Memᴰ.tail t) u h = ground (arith, has_text_of_mem m ms t u h)

-- The bubble of a text that the transcript does not show adds the text to the user's.
has-bubble :
    (live seeded ms : List Message) (now id content : Text)
    → trim content ≡ content
    → is_empty content ≡ false
    → is_pending (base_of live seeded) (bubble id now content) ≡ true
    → has (user_texts (base_messages live seeded (ms ++ bubble id now content ∷ []))) content ≡ true
unfolding user_message_text join
has-bubble live seeded ms now id content trimmed filled new = rw trimmed at (
    has_text_of_mem (bubble id now content)
      (base_messages live seeded (ms ++ bubble id now content ∷ []))
      (rw (base_messages-eq live seeded (ms ++ bubble id now content ∷ [])) (
        mem-append (base_of live seeded) (
          mem-filter (is_pending (base_of live seeded)) (bubble id now content)
            (ms ++ bubble id now content ∷ []) (mem-last ms (bubble id now content)) new)))
      refl (rw trimmed filled))

abbrev pub HasOtherText : Text → QueuedFollowUp → Type 0
HasOtherText content f = text_eq f.text content ≡ false

stays-HasOtherText :
    (committed : List Text) (content : Text) (f : QueuedFollowUp)
    → has committed content ≡ true
    → is_empty content ≡ false
    → stays_queued committed f ≡ true
    → HasOtherText content f
stays-HasOtherText committed content f shown filled stays =
    elim (Bool-cases (text_eq f.text content)) [
      | inl same ↦ absurd (clash f.text (text_eq→≡ f.text content same) stays)
      | inr other ↦ other
    ]
  where
    text_eq→≡ : (s t : Text) → text_eq s t ≡ true → s ≡ t
    text_eq→≡ s t = (text_eq_iff s t).0

    clash : (t : Text) → t ≡ content → (is_empty t || not (has committed t)) ≡ true → ⊥
    clash t e h =
        let k : (is_empty content || not (has committed content)) ≡ true = rw e at h in ground arith

filter-HasOtherText :
    (committed : List Text) (content : Text) (queue : List QueuedFollowUp)
    → has committed content ≡ true
    → is_empty content ≡ false
    → All (HasOtherText content) (filter (stays_queued committed) queue)
filter-HasOtherText committed content [] shown filled = tt
filter-HasOtherText committed content (f ∷ fs) shown filled =
    elim (Bool-cases (stays_queued committed f)) [
      | inl e ↦ rw e (
        stays-HasOtherText committed content f shown filled e,
        filter-HasOtherText committed content fs shown filled,
      )
      | inr e ↦ rw e (filter-HasOtherText committed content fs shown filled)
    ]

-- A set of the directed messages only takes follow-ups from the queue.
queue-on_directed_set :
    (P : QueuedFollowUp → Type 0) (live seeded : List Message) (v w : View)
    → All P w.queued_follow_ups
    → All P (on_directed_set live seeded v w).queued_follow_ups
unfolding on_directed_set
queue-on_directed_set P live seeded v w h =
    if_cases (λ (u : View). All P u.queued_follow_ups)
      (not (is_nil live) || has_pending live seeded v || has_pending live seeded w) _ _
      (λ _. rw (prune_queued-eq _ w.queued_follow_ups) (All-filter P _ w.queued_follow_ups h))
      (λ _. h)

-- It takes those of a text that the user's messages then have.
queue-HasOtherText :
    (live seeded : List Message) (content : Text) (v w : View)
    → has_pending live seeded w ≡ true
    → has (user_texts (base_messages live seeded w.directed_optimistic)) content ≡ true
    → is_empty content ≡ false
    → All (HasOtherText content) (on_directed_set live seeded v w).queued_follow_ups
unfolding on_directed_set
queue-HasOtherText live seeded content v w pending shown filled =
    if_cases (λ (u : View). All (HasOtherText content) u.queued_follow_ups)
      (not (is_nil live) || has_pending live seeded v || has_pending live seeded w) _ _
      (λ _.
        rw (prune_queued-eq _ w.queued_follow_ups)
          (filter-HasOtherText _ content w.queued_follow_ups shown filled))
      (λ e. absurd (ground arith))

any-last {ℓ} :
    {A : Type ℓ} (p : A → Bool) (xs : List A) (x : A) → p x ≡ true → any p (xs ++ x ∷ []) ≡ true
any-last p [] x h = ground arith
any-last p (y ∷ xs) x h = ground (arith, any-last p xs x h)

-- The bubble takes the follow-up's text from the queue while the request is awaited.
show_bubble-HasOtherText :
    (live seeded : List Message) (now id : Text) (f : QueuedFollowUp) (v : View)
    → is_empty f.text ≡ false
    → trim f.text ≡ f.text
    → is_pending (base_of live seeded) (bubble id now f.text) ≡ true
    → All (HasOtherText f.text) (show_bubble live seeded now id (some f) v).queued_follow_ups
unfolding show_bubble
show_bubble-HasOtherText live seeded now id f v filled trimmed new = rw filled (
    queue-HasOtherText live seeded f.text v _
      (any-last (is_pending (base_of live seeded)) (without id v.directed_optimistic) _ new)
      (has-bubble live seeded (without id v.directed_optimistic) now id f.text trimmed filled new)
      filled)

-- If directing a follow-up fails, one whose trimmed text is not empty and whose bubble the transcript
-- does not show yet: its bubble is taken back, but no follow-up of its text is left in the queue of
-- the view, since the bubble had them pruned. The handler throws unless the server answered 409.
pub direct_queued_failed :
    (live seeded : List Message) (now id : Text) (status : Option ℕ) (reload : ReloadReply)
    (v : View) (f : QueuedFollowUp)
    → find? (id_is id) v.queued_follow_ups ≡ some f
    → is_empty f.text ≡ false
    → trim f.text ≡ f.text
    → is_pending (base_of live seeded) (bubble id now f.text) ≡ true
    → ((direct_queued live seeded now id (DirectReply.failed status) reload v).1
        ≡ not (is_conflict status))
      × ((direct_queued live seeded now id
            (DirectReply.failed status)
            reload
            v).0.directed_optimistic
          ≡ without id v.directed_optimistic)
      × All
          (HasOtherText f.text)
          (direct_queued live seeded now id
            (DirectReply.failed status)
            reload
            v).0.queued_follow_ups
unfolding direct_queued after_direct roll_back show_directed
direct_queued_failed live seeded now id status reload v f found filled trimmed new = rw found (
  refl,
  directed-on_directed_set live seeded shown taken_back
      ∙ ap (without id) (directed-show_bubble live seeded now id f v filled)
      ∙ without-bubble now id f.text v.directed_optimistic,
  queue-on_directed_set (HasOtherText f.text) live seeded shown taken_back
      (show_bubble-HasOtherText live seeded now id f v filled trimmed new),
)
  where
    shown : View
    shown = show_bubble live seeded now id (some f) v

    taken_back : View
    taken_back = record shown { directed_optimistic = without id shown.directed_optimistic }

abbrev pub HasOtherId : Text → QueuedFollowUp → Type 0
HasOtherId id f = text_eq f.id id ≡ false

other_ids-HasOtherId :
    (id : Text) (queued : List QueuedThreadMessage)
    → All (HasOtherId id) (follow_ups_of (other_ids id queued))
other_ids-HasOtherId id [] = tt
other_ids-HasOtherId id (m ∷ ms) = elim (Bool-cases (text_eq m.id id)) [
  | inl same ↦ rw same (other_ids-HasOtherId id ms)
  | inr other ↦ rw other (other, other_ids-HasOtherId id ms)
]

-- If the server directs a follow-up that was queued with a text, the handler does not throw, the
-- follow-up leaves the queue, and its bubble or a message with its id or text is on the screen,
-- whatever the transcript holds.
pub direct_queued_directed :
    (old_live old_seeded : List Message) (now id : Text) (queued : List QueuedThreadMessage)
    (reload : ReloadReply) (v : View) (f : QueuedFollowUp) (live seeded : List Message)
    → find? (id_is id) v.queued_follow_ups ≡ some f
    → is_empty f.text ≡ false
    → ((direct_queued old_live old_seeded now id (replied directed queued) reload v).1 ≡ false)
      × All
          (HasOtherId id)
          (direct_queued old_live old_seeded now id
            (replied directed queued)
            reload
            v).0.queued_follow_ups
      × IsOnScreen
          (base_messages live seeded
            (direct_queued old_live old_seeded now id
              (replied directed queued)
              reload
              v).0.directed_optimistic)
          (bubble id now f.text)
unfolding direct_queued after_direct show_directed
direct_queued_directed old_live old_seeded now id queued reload v f live seeded found filled = (
  refl,
  other_ids-HasOtherId id queued,
  base_messages-shows_directed live seeded _ (bubble id now f.text) (
      rw found (
        rw (directed-show_bubble old_live old_seeded now id f v filled)
          (mem-last (without id v.directed_optimistic) (bubble id now f.text)))),
)
