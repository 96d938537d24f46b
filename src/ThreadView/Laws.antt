-- ===== src/ThreadView/Laws.antt =====
-- The directed follow-ups and the queue of a thread.
use mathlib.Core.List.{Memᴰ, map-append}
use mobile_agent.Prelude.{
  Text, text_eq_refl, ◌≡◌, refl, sym, ap, ◌∙◌, ◌⊎◌, inl, inr, Bool, true, false, ◌&&◌, List, [],
  ◌∷◌, ◌++◌, append-nil, filter, filter-filter_self, is_nil, length, length-filter-le, arith,
  Bool-cases, if◌then◌else◌, ◌==◌, ◌||◌,
}
use mobile_agent.Prelude.Strings.{has}
use mobile_agent.Types.{Message}
use mobile_agent.ThreadView.{
  QueuedFollowUp, user_message_text, user_texts, ids_of, is_pending, base_of, base_messages,
  prune_directed, prune_queued, stays_queued,
}

-- A filter that keeps the length keeps the list.
filter_of_length {ℓ} :
    {A : Type ℓ} (p : A → Bool) (xs : List A) → length (filter p xs) ≡ length xs → filter p xs ≡ xs
filter_of_length p [] e = refl
filter_of_length p (x ∷ xs) e = ground (arith, filter_of_length p xs, length-filter-le p xs)

prune_directed-eq :
    (live current : List Message) → prune_directed live current ≡ filter (is_pending live) current
unfolding prune_directed
prune_directed-eq live [] = refl
prune_directed-eq live (m ∷ ms) =
    elim (Bool-cases (length (filter (is_pending live) (m ∷ ms)) == length (m ∷ ms))) [
      | inl same ↦ rw same (sym (filter_of_length (is_pending live) (m ∷ ms) (ground arith)))
      | inr less ↦ rw less
    ]

pub base_messages-eq :
    (live seeded ms : List Message)
    → base_messages live seeded ms
      ≡ base_of live seeded ++ filter (is_pending (base_of live seeded)) ms
unfolding base_messages
base_messages-eq live seeded [] = sym (append-nil (base_of live seeded))
base_messages-eq live seeded (m ∷ ms) = go (filter (is_pending (base_of live seeded)) (m ∷ ms))
  where
    go :
        (pending : List Message)
        → (if is_nil pending then base_of live seeded else base_of live seeded ++ pending)
          ≡ base_of live seeded ++ pending
    go [] = sym (append-nil (base_of live seeded))
    go (p ∷ ps) = refl

stays-nil : (f : QueuedFollowUp) → stays_queued [] f ≡ true
unfolding has
stays-nil f = ground arith

is_pending-nil : (m : Message) → is_pending [] m ≡ true
unfolding has user_texts
is_pending-nil m = refl

filter_all {ℓ} :
    {A : Type ℓ} (p : A → Bool) → ((x : A) → p x ≡ true) → (xs : List A) → filter p xs ≡ xs
filter_all p h [] = refl
filter_all p h (x ∷ xs) = rw (h x) (ap (λ l. x ∷ l) (filter_all p h xs))

-- Pruning the directed messages that the live transcript shows changes nothing on the screen.
pub base_messages-prune_directed :
    (live seeded current : List Message)
    → base_messages live seeded (prune_directed live current) ≡ base_messages live seeded current
base_messages-prune_directed [] seeded current =
    ap (base_messages [] seeded)
      (prune_directed-eq [] current ∙ filter_all (is_pending []) is_pending-nil current)
base_messages-prune_directed (m ∷ ms) seeded current = rw (
  prune_directed-eq (m ∷ ms) current,
  base_messages-eq (m ∷ ms) seeded (filter (is_pending (m ∷ ms)) current),
  base_messages-eq (m ∷ ms) seeded current,
  filter-filter_self (is_pending (m ∷ ms)) current,
)

has-append : (xs ys : List Text) (k : Text) → has (xs ++ ys) k ≡ (has xs k || has ys k)
unfolding has
has-append [] ys k = refl
has-append (x ∷ xs) ys k = ground (arith, has-append xs ys k)

has-id_of_mem : (m : Message) (ms : List Message) → Memᴰ m ms → has (ids_of ms) m.id ≡ true
unfolding has
has-id_of_mem m [] t = elim t [ ]
has-id_of_mem m (x ∷ ms) (Memᴰ.head e) = rw (← e) (rw (text_eq_refl m.id))
has-id_of_mem m (x ∷ ms) (Memᴰ.tail t) = ground (arith, has-id_of_mem m ms t)

pub mem-filter {ℓ} :
    {A : Type ℓ} (p : A → Bool) (x : A) (xs : List A)
    → Memᴰ x xs
    → p x ≡ true
    → Memᴰ x (filter p xs)
mem-filter p x [] t h = elim t [ ]
mem-filter p x (y ∷ xs) (Memᴰ.head e) h = rw (← e) (rw h (Memᴰ.head refl))
mem-filter p x (y ∷ xs) (Memᴰ.tail t) h = elim (Bool-cases (p y)) [
  | inl keep ↦ rw keep (Memᴰ.tail (mem-filter p x xs t h))
  | inr drop ↦ rw drop (mem-filter p x xs t h)
]

ids-append : (xs ys : List Message) → ids_of (xs ++ ys) ≡ ids_of xs ++ ids_of ys
ids-append xs ys = map-append (λ (m : Message). m.id) xs ys

user_texts-append : (xs ys : List Message) → user_texts (xs ++ ys) ≡ user_texts xs ++ user_texts ys
unfolding user_texts
user_texts-append [] ys = refl
user_texts-append (x ∷ xs) ys = ground (arith, user_texts-append xs ys)

-- A message that is pending against neither list is so against both, and a shown one stays shown.
is_pending-append :
    (xs ys : List Message) (m : Message)
    → is_pending (xs ++ ys) m ≡ (is_pending xs m && is_pending ys m)
is_pending-append xs ys m =
    rw
      (
        ids-append xs ys,
        user_texts-append xs ys,
        has-append (ids_of xs) (ids_of ys) m.id,
        has-append (user_texts xs) (user_texts ys) (user_message_text m),
      )
      (ground arith)

not_pending :
    (live seeded ms : List Message) (m : Message)
    → Memᴰ m ms
    → is_pending (base_messages live seeded ms) m ≡ false
not_pending live seeded ms m t =
    rw (base_messages-eq live seeded ms, is_pending-append base (filter (is_pending base) ms) m)
      (elim (Bool-cases (is_pending base m)) [
        | inl new ↦
            rw
              (
                new,
                has-id_of_mem m (filter (is_pending base) ms)
                    (mem-filter (is_pending base) m ms t new),
              )
              refl
        | inr old ↦ rw old
      ])
  where
    base : List Message
    base = base_of live seeded

-- Some message has the id of `m`, or a message of the user's has its text.
abbrev pub IsOnScreen : List Message → Message → Type 0
IsOnScreen messages m =
    (has (ids_of messages) m.id ≡ true) ⊎ (has (user_texts messages) (user_message_text m) ≡ true)

IsOnScreen-of_not_pending :
    (messages : List Message) (m : Message) → is_pending messages m ≡ false → IsOnScreen messages m
IsOnScreen-of_not_pending messages m h = ground arith

-- A directed follow-up is never lost: whatever the live and the seeded transcript hold, a message
-- with its id, or one of the user's with its text, is on the screen.
pub base_messages-shows_directed :
    (live seeded ms : List Message) (m : Message)
    → Memᴰ m ms
    → IsOnScreen (base_messages live seeded ms) m
base_messages-shows_directed live seeded ms m t =
    IsOnScreen-of_not_pending (base_messages live seeded ms) m (not_pending live seeded ms m t)

-- Pruning the queue removes exactly the follow-ups whose text, not being empty, the user's messages
-- of the transcript hold.
pub prune_queued-eq :
    (base : List Message) (queue : List QueuedFollowUp)
    → prune_queued base queue ≡ filter (stays_queued (user_texts base)) queue
unfolding prune_queued
prune_queued-eq base queue = go (user_texts base)
  where
    go :
        (committed : List Text)
        → (if is_nil committed
            then queue
            else if length (filter (stays_queued committed) queue) == length queue
            then queue
            else filter (stays_queued committed) queue)
          ≡ filter (stays_queued committed) queue
    go [] = sym (filter_all (stays_queued []) stays-nil queue)
    go (c ∷ cs) =
        elim (Bool-cases (length (filter (stays_queued (c ∷ cs)) queue) == length queue)) [
          | inl same ↦ rw same (sym (filter_of_length (stays_queued (c ∷ cs)) queue (ground arith)))
          | inr less ↦ rw less
        ]
