-- ===== src/Threads/Grouping.antt =====
-- The groups of `groupThreads` and the sorted list.
use mathlib.Core.List.{Perm}
use mobile_agent.Prelude.{
  ℕ, ◌-◌, ◌*◌, ◌≤◌, ◌<◌, ◌≡◌, refl, Bool, true, not, List, [], ◌∷◌, ◌++◌, append_assoc, append-nil,
  filter, All, arith, Bool-cases, inl, inr, ◌==◌,
}
use mobile_agent.Prelude.Sort.{
  sort, IsOrdered, IsOrder, IsOrdered-filter, filter-split, sort-IsOrdered, sort-perm, filter-All,
  filter-sort, All-map, All-tt,
}
use mobile_agent.Types.{AgentThread}
use mobile_agent.Threads.{Groups, newer, day, is_since, add_thread, add_threads, group_threads}

abbrev is_before : ℕ → AgentThread → Bool
is_before bound thread = not (is_since bound thread)

-- the groups after the loop, as filters of what it went through
abbrev grown : ℕ → ℕ → ℕ → Groups → List AgentThread → Groups
grown a b c g ts = record {
  today = g.today ++ filter (is_since a) ts;
  last7 = g.last7 ++ filter (is_since b) (filter (is_before a) ts);
  last30 = g.last30 ++ filter (is_since c) (filter (is_before b) (filter (is_before a) ts));
  older = g.older ++ filter (is_before c) (filter (is_before b) (filter (is_before a) ts));
}

add_threads-grown :
    (a b c : ℕ) (g : Groups) (ts : List AgentThread) → add_threads a b c g ts ≡ grown a b c g ts
unfolding add_threads add_thread
add_threads-grown a b c g [] =
    rw (append-nil g.today, append-nil g.last7, append-nil g.last30, append-nil g.older) refl
add_threads-grown a b c g (t ∷ ts) = elim (Bool-cases (is_since a t)) [
  | inl e ↦
      rw (e, add_threads-grown a b c (record g { today = g.today ++ t ∷ [] }) ts)
        (simp append_assoc)
  | inr e ↦ elim (Bool-cases (is_since b t)) [
    | inl f ↦
        rw (e, f, add_threads-grown a b c (record g { last7 = g.last7 ++ t ∷ [] }) ts)
          (simp append_assoc)
    | inr f ↦ elim (Bool-cases (is_since c t)) [
      | inl k ↦
          rw (e, f, k, add_threads-grown a b c (record g { last30 = g.last30 ++ t ∷ [] }) ts)
            (simp append_assoc)
      | inr k ↦
          rw (e, f, k, add_threads-grown a b c (record g { older = g.older ++ t ∷ [] }) ts)
            (simp append_assoc)
    ]
  ]
]

newer-IsOrder : IsOrder newer
newer-IsOrder = record { asym = λ a b h. ground arith; trans = λ a b c h k. ground arith }

since_split :
    (bound : ℕ) (ts : List AgentThread)
    → IsOrdered newer ts
    → filter (is_since bound) ts ++ filter (is_before bound) ts ≡ ts
since_split bound ts h =
    filter-split newer newer-IsOrder (is_since bound) (λ a b p q. ground arith) ts h

abbrev pub is_at : ℕ → AgentThread → Bool
is_at at thread = thread.updated_at == at

abbrev pub listed : Groups → List AgentThread
listed g = g.today ++ (g.last7 ++ (g.last30 ++ g.older))

split_thrice :
    (a b c : ℕ) (ts : List AgentThread)
    → IsOrdered newer ts
    → listed (grown a b c (record { today = []; last7 = []; last30 = []; older = [] }) ts) ≡ ts
split_thrice a b c ts h =
    let h1 = IsOrdered-filter newer (is_before a) ts h in
    let h2 = IsOrdered-filter newer (is_before b) (filter (is_before a) ts) h1 in
    rw
      (
        since_split c (filter (is_before b) (filter (is_before a) ts)) h2,
        since_split b (filter (is_before a) ts) h1,
      )
      (since_split a ts h)

-- The four groups, one after the other, are the threads in order of their last update, the newest
-- first and those of one instant in the order they came in: none is lost or listed twice.
pub group_threads-sorted :
    (today_start now_7 now_30 : ℕ) (threads : List AgentThread)
    → Perm (listed (group_threads today_start now_7 now_30 threads)) threads
      × IsOrdered newer (listed (group_threads today_start now_7 now_30 threads))
      × ((at : ℕ)
          → filter (is_at at) (listed (group_threads today_start now_7 now_30 threads))
            ≡ filter (is_at at) threads)
unfolding group_threads
group_threads-sorted today_start now_7 now_30 threads =
    rw
      (
        add_threads-grown today_start (now_7 - 7 * day) (now_30 - 30 * day)
            (record { today = []; last7 = []; last30 = []; older = [] }) (sort newer threads),
        split_thrice today_start (now_7 - 7 * day) (now_30 - 30 * day) (sort newer threads)
            (sort-IsOrdered newer newer-IsOrder threads),
      )
      (
        sort-perm newer threads,
        sort-IsOrdered newer newer-IsOrder threads,
        λ at. filter-sort newer (is_at at) (λ a b p q. ground arith) threads,
      )

since_window :
    (P : AgentThread → Type 0) (bound : ℕ) (ts : List AgentThread)
    → All P ts
    → All (λ t. (bound ≤ t.updated_at) × P t) (filter (is_since bound) ts)
since_window P bound ts h =
    All-map (λ t. P t × (is_since bound t ≡ true)) (λ t. (bound ≤ t.updated_at) × P t)
      (λ t (p, e). (bound_le t e, p)) (filter (is_since bound) ts)
      (filter-All P (is_since bound) ts h)
  where
    bound_le : (t : AgentThread) → is_since bound t ≡ true → bound ≤ t.updated_at
    bound_le t e = ground arith

before_window :
    (P : AgentThread → Type 0) (bound : ℕ) (ts : List AgentThread)
    → All P ts
    → All (λ t. (t.updated_at < bound) × P t) (filter (is_before bound) ts)
before_window P bound ts h =
    All-map (λ t. P t × (is_before bound t ≡ true)) (λ t. (t.updated_at < bound) × P t)
      (λ t (p, e). (lt_bound t e, p)) (filter (is_before bound) ts)
      (filter-All P (is_before bound) ts h)
  where
    lt_bound : (t : AgentThread) → is_before bound t ≡ true → t.updated_at < bound
    lt_bound t e = ground arith

abbrev pub InWindows : ℕ → ℕ → ℕ → Groups → Type 0
InWindows a b c g =
    All (λ t. a ≤ t.updated_at) g.today
    × All (λ t. (b ≤ t.updated_at) × (t.updated_at < a)) g.last7
    × All (λ t. (c ≤ t.updated_at) × ((t.updated_at < b) × (t.updated_at < a))) g.last30
    × All (λ t. (t.updated_at < c) × ((t.updated_at < b) × (t.updated_at < a))) g.older

grown-InWindows :
    (a b c : ℕ) (ts : List AgentThread)
    → InWindows a b c (grown a b c (record { today = []; last7 = []; last30 = []; older = [] }) ts)
grown-InWindows a b c ts =
    let trivial : AgentThread → Type 0 = λ _. Unit {0} in
    let ts1 = filter (is_before a) ts in
    let ts2 = filter (is_before b) ts1 in
    let before_a : AgentThread → Type 0 = λ t. t.updated_at < a in
    let before_b : AgentThread → Type 0 = λ t. (t.updated_at < b) × before_a t in
    let h1 =
      All-map (λ t. before_a t × Unit {0}) before_a (λ t h. h.0) ts1
        (before_window trivial a ts (All-tt ts)) in
    let h2 = before_window before_a b ts1 h1 in
    (
      All-map (λ t. (a ≤ t.updated_at) × Unit {0}) (λ t. a ≤ t.updated_at) (λ t h. h.0)
          (filter (is_since a) ts) (since_window trivial a ts (All-tt ts)),
      since_window before_a b ts1 h1,
      since_window before_b c ts2 h2,
      before_window before_b c ts2 h2,
    )

-- Each group holds threads of its own window: of today, of the seven or the thirty days before,
-- or older than that, where a window ends where the one before it starts.
pub group_threads-InWindows :
    (today_start now_7 now_30 : ℕ) (threads : List AgentThread)
    → InWindows today_start
        (now_7 - 7 * day)
        (now_30 - 30 * day)
        (group_threads today_start now_7 now_30 threads)
unfolding group_threads
group_threads-InWindows today_start now_7 now_30 threads =
    rw
      (add_threads-grown today_start (now_7 - 7 * day) (now_30 - 30 * day)
        (record { today = []; last7 = []; last30 = []; older = [] }) (sort newer threads))
      (grown-InWindows today_start (now_7 - 7 * day) (now_30 - 30 * day) (sort newer threads))
