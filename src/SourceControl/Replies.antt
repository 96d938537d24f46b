-- ===== src/SourceControl/Replies.antt =====
-- Which buttons of the panel show that a request is under way.
use mobile_agent.Prelude.{
  Text, ◌≡◌, ◌∙◌, refl, Bool, true, false, not, ◌&&◌, ◌||◌, Option, none, some, is_some, List, [],
  ◌∷◌, ◌++◌, any, arith, Bool-cases, inl, inr,
}
use mobile_agent.SourceControl.{Panel, Reply, success, failure, thrown}
use mobile_agent.SourceControl.Handlers.{
  begin_commit, start_commit, after_commit, start_push, after_push, start_pull, after_pull,
  after_all, after_create_pr, after_create_branch,
}
use mobile_agent.SourceControl.Session.{
  Action, stage_all, discard_all, unstage_all, commit, push, pull, create_pr, create_branch, start,
  finish, Session, awaiting, losing, Step, clicked, replied, changed, Reach, here, next,
}

abbrev pub is_commit : Action → Bool
is_commit commit = true
is_commit _ = false

abbrev pub is_push : Action → Bool
is_push push = true
is_push _ = false

abbrev pub is_pull : Action → Bool
is_pull pull = true
is_pull _ = false

-- a flag that is set has its request, awaited or lost
abbrev pub IsOwed : (Action → Bool) → Bool → List (Action × Text) → List Action → Type 0
IsOwed p flag awaited lost = flag ≡ true → (any (λ r. p r.0) awaited || any p lost) ≡ true

abbrev pub IsOwing : Session → Type 0
IsOwing s =
    IsOwed is_commit s.panel.committing s.awaited s.lost
    × IsOwed is_push s.panel.pushing s.awaited s.lost
    × IsOwed is_pull s.panel.pulling s.awaited s.lost

-- what a click makes of the three flags
StartFlags : Action → Panel → Panel × Option Text → Type 0
StartFlags a s (t, asked) =
    (t.committing ≡ (is_commit a && is_some asked || s.committing))
    × (t.pushing ≡ (is_push a && is_some asked || s.pushing))
    × (t.pulling ≡ (is_pull a && is_some asked || s.pulling))

begin_commit-flags :
    (message : Option Text) (b : Bool) (s : Panel) → StartFlags commit s (begin_commit message b s)
unfolding begin_commit StartFlags
begin_commit-flags none b s = (refl, refl, refl)
begin_commit-flags (some message) true s = (refl, refl, refl)
begin_commit-flags (some message) false s = (refl, refl, refl)

start-flags : (a : Action) (path : Option Text) (s : Panel) → StartFlags a s (start a path s)
unfolding start start_commit start_push start_pull StartFlags
start-flags stage_all path s = (refl, refl, refl)
start-flags discard_all path s = (refl, refl, refl)
start-flags unstage_all path s = (refl, refl, refl)
start-flags commit path s = begin_commit-flags _ _ s
start-flags push none s = (refl, refl, refl)
start-flags push (some path) s = (refl, refl, refl)
start-flags pull none s = (refl, refl, refl)
start-flags pull (some path) s = (refl, refl, refl)
start-flags create_pr path s = (refl, refl, refl)
start-flags create_branch path s = (refl, refl, refl)

-- whether the reply is one
abbrev returns : Reply → Bool
returns thrown = false
returns success = true
returns (failure error) = true

FinishFlags : Action → Reply → Panel → Panel → Type 0
FinishFlags a reply s t =
    (t.committing ≡ (not (is_commit a && returns reply) && s.committing))
    × (t.pushing ≡ (not (is_push a && returns reply) && s.pushing))
    × (t.pulling ≡ (not (is_pull a && returns reply) && s.pulling))

finish-flags :
    (a : Action) (asked : Text) (reply : Reply) (s : Panel)
    → FinishFlags a reply s (finish a asked reply s).panel
unfolding finish after_all after_commit after_push after_pull after_create_pr after_create_branch
    FinishFlags
finish-flags stage_all asked success s = (refl, refl, refl)
finish-flags stage_all asked (failure e) s = (refl, refl, refl)
finish-flags stage_all asked thrown s = (refl, refl, refl)
finish-flags discard_all asked success s = (refl, refl, refl)
finish-flags discard_all asked (failure e) s = (refl, refl, refl)
finish-flags discard_all asked thrown s = (refl, refl, refl)
finish-flags unstage_all asked success s = (refl, refl, refl)
finish-flags unstage_all asked (failure e) s = (refl, refl, refl)
finish-flags unstage_all asked thrown s = (refl, refl, refl)
finish-flags commit asked success s = (refl, refl, refl)
finish-flags commit asked (failure e) s = (refl, refl, refl)
finish-flags commit asked thrown s = (refl, refl, refl)
finish-flags push asked success s = (refl, refl, refl)
finish-flags push asked (failure e) s = (refl, refl, refl)
finish-flags push asked thrown s = (refl, refl, refl)
finish-flags pull asked success s = (refl, refl, refl)
finish-flags pull asked (failure e) s = (refl, refl, refl)
finish-flags pull asked thrown s = (refl, refl, refl)
finish-flags create_pr asked success s = (refl, refl, refl)
finish-flags create_pr asked (failure e) s = (refl, refl, refl)
finish-flags create_pr asked thrown s = (refl, refl, refl)
finish-flags create_branch asked success s = (refl, refl, refl)
finish-flags create_branch asked (failure e) s = (refl, refl, refl)
finish-flags create_branch asked thrown s = (refl, refl, refl)

clicked-IsOwed :
    (p : Action → Bool) (a : Action) (asked : Option Text) (f g : Bool)
    → (awaited : List (Action × Text)) (lost : List Action) → g ≡ (p a && is_some asked || f)
    → IsOwed p f awaited lost
    → IsOwed p g (awaiting a asked awaited) lost
unfolding awaiting
clicked-IsOwed p a none f g awaited lost e h = λ t. h (ground arith)
clicked-IsOwed p a (some asked) f g awaited lost e h = elim (Bool-cases (p a)) [
  | inl k ↦ rw k (λ _. refl)
  | inr k ↦ λ t. ground (arith, h (ground arith))
]

any-take_out {ℓ} :
    {A : Type ℓ} (p : A → Bool) (before after : List A) (x : A)
    → any p (before ++ x ∷ after) ≡ (p x || any p (before ++ after))
any-take_out p [] after x = refl
any-take_out p (y ∷ before) after x = ground (arith, any-take_out p before after x)

replied-IsOwed :
    (p : Action → Bool) (a : Action) (asked : Text) (reply : Reply) (f g : Bool)
    → (before after : List (Action × Text)) (lost : List Action)
    → g ≡ (not (p a && returns reply) && f)
    → IsOwed p f (before ++ (a, asked) ∷ after) lost
    → IsOwed p g (before ++ after) (losing a reply lost)
unfolding losing
replied-IsOwed p a asked success f g before after lost e h t =
    let k = any-take_out (λ (r : Action × Text). p r.0) before after (a, asked) in
    let o = h (ground arith) in ground arith
replied-IsOwed p a asked (failure error) f g before after lost e h t =
    let k = any-take_out (λ (r : Action × Text). p r.0) before after (a, asked) in
    let o = h (ground arith) in ground arith
replied-IsOwed p a asked thrown f g before after lost e h t =
    let k = any-take_out (λ (r : Action × Text). p r.0) before after (a, asked) in
    let o = h (ground arith) in ground arith

Step-IsOwing : {s t : Session} → Step s t → IsOwing s → IsOwing t
unfolding StartFlags FinishFlags
Step-IsOwing (clicked {s} action path) (c, u, l) =
    let asked = (start action path s.panel).1 in
    let (a, b, d) = start-flags action path s.panel in
    (
      clicked-IsOwed is_commit action asked _ _ s.awaited s.lost a c,
      clicked-IsOwed is_push action asked _ _ s.awaited s.lost b u,
      clicked-IsOwed is_pull action asked _ _ s.awaited s.lost d l,
    )
Step-IsOwing (replied {s} action asked reply before after e) (c, u, l) =
    let (a, b, d) = finish-flags action asked reply s.panel in
    (
      replied-IsOwed is_commit action asked reply _ _ before after s.lost a (rw⁻¹ e c),
      replied-IsOwed is_push action asked reply _ _ before after s.lost b (rw⁻¹ e u),
      replied-IsOwed is_pull action asked reply _ _ before after s.lost d (rw⁻¹ e l),
    )
Step-IsOwing (changed panel x y z) (c, u, l) = (rw x c, rw y u, rw z l)

Reach-IsOwing : {s t : Session} → Reach s t → IsOwing s → IsOwing t
Reach-IsOwing here h = h
Reach-IsOwing (next r st) h = Step-IsOwing st (Reach-IsOwing r h)

-- no button shows that its request is under way
abbrev pub IsIdle : Panel → Type 0
IsIdle s = (s.committing ≡ false) × (s.pushing ≡ false) × (s.pulling ≡ false)

-- From an idle panel on, whatever buttons are clicked and in whatever order git replies or throws: a
-- button shows that its request is under way only while such a request is awaited, or after one
-- threw; with none awaited and none thrown the panel is idle. And a click that asks git to commit,
-- push or pull makes its button show it.
pub Reach-IsWaiting :
    (s t : Session)
    → IsIdle s.panel
    → Reach s t
    → IsOwing t
      × (t.awaited ≡ [] → t.lost ≡ [] → IsIdle t.panel)
      × ((path : Option Text)
          → (is_some (start commit path t.panel).1 ≡ true
              → (start commit path t.panel).0.committing ≡ true)
            × (is_some (start push path t.panel).1 ≡ true
                → (start push path t.panel).0.pushing ≡ true)
            × (is_some (start pull path t.panel).1 ≡ true
                → (start pull path t.panel).0.pulling ≡ true))
unfolding StartFlags
Reach-IsWaiting s t (i, j, k) r =
    let owing =
      Reach-IsOwing r
        (λ h. absurd (ground arith), λ h. absurd (ground arith), λ h. absurd (ground arith)) in
    (
      owing,
      idle_when_settled owing,
      λ path. (
        λ h. (start-flags commit path t.panel).0 ∙ rw h refl,
        λ h. (start-flags push path t.panel).1 ∙ rw h refl,
        λ h. (start-flags pull path t.panel).2 ∙ rw h refl,
      ),
    )
  where
    off :
        (p : Action → Bool) (f : Bool) (awaited : List (Action × Text)) (lost : List Action)
        → awaited ≡ []
        → lost ≡ []
        → IsOwed p f awaited lost
        → f ≡ false
    off p true awaited lost a b h =
        let o : (any (λ (r : Action × Text). p r.0) [] || any p []) ≡ true =
          rw (a, b) at (h refl) in
        ground arith
    off p false awaited lost a b h = refl

    idle_when_settled : IsOwing t → t.awaited ≡ [] → t.lost ≡ [] → IsIdle t.panel
    idle_when_settled (c, u, l) a b =
        (off is_commit _ _ _ a b c, off is_push _ _ _ a b u, off is_pull _ _ _ a b l)
