-- ===== src/SourceControl/Session.antt =====
-- The buttons of components/agents/ported/SourceControlTile.tsx and the replies of git, in any order.
use mobile_agent.Prelude.{Text, codes, ◌≡◌, Option, none, some, List, ◌∷◌, ◌++◌}
use mobile_agent.SourceControl.{Panel, Reply, success, failure, thrown, Outcome}
use mobile_agent.SourceControl.Handlers.{
  start_commit, after_commit, start_push, after_push, start_pull, after_pull, after_all,
  after_create_pr, branch_name_of, after_create_branch,
}

pub data Action : Type 0 where
  stage_all discard_all unstage_all commit push pull create_pr create_branch : Action

-- what the handler of a button does before it awaits git
unfoldable pub start : Action → Option Text → Panel → Panel × Option Text
start commit path s = start_commit path s
start push path s = start_push path s
start pull path s = start_pull path s
start create_branch path s = (s, branch_name_of path s)
start _ path s = (s, path)

-- and what it does with the reply
unfoldable pub finish : Action → Text → Reply → Panel → Outcome
finish stage_all asked = after_all asked (codes "Stage all failed")
finish discard_all asked = after_all asked (codes "Discard all failed")
finish unstage_all asked = after_all asked (codes "Unstage all failed")
finish commit asked = after_commit asked
finish push asked = after_push asked
finish pull asked = after_pull asked
finish create_pr asked = after_create_pr asked
finish create_branch asked = after_create_branch asked

-- The panel, the requests that are awaited, and the buttons whose requests threw.
pub record Session : Type 0 where
  pub panel : Panel
  pub awaited : List (Action × Text)
  pub lost : List Action

unfoldable pub awaiting : Action → Option Text → List (Action × Text) → List (Action × Text)
awaiting action none awaited = awaited
awaiting action (some asked) awaited = (action, asked) ∷ awaited

unfoldable pub losing : Action → Reply → List Action → List Action
losing action thrown lost = action ∷ lost
losing action success lost = lost
losing action (failure error) lost = lost

-- Any button is clicked, any awaited request is replied to, and anything else happens that leaves
-- the three flags: typing, opening, refreshing.
pub data Step : Session → Session → Type 0 where
  clicked :
      {s : Session} (action : Action) (path : Option Text)
      → Step s (record s {
        panel = (start action path s.panel).0;
        awaited = awaiting action (start action path s.panel).1 s.awaited;
      })
  replied :
      {s : Session} (action : Action) (asked : Text) (reply : Reply)
      → (before after : List (Action × Text)) → s.awaited ≡ before ++ (action, asked) ∷ after
      → Step s (record {
        panel = (finish action asked reply s.panel).panel;
        awaited = before ++ after;
        lost = losing action reply s.lost;
      })
  changed :
      {s : Session} (panel : Panel)
      → panel.committing ≡ s.panel.committing
      → panel.pushing ≡ s.panel.pushing
      → panel.pulling ≡ s.panel.pulling
      → Step s (record s { panel = panel })

pub data Reach (s : Session) : Session → Type 0 where
  here : Reach s s
  next : {t u : Session} → Reach s t → Step t u → Reach s u
