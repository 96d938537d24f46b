-- ===== src/SourceControl/Selection.antt =====
-- Which diff is selected, which directories are open, and how wide the explorer is.
use mobile_agent.Prelude.{
  ℕ, ◌≤◌, Text, text_eq_refl, is_empty, true, false, not, ◌&&◌, Option, none, some, List, [], ◌∷◌,
  All, Bool-cases, inl, inr, arith, ◌≡◌, refl,
}
use mobile_agent.Prelude.Widths.{clamp}
use mobile_agent.SourceControl.Tree.{get_ancestor_paths}
use mobile_agent.SourceControl.Explorer.{
  has_path, first_path, effective_path, add_path, add_paths, on_selected, Explorer, Drag,
  mouse_down, mouse_move, mouse_up, move_from, drag,
}

-- Unless there is no diff, the selected one is among those shown.
pub effective_path-shown :
    (path : Text) (paths : List Text) (selected : Option Text)
    → (shown : Text) × (effective_path (path ∷ paths) selected ≡ some shown)
      × (has_path (path ∷ paths) shown ≡ true)
unfolding effective_path first_path
effective_path-shown path paths none = (path, refl, rw (text_eq_refl path) refl)
effective_path-shown path paths (some p) =
    elim (Bool-cases (not (is_empty p) && has_path (path ∷ paths) p)) [
      | inl e ↦ (p, rw e refl, ground (arith, e))
      | inr e ↦ (path, rw e refl, rw (text_eq_refl path) refl)
    ]

add_path-keeps :
    (p a : Text) (expanded : List Text)
    → has_path expanded a ≡ true
    → has_path (add_path p expanded) a ≡ true
unfolding add_path
add_path-keeps p a expanded h = ground (arith, h)

add_path-has : (p : Text) (expanded : List Text) → has_path (add_path p expanded) p ≡ true
unfolding add_path
add_path-has p expanded = elim (Bool-cases (has_path expanded p)) [
  | inl e ↦ rw (e, e) refl
  | inr e ↦ rw (e, text_eq_refl p) refl
]

add_paths-keeps :
    (ps : List Text) (a : Text) (expanded : List Text)
    → has_path expanded a ≡ true
    → has_path (add_paths ps expanded) a ≡ true
unfolding add_paths
add_paths-keeps [] a expanded h = h
add_paths-keeps (p ∷ ps) a expanded h =
    add_paths-keeps ps a (add_path p expanded) (add_path-keeps p a expanded h)

add_paths-has : (ps expanded : List Text) → All (λ a. has_path (add_paths ps expanded) a ≡ true) ps
unfolding add_paths
add_paths-has [] expanded = tt
add_paths-has (p ∷ ps) expanded = (
  add_paths-keeps ps p (add_path p expanded) (add_path-has p expanded),
  add_paths-has ps (add_path p expanded),
)

-- After a path is selected, each of its ancestors is open, and what was open stays open.
pub on_selected-opens :
    (path : Text) (expanded : List Text)
    → is_empty path ≡ false
    → All (λ a. has_path (on_selected (some path) expanded) a ≡ true) (get_ancestor_paths path)
      × ((a : Text)
          → has_path expanded a ≡ true
          → has_path (on_selected (some path) expanded) a ≡ true)
unfolding on_selected
on_selected-opens path expanded h = rw h (
  add_paths-has (get_ancestor_paths path) expanded,
  λ a. add_paths-keeps (get_ancestor_paths path) a expanded,
)

-- Whatever is dragged, the explorer stays between 220 and 520 pixels wide.
pub drag-bounds :
    (s : Explorer) (event : Drag)
    → 220 ≤ s.width
    → s.width ≤ 520
    → (220 ≤ (drag s event).width) × ((drag s event).width ≤ 520)
unfolding drag move_from clamp
drag-bounds s (mouse_down client_x) l h = (l, h)
drag-bounds s (mouse_move client_x) l h = go s.resize_start
  where
    go :
        (start : Option (ℕ × ℕ))
        → (220 ≤ (move_from start client_x s).width) × ((move_from start client_x s).width ≤ 520)
    go none = (l, h)
    go (some (x, width)) = (ground arith, ground arith)
drag-bounds s mouse_up l h = (l, h)
