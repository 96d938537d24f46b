-- ===== src/Prelude/Arrivals.antt =====
-- `xs.sort(compare)` of elements that arrive in any order, where `compare` tells every two of them apart.
use mathlib.Core.Path.{◌≡◌, refl, subst, ◌∙◌}
use mathlib.Core.Bool.{Bool, not}
use mathlib.Core.Logic.{inl, inr}
use mathlib.Core.List.{List, [], ◌∷◌, Permᴰ}
use native.Mathlib.Omega.{arith}
use mobile_agent.Prelude.Tests.{Bool-cases}
use mobile_agent.Prelude.Lists.{All}
use mobile_agent.Prelude.Sort.{insert_sorted, sort, IsOrder}

module _ {ℓ} {A : Type ℓ} (before : A → A → Bool) where
  -- one of the two comes before the other, and not both
  abbrev pub Tells : A → A → Type 0
  Tells a b = before a b ≡ not (before b a)

  abbrev pub IsTold : List A → Type 0
  IsTold [] = Unit
  IsTold (x ∷ xs) = All (Tells x) xs × IsTold xs

  Tells-sym : (a b : A) → Tells a b → Tells b a
  Tells-sym a b h = elim (Bool-cases (before b a)) [
    | inl e ↦ rw (h, e) refl
    | inr e ↦ rw (h, e) refl
  ]

  All-perm : (P : A → Type 0) (xs ys : List A) → Permᴰ xs ys → All P xs → All P ys
  All-perm P _ _ Permᴰ.nil h = tt
  All-perm P _ _ (Permᴰ.cons e p) (h, hs) = (subst P e h, All-perm P _ _ p hs)
  All-perm P _ _ (Permᴰ.swap e d) (h, (k, hs)) = (subst P d k, (subst P e h, hs))
  All-perm P _ _ (Permᴰ.trans p q) h = All-perm P _ _ q (All-perm P _ _ p h)

  IsTold-perm : (xs ys : List A) → Permᴰ xs ys → IsTold xs → IsTold ys
  IsTold-perm _ _ Permᴰ.nil h = tt
  IsTold-perm _ _ (Permᴰ.cons {a = a} {b = b} {l₁ = l} {l₂ = m} e p) (h, hs) =
      (subst (λ c. All (Tells c) m) e (All-perm (Tells a) l m p h), IsTold-perm l m p hs)
  IsTold-perm _ _ (Permᴰ.swap {a = a} {b = b} {b' = b'} {l = l} e d) ((k, h), (i, hs)) =
      subst (λ c. IsTold (c ∷ b' ∷ l)) d
        (subst (λ c. IsTold (b ∷ c ∷ l)) e ((Tells-sym a b k, i), (h, hs)))
  IsTold-perm _ _ (Permᴰ.trans p q) h = IsTold-perm _ _ q (IsTold-perm _ _ p h)

  module _ (o : IsOrder before) where
    insert-insert :
        (x y : A) (zs : List A)
        → Tells x y
        → insert_sorted before x (insert_sorted before y zs)
          ≡ insert_sorted before y (insert_sorted before x zs)
    unfolding insert_sorted
    insert-insert x y [] h = elim (Bool-cases (before y x)) [
      | inl e ↦ rw (h, e) refl
      | inr e ↦ rw (h, e) refl
    ]
    insert-insert x y (z ∷ zs) h =
        ground (arith, h, o.trans y x z, o.trans x y z, insert-insert x y zs h)

    pub sort-arrivals : (xs ys : List A) → Permᴰ xs ys → IsTold xs → sort before xs ≡ sort before ys
    unfolding sort
    sort-arrivals _ _ Permᴰ.nil h = refl
    sort-arrivals _ _ (Permᴰ.cons e p) (h, hs) = rw (e, sort-arrivals _ _ p hs) refl
    sort-arrivals _ _ (Permᴰ.swap {a = a} {b = b} {l = l} e d) ((k, _), _) =
        insert-insert a b (sort before l) k ∙ rw (e, d) refl
    sort-arrivals _ _ (Permᴰ.trans p q) h =
        sort-arrivals _ _ p h ∙ sort-arrivals _ _ q (IsTold-perm _ _ p h)
