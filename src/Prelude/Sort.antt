-- ===== src/Prelude/Sort.antt =====
-- JavaScript's `xs.sort(compare)`, which is stable: `before a b` says that `compare(a, b) < 0`.
use mathlib.Core.Path.{◌≡◌, refl, ◌∙◌}
use mathlib.Core.Bool.{Bool, true, false, not}
use mathlib.Core.Logic.{inl, inr}
use mathlib.Core.List.{List, [], ◌∷◌, ◌++◌, Perm}
use mathlib.Core.List.Perm
use native.Mathlib.Omega.{arith}
use mobile_agent.Prelude.Tests.{if◌then◌else◌, Bool-cases}
use mobile_agent.Prelude.Lists.{filter, All}

module _ {ℓ} {A : Type ℓ} where
  -- after every element that comes before `x`, up to the first that does not
  unfoldable pub insert_sorted : (A → A → Bool) → A → List A → List A
  insert_sorted before x [] = x ∷ []
  insert_sorted before x (y ∷ ys) = if before y x then y ∷ insert_sorted before x ys else x ∷ y ∷ ys

  unfoldable pub sort : (A → A → Bool) → List A → List A
  unfolding insert_sorted
  sort before [] = []
  sort before (x ∷ xs) = insert_sorted before x (sort before xs)

  -- no element comes before an earlier one
  abbrev pub IsOrdered : (A → A → Bool) → List A → Type ℓ
  IsOrdered before [] = Unit
  IsOrdered before (x ∷ xs) = All (λ y. before y x ≡ false) xs × IsOrdered before xs

  pub All-filter {κ} :
      (P : A → Type κ) (p : A → Bool) (xs : List A) → All P xs → All P (filter p xs)
  All-filter P p [] h = tt
  All-filter P p (x ∷ xs) (h, hs) = elim (Bool-cases (p x)) [
    | inl e ↦ rw e (h, All-filter P p xs hs)
    | inr e ↦ rw e (All-filter P p xs hs)
  ]

  pub filter-All {κ} :
      (P : A → Type κ) (p : A → Bool) (xs : List A)
      → All P xs
      → All (λ x. P x × (p x ≡ true)) (filter p xs)
  filter-All P p [] h = tt
  filter-All P p (x ∷ xs) (h, hs) = elim (Bool-cases (p x)) [
    | inl e ↦ rw e ((h, e), filter-All P p xs hs)
    | inr e ↦ rw e (filter-All P p xs hs)
  ]

  pub All-map {κ μ} :
      (P : A → Type κ) (Q : A → Type μ)
      → ((x : A) → P x → Q x)
      → (xs : List A) → All P xs
      → All Q xs
  All-map P Q f [] h = tt
  All-map P Q f (x ∷ xs) (h, hs) = (f x h, All-map P Q f xs hs)

  pub All-tt : (xs : List A) → All (λ _. Unit {0}) xs
  All-tt [] = tt
  All-tt (x ∷ xs) = (tt, All-tt xs)

  pub filter_none : (p : A → Bool) (xs : List A) → All (λ x. p x ≡ false) xs → filter p xs ≡ []
  filter_none p [] h = refl
  filter_none p (x ∷ xs) (h, hs) = rw h (filter_none p xs hs)

  pub filter_every :
      (p : A → Bool) (xs : List A) → All (λ x. p x ≡ false) xs → filter (λ x. not (p x)) xs ≡ xs
  filter_every p [] h = refl
  filter_every p (x ∷ xs) (h, hs) = rw (h, filter_every p xs hs)

  pub IsOrdered-filter :
      (before : A → A → Bool) (p : A → Bool) (xs : List A)
      → IsOrdered before xs
      → IsOrdered before (filter p xs)
  IsOrdered-filter before p [] h = tt
  IsOrdered-filter before p (x ∷ xs) (h, hs) = elim (Bool-cases (p x)) [
    | inl e ↦ rw e (All-filter (λ y. before y x ≡ false) p xs h, IsOrdered-filter before p xs hs)
    | inr e ↦ rw e (IsOrdered-filter before p xs hs)
  ]

  insert_sorted-perm :
      (before : A → A → Bool) (x : A) (xs : List A) → Perm (insert_sorted before x xs) (x ∷ xs)
  unfolding insert_sorted
  insert_sorted-perm before x [] = Perm.rfl
  insert_sorted-perm before x (y ∷ ys) = elim (Bool-cases (before y x)) [
    | inl e ↦ rw e (Perm.trans (Perm.cons y (insert_sorted-perm before x ys)) (Perm.swap x y ys))
    | inr e ↦ rw e Perm.rfl
  ]

  pub sort-perm : (before : A → A → Bool) (xs : List A) → Perm (sort before xs) xs
  unfolding sort
  sort-perm before [] = Perm.rfl
  sort-perm before (x ∷ xs) =
      Perm.trans (insert_sorted-perm before x (sort before xs)) (Perm.cons x (sort-perm before xs))

  -- Elements that do not come before each other keep their order.
  pub filter-sort :
      (before : A → A → Bool) (p : A → Bool)
      → ((a b : A) → p a ≡ true → p b ≡ true → before a b ≡ false)
      → (xs : List A) → filter p (sort before xs) ≡ filter p xs
  unfolding sort insert_sorted
  filter-sort before p h [] = refl
  filter-sort before p h (x ∷ xs) =
      filter-insert_sorted x (sort before xs) ∙ step (filter-sort before p h xs)
    where
      filter-insert_sorted :
          (y : A) (ys : List A) → filter p (insert_sorted before y ys) ≡ filter p (y ∷ ys)
      filter-insert_sorted y [] = refl
      filter-insert_sorted y (z ∷ zs) = ground (arith, h z y, filter-insert_sorted y zs)

      step :
          filter p (sort before xs) ≡ filter p xs
          → filter p (x ∷ sort before xs) ≡ filter p (x ∷ xs)
      step e = rw e refl

-- `compare` orders: what does not come before is transitive, and two elements do not come before
-- each other.
pub record IsOrder {ℓ} {A : Type ℓ} (before : A → A → Bool) : Type ℓ where
  pub asym : (a b : A) → before a b ≡ true → before b a ≡ false
  pub trans : (a b c : A) → before b a ≡ false → before c b ≡ false → before c a ≡ false

module _ {ℓ} {A : Type ℓ} (before : A → A → Bool) (o : IsOrder before) where
  after_all :
      (x y : A) (ys : List A)
      → before y x ≡ false
      → All (λ z. before z y ≡ false) ys
      → All (λ z. before z x ≡ false) ys
  after_all x y [] h _ = tt
  after_all x y (z ∷ zs) h (k, ks) = (o.trans x y z h k, after_all x y zs h ks)

  insert-after :
      (x y : A) (ys : List A)
      → before x y ≡ false
      → All (λ z. before z y ≡ false) ys
      → All (λ z. before z y ≡ false) (insert_sorted before x ys)
  unfolding insert_sorted
  insert-after x y [] h _ = (h, tt)
  insert-after x y (z ∷ zs) h (k, ks) = elim (Bool-cases (before z x)) [
    | inl e ↦ rw e (k, insert-after x y zs h ks)
    | inr e ↦ rw e (h, (k, ks))
  ]

  insert-IsOrdered :
      (x : A) (ys : List A) → IsOrdered before ys → IsOrdered before (insert_sorted before x ys)
  unfolding insert_sorted
  insert-IsOrdered x [] h = (tt, tt)
  insert-IsOrdered x (y ∷ ys) (h, hs) = elim (Bool-cases (before y x)) [
    | inl e ↦ rw e (insert-after x y ys (o.asym y x e) h, insert-IsOrdered x ys hs)
    | inr e ↦ rw e ((e, after_all x y ys e h), (h, hs))
  ]

  pub sort-IsOrdered : (xs : List A) → IsOrdered before (sort before xs)
  unfolding sort
  sort-IsOrdered [] = tt
  sort-IsOrdered (x ∷ xs) = insert-IsOrdered x (sort before xs) (sort-IsOrdered xs)

  -- A test that, once it fails, fails from there on splits an ordered list.
  pub filter-split :
      (p : A → Bool)
      → ((a b : A) → p a ≡ false → before b a ≡ false → p b ≡ false)
      → (xs : List A) → IsOrdered before xs
      → filter p xs ++ filter (λ x. not (p x)) xs ≡ xs
  filter-split p mono [] h = refl
  filter-split p mono (x ∷ xs) (h, hs) = elim (Bool-cases (p x)) [
    | inl e ↦ rw (e, filter-split p mono xs hs)
    | inr e ↦ rw (e, filter_none p xs (fails xs h e), filter_every p xs (fails xs h e))
  ]
    where
      fails :
          (ys : List A) → All (λ y. before y x ≡ false) ys → p x ≡ false → All (λ y. p y ≡ false) ys
      fails [] _ _ = tt
      fails (y ∷ ys) (k, ks) e = (mono x y e k, fails ys ks e)
