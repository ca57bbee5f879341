-- ===== src/Base/Sort.antt =====
-- Go's `sort.SliceStable`, and `sort.Slice` with its freedom in the order of equal elements settled
-- the same way: an insertion sort by a test `less`.
use mathlib.Core.Path.{◌≡◌}
use mathlib.Core.Logic.{◌⊎◌, inl, inr}
use mathlib.Core.Bool.{Bool}
use mathlib.Core.List.{List, [], ◌∷◌}
use portcloak.Base.Tests.{if◌then◌else◌, Bool-cases}
use portcloak.Base.Lists.{All}
use portcloak.Base.Membership.{In, here, there}

module _ {ℓ} {A : Type ℓ} (less : A → A → Bool) where
  -- Before the first element that is not less.
  unfoldable pub insert_by : A → List A → List A
  insert_by x [] = x ∷ []
  insert_by x (y ∷ ys) = let rest = insert_by x ys in if less y x then y ∷ rest else x ∷ y ∷ ys

  unfoldable pub sort_by : List A → List A
  unfolding insert_by
  sort_by [] = []
  sort_by (x ∷ xs) = insert_by x (sort_by xs)

module _ {ℓ} {A : Type ℓ} (less : A → A → Bool) where
  In-insert_by : {a : A} (x : A) (ys : List A) → (a ≡ x) ⊎ In a ys → In a (insert_by less x ys)
  unfolding insert_by
  In-insert_by x [] (inl e) = here e
  In-insert_by x [] (inr m) = elim m [ ]
  In-insert_by x (y ∷ ys) h = elim (Bool-cases (less y x)) [
    | inl l ↦ rw l (past x y ys h (In-insert_by x ys))
    | inr l ↦ rw l (elim h [ inl e ↦ here e | inr m ↦ there m ])
  ]
    where
      past :
          {a : A} (x y : A) (ys : List A)
          → (a ≡ x) ⊎ In a (y ∷ ys)
          → ((a ≡ x) ⊎ In a ys → In a (insert_by less x ys))
          → In a (y ∷ insert_by less x ys)
      past x y ys (inl e) k = there (k (inl e))
      past x y ys (inr (here e)) k = here e
      past x y ys (inr (there m)) k = there (k (inr m))

  pub In-sort_by : {a : A} {xs : List A} → In a xs → In a (sort_by less xs)
  unfolding sort_by
  In-sort_by {xs = []} m = elim m [ ]
  In-sort_by {xs = x ∷ xs} (here e) = In-insert_by x (sort_by less xs) (inl e)
  In-sort_by {xs = x ∷ xs} (there m) = In-insert_by x (sort_by less xs) (inr (In-sort_by m))

  pub All-insert_by {κ} :
      (P : A → Type κ) (x : A) (ys : List A) → P x → All P ys → All P (insert_by less x ys)
  unfolding insert_by
  All-insert_by P x [] p h = (p, tt)
  All-insert_by P x (y ∷ ys) p h = elim (Bool-cases (less y x)) [
    | inl l ↦ rw l (h.0, All-insert_by P x ys p h.1)
    | inr l ↦ rw l (p, h)
  ]

  pub All-sort_by {κ} : (P : A → Type κ) (xs : List A) → All P xs → All P (sort_by less xs)
  unfolding sort_by
  All-sort_by P [] h = tt
  All-sort_by P (x ∷ xs) h = All-insert_by P x (sort_by less xs) h.0 (All-sort_by P xs h.1)
