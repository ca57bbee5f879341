-- ===== src/Base/Distinct.antt =====
-- Lists in which no two elements agree in a key, as the entries of a map or the names of a folder.
use mathlib.Core.Path.{◌≡◌, refl, sym}
use mathlib.Core.Logic.{◌≢◌, inl, inr}
use mathlib.Core.Bool.{Bool, false}
use mathlib.Core.List.{List, [], ◌∷◌, ◌++◌}
use native.Mathlib.Omega.{arith}
use Prim.Native.String.{String}
use text.Mathlib.Text.{◌==◌ as str_eq}
use text.Mathlib.TextEquality.{eq_iff}
use portcloak.Base.Tests.{Bool-cases}
use portcloak.Base.Lists.{All}
use portcloak.Base.Text.{any}
use portcloak.Base.Membership.{In, here, there}
use portcloak.Base.Sort.{sort_by, insert_by, All-sort_by, All-insert_by}

pub str_eq-false : (x y : String) → str_eq x y ≡ false → x ≢ y
str_eq-false x y h e = absurd (ground (arith, h, (eq_iff x y).1 e))

pub ne-false : (x y : String) → x ≢ y → str_eq x y ≡ false
ne-false x y n = elim (Bool-cases (str_eq x y)) [
  | inl e ↦ absurd (n ((eq_iff x y).0 e))
  | inr f ↦ f
]

pub any-false : (x : String) (ys : List String) → any (str_eq x) ys ≡ false → All (λ y. x ≢ y) ys
any-false x [] h = tt
any-false x (y ∷ ys) h = elim (Bool-cases (str_eq x y)) [
  | inl e ↦ absurd (ground (arith, h, e))
  | inr n ↦ (str_eq-false x y n, any-false x ys (rw n at h))
]

module _ {ℓ} {A : Type ℓ} where
  pub All-In {κ} : (P : A → Type κ) (xs : List A) {y : A} → All P xs → In y xs → P y
  All-In P [] h m = elim m [ ]
  All-In P (x ∷ xs) h (here e) = rw e (h.0)
  All-In P (x ∷ xs) h (there m) = All-In P xs (h.1) m

  pub All-of {κ} : (P : A → Type κ) (xs : List A) → ((y : A) → In y xs → P y) → All P xs
  All-of P [] f = tt
  All-of P (x ∷ xs) f = (f x (here refl), All-of P xs (λ y m. f y (there m)))

  pub All-map {κ ι} :
      (P : A → Type κ) (Q : A → Type ι) (xs : List A) → ((y : A) → P y → Q y) → All P xs → All Q xs
  All-map P Q [] f h = tt
  All-map P Q (x ∷ xs) f h = (f x (h.0), All-map P Q xs f (h.1))

  pub All-append {κ} : (P : A → Type κ) (xs ys : List A) → All P xs → All P ys → All P (xs ++ ys)
  All-append P [] ys h k = k
  All-append P (x ∷ xs) ys h k = (h.0, All-append P xs ys (h.1) k)

  pub In-left : {y : A} (xs ys : List A) → In y xs → In y (xs ++ ys)
  In-left [] ys m = elim m [ ]
  In-left (x ∷ xs) ys (here e) = here e
  In-left (x ∷ xs) ys (there m) = there (In-left xs ys m)

  pub In-right : {y : A} (xs ys : List A) → In y ys → In y (xs ++ ys)
  In-right [] ys m = m
  In-right (x ∷ xs) ys m = there (In-right xs ys m)

-- The element's key differs from every later one's.
module _ {ℓ κ} {A : Type ℓ} {K : Type κ} (key : A → K) where
  abbrev pub Apart : A → List A → Type κ
  Apart x ys = All (λ y. key x ≢ key y) ys

  abbrev pub IsDistinct : List A → Type κ
  IsDistinct [] = Unit
  IsDistinct (x ∷ xs) = Apart x xs × IsDistinct xs

abbrev pub AreDistinct {ℓ} : {A : Type ℓ} → List A → Type ℓ
AreDistinct {A = A} xs = IsDistinct (λ (x : A). x) xs

module _ {ℓ κ} {A : Type ℓ} {K : Type κ} (key : A → K) (less : A → A → Bool) where
  IsDistinct-insert_by :
      (x : A) (ys : List A)
      → Apart key x ys
      → IsDistinct key ys
      → IsDistinct key (insert_by less x ys)
  unfolding insert_by
  IsDistinct-insert_by x [] a d = (tt, tt)
  IsDistinct-insert_by x (y ∷ ys) a d = elim (Bool-cases (less y x)) [
    | inl l ↦ rw l (
      All-insert_by less (λ z. key y ≢ key z) x ys (λ e. a.0 (sym e)) (d.0),
      IsDistinct-insert_by x ys (a.1) (d.1),
    )
    | inr l ↦ rw l (a, d)
  ]

  pub IsDistinct-sort_by : (xs : List A) → IsDistinct key xs → IsDistinct key (sort_by less xs)
  unfolding sort_by
  IsDistinct-sort_by [] d = tt
  IsDistinct-sort_by (x ∷ xs) d =
      IsDistinct-insert_by x (sort_by less xs) (All-sort_by less (λ y. key x ≢ key y) xs (d.0))
        (IsDistinct-sort_by xs (d.1))
