-- ===== src/Base/Membership.antt =====
-- Membership in a list, as data that a proof may take apart.
use mathlib.Core.Path.{◌≡◌}
use mathlib.Core.Logic.{◌≢◌}
use mathlib.Core.List.{List, ◌∷◌}

pub data In {ℓ} {A : Type ℓ} (x : A) : List A → Type ℓ where
  here : {y : A} {ys : List A} → x ≡ y → In x (y ∷ ys)
  there : {y : A} {ys : List A} → In x ys → In x (y ∷ ys)

pub In-tail {ℓ} : {A : Type ℓ} {x y : A} {ys : List A} → In x (y ∷ ys) → x ≢ y → In x ys
In-tail (here e) h = absurd (h e)
In-tail (there m) h = m
