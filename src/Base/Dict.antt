-- ===== src/Base/Dict.antt =====
-- A map with text keys as an association list: Go's `map[string]V`, and a directory of files.
use mathlib.Core.Path.{◌≡◌, refl, sym}
use mathlib.Core.Logic.{inl, inr}
use mathlib.Core.Option.{Option, none, some}
use mathlib.Core.List.{List, [], ◌∷◌, map}
use native.Mathlib.Omega.{arith}
use Prim.Native.String.{String}
use text.Mathlib.Text.{◌==◌ as str_eq}
use text.Mathlib.TextEquality.{eq_iff}
use portcloak.Base.Tests.{if◌then◌else◌, Bool-cases}
use portcloak.Base.Membership.{In, here, there}

abbrev pub Dict {ℓ} : Type ℓ → Type ℓ
Dict V = List (String × V)

module _ {ℓ} {V : Type ℓ} where
  unfoldable pub get : Dict V → String → Option V
  get [] k = none
  get ((j, v) ∷ d) k = let rest = get d k in if str_eq j k then some v else rest

  unfoldable pub put : Dict V → String → V → Dict V
  put [] k v = (k, v) ∷ []
  put ((j, w) ∷ d) k v = let rest = put d k v in if str_eq j k then (j, v) ∷ d else (j, w) ∷ rest

  unfoldable pub remove : Dict V → String → Dict V
  remove [] k = []
  remove ((j, w) ∷ d) k = let rest = remove d k in if str_eq j k then rest else (j, w) ∷ rest

  unfoldable pub keys : Dict V → List String
  keys d = map (λ (e : String × V). e.0) d

  pub get-put :
      (d : Dict V) (k j : String) (v : V)
      → get (put d k v) j ≡ (if str_eq k j then some v else get d j)
  unfolding get put
  get-put [] k j v = refl
  get-put ((i, w) ∷ d) k j v = ground (arith, get-put d k j v, eq_iff i k, eq_iff i j, eq_iff k j)

  pub get-remove :
      (d : Dict V) (k j : String) → get (remove d k) j ≡ (if str_eq k j then none else get d j)
  unfolding get remove
  get-remove [] k j = ground arith
  get-remove ((i, w) ∷ d) k j = ground (arith, get-remove d k j, eq_iff i k, eq_iff i j, eq_iff k j)

  pub In-keys : (d : Dict V) (k : String) {v : V} → get d k ≡ some v → In k (keys d)
  unfolding get keys
  In-keys [] k h = cc
  In-keys ((j, w) ∷ d) k h = elim (Bool-cases (str_eq j k)) [
    | inl same ↦ here (sym ((eq_iff j k).0 same))
    | inr other ↦ there (In-keys d k (rw (other, get) at h))
  ]

pub ruleset dict_laws = (get-put, get-remove)
