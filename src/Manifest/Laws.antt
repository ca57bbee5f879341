-- ===== src/Manifest/Laws.antt =====
-- internal/engine/manifest/model.go: the verdict on a snapshot, and the key that decides whether tokens
-- still verify.
use portcloak.Base.Int.{ℤ}
use portcloak.Base.{
  ℕ, ltb, ◌==◌, ◌||◌, ap, ◌∙◌, ◌≡◌, refl, sym, Bool, true, false, ◌&&◌, Option, none, some, List,
  [], ◌∷◌, In, All, any, arith, if◌then◌else◌,
}
use portcloak.Manifest.{
  Status, missing, Verdict, full, gaps, Category, Completeness, step, fold_verdict, recompute, Key,
  Manifest, above, can_sign, outranks,
}

abbrev is_missing : Status → Bool
is_missing missing = true
is_missing _ = false

abbrev is_partial : Status → Bool
is_partial Status.partial = true
is_partial _ = false

-- The verdict that the categories call for: the worst of their statuses.
abbrev pub expected_verdict : List Category → Verdict
expected_verdict cs =
    if any (λ (c : Category). is_missing c.status) cs
    then gaps
    else if any (λ (c : Category). is_partial c.status) cs
    then Verdict.partial
    else full

worse : Verdict → List Category → Verdict
worse gaps cs = gaps
worse Verdict.partial cs =
    if any (λ (c : Category). is_missing c.status) cs then gaps else Verdict.partial
worse full cs = expected_verdict cs

worse-step :
    (v : Verdict) (c : Category) (cs : List Category)
    → worse (step v c.status) cs ≡ worse v (c ∷ cs)
unfolding step worse
worse-step gaps c cs = ground arith
worse-step Verdict.partial c cs = ground arith
worse-step full c cs = ground arith

worse-nil : (v : Verdict) → worse v [] ≡ v
unfolding worse
worse-nil gaps = refl
worse-nil Verdict.partial = refl
worse-nil full = refl

fold_verdict-worse : (v : Verdict) (cs : List Category) → fold_verdict v cs ≡ worse v cs
unfolding fold_verdict
fold_verdict-worse v [] = sym (worse-nil v)
fold_verdict-worse v (c ∷ cs) = fold_verdict-worse (step v c.status) cs ∙ worse-step v c cs

-- Recompute's one pass finds the worst status of the categories: Gaps where one is missing, else
-- Partial where one is partial, else Complete, whatever the verdict was; the rest stays.
recompute_lem :
    (c : Completeness) → recompute c ≡ record c { verdict = expected_verdict c.categories }
unfolding recompute worse
recompute_lem c = ap (λ v. record c { verdict = v }) (fold_verdict-worse full c.categories)

-- The order of `outranks`, on ranks and priorities.
abbrev is_higher : ℕ → ℤ → ℕ → ℤ → Bool
is_higher m p n q = ltb n m || m == n && above p q

-- The best of the keys that can sign.
abbrev pub IsBest : List Key → Option Key → Type 0
IsBest ks none = All (λ k. can_sign k ≡ false) ks
IsBest ks (some b) =
    In b ks × (can_sign b ≡ true) × All (λ k. can_sign k && outranks k b ≡ false) ks
