-- ===== src/Config/Crud/Duplicates.antt =====
-- internal/engine/config/crud.go: what `DuplicateEnvironment` copies, and what it leaves out.
use portcloak.Base.{
  ◌≡◌, ◌≢◌, refl, ℕ, true, false, none, List, [], ◌∷◌, ◌++◌, String, str_eq, eq_iff, arith, All, In,
  here, there, inl, inr, Option-cases, Bool-cases, if◌then◌else◌,
}
use portcloak.Base.Result.{Result, ok}
use portcloak.Config.Files.{Faults}
use portcloak.Config.Model.{EnvironmentKind, Environment, Config, environment_by_name}
use portcloak.Config.Store.{Store, clone_config}
use portcloak.Config.Store.Atomic.{update_ok}
use portcloak.Config.Readiness.{needs_secret, environment_readiness}
use portcloak.Config.Crud.{unique_name, is_taken}
use portcloak.Config.Crud.Environments.{
  handles_of, bare_environment, bare_hop, duplicating_environment, duplicate_environment,
  environment_name,
}

In-last {ℓ} : {A : Type ℓ} (xs : List A) (x : A) → In x (xs ++ x ∷ [])
In-last [] x = here refl
In-last (y ∷ xs) x = there (In-last xs x)

-- What the edit of a duplication that succeeds has done, under any name.
Bare : Config → Environment → Config → Type 0
Bare c d c' =
    All (λ h. h ≡ "") (handles_of d)
    × (d.last_probe ≡ none)
    × (is_taken environment_name c.environments d.name ≡ false)
    × (c'.environments ≡ c.environments ++ d ∷ [])

handles_of-bare :
    (place : ℕ) (e : Environment) (name : String)
    → All (λ h. h ≡ "") (handles_of (bare_environment place e name))
unfolding handles_of bare_environment bare_hop
handles_of-bare place e name = elim (Option-cases e.jump_host) [
  | inl n ↦ rw (n, handles_of, bare_hop) (refl, (refl, tt))
  | inr (j, h) ↦ rw (h, handles_of, bare_hop) (refl, (refl, (refl, tt)))
]

duplicating_environment-Bare :
    (name new : String) (place : ℕ) (c c' : Config) (d : Environment)
    → duplicating_environment name new place c ≡ ok (d, c')
    → Bare c d c'
unfolding duplicating_environment Bare bare_environment
duplicating_environment-Bare name new place c c' d h =
    elim (Option-cases (environment_by_name c name)) [
      | inl n ↦ absurd (ground (arith, n, h))
      | inr (e, f) ↦
          let new' =
            if str_eq new "" then unique_name environment_name c.environments name else new in
          elim (Bool-cases (is_taken environment_name c.environments new')) [
            | inl taken ↦ absurd (ground (arith, f, taken, h))
            | inr free ↦
                let dup = bare_environment place e new' in
                let same : d ≡ dup = ground (arith, f, free, h) in
                let all : c'.environments ≡ c.environments ++ dup ∷ [] =
                  ground (arith, f, free, h) in
                rw same (handles_of-bare place e new', refl, free, all)
          ]
    ]

module _ (marshal : Config → Result String String) (fs : Faults) where
  -- The duplicate that `DuplicateEnvironment` answers, when it succeeds, has no handle of its own, of its
  -- admin access or of its jump host, and no stamp; no environment had its name before, and it
  -- stands among the environments after.
  pub duplicate_is_bare :
      (name new : String) (s s' : Store) (d : Environment)
      → duplicate_environment marshal fs name new s ≡ (ok d, s')
      → All (λ h. h ≡ "") (handles_of d)
        × (d.last_probe ≡ none)
        × (is_taken environment_name (clone_config s.heap s.cfg).0.environments d.name ≡ false)
        × In d s'.cfg.environments
  unfolding duplicate_environment Bare
  duplicate_is_bare name new s s' d h =
      let c = (clone_config s.heap s.cfg).0 in
      let (edited, valid) = update_ok marshal fs s s' (duplicating_environment name new) d h in
      let (bare, probe, free, all) =
        duplicating_environment-Bare name new (clone_config s.heap s.cfg).1 c s'.cfg d edited in
      (bare, probe, free, rw all (In-last c.environments d))

  -- The duplicate of an SSH environment that logs in with a key or a password, and has no jump host, is
  -- not ready, and is ready once it has been given a handle.
  pub duplicate_asks_for_credential :
      (name new ref : String) (s s' : Store) (d : Environment)
      → duplicate_environment marshal fs name new s ≡ (ok d, s')
      → d.kind ≡ EnvironmentKind.ssh
      → needs_secret d.auth ≡ true
      → d.jump_host ≡ none
      → str_eq ref "" ≡ false
      → (environment_readiness d ≢ none)
        × (environment_readiness (record d { credential_ref = ref }) ≡ none)
  unfolding environment_readiness needs_secret handles_of
  duplicate_asks_for_credential name new ref s s' d h k a j given =
      let (bare, probe, free, member) = duplicate_is_bare name new s s' d h in
      let blank : str_eq d.credential_ref "" ≡ true = (eq_iff d.credential_ref "").1 (bare.0) in
      (ground (arith, k, a, blank), ground (arith, k, a, j, given))
