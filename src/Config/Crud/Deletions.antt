-- ===== src/Config/Crud/Deletions.antt =====
-- internal/engine/config/crud.go: the keychain and the configuration after a deletion.
use portcloak.Base.{
  ◌≡◌, ℕ, refl, sym, false, Option, none, some, List, [], ◌∷◌, String, str_eq, arith, In, here,
  there, inl, inr, Option-cases, Bool-cases, eq_refl,
}
use portcloak.Base.Dict
use portcloak.Base.Dict.{Dict, get-remove}
use portcloak.Base.Result.{Result, ok, err}
use portcloak.Config.Files.{Faults}
use portcloak.Config.Model.{Environment, Config, environment_by_name}
use portcloak.Config.Store.{Store, StoreError, clone_config, clone_hop}
use portcloak.Config.Store.Atomic.{Unchanged, update_all_or_nothing}
use portcloak.Config.Store.Clone.{clone_environment_by_name}
use portcloak.Config.Crud.{Keychain, forget, forget_all, JobLookup, running, after_delete}
use portcloak.Config.Crud.Environments.{handles_of, deleting_environment, delete_environment}

-- What is gone stays gone.
get-forget_all :
    (k : Keychain) (hs : List String) (h : String)
    → Dict.get k.secrets h ≡ none
    → Dict.get (forget_all k hs).secrets h ≡ none
unfolding forget_all forget
get-forget_all k [] h gone = gone
get-forget_all k (j ∷ hs) h gone =
    let after = get-remove k.secrets j h in
    elim (Bool-cases (str_eq j "")) [
      | inl e ↦ rw (e, forget_all) (get-forget_all k hs h gone)
      | inr e ↦ rw (e, forget_all) (get-forget_all (forget k j) hs h (ground (arith, after, gone)))
    ]

In-forget_all :
    (k : Keychain) (hs : List String) (h : String)
    → In h hs
    → str_eq h "" ≡ false
    → k.refuses h ≡ false
    → Dict.get (forget_all k hs).secrets h ≡ none
unfolding forget_all forget
In-forget_all k [] h m given accepted = elim m [ ]
In-forget_all k (j ∷ hs) h (here e) given accepted =
    rw (sym e, given, forget_all)
      (get-forget_all (forget k h) hs h
        (ground (arith, accepted, get-remove k.secrets h h, eq_refl h)))
In-forget_all k (j ∷ hs) h (there m) given accepted = elim (Bool-cases (str_eq j "")) [
  | inl e ↦ rw (e, forget_all) (In-forget_all k hs h m given accepted)
  | inr e ↦ rw (e, forget_all) (In-forget_all (forget k j) hs h m given (ground (arith, accepted)))
]

handles_of-clone :
    (q : ℕ) (e : Environment)
    → handles_of (record e { jump_host = clone_hop q e.jump_host }) ≡ handles_of e
unfolding handles_of clone_hop
handles_of-clone q e = elim (Option-cases e.jump_host) [
  | inl n ↦ rw (n, handles_of, clone_hop)
  | inr (j, h) ↦ rw (h, handles_of, clone_hop)
]

deleting_environment-handles :
    (name : String) (place : ℕ) (c c' : Config) (refs : List String) (e : Environment)
    → deleting_environment name place c ≡ ok (refs, c')
    → environment_by_name c name ≡ some e
    → refs ≡ handles_of e
unfolding deleting_environment
deleting_environment-handles name place c c' refs e h f = ground (arith, f, h)

after_delete_ok :
    (creds : Option Keychain) (refs : List String) (s : Store)
    → (creds' : Option Keychain) × (after_delete creds (ok refs, s) ≡ ((ok tt, creds'), s))
unfolding after_delete
after_delete_ok none refs s = (none, refl)
after_delete_ok (some k) refs s = (some (forget_all k refs), refl)

module _ (marshal : Config → Result String String) (fs : Faults) where
  -- A `DeleteEnvironment` that fails, as one of an environment that a job uses does, leaves every secret
  -- in the keychain, and the configuration and the files as they were.
  pub failed_delete_keeps :
      (name : String) (creds creds' : Option Keychain) (jobs : JobLookup) (s s' : Store)
      (e : StoreError)
      → delete_environment marshal fs name creds jobs s ≡ ((err e, creds'), s')
      → (creds' ≡ creds) × Unchanged s s'
  unfolding delete_environment after_delete Unchanged
  failed_delete_keeps name creds creds' jobs s s' e h = elim (Option-cases (running jobs name)) [
    | inr (id, r) ↦ let h₁ = rw (r, delete_environment) at h in (cc, (cc, cc, cc, cc))
    | inl r ↦ elim (update_all_or_nothing marshal fs s (deleting_environment name)) [
      | inl (e₁, s₁, q, (c, w, b, f)) ↦
          let h₁ = rw (r, q, delete_environment, after_delete) at h in (cc, (cc, cc, cc, cc))
      | inr (refs, next, s₁, q, d, v, w) ↦
          let (creds₁, p) = after_delete_ok creds refs s₁ in
          let h₁ = rw (r, q, p, delete_environment) at h in cc
    ]
  ]

  -- A `DeleteEnvironment` that succeeds removes the secret of each handle that the environment had, but
  -- for those whose removal the keychain refuses.
  pub delete_forgets :
      (name : String) (k : Keychain) (jobs : JobLookup) (s s' : Store) (creds' : Option Keychain)
      (env : Environment) (handle : String)
      → delete_environment marshal fs name (some k) jobs s ≡ ((ok tt, creds'), s')
      → environment_by_name s.cfg name ≡ some env
      → In handle (handles_of env)
      → str_eq handle "" ≡ false
      → k.refuses handle ≡ false
      → (k' : Keychain) × (creds' ≡ some k') × (Dict.get k'.secrets handle ≡ none)
  unfolding delete_environment deleting_environment after_delete
  delete_forgets name k jobs s s' creds' env handle h f m given accepted =
      elim (Option-cases (running jobs name)) [
        | inr (id, r) ↦ let h₁ = rw (r, delete_environment) at h in cc
        | inl r ↦ elim (update_all_or_nothing marshal fs s (deleting_environment name)) [
          | inl (e₁, s₁, q, u) ↦ let h₁ = rw (r, q, delete_environment, after_delete) at h in cc
          | inr (refs, next, s₁, q, d, v, w) ↦
              let h₁ = rw (r, q, delete_environment, after_delete) at h in
              let (place, le, found) = clone_environment_by_name s.heap s.cfg name env f in
              let same =
                deleting_environment-handles name (clone_config s.heap s.cfg).1
                  (clone_config s.heap s.cfg).0 next refs
                  (record env { jump_host = clone_hop place env.jump_host }) d found in
              (
                forget_all k refs,
                cc,
                In-forget_all k refs handle (rw (same, handles_of-clone place env) m) given
                    accepted,
              )
        ]
      ]
