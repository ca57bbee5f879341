-- ===== src/Config/Crud/Defaults.antt =====
-- internal/engine/config/crud.go: the default storage.
use portcloak.Base.{
  eq_refl, Bool-cases, ◌≡◌, refl, ℕ, ◌<◌, true, Option, some, List, [], ◌∷◌, String, str_eq, arith,
  length, map, ap, ◌∙◌, subst, subst⁻¹, In, here, there, suc, inl, inr, Option-cases, lt→ltb,
}
use portcloak.Base.Result.{Result, ok, err}
use portcloak.Config.Files.{Faults}
use portcloak.Config.Model.{Storage, Config, by_name, storage_by_name, first_default}
use portcloak.Config.Store.{clone_environments, clone_storages, Store, in_use, clone_config, update}
use portcloak.Config.Store.Atomic.{Unchanged, update_ok}
use portcloak.Config.Store.Clone.{clone_storage_by_name, length-clone_config}
use portcloak.Config.Crud.{is_taken, Keychain, JobLookup, running, after_delete}
use portcloak.Config.Crud.Storages.{
  adding_storage, add_storage, with_storage, make_default_exclusive, setting_default,
  set_default_storage, deleting_storage, delete_storage,
}

In-make_default_exclusive :
    {t : Storage} (ss : List Storage) (name : String)
    → In t (make_default_exclusive ss name)
    → t.is_default ≡ str_eq t.name name
unfolding make_default_exclusive
In-make_default_exclusive [] name m = elim m [ ]
In-make_default_exclusive (s ∷ ss) name (here e) = cc
In-make_default_exclusive (s ∷ ss) name (there m) = In-make_default_exclusive ss name m

setting_default-storage :
    (name : String) (place : ℕ) (c c' : Config)
    → setting_default name place c ≡ ok (tt, c')
    → c'.storage ≡ make_default_exclusive c.storage name
unfolding setting_default
setting_default-storage name place c c' h = elim (Option-cases (storage_by_name c name)) [
  | inl n ↦ ground (arith, n, h)
  | inr (st, f) ↦ ground (arith, f, h)
]

names_exclusive :
    (ss : List Storage) (name : String)
    → map (λ s. s.name) (make_default_exclusive ss name) ≡ map (λ s. s.name) ss
unfolding make_default_exclusive
names_exclusive [] name = refl
names_exclusive (s ∷ ss) name = ap (λ ns. s.name ∷ ns) (names_exclusive ss name)

names-clone_storages :
    (place : ℕ) (ss : List Storage)
    → map (λ s. s.name) (clone_storages place ss).0 ≡ map (λ s. s.name) ss
unfolding clone_storages
names-clone_storages place [] = refl
names-clone_storages place (s ∷ ss) = ap (λ ns. s.name ∷ ns) (names-clone_storages (suc place) ss)

names-clone_config :
    (place : ℕ) (c : Config)
    → map (λ s. s.name) (clone_config place c).0.storage ≡ map (λ s. s.name) c.storage
unfolding clone_config
names-clone_config place c =
    names-clone_storages (clone_environments place c.environments).1 c.storage

-- The storage that a name finds is the default.
abbrev pub HasDefault : List Storage → String → Type 0
HasDefault ss name =
    (d : Storage) × (by_name (λ s. s.name) ss name ≡ some d) × (d.is_default ≡ true)

exclusive-HasDefault :
    (ss : List Storage) (name : String) (st : Storage)
    → by_name (λ s. s.name) ss name ≡ some st
    → HasDefault (make_default_exclusive ss name) name
unfolding by_name make_default_exclusive
exclusive-HasDefault [] name st f = cc
exclusive-HasDefault (s ∷ ss) name st f = elim (Bool-cases (str_eq s.name name)) [
  | inl same ↦ (record s { is_default = str_eq s.name name }, rw (same, by_name) refl, same)
  | inr other ↦
      let (d, found, set) = exclusive-HasDefault ss name st (rw (other, by_name) at f) in
      (d, rw (other, by_name) found, set)
]

setting_default-HasDefault :
    (name : String) (place : ℕ) (c c' : Config)
    → setting_default name place c ≡ ok (tt, c')
    → HasDefault c'.storage name
unfolding setting_default storage_by_name
setting_default-HasDefault name place c c' h =
    elim (Option-cases (by_name (λ s. s.name) c.storage name)) [
      | inl n ↦ ground (arith, n, h)
      | inr (st, f) ↦
          subst⁻¹ (λ ss. HasDefault ss name) (setting_default-storage name place c c' h)
            (exclusive-HasDefault c.storage name st f)
    ]

clone_config-no_storage :
    (place : ℕ) (c : Config) → c.storage ≡ [] → (clone_config place c).0.storage ≡ []
unfolding clone_config clone_storages
clone_config-no_storage place c h = rw (h, clone_storages)

with_storage-first : (st : Storage) → with_storage [] st ≡ record st { is_default = true } ∷ []
unfolding with_storage make_default_exclusive
with_storage-first st = ground (arith, eq_refl st.name)

adding_storage-storage :
    (st : Storage) (place : ℕ) (c c' : Config)
    → adding_storage st place c ≡ ok (tt, c')
    → c'.storage ≡ with_storage c.storage st
unfolding adding_storage
adding_storage-storage st place c c' h =
    elim (Bool-cases (is_taken (λ s. s.name) c.storage st.name)) [
      | inl taken ↦ absurd (ground (arith, taken, h))
      | inr free ↦ ground (arith, free, h)
    ]

module _ (marshal : Config → Result String String) (fs : Faults) where
  -- After `SetDefaultStorage` has succeeded, the configuration has the storages it had, by their names; the
  -- one that the given name finds is there and is the default; and a storage is the default exactly when it
  -- has that name.
  pub default_is_exclusive :
      (name : String) (s s' : Store)
      → set_default_storage marshal fs name s ≡ (ok tt, s')
      → (map (λ t. t.name) s'.cfg.storage ≡ map (λ t. t.name) s.cfg.storage)
        × HasDefault s'.cfg.storage name
        × ((t : Storage) → In t s'.cfg.storage → t.is_default ≡ str_eq t.name name)
  unfolding set_default_storage
  default_is_exclusive name s s' h =
      let (edited, valid) = update_ok marshal fs s s' (setting_default name) tt h in
      let same =
        setting_default-storage name (clone_config s.heap s.cfg).1 (clone_config s.heap s.cfg).0
          s'.cfg edited in
      let copy = (clone_config s.heap s.cfg).0 in
      (
        ap (map (λ (t : Storage). t.name)) same
            ∙ names_exclusive copy.storage name
            ∙ names-clone_config s.heap s.cfg,
        setting_default-HasDefault name (clone_config s.heap s.cfg).1 copy s'.cfg edited,
        λ t m. In-make_default_exclusive copy.storage name (subst (λ ss. In t ss) same m),
      )

  -- A default storage beside others is not deleted, whatever the keychain and the files do: the call
  -- answers that it is in use, and the configuration, the files and the keychain are as they were.
  pub default_cannot_go :
      (name : String) (creds : Option Keychain) (jobs : JobLookup) (s : Store) (st : Storage)
      → storage_by_name s.cfg name ≡ some st
      → st.is_default ≡ true
      → 1 < length s.cfg.storage
      → (why : String) × (s' : Store) × (delete_storage marshal fs name creds jobs s
          ≡ ((err (in_use name why), creds), s'))
        × Unchanged s s'
  unfolding delete_storage deleting_storage after_delete update Unchanged
  default_cannot_go name creds jobs s st f d many = elim (Option-cases (running jobs name)) [
    | inr (id, r) ↦ (id, s, ground (arith, r), (refl, refl, refl, refl))
    | inl r ↦
        let (q, found) = clone_storage_by_name s.heap s.cfg name st f in
        (
          "the default storage for new captures; choose another default first",
          record s { heap = suc (clone_config s.heap s.cfg).1 },
          ground (arith, r, found, d, length-clone_config s.heap s.cfg, lt→ltb _ _ many),
          (refl, refl, refl, refl),
        )
  ]

  -- The first storage to be added, with or without the flag, is the default.
  pub first_storage_is_default :
      (st : Storage) (s s' : Store)
      → s.cfg.storage ≡ []
      → add_storage marshal fs st s ≡ (ok tt, s')
      → first_default s'.cfg.storage ≡ some (record st { is_default = true })
  unfolding add_storage first_default
  first_storage_is_default st s s' none_yet h =
      let (edited, valid) = update_ok marshal fs s s' (adding_storage st) tt h in
      let c = (clone_config s.heap s.cfg).0 in
      let added = adding_storage-storage st (clone_config s.heap s.cfg).1 c s'.cfg edited in
      rw (added, clone_config-no_storage s.heap s.cfg none_yet, with_storage-first st) refl
