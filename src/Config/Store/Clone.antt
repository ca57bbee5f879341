-- ===== src/Config/Store/Clone.antt =====
-- internal/engine/config/store.go, `cloneConfig`: the lookups by name in the copy of a configuration.
use portcloak.Base.{
  ◌≡◌, refl, ℕ, suc, ◌≤◌, Option, none, some, List, [], ◌∷◌, String, str_eq, length, arith,
  Bool-cases, inl, inr, ap,
}
use portcloak.Config.Model.{
  Environment, Storage, Config, by_name, environment_by_name, storage_by_name,
}
use portcloak.Config.Store.{clone_hop, clone_environments, clone_storages, clone_config}

abbrev cloned_environment : ℕ → Option Environment → Option Environment
cloned_environment place none = none
cloned_environment place (some e) = some (record e { jump_host = clone_hop place e.jump_host })

abbrev cloned_storage : ℕ → Option Storage → Option Storage
cloned_storage place none = none
cloned_storage place (some s) = some (record s { jump_host = clone_hop place s.jump_host })

environments_by_name :
    (place : ℕ) (es : List Environment) (name : String) (e : Environment)
    → by_name (λ x. x.name) es name ≡ some e
    → (q : ℕ) × (place ≤ q)
      × (by_name (λ x. x.name) (clone_environments place es).0 name
          ≡ some (record e { jump_host = clone_hop q e.jump_host }))
unfolding by_name clone_environments
environments_by_name place [] name e h = cc
environments_by_name place (x ∷ es) name e h = elim (Bool-cases (str_eq x.name name)) [
  | inl same ↦ (
    place,
    omega arith,
    rw (same, by_name) (ap (cloned_environment place) (rw (same, by_name) at h)),
  )
  | inr other ↦
      let (q, le, found) = environments_by_name (suc place) es name e (rw (other, by_name) at h) in
      (q, omega arith, rw (other, by_name) found)
]

storages_by_name :
    (place : ℕ) (ss : List Storage) (name : String) (s : Storage)
    → by_name (λ x. x.name) ss name ≡ some s
    → (q : ℕ) × (by_name (λ x. x.name) (clone_storages place ss).0 name
        ≡ some (record s { jump_host = clone_hop q s.jump_host }))
unfolding by_name clone_storages
storages_by_name place [] name s h = cc
storages_by_name place (x ∷ ss) name s h = elim (Bool-cases (str_eq x.name name)) [
  | inl same ↦ (place, rw (same, by_name) (ap (cloned_storage place) (rw (same, by_name) at h)))
  | inr other ↦
      let (q, found) = storages_by_name (suc place) ss name s (rw (other, by_name) at h) in
      (q, rw (other, by_name) found)
]

pub length-clone_storages :
    (place : ℕ) (ss : List Storage) → length (clone_storages place ss).0 ≡ length ss
unfolding clone_storages
length-clone_storages place [] = refl
length-clone_storages place (s ∷ ss) = ground (arith, length-clone_storages (suc place) ss)

pub clone_environment_by_name :
    (place : ℕ) (c : Config) (name : String) (e : Environment)
    → environment_by_name c name ≡ some e
    → (q : ℕ) × (place ≤ q)
      × (environment_by_name (clone_config place c).0 name
          ≡ some (record e { jump_host = clone_hop q e.jump_host }))
unfolding clone_config environment_by_name
clone_environment_by_name place c name e h = environments_by_name place c.environments name e h

pub clone_storage_by_name :
    (place : ℕ) (c : Config) (name : String) (s : Storage)
    → storage_by_name c name ≡ some s
    → (q : ℕ) × (storage_by_name (clone_config place c).0 name
        ≡ some (record s { jump_host = clone_hop q s.jump_host }))
unfolding clone_config storage_by_name
clone_storage_by_name place c name s h =
    storages_by_name (clone_environments place c.environments).1 c.storage name s h

pub length-clone_config :
    (place : ℕ) (c : Config) → length (clone_config place c).0.storage ≡ length c.storage
unfolding clone_config
length-clone_config place c =
    length-clone_storages (clone_environments place c.environments).1 c.storage
