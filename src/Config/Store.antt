-- ===== src/Config/Store.antt =====
-- internal/engine/config/store.go: the `Store` and its `Update`. The home folder is a dictionary
-- of files; `yaml.v3` is the parameter `marshal`. `cloneConfig` gives each jump host and each stamp a
-- new place; `heap` is the next free one, and only the places of jump hosts are ever looked at.
pub mod Atomic
pub mod Clone
use portcloak.Base.{ℕ, suc, Option, none, some, List, [], ◌∷◌, String, str_eq, if◌then◌else◌}
use portcloak.Base.Dict.{Dict}
use portcloak.Base.Result.{Result, ok, err}
use portcloak.Config.Files.{Faults, FileError, write_atomic}
use portcloak.Config.Model.{Ref, SshHop, Environment, Storage, Key, Config}
use portcloak.Config.Validate.{Problem, validate}

pub record Store : Type 0 where
  pub cfg : Config
  pub raw : Option String
  pub baseline : Option String
  pub home : Dict String
  pub heap : ℕ

pub data StoreError : Type 0 where
  not_found already_exists : String → String → StoreError
  in_use : String → String → StoreError
  invalid : List Problem → StoreError
  not_marshalled : String → StoreError
  file : FileError → StoreError

abbrev pub config_file : String
config_file = "config.yaml"

-- An edit may take one new place. It answers an error, or a value for the caller and the configuration
-- to write.
abbrev pub Edit : Type 0 → Type 0
Edit A = ℕ → Config → Result StoreError (A × Config)

unfoldable pub clone_hop : ℕ → Option (Ref SshHop) → Option (Ref SshHop)
clone_hop place none = none
clone_hop place (some j) = some (record { addr = place; value = j.value })

unfoldable pub clone_environments : ℕ → List Environment → List Environment × ℕ
unfolding clone_hop
clone_environments place [] = ([], place)
clone_environments place (e ∷ es) =
    let (rest, next) = clone_environments (suc place) es in
    (record e { jump_host = clone_hop place e.jump_host } ∷ rest, next)

unfoldable pub clone_storages : ℕ → List Storage → List Storage × ℕ
unfolding clone_hop
clone_storages place [] = ([], place)
clone_storages place (s ∷ ss) =
    let (rest, next) = clone_storages (suc place) ss in
    (record s { jump_host = clone_hop place s.jump_host } ∷ rest, next)

-- `cloneConfig`: the copy, and the next free place. The keys are not copied: their slice goes on sharing its
-- array with the configuration of the store.
unfoldable pub clone_config : ℕ → Config → Config × ℕ
unfolding clone_environments clone_storages
clone_config place c =
    let (environments, place₁) = clone_environments place c.environments in
    let (storages, place₂) = clone_storages place₁ c.storage in
    (record c { environments = environments; storage = storages }, place₂)

-- The bytes to write: what was read, when nothing that the schema knows of has changed.
unfoldable pub body_of : Store → String → String
body_of s out = elim s.baseline [
  | none ↦ out
  | some b ↦ elim s.raw [ none ↦ out | some r ↦ if str_eq out b then r else out ]
]

-- What `saveLocked` does when the file has been written, or has not.
unfoldable pub committed :
    Store
    → Config
    → String
    → String
    → Result FileError (Unit {0}) × Dict String
    → Result StoreError (Unit {0}) × Store
committed s next out body (err e, home) = (err (file e), record s { home = home })
committed s next out body (ok _, home) =
    (ok tt, record s { cfg = next; raw = some body; baseline = some out; home = home })

module _ (marshal : Config → Result String String) (fs : Faults) where
  -- `saveLocked`
  unfoldable pub save_locked : Store → Config → Result StoreError (Unit {0}) × Store
  unfolding body_of committed
  save_locked s next = elim (marshal next) [
    | err m ↦ (err (not_marshalled m), s)
    | ok out ↦
        let body = body_of s out in
        committed s next out body (write_atomic fs s.home config_file body)
  ]

  -- `Save`
  unfoldable pub save_store : Store → Result StoreError (Unit {0}) × Store
  unfolding save_locked
  save_store s =
      let (next, heap) = clone_config s.heap s.cfg in save_locked (record s { heap = heap }) next

  unfoldable pub write_next :
      {A : Type 0} → A → Result StoreError (Unit {0}) × Store → Result StoreError A × Store
  write_next a (ok _, s) = (ok a, s)
  write_next a (err e, s) = (err e, s)

  unfoldable pub save_valid :
      {A : Type 0} → Store → A → Config → List Problem → Result StoreError A × Store
  unfolding save_locked write_next
  save_valid s a next [] = write_next a (save_locked s next)
  save_valid s a next (p ∷ ps) = (err (invalid (p ∷ ps)), s)

  -- `Update`, with what the edit leaves for the caller. An edit that succeeds may have written to the array
  -- that the keys of the copy share with those of the store; `shared` is what it has left there, which the
  -- store's own configuration shows from then on. An edit that fails has written nothing.
  unfoldable pub update_in_place :
      {A : Type 0} → Store → Edit A → (Config → List Key) → Result StoreError A × Store
  unfolding save_valid
  update_in_place s edit shared =
      let (copy, heap) = clone_config s.heap s.cfg in
      let s' = record s { heap = suc heap } in
      elim (edit heap copy) [
        | err e ↦ (err e, s')
        | ok (a, next) ↦
            save_valid (record s' { cfg = record s.cfg { keys = shared copy } }) a next
              (validate next none)
      ]

  -- `Update` with an edit that does not write to the array of the keys.
  unfoldable pub update : {A : Type 0} → Store → Edit A → Result StoreError A × Store
  unfolding update_in_place
  update s edit = update_in_place s edit (λ c. c.keys)
