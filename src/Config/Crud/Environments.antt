-- ===== src/Config/Crud/Environments.antt =====
-- internal/engine/config/crud.go: the operations on environments.
use portcloak.Base.{
  ℕ, Bool, true, false, not, ◌&&◌, Option, none, some, List, [], ◌∷◌, ◌++◌, String, str_eq,
  if◌then◌else◌,
}
use portcloak.Base.Result.{Result, ok, err}
use portcloak.Config.Model.{Ref, SshHop, Environment, ProbeStamp, Config, environment_by_name}
use portcloak.Config.Store.{Store, StoreError, not_found, already_exists, in_use, Edit, update}
use portcloak.Config.Crud.{
  change_first, remove_first, is_taken, unique_name, Keychain, JobLookup, running, after_delete,
}
use portcloak.Config.Crud.Reach.{environment_reachability_changed}
use portcloak.Config.Files.{Faults}

abbrev pub environment_name : Environment → String
environment_name e = e.name

unfoldable pub adding_environment : Environment → Edit (Unit {0})
unfolding is_taken
adding_environment e place c =
    if is_taken environment_name c.environments e.name
    then err (already_exists "environment" e.name)
    else ok (tt, record c { environments = c.environments ++ e ∷ [] })

-- The stamp that an entry is saved with.
unfoldable pub kept_probe : Bool → Option ProbeStamp → Option ProbeStamp → Option ProbeStamp
kept_probe true prev new = none
kept_probe false prev none = prev
kept_probe false prev (some stamp) = some stamp

unfoldable pub saved_environment : Environment → Environment → Environment
unfolding environment_reachability_changed kept_probe
saved_environment prev e = record e {
  last_probe = kept_probe (environment_reachability_changed prev e) prev.last_probe e.last_probe;
}

unfoldable pub saving_environment : String → Environment → Edit (Unit {0})
unfolding is_taken change_first saved_environment environment_by_name
saving_environment original e place c = elim (environment_by_name c original) [
  | none ↦ err (not_found "environment" original)
  | some prev ↦
      if not (str_eq e.name original) && is_taken environment_name c.environments e.name
      then err (already_exists "environment" e.name)
      else ok (
        tt,
        record c {
          environments =
              change_first environment_name (λ old. saved_environment prev e) c.environments
                original;
        },
      )
]

-- A jump host without its credential, at a new place.
unfoldable pub bare_hop : ℕ → Option (Ref SshHop) → Option (Ref SshHop)
bare_hop place none = none
bare_hop place (some j) =
    some (record { addr = place; value = record (j.value) { credential_ref = "" } })

unfoldable pub bare_environment : ℕ → Environment → String → Environment
unfolding bare_hop
bare_environment place e name = record e {
  name = name;
  credential_ref = "";
  admin_credential_ref = "";
  last_probe = none;
  jump_host = bare_hop place e.jump_host;
}

unfoldable pub duplicating_environment : String → String → Edit Environment
unfolding is_taken unique_name bare_environment environment_by_name
duplicating_environment name new place c = elim (environment_by_name c name) [
  | none ↦ err (not_found "environment" name)
  | some e ↦
      let new' = if str_eq new "" then unique_name environment_name c.environments name else new in
      let dup = bare_environment place e new' in
      if is_taken environment_name c.environments new'
      then err (already_exists "environment" new')
      else ok (dup, record c { environments = c.environments ++ dup ∷ [] })
]

-- The handles of an environment, in the order of their deletion; an empty one stands for none.
unfoldable pub handles_of : Environment → List String
handles_of e =
    e.credential_ref
    ∷ e.admin_credential_ref
    ∷ elim e.jump_host [ none ↦ [] | some j ↦ j.value.credential_ref ∷ [] ]

unfoldable pub deleting_environment : String → Edit (List String)
unfolding remove_first handles_of environment_by_name
deleting_environment name place c = elim (environment_by_name c name) [
  | none ↦ err (not_found "environment" name)
  | some e ↦
      ok (
        handles_of e,
        record c { environments = remove_first environment_name c.environments name },
      )
]

unfoldable pub probing_environment : String → ProbeStamp → Edit (Unit {0})
unfolding change_first environment_by_name
probing_environment name stamp place c = elim (environment_by_name c name) [
  | none ↦ err (not_found "environment" name)
  | some e ↦ ok (
    tt,
    record c {
      environments =
          change_first environment_name (λ x. record x { last_probe = some stamp }) c.environments
            name;
    },
  )
]

module _ (marshal : Config → Result String String) (fs : Faults) where
  unfoldable pub add_environment : Environment → Store → Result StoreError (Unit {0}) × Store
  unfolding update adding_environment
  add_environment e s = update marshal fs s (adding_environment e)

  unfoldable pub save_environment :
      String → Environment → Store → Result StoreError (Unit {0}) × Store
  unfolding update saving_environment
  save_environment original e s = update marshal fs s (saving_environment original e)

  unfoldable pub duplicate_environment :
      String → String → Store → Result StoreError Environment × Store
  unfolding update duplicating_environment
  duplicate_environment name new s = update marshal fs s (duplicating_environment name new)

  unfoldable pub delete_environment :
      String
      → Option Keychain
      → JobLookup
      → Store
      → (Result StoreError (Unit {0}) × Option Keychain) × Store
  unfolding update deleting_environment after_delete running
  delete_environment name creds jobs s = elim (running jobs name) [
    | some id ↦ ((err (in_use name id), creds), s)
    | none ↦ after_delete creds (update marshal fs s (deleting_environment name))
  ]

  unfoldable pub record_environment_probe :
      String → ProbeStamp → Store → Result StoreError (Unit {0}) × Store
  unfolding update probing_environment
  record_environment_probe name stamp s = update marshal fs s (probing_environment name stamp)
