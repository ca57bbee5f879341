-- ===== src/Config/Tests.antt =====
-- The theorems on the configuration at the store of the fixtures.
use portcloak.Base.{◌≤◌, ◌≡◌, refl, false, none, some, arith, All, map, In, here, str_eq}
use portcloak.Base.Dict
use portcloak.Config.Files.{write_atomic}
use portcloak.Config.Model.{Storage, environment_by_name}
use portcloak.Base.{sort_by, is_blank}
use portcloak.Config.Validate.Complaints.{is_valid_handle}
use portcloak.Config.Validate.Environments.{validate_environment}
use portcloak.Config.Validate.Storages.{validate_storage}
use portcloak.Config.Validate.{validate, count_defaults}
use portcloak.Config.Validate.Unique.{IsDistinct, valid-IsDistinct}
use portcloak.Config.Store.{config_file, clone_config, save_store}
use portcloak.Config.Store.Atomic.{unchanged_keeps_text}
use portcloak.Config.Crud.{Keychain, is_taken}
use portcloak.Config.Crud.Environments.{
  environment_name, handles_of, save_environment, duplicate_environment, delete_environment,
}
use portcloak.Config.Crud.Storages.{set_default_storage}
use portcloak.Config.Crud.Defaults.{HasDefault, default_is_exclusive}
use portcloak.Config.Crud.Deletions.{delete_forgets}
use portcloak.Config.Crud.Duplicates.{duplicate_is_bare}
use portcloak.Config.Crud.Probes.{hop_loses_stamp}
use portcloak.Config.Fixtures.{
  no_faults, marshal, local_environment, hop, ssh_environment, config, store, keychain, copied,
}

unchanged_keeps_text_example :
    Dict.get (save_store marshal no_faults store).1.home config_file ≡ some "# mine\ndev"
unchanged_keeps_text_example =
    unchanged_keeps_text marshal no_faults store (save_store marshal no_faults store).1
      "# mine\ndev" "dev" refl refl (unfold clone_config in refl)
      (unfold save_store clone_config write_atomic in refl)

default_is_exclusive_example :
    let after = (set_default_storage marshal no_faults "nas" store).1.cfg.storage in
    (map (λ t. t.name) after ≡ map (λ t. t.name) store.cfg.storage)
    × HasDefault after "nas"
    × ((t : Storage) → In t after → t.is_default ≡ str_eq t.name "nas")
unfolding sort_by validate_environment is_blank is_valid_handle Dict.get Dict.put validate_storage
    clone_config validate write_atomic set_default_storage
default_is_exclusive_example =
    default_is_exclusive marshal no_faults "nas" store
      (set_default_storage marshal no_faults "nas" store).1 refl

delete_forgets_example :
    (k' : Keychain) × ((delete_environment marshal no_faults "dev" (some keychain) none store).0.1
      ≡ some k')
    × (Dict.get k'.secrets "keychain://portcloak/local/dev" ≡ none)
unfolding sort_by validate_environment is_blank is_valid_handle Dict.get Dict.put validate_storage
    clone_config validate write_atomic delete_environment handles_of
delete_forgets_example =
    let after = delete_environment marshal no_faults "dev" (some keychain) none store in
    delete_forgets marshal no_faults "dev" keychain none store after.1 after.0.1 local_environment
      "keychain://portcloak/local/dev" refl (unfold environment_by_name in refl) (here refl) refl
      refl

duplicate_is_bare_example :
    let (res, s') = duplicate_environment marshal no_faults "prod" "copy" store in
    All (λ h. h ≡ "") (handles_of copied)
    × (copied.last_probe ≡ none)
    × (is_taken environment_name (clone_config 10 config).0.environments "copy" ≡ false)
    × In copied s'.cfg.environments
unfolding sort_by validate_environment is_blank is_valid_handle Dict.get Dict.put validate_storage
    clone_config validate write_atomic duplicate_environment
duplicate_is_bare_example =
    duplicate_is_bare marshal no_faults "prod" "copy" store
      (duplicate_environment marshal no_faults "prod" "copy" store).1 copied refl

hop_loses_stamp_example :
    In
      (record ssh_environment { last_probe = none })
      (save_environment marshal no_faults "prod" ssh_environment store).1.cfg.environments
unfolding sort_by validate_environment is_blank is_valid_handle Dict.get Dict.put validate_storage
    clone_config validate write_atomic save_environment
hop_loses_stamp_example =
    hop_loses_stamp marshal no_faults "prod" ssh_environment ssh_environment store
      (save_environment marshal no_faults "prod" ssh_environment store).1 hop hop
      (unfold environment_by_name in refl) refl refl (omega arith) refl

valid-IsDistinct_example :
    IsDistinct (λ e. e.name) config.environments
    × IsDistinct (λ s. s.name) config.storage
    × IsDistinct (λ k. k.name) config.keys
    × (count_defaults config.storage ≤ 1)
unfolding sort_by validate_environment is_blank is_valid_handle Dict.get Dict.put validate_storage
    validate
valid-IsDistinct_example = valid-IsDistinct config none refl
