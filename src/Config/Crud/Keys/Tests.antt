-- ===== src/Config/Crud/Keys/Tests.antt =====
-- internal/engine/config/keys.go: edits of keys on a disk to which nothing is written.
use portcloak.Base.{◌≡◌, refl, true, none, some, [], ◌∷◌, map}
use portcloak.Base.Dict
use portcloak.Config.Files.{Faults, write_atomic, write_failed, mkdir_all}
use portcloak.Config.Model.{Key, KeyKind, key_by_name}
use portcloak.Base.{sort_by, is_blank}
use portcloak.Config.Validate.Complaints.{is_valid_handle}
use portcloak.Config.Validate.Environments.{validate_environment}
use portcloak.Config.Validate.Storages.{validate_storage, validate_key}
use portcloak.Config.Validate.{validate}
use portcloak.Config.Store.{Store, config_file, file, clone_config}
use portcloak.Config.Crud.Keys.{save_key, delete_key}
use portcloak.Config.Crud.Keys.Shared.{failed_save_shows}
use portcloak.Config.Fixtures.{no_faults, marshal, config, store}

-- A store with one key.
abbrev spare_key : Key
spare_key = record {
  name = "spare";
  kind = KeyKind.passphrase;
  public_key = "";
  credential_ref = "keychain://portcloak/key/spare";
  note = "";
  created_at = 0;
  extra = "";
}

abbrev key_store : Store
key_store = record store { cfg = record config { keys = spare_key ∷ [] } }

abbrev noted_key : Key
noted_key = record spare_key { note = "in the safe" }

-- A disk to which nothing is written.
abbrev no_writes : Faults
no_writes = record no_faults { on_write = λ c n. true }

failed_save_shows_example :
    let s' = (save_key marshal no_writes "spare" noted_key key_store).1 in
    (key_by_name s'.cfg "spare" ≡ some noted_key)
    × (s'.raw ≡ key_store.raw)
    × (s'.home ≡ key_store.home)
unfolding validate sort_by validate_environment is_blank is_valid_handle Dict.get Dict.put
    validate_storage validate_key clone_config write_atomic save_key
failed_save_shows_example =
    failed_save_shows marshal no_writes "spare" noted_key spare_key key_store
      (save_key marshal no_writes "spare" noted_key key_store).1
      (file (write_failed mkdir_all config_file)) (unfold key_by_name in refl) refl refl

-- A `DeleteKey` that cannot be written has moved the keys of the store up.
failed_delete_moves :
    let two = record store {
      cfg = record config { keys = spare_key ∷ record spare_key { name = "b" } ∷ [] };
    } in
    map (λ k. k.name) (delete_key marshal no_writes "spare" none two).1.cfg.keys ≡ "b" ∷ "b" ∷ []
unfolding validate sort_by validate_environment is_blank is_valid_handle Dict.get Dict.put
    validate_storage validate_key clone_config write_atomic delete_key
failed_delete_moves = refl
