-- ===== src/Config/Validate/Storages.antt =====
-- internal/engine/config/validate.go and keys.go: `validateStorage` and `validateKey`.
use portcloak.Base.{
  ltb, Bool, true, false, not, ◌&&◌, List, [], ◌∷◌, ◌++◌, String, str_eq, if◌then◌else◌, has_prefix,
  is_blank,
}
use portcloak.Base.Int.{ℤ, pos, negsuc}
use portcloak.Config.Model.{StorageKind, KeyKind, Storage, Key, storage_kind_text, auth_text}
use portcloak.Config.Validate.Complaints.{
  no_name, missing, bad_auth, bad_kind, bad_public_key, bad_handle, no_kind, small_part, no_region,
  no_account, unwanted_public_key, no_handle, Found, field, add_if, is_empty, is_valid_handle,
  reject, has_bad_auth, bad_ref,
}

storage_has : Storage → String → Bool
storage_has s f =
    if str_eq f "host"
    then not (is_empty s.host)
    else if str_eq f "bucket"
    then not (is_empty s.bucket)
    else if str_eq f "container"
    then not (is_empty s.container)
    else if str_eq f "endpoint"
    then not (is_empty s.endpoint)
    else if str_eq f "folder"
    then not (is_empty s.folder)
    else false

-- `rejectForeignStorage`
reject_foreign_storage : Storage → String → List String → List Found
unfolding reject storage_has
reject_foreign_storage s base fields = reject (storage_has s) (storage_kind_text s.kind) base fields

-- `PartSizeMB != 0 && PartSizeMB < 5`
is_small_part : ℤ → Bool
is_small_part (pos n) = ltb 0 n && ltb n 5
is_small_part (negsuc n) = true

storage_kind_problems : StorageKind → Storage → String → List Found
unfolding reject_foreign_storage has_bad_auth is_small_part
storage_kind_problems StorageKind.disk s base =
    add_if (is_empty s.folder) (field base "folder") (missing s.name)
    ++ reject_foreign_storage s base ("host" ∷ "bucket" ∷ "container" ∷ "endpoint" ∷ [])
storage_kind_problems StorageKind.sftp s base =
    add_if (is_empty s.host) (field base "host") (missing s.name)
    ++ (add_if (is_empty s.user) (field base "user") (missing s.name)
        ++ (add_if (is_empty s.folder) (field base "folder") (missing s.name)
            ++ (add_if (has_bad_auth s.auth) (field base "auth") (bad_auth (auth_text s.auth))
                ++ reject_foreign_storage s base ("bucket" ∷ "container" ∷ "endpoint" ∷ []))))
storage_kind_problems StorageKind.s3 s base =
    add_if (is_empty s.bucket) (field base "bucket") (missing s.name)
    ++ (add_if (is_empty s.region && is_empty s.endpoint) (field base "region") (no_region s.name)
        ++ (add_if (is_small_part s.part_size_mb) (field base "partSizeMb")
              (small_part s.name s.part_size_mb)
            ++ reject_foreign_storage s base ("folder" ∷ "container" ∷ [])))
storage_kind_problems StorageKind.azure s base =
    add_if (is_empty s.container) (field base "container") (missing s.name)
    ++ (add_if (is_empty s.account && is_empty s.endpoint) (field base "account")
          (no_account s.name)
        ++ reject_foreign_storage s base ("folder" ∷ "bucket" ∷ []))
storage_kind_problems StorageKind.unset s base = (field base "kind", no_kind s.name) ∷ []
storage_kind_problems (StorageKind.unknown k) s base = (field base "kind", bad_kind k) ∷ []

-- `validateStorage`
unfoldable pub validate_storage : Storage → String → List Found
unfolding storage_kind_problems bad_ref
validate_storage s base =
    add_if (is_blank s.name) (field base "name") no_name
    ++ (storage_kind_problems s.kind s base
        ++ add_if (bad_ref s.credential_ref) (field base "credentialRef")
            (bad_handle s.credential_ref))

key_kind_problems : KeyKind → Key → String → List Found
key_kind_problems KeyKind.identity k base =
    if is_empty k.public_key
    then (field base "publicKey", missing k.name) ∷ []
    else add_if (not (has_prefix k.public_key "age1")) (field base "publicKey")
        (bad_public_key k.public_key)
key_kind_problems KeyKind.passphrase k base =
    add_if (not (is_empty k.public_key)) (field base "publicKey") (unwanted_public_key k.name)
key_kind_problems KeyKind.unset k base = (field base "kind", no_kind k.name) ∷ []
key_kind_problems (KeyKind.unknown t) k base = (field base "kind", bad_kind t) ∷ []

-- `validateKey`
unfoldable pub validate_key : Key → String → List Found
unfolding key_kind_problems
validate_key k base =
    add_if (is_blank k.name) (field base "name") no_name
    ++ (key_kind_problems k.kind k base
        ++ (if is_empty k.credential_ref
            then (field base "credentialRef", no_handle k.name) ∷ []
            else add_if (not (is_valid_handle k.credential_ref)) (field base "credentialRef")
                (bad_handle k.credential_ref)))
