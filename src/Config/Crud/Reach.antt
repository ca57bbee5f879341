-- ===== src/Config/Crud/Reach.antt =====
-- internal/engine/config/crud.go: `environmentReachabilityChanged` and `storageReachabilityChanged`,
-- which compare two entries by what the verb `%#v` prints of them: a pointer within a struct as its
-- place, and the jump host once more by its fields. What is printed is a list of fields here.
use portcloak.Base.{
  ℕ, Bool, true, false, not, ◌&&◌, Option, none, some, List, [], ◌∷◌, String, str_eq, ◌==◌,
}
use portcloak.Base.Int.{ℤ, pos, negsuc}
use portcloak.Config.Model.{
  Ref, SshHop, Environment, Storage, environment_kind_text, storage_kind_text, auth_text,
}

pub data Printed : Type 0 where
  text : String → Printed
  number : ℤ → Printed
  flag : Bool → Printed
  nil : Printed
  address : ℕ → Printed

same_bool : Bool → Bool → Bool
same_bool true b = b
same_bool false b = not b

same_number : ℤ → ℤ → Bool
same_number (pos m) (pos n) = m == n
same_number (negsuc m) (negsuc n) = m == n
same_number _ _ = false

unfoldable pub same_field : Printed → Printed → Bool
unfolding same_bool same_number
same_field (text s) (text t) = str_eq s t
same_field (number m) (number n) = same_number m n
same_field (flag a) (flag b) = same_bool a b
same_field nil nil = true
same_field (address m) (address n) = m == n
same_field _ _ = false

unfoldable pub same_print : List Printed → List Printed → Bool
unfolding same_field
same_print [] [] = true
same_print (p ∷ ps) (q ∷ qs) = same_field p q && same_print ps qs
same_print _ _ = false

unfoldable pub place_of : {A : Type 0} → Option (Ref A) → Printed
place_of none = nil
place_of (some r) = address r.addr

print_hop : Option (Ref SshHop) → List Printed
print_hop none = nil ∷ []
print_hop (some r) =
    text r.value.host
    ∷ number r.value.port
    ∷ text r.value.user
    ∷ text (auth_text r.value.auth)
    ∷ text r.value.credential_ref
    ∷ text r.value.extra
    ∷ []

-- The fields in the order of the struct; `LastProbe` is nil on both sides.
unfoldable pub print_environment : Environment → List Printed
unfolding place_of print_hop
print_environment e =
    place_of e.jump_host
    ∷ place_of e.resource_preset
    ∷ nil
    ∷ text e.extra
    ∷ text e.name
    ∷ text (environment_kind_text e.kind)
    ∷ text e.server_folder
    ∷ text e.java_home
    ∷ text e.kc_path
    ∷ text e.host
    ∷ text e.user
    ∷ text (auth_text e.auth)
    ∷ text e.docker_endpoint
    ∷ text e.container
    ∷ text e.runtime
    ∷ text e.network
    ∷ text e.context
    ∷ text e.kubeconfig
    ∷ text e.namespace
    ∷ text e.workload
    ∷ text e.container_name
    ∷ text e.admin_base_url
    ∷ text e.admin_realm
    ∷ text e.admin_user
    ∷ text e.admin_client_id
    ∷ text e.admin_credential_ref
    ∷ text e.credential_ref
    ∷ number e.port
    ∷ flag e.sudo
    ∷ flag e.admin_insecure_tls
    ∷ print_hop e.jump_host

-- `Default` is false on both sides, too.
unfoldable pub print_storage : Storage → List Printed
unfolding place_of print_hop
print_storage s =
    place_of s.jump_host
    ∷ nil
    ∷ text s.extra
    ∷ text s.name
    ∷ text (storage_kind_text s.kind)
    ∷ text s.folder
    ∷ text s.host
    ∷ text s.user
    ∷ text (auth_text s.auth)
    ∷ text s.endpoint
    ∷ text s.region
    ∷ text s.bucket
    ∷ text s.storage_class
    ∷ text s.server_side_enc
    ∷ text s.account
    ∷ text s.container
    ∷ text s.access_tier
    ∷ text s.prefix
    ∷ text s.credential_ref
    ∷ number s.port
    ∷ number s.part_size_mb
    ∷ number s.block_size_mb
    ∷ flag false
    ∷ flag s.encryption_required
    ∷ flag s.path_style
    ∷ print_hop s.jump_host

unfoldable pub environment_reachability_changed : Environment → Environment → Bool
unfolding same_print print_environment
environment_reachability_changed a b = not (same_print (print_environment a) (print_environment b))

unfoldable pub storage_reachability_changed : Storage → Storage → Bool
unfolding same_print print_storage
storage_reachability_changed a b = not (same_print (print_storage a) (print_storage b))
