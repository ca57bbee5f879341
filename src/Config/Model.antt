-- ===== src/Config/Model.antt =====
-- internal/engine/config/model.go and keys.go: what config.yaml holds. An empty text, a nil slice and
-- a nil pointer stand for what was left out; `extra` is the printed form of the unknown fields, which
-- the code carries along and compares by that form. Times and durations are in nanoseconds.
use portcloak.Base.{ℕ, Bool, Option, none, some, List, [], ◌∷◌, String, str_eq, if◌then◌else◌}
use portcloak.Base.Int.{ℤ}

-- A kind that the code does not know is kept as it was written; an empty one is `unset`.
pub data EnvironmentKind : Type 0 where
  local ssh docker kubernetes unset : EnvironmentKind
  unknown : String → EnvironmentKind

pub data StorageKind : Type 0 where
  disk sftp s3 azure unset : StorageKind
  unknown : String → StorageKind

pub data SshAuth : Type 0 where
  key agent password unset : SshAuth
  unknown : String → SshAuth

pub data KeyKind : Type 0 where
  identity passphrase unset : KeyKind
  unknown : String → KeyKind

-- The text of a kind in the file.
abbrev pub environment_kind_text : EnvironmentKind → String
environment_kind_text EnvironmentKind.local = "local"
environment_kind_text EnvironmentKind.ssh = "ssh"
environment_kind_text EnvironmentKind.docker = "docker"
environment_kind_text EnvironmentKind.kubernetes = "kubernetes"
environment_kind_text EnvironmentKind.unset = ""
environment_kind_text (EnvironmentKind.unknown s) = s

abbrev pub storage_kind_text : StorageKind → String
storage_kind_text StorageKind.disk = "disk"
storage_kind_text StorageKind.sftp = "ssh"
storage_kind_text StorageKind.s3 = "s3"
storage_kind_text StorageKind.azure = "azure"
storage_kind_text StorageKind.unset = ""
storage_kind_text (StorageKind.unknown s) = s

abbrev pub auth_text : SshAuth → String
auth_text SshAuth.key = "key"
auth_text SshAuth.agent = "agent"
auth_text SshAuth.password = "password"
auth_text SshAuth.unset = ""
auth_text (SshAuth.unknown s) = s

pub record Preferences : Type 0 where
  pub users_mode : String
  pub users_per_file : ℤ
  pub verify_by_default : Option Bool
  pub encrypt_by_default : Option Bool
  pub allow_secret_reveal : Option Bool
  pub probe_stale_after : ℤ
  pub retry_max_attempts : ℤ
  pub retry_base_delay : ℤ
  pub retry_max_delay : ℤ
  pub breaker_threshold : ℤ
  pub breaker_cooldown : ℤ
  pub extra : String

-- A pointer to a struct: where it points, and what is there.
pub record Ref (A : Type 0) : Type 0 where
  pub addr : ℕ
  pub value : A

pub record SshHop : Type 0 where
  pub host : String
  pub port : ℤ
  pub user : String
  pub auth : SshAuth
  pub credential_ref : String
  pub extra : String

pub record ResourcePreset : Type 0 where
  pub cpu : String
  pub memory : String

pub record ProbeStamp : Type 0 where
  pub at : ℕ
  pub writable : Option Bool
  pub summary : String
  pub keycloak_version : String
  pub is_ok : Bool
  pub clone_capable : Bool

pub record Environment : Type 0 where
  pub jump_host : Option (Ref SshHop)
  pub resource_preset : Option (Ref ResourcePreset)
  pub last_probe : Option ProbeStamp
  pub extra : String
  pub name : String
  pub kind : EnvironmentKind
  pub server_folder : String
  pub java_home : String
  pub kc_path : String
  pub host : String
  pub user : String
  pub auth : SshAuth
  pub docker_endpoint : String
  pub container : String
  pub runtime : String
  pub network : String
  pub context : String
  pub kubeconfig : String
  pub namespace : String
  pub workload : String
  pub container_name : String
  pub admin_base_url : String
  pub admin_realm : String
  pub admin_user : String
  pub admin_client_id : String
  pub admin_credential_ref : String
  pub credential_ref : String
  pub port : ℤ
  pub sudo : Bool
  pub admin_insecure_tls : Bool

pub record Storage : Type 0 where
  pub jump_host : Option (Ref SshHop)
  pub last_probe : Option ProbeStamp
  pub extra : String
  pub name : String
  pub kind : StorageKind
  pub folder : String
  pub host : String
  pub user : String
  pub auth : SshAuth
  pub endpoint : String
  pub region : String
  pub bucket : String
  pub storage_class : String
  pub server_side_enc : String
  pub account : String
  pub container : String
  pub access_tier : String
  pub prefix : String
  pub credential_ref : String
  pub port : ℤ
  pub part_size_mb : ℤ
  pub block_size_mb : ℤ
  pub is_default : Bool
  pub encryption_required : Bool
  pub path_style : Bool

pub record Key : Type 0 where
  pub name : String
  pub kind : KeyKind
  pub public_key : String
  pub credential_ref : String
  pub note : String
  pub created_at : ℕ
  pub extra : String

pub record Config : Type 0 where
  pub version : ℤ
  pub preferences : Preferences
  pub environments : List Environment
  pub storage : List Storage
  pub keys : List Key
  pub extra : String

-- The first entry of a name: `Environment`, `StorageByName` and `KeyByName` of `Config`.
module _ {A : Type 0} (name_of : A → String) where
  unfoldable pub by_name : List A → String → Option A
  by_name [] n = none
  by_name (x ∷ xs) n = let rest = by_name xs n in if str_eq (name_of x) n then some x else rest

unfoldable pub environment_by_name : Config → String → Option Environment
unfolding by_name
environment_by_name c n = by_name (λ e. e.name) c.environments n

unfoldable pub storage_by_name : Config → String → Option Storage
unfolding by_name
storage_by_name c n = by_name (λ s. s.name) c.storage n

unfoldable pub key_by_name : Config → String → Option Key
unfolding by_name
key_by_name c n = by_name (λ k. k.name) c.keys n

-- `DefaultStorage`
unfoldable pub first_default : List Storage → Option Storage
first_default [] = none
first_default (s ∷ ss) = let rest = first_default ss in if s.is_default then some s else rest
