-- ===== src/Config/Fixtures.antt =====
-- A configuration with two environments, of which one has a jump host, and two storages, of which one
-- is the default; its store, and a keychain.
use portcloak.Base.{true, false, none, some, List, [], ◌∷◌, String}
use portcloak.Base.Int.{pos}
use portcloak.Base.Result.{Result, ok}
use portcloak.Config.Files.{Faults}
use portcloak.Config.Model.{
  Ref, SshHop, SshAuth, EnvironmentKind, StorageKind, Environment, Storage, Preferences, ProbeStamp,
  Config,
}
use portcloak.Config.Store.{Store, config_file}
use portcloak.Config.Crud.{Keychain}

abbrev pub no_faults : Faults
no_faults = record {
  on_write = λ c n. false;
  on_read = λ n. false;
  on_remove = λ n. false;
  on_list = false;
}

-- A printer that sees the names of the environments alone.
abbrev pub print_names : List Environment → String
print_names [] = ""
print_names (e ∷ es) = e.name

abbrev pub marshal : Config → Result String String
marshal c = ok (print_names c.environments)

abbrev pub stamp : ProbeStamp
stamp = record {
  at = 3;
  writable = none;
  summary = "";
  keycloak_version = "26";
  is_ok = true;
  clone_capable = false;
}

abbrev pub local_environment : Environment
local_environment = record {
  jump_host = none;
  resource_preset = none;
  last_probe = some stamp;
  extra = "";
  name = "dev";
  kind = EnvironmentKind.local;
  server_folder = "/opt/keycloak";
  java_home = "";
  kc_path = "";
  host = "";
  user = "";
  auth = SshAuth.unset;
  docker_endpoint = "";
  container = "";
  runtime = "";
  network = "";
  context = "";
  kubeconfig = "";
  namespace = "";
  workload = "";
  container_name = "";
  admin_base_url = "";
  admin_realm = "";
  admin_user = "";
  admin_client_id = "";
  admin_credential_ref = "";
  credential_ref = "keychain://portcloak/local/dev";
  port = pos 0;
  sudo = false;
  admin_insecure_tls = false;
}

abbrev pub hop : Ref SshHop
hop = record {
  addr = 2;
  value = record {
    host = "bastion";
    port = pos 22;
    user = "ops";
    auth = SshAuth.agent;
    credential_ref = "";
    extra = "";
  };
}

abbrev pub ssh_environment : Environment
ssh_environment = record local_environment {
  name = "prod";
  kind = EnvironmentKind.ssh;
  host = "kc";
  user = "ops";
  jump_host = some hop;
  credential_ref = "keychain://portcloak/ssh/prod";
}

abbrev pub main_disk : Storage
main_disk = record {
  jump_host = none;
  last_probe = none;
  extra = "";
  name = "disk";
  kind = StorageKind.disk;
  folder = "/srv";
  host = "";
  user = "";
  auth = SshAuth.unset;
  endpoint = "";
  region = "";
  bucket = "";
  storage_class = "";
  server_side_enc = "";
  account = "";
  container = "";
  access_tier = "";
  prefix = "";
  credential_ref = "";
  port = pos 0;
  part_size_mb = pos 0;
  block_size_mb = pos 0;
  is_default = true;
  encryption_required = false;
  path_style = false;
}

abbrev pub other_disk : Storage
other_disk = record main_disk { name = "nas"; is_default = false }

abbrev pub preferences : Preferences
preferences = record {
  users_mode = "";
  users_per_file = pos 0;
  verify_by_default = none;
  encrypt_by_default = none;
  allow_secret_reveal = none;
  probe_stale_after = pos 0;
  retry_max_attempts = pos 0;
  retry_base_delay = pos 0;
  retry_max_delay = pos 0;
  breaker_threshold = pos 0;
  breaker_cooldown = pos 0;
  extra = "";
}

abbrev pub config : Config
config = record {
  version = pos 1;
  preferences = preferences;
  environments = local_environment ∷ ssh_environment ∷ [];
  storage = main_disk ∷ other_disk ∷ [];
  keys = [];
  extra = "";
}

abbrev pub store : Store
store = record {
  cfg = config;
  raw = some "# mine\ndev";
  baseline = some "dev";
  home = (config_file, "# mine\ndev") ∷ [];
  heap = 10;
}

abbrev pub keychain : Keychain
keychain = record {
  secrets = ("keychain://portcloak/local/dev", "s3cret") ∷ [];
  refuses = λ h. false;
}

-- The duplicate of `ssh_environment`; the copy of the configuration has taken the places up to 13.
abbrev pub copied : Environment
copied = record ssh_environment {
  name = "copy";
  credential_ref = "";
  last_probe = none;
  jump_host = some (record { addr = 14; value = hop.value });
}
