-- ===== src/Config/Readiness.antt =====
-- internal/engine/config/readiness.go: whether an entry can be used yet. A reason is named for its
-- sentence and holds the values that the sentence prints.
use portcloak.Base.{Bool, true, false, ◌&&◌, Option, none, some, String, str_eq, if◌then◌else◌}
use portcloak.Config.Model.{
  SshAuth, EnvironmentKind, StorageKind, Ref, SshHop, Environment, Storage,
}

pub data Unready : Type 0 where
  no_auth : String → Unready
  no_credential : String → String → Unready
  hop_credential : String → String → Unready

-- `authNoun`
auth_noun : SshAuth → String
auth_noun SshAuth.key = "private key"
auth_noun SshAuth.password = "password"
auth_noun _ = "credential"

-- The second `case` of the `switch` on the auth.
unfoldable pub needs_secret : SshAuth → Bool
needs_secret SshAuth.key = true
needs_secret SshAuth.password = true
needs_secret _ = false

is_unset : SshAuth → Bool
is_unset SshAuth.unset = true
is_unset _ = false

-- The part on the jump host.
hop_readiness : Option (Ref SshHop) → Option Unready
unfolding auth_noun needs_secret
hop_readiness none = none
hop_readiness (some j) =
    if needs_secret j.value.auth && str_eq j.value.credential_ref ""
    then some (hop_credential j.value.host (auth_noun j.value.auth))
    else none

ssh_readiness : Environment → Option Unready
unfolding hop_readiness is_unset
ssh_readiness e =
    let hop = hop_readiness e.jump_host in
    if is_unset e.auth
    then some (no_auth e.host)
    else if needs_secret e.auth && str_eq e.credential_ref ""
    then some (no_credential (auth_noun e.auth) e.host)
    else hop

-- `EnvironmentReadiness`; ready is `none`.
unfoldable pub environment_readiness : Environment → Option Unready
unfolding ssh_readiness
environment_readiness e = elim e.kind [ EnvironmentKind.ssh ↦ ssh_readiness e | _ ↦ none ]

-- `StorageReadiness`
unfoldable pub storage_readiness : Storage → Option Unready
unfolding auth_noun needs_secret is_unset
storage_readiness s = elim s.kind [
  | StorageKind.sftp ↦
      if is_unset s.auth
      then some (no_auth s.host)
      else if needs_secret s.auth && str_eq s.credential_ref ""
      then some (no_credential (auth_noun s.auth) s.host)
      else none
  | StorageKind.s3 ↦
      if str_eq s.credential_ref "" then some (no_credential "access key" s.bucket) else none
  | StorageKind.azure ↦
      if str_eq s.credential_ref ""
      then some (no_credential "connection string, key or SAS" s.container)
      else none
  | _ ↦ none
]
