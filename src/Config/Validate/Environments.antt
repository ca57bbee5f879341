-- ===== src/Config/Validate/Environments.antt =====
-- internal/engine/config/validate.go: `validateEnvironment`.
use portcloak.Base.{
  ℕ, Bool, false, not, ◌&&◌, ◌||◌, none, some, List, [], ◌∷◌, ◌++◌, String, str_eq, if◌then◌else◌,
  codes, has_prefix, cut, same_codes, lower_codes, is_blank,
}
use portcloak.Config.Model.{EnvironmentKind, Environment, environment_kind_text, auth_text}
use portcloak.Config.Validate.Complaints.{
  no_name, missing, missing_on, bad_auth, bad_runtime, bad_workload, bad_kind, not_absolute,
  bad_handle, no_kind, Found, field, add_if, is_empty, non_empty_codes, reject, has_bad_auth,
  bad_ref,
}

is_workload_kind : List ℕ → Bool
is_workload_kind k =
    same_codes k (codes "deployment")
    || same_codes k (codes "deployments")
    || same_codes k (codes "statefulset")
    || same_codes k (codes "statefulsets")

-- `validWorkloadRef`
unfoldable pub is_valid_workload_ref : String → Bool
unfolding is_workload_kind cut lower_codes same_codes
is_valid_workload_ref ref = elim (cut b'/' (codes ref)) [
  | none ↦ false
  | some (kind, name) ↦ non_empty_codes name && is_workload_kind (lower_codes kind)
]

-- The map `present` of `rejectForeign`.
environment_has : Environment → String → Bool
environment_has e f =
    if str_eq f "host"
    then not (is_empty e.host)
    else if str_eq f "namespace"
    then not (is_empty e.namespace)
    else if str_eq f "container"
    then not (is_empty e.container)
    else if str_eq f "context"
    then not (is_empty e.context)
    else if str_eq f "workload"
    then not (is_empty e.workload)
    else if str_eq f "serverFolder"
    then not (is_empty e.server_folder)
    else if str_eq f "dockerEndpoint"
    then not (is_empty e.docker_endpoint)
    else false

-- `rejectForeign`
reject_foreign : Environment → String → List String → List Found
unfolding reject environment_has
reject_foreign e base fields = reject (environment_has e) (environment_kind_text e.kind) base fields

hop_without_host : Environment → Bool
hop_without_host e = elim e.jump_host [ none ↦ false | some j ↦ is_empty j.value.host ]

has_bad_runtime : String → Bool
has_bad_runtime r =
    not (is_empty r)
    && not (str_eq r "docker")
    && not (str_eq r "podman")
    && not (str_eq r "nerdctl")

-- The `switch` of `validateEnvironment` on the kind.
environment_kind_problems : EnvironmentKind → Environment → String → List Found
unfolding reject_foreign has_bad_auth hop_without_host has_bad_runtime
environment_kind_problems EnvironmentKind.local e base =
    add_if (is_empty e.server_folder) (field base "serverFolder") (missing e.name)
    ++ reject_foreign e base
        ("host" ∷ "namespace" ∷ "container" ∷ "context" ∷ "workload" ∷ "dockerEndpoint" ∷ [])
environment_kind_problems EnvironmentKind.ssh e base =
    add_if (is_empty e.host) (field base "host") (missing e.name)
    ++ (add_if (is_empty e.user) (field base "user") (missing e.name)
        ++ (add_if (is_empty e.server_folder) (field base "serverFolder") (missing_on e.name e.host)
            ++ (add_if (has_bad_auth e.auth) (field base "auth") (bad_auth (auth_text e.auth))
                ++ (add_if (hop_without_host e) (field base "jumpHost.host") (missing e.name)
                    ++ reject_foreign e base (
                        "namespace" ∷ "container" ∷ "context" ∷ "workload" ∷ "dockerEndpoint"
                        ∷ [])))))
environment_kind_problems EnvironmentKind.docker e base =
    add_if (is_empty e.container) (field base "container") (missing e.name)
    ++ (add_if (has_bad_runtime e.runtime) (field base "runtime") (bad_runtime e.runtime)
        ++ reject_foreign e base
            ("host" ∷ "namespace" ∷ "context" ∷ "workload" ∷ "serverFolder" ∷ []))
environment_kind_problems EnvironmentKind.kubernetes e base =
    add_if (is_empty e.namespace) (field base "namespace") (missing e.name)
    ++ ((if is_empty e.workload
          then (field base "workload", missing e.name) ∷ []
          else add_if (not (is_valid_workload_ref e.workload)) (field base "workload")
              (bad_workload e.workload))
        ++ reject_foreign e base ("host" ∷ "container" ∷ "serverFolder" ∷ "dockerEndpoint" ∷ []))
environment_kind_problems EnvironmentKind.unset e base = (field base "kind", no_kind e.name) ∷ []
environment_kind_problems (EnvironmentKind.unknown k) e base = (field base "kind", bad_kind k) ∷ []

-- `validateEnvironment`
unfoldable pub validate_environment : Environment → String → List Found
unfolding environment_kind_problems bad_ref
validate_environment e base =
    add_if (is_blank e.name) (field base "name") no_name
    ++ (environment_kind_problems e.kind e base
        ++ (add_if (not (is_empty e.kc_path) && not (has_prefix e.kc_path "/"))
              (field base "kcPath") (not_absolute e.kc_path)
            ++ (add_if (bad_ref e.credential_ref) (field base "credentialRef")
                  (bad_handle e.credential_ref)
                ++ add_if (bad_ref e.admin_credential_ref) (field base "adminCredentialRef")
                    (bad_handle e.admin_credential_ref))))
