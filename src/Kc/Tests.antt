-- ===== src/Kc/Tests.antt =====
-- internal/engine/kc/kc.go: the cases of its tests, and its theorems at them.
use portcloak.Base.{
  AreDistinct, str_eq-false, ◌≡◌, refl, ap, ◌⊎◌, contains_fold, Bool, true, false, List, [], ◌∷◌,
  String, str_eq,
}
use portcloak.Base.Int.{pos}
use portcloak.Base.Result.{ok, err}
use portcloak.Kc.{
  ExportRequest, ImportRequest, KcCommand, no_realm, merge_is_online, build_export, build_import,
}
use portcloak.Kc.Layout.{ExportLayout, read_layout, pad_user_files}
use portcloak.Kc.Layout.Padding.{IsApart, IsPadded, pad_user_files_lem}
use portcloak.Kc.PortOptions.{AddsOptions, port_options, export_ports_lem}
use portcloak.Kc.Failure.{
  Outcome, Reason, ports_taken, joined_errors, classify_failure, database_unreachable,
  retryable_failure,
}

abbrev export_request : ExportRequest
export_request = record {
  kc_path = "/opt/keycloak/bin/kc.sh";
  dir = "/tmp/export";
  realm = "acme";
  users_mode = "";
  users_per_file = pos 0;
  ports = record { http = pos 18080; https = pos 0; management = pos 19000 };
  supported = "dir" ∷ "http-management-port" ∷ [];
  optimized = true;
  no_transaction_timeout = false;
  extra_args = "--verbose" ∷ [];
}

abbrev export_command : KcCommand
export_command = record {
  path = "/opt/keycloak/bin/kc.sh";
  args =
      "export" ∷ "--dir" ∷ "/tmp/export" ∷ "--realm" ∷ "acme" ∷ "--users" ∷ "different_files"
      ∷ "--users-per-file" ∷ "1000" ∷ "--http-management-port" ∷ "19000" ∷ "--optimized"
      ∷ "--verbose" ∷ [];
  env = [];
  ports_passed = true;
}

export_built : build_export export_request ≡ ok export_command
unfolding build_export
export_built = refl

export_without_realm : build_export (record export_request { realm = "" }) ≡ err no_realm
unfolding build_export
export_without_realm = refl

abbrev single_file : ExportRequest
single_file = record export_request {
  users_mode = "realm_file";
  dir = "/tmp//export/.";
  supported = [];
  optimized = false;
  extra_args = [];
}

single_file_built :
    build_export single_file
    ≡ ok (record export_command {
      args =
          "export" ∷ "--file" ∷ "/tmp/export/acme.json" ∷ "--realm" ∷ "acme" ∷ "--users"
          ∷ "realm_file" ∷ [];
      ports_passed = false;
    })
unfolding build_export
single_file_built = refl

export_ports_lem_example : AddsOptions export_request export_command (port_options export_request)
export_ports_lem_example = export_ports_lem export_request export_command export_built

abbrev import_request : ImportRequest
import_request = record {
  kc_path = "kc.sh";
  dir = "/tmp/in";
  file = "";
  strategy = "merge";
  ports = export_request.ports;
  supported = [];
  optimized = false;
  no_transaction_timeout = true;
  extra_args = [];
}

merge_refused : build_import import_request ≡ err merge_is_online
unfolding build_import
merge_refused = refl

skip_built :
    build_import (record import_request { strategy = "skip" })
    ≡ ok (record {
      path = "kc.sh";
      args = "import" ∷ "--dir" ∷ "/tmp/in" ∷ "--override" ∷ "false" ∷ [];
      env = ("QUARKUS_TRANSACTION_MANAGER_DEFAULT_TRANSACTION_TIMEOUT", "0") ∷ [];
      ports_passed = false;
    })
unfolding build_import
skip_built = refl

abbrev listing : List String
listing =
    "acme-users-10.json" ∷ "out/acme-users-2.json" ∷ "notes.txt" ∷ "acme-realm.json"
    ∷ "ldap-users-0-users-1.json" ∷ []

abbrev layout : ExportLayout
layout = record {
  realm_file = "acme-realm.json";
  user_files = "ldap-users-0-users-1.json" ∷ "out/acme-users-2.json" ∷ "acme-users-10.json" ∷ [];
  other = "notes.txt" ∷ [];
}

layout_read : read_layout "acme" listing ≡ layout
unfolding read_layout
layout_read = refl

layout_padded :
    (pad_user_files layout).0.user_files
    ≡ "ldap-users-0-users-001.json" ∷ "out/acme-users-002.json" ∷ "acme-users-010.json" ∷ []
unfolding pad_user_files
layout_padded = refl

layout-IsApart :
    AreDistinct layout.user_files × IsApart layout.user_files ("notes.txt" ∷ "acme-realm.json" ∷ [])
layout-IsApart = (
  ((str_eq-false _ _ refl, (str_eq-false _ _ refl, tt)), ((str_eq-false _ _ refl, tt), (tt, tt))),
  (
    (str_eq-false _ _ refl, (str_eq-false _ _ refl, (str_eq-false _ _ refl, tt))),
    ((str_eq-false _ _ refl, (str_eq-false _ _ refl, (str_eq-false _ _ refl, tt))), tt),
  ),
)

pad_user_files_lem_example : IsPadded layout (pad_user_files layout)
pad_user_files_lem_example = pad_user_files_lem layout (layout-IsApart.0) (layout-IsApart.1)

abbrev clash : ExportLayout
clash = record layout { user_files = "u-users-0.json" ∷ "u-users-000.json" ∷ [] }

clash_untouched : pad_user_files clash ≡ (clash, [])
unfolding pad_user_files
clash_untouched = refl

abbrev refused : Outcome
refused = record {
  exit_code = pos 1;
  warnings = [];
  errors = "Connection to db:5432 refused." ∷ [];
  bind_conflict = false;
  transaction_timeout = false;
  rejected_option = "";
  rejected_command = "";
}

refused_classified : classify_failure "acme" refused "" ≡ (database_unreachable, true)
unfolding classify_failure
refused_classified = refl

retryable_failure_example :
    (str_eq "" "" ≡ true)
    × (((false ≡ true) × ((classify_failure "acme" refused "").0 ≡ ports_taken))
        ⊎ ((false ≡ false)
            × (contains_fold (joined_errors refused "") "connection" ≡ true)
            × (contains_fold (joined_errors refused "") "refused" ≡ true)
            × ((classify_failure "acme" refused "").0 ≡ database_unreachable)))
retryable_failure_example =
    retryable_failure "acme" refused "" (ap (λ (p : Reason × Bool). p.1) refused_classified)
