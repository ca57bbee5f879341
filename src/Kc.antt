-- ===== src/Kc.antt =====
-- internal/engine/kc/kc.go: the command lines of kc.sh.
-- `UsersMode` and `ImportStrategy` are texts, as in the code, which passes on a value that it does
-- not know or refuses it by its name. An error is a value in place of its sentence.
pub mod PortOptions
pub mod Layout
pub mod Failure
mod Tests
use portcloak.Base.{
  ℕ, Bool, true, false, not, ◌&&◌, List, [], ◌∷◌, ◌++◌, Option, none, some, String, ltb, str_eq,
  if◌then◌else◌, concat, itoa, any, length, trim_left, path_join,
}
use portcloak.Base.Int.{ℤ, nonpositive, pos_part}
use portcloak.Base.Dict.{Dict}
use portcloak.Base.Result.{Result, ok, err, ◌>>=◌, ◌>>◌}

abbrev pub UsersMode : Type 0
UsersMode = String

abbrev users_different_files : UsersMode
users_different_files = "different_files"

abbrev users_realm_file : UsersMode
users_realm_file = "realm_file"

abbrev pub ImportStrategy : Type 0
ImportStrategy = String

abbrev strategy_overwrite : ImportStrategy
strategy_overwrite = "overwrite"

abbrev strategy_skip : ImportStrategy
strategy_skip = "skip"

abbrev strategy_merge : ImportStrategy
strategy_merge = "merge"

pub record Ports : Type 0 where
  pub http : ℤ
  pub https : ℤ
  pub management : ℤ

-- `OptionSet`, by the names that are true in it.
abbrev pub OptionSet : Type 0
OptionSet = List String

pub record ExportRequest : Type 0 where
  pub kc_path : String
  pub dir : String
  pub realm : String
  pub users_mode : UsersMode
  pub users_per_file : ℤ
  pub ports : Ports
  pub supported : OptionSet
  pub optimized : Bool
  pub no_transaction_timeout : Bool
  pub extra_args : List String

pub record ImportRequest : Type 0 where
  pub kc_path : String
  pub dir : String
  pub file : String
  pub strategy : ImportStrategy
  pub ports : Ports
  pub supported : OptionSet
  pub optimized : Bool
  pub no_transaction_timeout : Bool
  pub extra_args : List String

-- `ExportCommand`
pub record KcCommand : Type 0 where
  pub path : String
  pub args : List String
  pub env : Dict String
  pub ports_passed : Bool

pub data BuildError : Type 0 where
  no_kc_path no_subcommand no_realm no_export_dir no_import_source merge_is_online no_strategy :
      BuildError
  unknown_strategy : ImportStrategy → BuildError

-- `OptionSet.Has` and `OptionSet.Known`
unfoldable pub has : OptionSet → String → Bool
unfolding trim_left
has supported name = any (str_eq (trim_left b'-' name)) supported

unfoldable pub known : OptionSet → Bool
known [] = false
known (name ∷ more) = true

build_help : String → String → Result BuildError KcCommand
build_help kc_path subcommand =
    if str_eq kc_path ""
    then err no_kc_path
    else if str_eq subcommand ""
    then err no_subcommand
    else ok (record {
      path = kc_path;
      args = subcommand ∷ "--help-all" ∷ [];
      env = [];
      ports_passed = false;
    })

-- One round of the loop of `portArgs`.
unfoldable pub port_arg : OptionSet → String → ℤ → List String
port_arg supported flag port =
    if not (nonpositive port) && has supported flag
    then concat ("--" ∷ flag ∷ []) ∷ itoa (pos_part port) ∷ []
    else []

unfoldable pub port_args : OptionSet → Ports → List String
unfolding port_arg known has
port_args supported p =
    if known supported
    then port_arg supported "http-port" p.http
      ++ port_arg supported "https-port" p.https
      ++ port_arg supported "http-management-port" p.management
    else []

abbrev transaction_timeout_var : String
transaction_timeout_var = "QUARKUS_TRANSACTION_MANAGER_DEFAULT_TRANSACTION_TIMEOUT"

-- A nil map is an empty one.
transaction_env : Bool → Dict String
transaction_env no_timeout = if no_timeout then (transaction_timeout_var, "0") ∷ [] else []

abbrev pub users_per_file_default : ℕ
users_per_file_default = 1000

abbrev pub users_per_file_min : ℕ
users_per_file_min = 10

abbrev pub users_per_file_max : ℕ
users_per_file_max = users_per_file_default

unfoldable pub clamp_users_per_file : ℤ → ℕ
clamp_users_per_file n =
    let size = pos_part n in
    if nonpositive n
    then users_per_file_default
    else if ltb size users_per_file_min
    then users_per_file_min
    else if ltb users_per_file_max size
    then users_per_file_max
    else size

-- The ports, the switch and the extra arguments, which both commands end with.
with_options : String → List String → OptionSet → Ports → Bool → Bool → List String → KcCommand
unfolding port_args transaction_env
with_options kc_path args supported ports optimized no_timeout extra = record {
  path = kc_path;
  args =
      args
      ++ port_args supported ports
      ++ ((if optimized then "--optimized" ∷ [] else []) ++ extra);
  env = transaction_env no_timeout;
  ports_passed = ltb 0 (length (port_args supported ports));
}

-- `mode`, where an empty one is the default.
mode_of : ExportRequest → UsersMode
mode_of r = if str_eq r.users_mode "" then users_different_files else r.users_mode

export_place : ExportRequest → List String
unfolding mode_of path_join
export_place r =
    if str_eq (mode_of r) users_realm_file
    then "--file" ∷ path_join (r.dir ∷ concat (r.realm ∷ ".json" ∷ []) ∷ []) ∷ []
    else "--dir" ∷ r.dir ∷ []

export_pages : ExportRequest → List String
unfolding mode_of itoa
export_pages r =
    let n =
      if nonpositive r.users_per_file then users_per_file_default else pos_part r.users_per_file in
    if str_eq (mode_of r) users_different_files then "--users-per-file" ∷ itoa n ∷ [] else []

export_args : ExportRequest → List String
unfolding export_place export_pages mode_of
export_args r =
    ("export" ∷ export_place r)
    ++ ("--realm" ∷ r.realm ∷ "--users" ∷ mode_of r ∷ [])
    ++ export_pages r

-- `BuildExport`
unfoldable pub build_export : ExportRequest → Result BuildError KcCommand
unfolding export_args with_options
build_export r =
    if str_eq r.kc_path ""
    then err no_kc_path
    else if str_eq r.realm ""
    then err no_realm
    else if str_eq r.dir ""
    then err no_export_dir
    else ok (
        with_options r.kc_path (export_args r) r.supported r.ports r.optimized
          r.no_transaction_timeout r.extra_args)

override_of : ImportStrategy → Result BuildError (List String)
override_of s =
    if str_eq s strategy_overwrite
    then ok ("--override" ∷ "true" ∷ [])
    else if str_eq s strategy_skip
    then ok ("--override" ∷ "false" ∷ [])
    else if str_eq s strategy_merge
    then err merge_is_online
    else if str_eq s ""
    then err no_strategy
    else err (unknown_strategy s)

import_place : ImportRequest → List String
import_place r = if str_eq r.file "" then "--dir" ∷ r.dir ∷ [] else "--file" ∷ r.file ∷ []

-- `BuildImport`
unfoldable pub build_import : ImportRequest → Result BuildError KcCommand
unfolding override_of import_place with_options
build_import r =
    if str_eq r.kc_path ""
    then err no_kc_path
    else if str_eq r.dir "" && str_eq r.file ""
    then err no_import_source
    else override_of r.strategy >>= λ override. ok (
        with_options r.kc_path (("import" ∷ import_place r) ++ override) r.supported r.ports
          r.optimized r.no_transaction_timeout r.extra_args)

strategy_explanation : ImportStrategy → String
strategy_explanation s =
    if str_eq s strategy_overwrite
    then "A resource that already exists with the same name is replaced by the one from the snapshot."
    else if str_eq s strategy_skip
    then "A resource that already exists is left exactly as it is. Only genuinely new ones are created."
    else if str_eq s strategy_merge
    then "Fields present in the snapshot are applied; fields absent from it keep their destination value."
    else ""
