-- ===== src/Config/Validate.antt =====
-- internal/engine/config/validate.go: `Validate`, every problem of a configuration in the order of
-- the file's lines.
pub mod Complaints
pub mod Environments
pub mod Storages
pub mod Unique
use portcloak.Base.{
  ℕ, suc, ◌+◌, ◌<◌, ltb, leb, Bool, true, false, not, ◌&&◌, ◌||◌, Option, none, some, List, [], ◌∷◌,
  ◌++◌, String, str_eq, if◌then◌else◌, concat, itoa, codes, has_prefix, cut, same_codes,
  lower_codes, is_blank, sort_by, map,
}
use portcloak.Base.Int.{ℤ, pos, negsuc}
use portcloak.Base.Dict
use portcloak.Base.Dict.{Dict}
use portcloak.Config.Model.{
  EnvironmentKind, StorageKind, SshAuth, KeyKind, Environment, Storage, Key, Config,
  environment_kind_text, storage_kind_text, auth_text,
}
use portcloak.Config.Validate.Complaints.{
  Complaint, no_name, missing, missing_on, bad_auth, bad_runtime, bad_workload, bad_kind,
  bad_public_key, not_absolute, bad_handle, no_kind, foreign_field, duplicate, many_defaults,
  small_part, no_region, no_account, unwanted_public_key, no_handle, Found, field, add_if, is_empty,
  non_empty_codes, is_valid_handle, reject, has_bad_auth, bad_ref,
}
use portcloak.Config.Validate.Environments.{validate_environment}
use portcloak.Config.Validate.Storages.{validate_storage, validate_key}

-- `Problem`, with its place in the document and its line.
pub record Problem : Type 0 where
  pub line : ℕ
  pub path : String
  pub message : Complaint

-- The name is not empty and has been seen at an earlier entry.
unfoldable pub duplicate_of : Dict ℕ → String → String → List Found
duplicate_of seen base name = elim (Dict.get seen name) [
  | none ↦ []
  | some prev ↦ (field base "name", duplicate name (prev + 1)) ∷ []
]

-- One of the three loops of `Validate`: over the entries of a list, with the names seen so far.
unfoldable pub check_entries :
    {A : Type 0}
    → (A → String)
    → (A → String → List Found)
    → String
    → Dict ℕ
    → ℕ
    → List A
    → List Found
unfolding duplicate_of
check_entries name_of check list seen i [] = []
check_entries name_of check list seen i (x ∷ xs) =
    let base = concat (list ∷ "[" ∷ itoa i ∷ "]" ∷ []) in
    let named = is_empty (name_of x) in
    check x base
    ++ ((if named then [] else duplicate_of seen base (name_of x))
        ++ check_entries name_of check list (if named then seen else Dict.put seen (name_of x) i)
            (i + 1) xs)

unfoldable pub count_defaults : List Storage → ℕ
count_defaults [] = 0
count_defaults (s ∷ ss) = let rest = count_defaults ss in if s.is_default then suc rest else rest

unfoldable pub found_problems : Config → List Found
unfolding check_entries count_defaults
found_problems c =
    check_entries (λ e. e.name) validate_environment "environments" [] 0 c.environments
    ++ (check_entries (λ s. s.name) validate_storage "storage" [] 0 c.storage
        ++ (add_if (ltb 1 (count_defaults c.storage)) "storage"
              (many_defaults (count_defaults c.storage))
            ++ check_entries (λ k. k.name) validate_key "keys" [] 0 c.keys))

-- `Validate`; a nil `locate` gives every problem the line 0.
unfoldable pub validate : Config → Option (String → ℕ) → List Problem
unfolding found_problems
validate c locate = sort_by (λ p q. ltb p.line q.line) (map at_line (found_problems c))
  where
    at_line : Found → Problem
    at_line (path, message) = record {
      line = elim locate [ none ↦ 0 | some l ↦ l path ];
      path = path;
      message = message;
    }
