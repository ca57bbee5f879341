-- ===== src/Config/Validate/Complaints.antt =====
-- internal/engine/config: what `Validate` may complain of, and the tests that its three parts share:
-- `validSSHAuth`, `ValidHandle` and `rejectForeign`. A complaint is named for its sentence and holds
-- the values that the sentence prints.
use portcloak.Base.{
  ℕ, leb, Bool, true, false, not, ◌&&◌, Option, none, some, List, [], ◌∷◌, ◌++◌, String, str_eq,
  if◌then◌else◌, concat, codes, cut,
}
use portcloak.Base.Int.{ℤ}
use portcloak.Config.Model.{SshAuth, auth_text}

pub data Complaint : Type 0 where
  no_name : Complaint
  missing : String → Complaint
  missing_on : String → String → Complaint
  bad_auth bad_runtime bad_workload bad_kind bad_public_key : String → Complaint
  not_absolute bad_handle : String → Complaint
  no_kind : String → Complaint
  foreign_field : String → String → Complaint
  duplicate : String → ℕ → Complaint
  many_defaults : ℕ → Complaint
  small_part : String → ℤ → Complaint
  no_region no_account unwanted_public_key no_handle : String → Complaint

-- What `add` is called with.
abbrev pub Found : Type 0
Found = String × Complaint

abbrev pub field : String → String → String
field base name = concat (base ∷ "." ∷ name ∷ [])

abbrev pub add_if : Bool → String → Complaint → List Found
add_if b path c = if b then (path, c) ∷ [] else []

abbrev pub is_empty : String → Bool
is_empty s = str_eq s ""

abbrev pub non_empty_codes : List ℕ → Bool
non_empty_codes [] = false
non_empty_codes (c ∷ s) = true

-- `ValidHandle`: keychain://portcloak/<kind>/<name>.
drop_prefix : List ℕ → List ℕ → Option (List ℕ)
drop_prefix [] t = some t
drop_prefix (c ∷ p) [] = none
drop_prefix (c ∷ p) (d ∷ t) =
    let rest = drop_prefix p t in if leb c d && leb d c then rest else none

kind_and_name : Option (List ℕ × List ℕ) → Bool
kind_and_name none = false
kind_and_name (some (kind, name)) = non_empty_codes kind && non_empty_codes name

unfoldable pub is_valid_handle : String → Bool
unfolding drop_prefix kind_and_name cut
is_valid_handle h = elim (drop_prefix (codes "keychain://portcloak/") (codes h)) [
  | none ↦ false
  | some rest ↦ kind_and_name (cut b'/' rest)
]

-- `validSSHAuth`
abbrev is_valid_auth : SshAuth → Bool
is_valid_auth SshAuth.key = true
is_valid_auth SshAuth.agent = true
is_valid_auth SshAuth.password = true
is_valid_auth _ = false

unfoldable pub reject : (String → Bool) → String → String → List String → List Found
reject has kind base [] = []
reject has kind base (f ∷ fs) =
    add_if (has f) (field base f) (foreign_field kind f) ++ reject has kind base fs

unfoldable pub has_bad_auth : SshAuth → Bool
has_bad_auth a = not (is_empty (auth_text a)) && not (is_valid_auth a)

-- A reference that is given and is no handle.
unfoldable pub bad_ref : String → Bool
bad_ref h = not (is_empty h) && not (is_valid_handle h)
