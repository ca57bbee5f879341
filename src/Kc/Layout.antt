-- ===== src/Kc/Layout.antt =====
-- internal/engine/kc/kc.go: what an export directory holds, and the padded names of its user files.
pub mod Padding
use portcloak.Base.{
  ℕ, zero, suc, ◌+◌, ◌*◌, ◌-◌, ◌^◌, min, Bool, true, false, not, ◌&&◌, ◌||◌, List, [], ◌∷◌, ◌++◌,
  Option, none, some, String, ltb, leb, ◌==◌, str_eq, if◌then◌else◌, concat, itoa, any, length,
  codes, strip_prefix, split_path, base_name, text_less, sort_by, map,
}
use portcloak.Base.Dict.{Dict}
use Prim.Native.Char.{code}
use Prim.Native.String

pub record ExportLayout : Type 0 where
  pub realm_file : String
  pub user_files : List String
  pub other : List String

is_digit : ℕ → Bool
is_digit c = leb b'0' c && leb c b'9'

-- `(\d+)\.json$`: the value of the digits, of which there is one at least.
numbered_rest : Bool → ℕ → String → Option ℕ
unfolding is_digit
numbered_rest some_digit n String.[] = none
numbered_rest some_digit n (String.◌∷◌ c s) =
    let rest = numbered_rest true (10 * n + (code c - b'0')) s in
    if is_digit (code c)
    then rest
    else if some_digit && str_eq (String.◌∷◌ c s) ".json"
    then some n
    else none

-- `userFileRe`, `^(.*)-users-(\d+)\.json$`: what stands before the last "-users-" that digits and the
-- extension follow, without a line break in it, and the number.
unfoldable pub user_file : String → Option (String × ℕ)
unfolding numbered_rest strip_prefix
user_file String.[] = none
user_file (String.◌∷◌ c s) = elim (user_file s) [
  | some (prefix, n) ↦ if code c == 10 then none else some (String.◌∷◌ c prefix, n)
  | none ↦ elim (strip_prefix "-users-" (String.◌∷◌ c s)) [
    | none ↦ none
    | some rest ↦ elim (numbered_rest false 0 rest) [ none ↦ none | some n ↦ some ("", n) ]
  ]
]

abbrev max_int : ℕ
max_int = 2 ^ 63 - 1

-- `splitUserFile`; a number that is no int is not split.
unfoldable pub split_user_file : String → Option (String × ℕ)
unfolding user_file split_path
split_user_file name =
    let (dir, base) = split_path name in
    elim (user_file base) [
      | none ↦ none
      | some (prefix, n) ↦ if leb n max_int then some (concat (dir ∷ prefix ∷ []), n) else none
    ]

-- What one name adds in `ReadLayout`; the user files carry their numbers, which `Atoi` caps.
record Listing : Type 0 where
  realm_file : String
  users : List (String × ℕ)
  other : List String

sort_name : String → String → Listing → Listing
unfolding user_file base_name
sort_name realm name l =
    let base = base_name name in
    if str_eq base (concat (realm ∷ "-realm.json" ∷ []))
      || str_eq base (concat (realm ∷ ".json" ∷ []))
    then record l { realm_file = name }
    else elim (user_file base) [
      | some (prefix, n) ↦ record l { users = l.users ++ (name, min n max_int) ∷ [] }
      | none ↦ record l { other = l.other ++ name ∷ [] }
    ]

sort_names : String → List String → Listing → Listing
unfolding sort_name
sort_names realm [] l = l
sort_names realm (name ∷ names) l = sort_names realm names (sort_name realm name l)

-- `ReadLayout`
unfoldable pub read_layout : String → List String → ExportLayout
unfolding sort_names sort_by text_less
read_layout realm names =
    let l = sort_names realm names (record { realm_file = ""; users = []; other = [] }) in
    record {
      realm_file = l.realm_file;
      user_files =
          map (λ (u : String × ℕ). u.0) (sort_by (λ (a b : String × ℕ). ltb a.1 b.1) l.users);
      other = sort_by text_less l.other;
    }

-- `ExportLayout.Complete`
pub is_complete : ExportLayout → Bool
is_complete l = not (str_eq l.realm_file "")

abbrev user_file_digits : ℕ
user_file_digits = 3

-- `len(strconv.Itoa(n))`
digits_of : ℕ → ℕ
unfolding itoa
digits_of n = length (codes (itoa n))

width_over : ℕ → List String → ℕ
unfolding split_user_file digits_of
width_over width [] = width
width_over width (name ∷ names) =
    width_over
      (elim (split_user_file name) [
        | none ↦ width
        | some (prefix, n) ↦ if ltb width (digits_of n) then digits_of n else width
      ])
      names

zeros : ℕ → String
zeros zero = ""
zeros (suc n) = String.◌++◌ "0" (zeros n)

-- `fmt.Sprintf("%s-users-%0*d.json", prefix, width, n)`, and the name itself where it has no number.
unfoldable pub padded : ℕ → String → String
unfolding split_user_file zeros digits_of itoa
padded width name = elim (split_user_file name) [
  | none ↦ name
  | some (prefix, n) ↦
      concat (prefix ∷ "-users-" ∷ zeros (width - digits_of n) ∷ itoa n ∷ ".json" ∷ [])
]

-- The second loop of `PadUserFiles`: the names and the renames, or nothing on a collision.
pub pad_all : ℕ → List String → List String → Option (List String × Dict String)
pad_all width taken [] = some ([], [])
pad_all width taken (name ∷ names) =
    let next = padded width name in
    let same = str_eq next name in
    let rest = pad_all width (next ∷ taken) names in
    if not same && any (str_eq next) taken then none else elim rest [
      | none ↦ none
      | some (files, renames) ↦
          some (next ∷ files, if same then renames else (name, next) ∷ renames)
    ]

padding : ExportLayout → Option (List String × Dict String)
unfolding pad_all padded width_over
padding l =
    pad_all (width_over user_file_digits l.user_files)
      (l.user_files ++ (l.other ++ l.realm_file ∷ [])) l.user_files

with_padding : ExportLayout → Option (List String × Dict String) → ExportLayout × Dict String
with_padding l none = (l, [])
with_padding l (some (files, [])) = (l, [])
with_padding l (some (files, r ∷ renames)) = (record l { user_files = files }, r ∷ renames)

-- `PadUserFiles`
unfoldable pub pad_user_files : ExportLayout → ExportLayout × Dict String
unfolding padding with_padding
pad_user_files l = with_padding l (padding l)
