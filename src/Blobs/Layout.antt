-- ===== src/Blobs/Layout.antt =====
-- internal/engine/store/store.go: the keys of a snapshot's objects, and a listing sorted into snapshots.
-- A time is a number of minutes from the start of the year 0, since a key shows no more.
pub mod Grouping
use portcloak.Base.{
  ℕ, zero, suc, ◌+◌, ◌-◌, ◌*◌, ◌/◌, ◌%◌, Bool, true, false, not, ◌&&◌, ◌||◌, Option, none, some,
  List, [], ◌∷◌, ◌++◌, String, ltb, leb, ◌==◌, str_eq, if◌then◌else◌, concat, itoa, sort_by,
  text_less, strip_prefix, strip_suffix, trim_left, trim_right, split_path, path_join, codes,
  length, is_some,
}
use Prim.Native.String
use Prim.Native.Char.{code}
use portcloak.Blobs.{ObjectInfo}

pub record Layout : Type 0 where
  pub prefix : String

-- `NewLayout`, on a prefix without white space at its ends.
unfoldable pub new_layout : String → Layout
unfolding trim_left trim_right
new_layout prefix = record { prefix = trim_right b'/' (trim_left b'/' prefix) }

-- `Layout.Root`
root : Layout → String
root l = if str_eq l.prefix "" then "" else concat (l.prefix ∷ "/" ∷ [])

-- `Layout.RealmPrefix`
realm_prefix : Layout → String → String
unfolding path_join
realm_prefix l realm =
    if str_eq l.prefix ""
    then concat (realm ∷ "/" ∷ [])
    else concat (path_join (l.prefix ∷ realm ∷ []) ∷ "/" ∷ [])

pub data Extension : Type 0 where
  bundle_ext manifest_ext digest_ext : Extension

abbrev pub ext_text : Extension → String
ext_text bundle_ext = ".pck"
ext_text manifest_ext = ".manifest.json"
ext_text digest_ext = ".sha256"

pub record Triplet : Type 0 where
  pub base : String
  pub realm : String
  pub bundle : Option ObjectInfo
  pub manifest : Option ObjectInfo
  pub digest : Option ObjectInfo
  pub snapshot_id : String
  pub created_at : ℕ

-- `Triplet.Complete`
is_complete : Triplet → Bool
is_complete t = is_some t.bundle

-- The number that digits stand for, and nothing for another text.
number : ℕ → List ℕ → Option ℕ
number n [] = some n
number n (c ∷ s) =
    let rest = number (10 * n + (c - b'0')) s in if leb b'0' c && leb c b'9' then rest else none

is_leap : ℕ → Bool
is_leap y = y % 4 == 0 && (not (y % 100 == 0) || y % 400 == 0)

days_in : Bool → ℕ → ℕ
days_in leap m =
    if m == 2
    then if leap then 29 else 28
    else if m == 4 || m == 6 || m == 9 || m == 11
    then 30
    else 31

-- The days before a month of a year, and before a year.
days_before : Bool → ℕ → ℕ
unfolding days_in
days_before leap zero = 0
days_before leap (suc m) = days_before leap m + (if m == 0 then 0 else days_in leap m)

days_to_year : ℕ → ℕ
days_to_year y = 365 * y + (y + 3) / 4 - (y + 99) / 100 + (y + 399) / 400

-- The zero time, the first minute of the year 1.
abbrev zero_time : ℕ
zero_time = 366 * 1440

minutes : ℕ → ℕ → ℕ → ℕ → ℕ → Option ℕ
unfolding is_leap days_in days_before days_to_year
minutes y mo d h mi =
    if leb 1 mo && leb mo 12 && leb 1 d && leb d (days_in (is_leap y) mo) && ltb h 24 && ltb mi 60
    then some ((days_to_year y + days_before (is_leap y) mo + (d - 1)) * 1440 + h * 60 + mi)
    else none

-- `time.Parse("2006-01-02T1504", s)`
parse_stamp : List ℕ → Option ℕ
unfolding number minutes
parse_stamp (a ∷ b ∷ c ∷ d ∷ x ∷ e ∷ f ∷ y ∷ g ∷ h ∷ z ∷ i ∷ j ∷ k ∷ l ∷ []) =
    elim (number 0 (a ∷ b ∷ c ∷ d ∷ [])) [
      | none ↦ none
      | some year ↦ elim (number 0 (e ∷ f ∷ [])) [
        | none ↦ none
        | some month ↦ elim (number 0 (g ∷ h ∷ [])) [
          | none ↦ none
          | some day ↦ elim (number 0 (i ∷ j ∷ [])) [
            | none ↦ none
            | some hour ↦ elim (number 0 (k ∷ l ∷ [])) [
              | none ↦ none
              | some minute ↦
                  if x == b'-' && y == b'-' && z == b'T'
                  then minutes year month day hour minute
                  else none
            ]
          ]
        ]
      ]
    ]
parse_stamp _ = none

-- The first characters of a text and the rest, where it is long enough.
split_at : ℕ → String → Option (String × String)
split_at zero s = some ("", s)
split_at (suc n) String.[] = none
split_at (suc n) (String.◌∷◌ c s) = elim (split_at n s) [
  | none ↦ none
  | some (a, b) ↦ some (String.◌∷◌ c a, b)
]

-- The name of a snapshot, by the position of the dash after its stamp of fifteen characters: what
-- follows the dash, and the time.
parse_name : String → String × ℕ
unfolding split_at parse_stamp strip_prefix
parse_name name = elim (split_at 15 name) [
  | none ↦ (name, zero_time)
  | some (stamp, rest) ↦ elim (strip_prefix "-" rest) [
    | none ↦ (name, zero_time)
    | some id ↦ elim (parse_stamp (codes stamp)) [ none ↦ (name, zero_time) | some t ↦ (id, t) ]
  ]
]

-- `parseBase` in a triplet without objects.
new_triplet : Layout → String → Triplet
unfolding root parse_name strip_prefix split_path trim_left trim_right
new_triplet l base =
    let rest : String = elim (strip_prefix (root l) base) [ none ↦ base | some r ↦ r ] in
    let (dir, name) = split_path rest in
    let (id, t) = parse_name name in
    record {
      base = base;
      realm = trim_right b'/' (trim_left b'/' dir);
      bundle = none;
      manifest = none;
      digest = none;
      snapshot_id = id;
      created_at = t;
    }

-- The snapshot that an object belongs to, and as what.
unfoldable pub place : ObjectInfo → Option (String × Extension)
unfolding strip_suffix
place o = elim (strip_suffix (ext_text manifest_ext) o.key) [
  | some b ↦ some (b, manifest_ext)
  | none ↦ elim (strip_suffix (ext_text digest_ext) o.key) [
    | some b ↦ some (b, digest_ext)
    | none ↦ elim (strip_suffix (ext_text bundle_ext) o.key) [
      | some b ↦ some (b, bundle_ext)
      | none ↦ none
    ]
  ]
]

with_object : Extension → ObjectInfo → Triplet → Triplet
with_object bundle_ext o t = record t { bundle = some o }
with_object manifest_ext o t = record t { manifest = some o }
with_object digest_ext o t = record t { digest = some o }

-- The triplets by their bases, in the order of their first objects.
add_object : Layout → String → Extension → ObjectInfo → List Triplet → List Triplet
unfolding new_triplet with_object
add_object l b e o [] = with_object e o (new_triplet l b) ∷ []
add_object l b e o (t ∷ ts) =
    let rest = add_object l b e o ts in if str_eq t.base b then with_object e o t ∷ ts else t ∷ rest

-- The first loop of `Group`.
group_all :
    Layout → List ObjectInfo → List Triplet → List ObjectInfo → List Triplet × List ObjectInfo
unfolding place add_object
group_all l [] ts foreign = (ts, foreign)
group_all l (o ∷ os) ts foreign = elim (place o) [
  | none ↦ group_all l os ts (foreign ++ o ∷ [])
  | some (b, e) ↦ group_all l os (add_object l b e o ts) foreign
]

later : Triplet → Triplet → Bool
later a b = ltb b.created_at a.created_at

key_less : ObjectInfo → ObjectInfo → Bool
unfolding text_less
key_less a b = text_less a.key b.key

-- `Group`
unfoldable pub group : Layout → List ObjectInfo → List Triplet × List ObjectInfo
unfolding group_all sort_by later key_less
group l objects =
    let (ts, foreign) = group_all l objects [] [] in (sort_by later ts, sort_by key_less foreign)
