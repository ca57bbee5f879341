-- ===== src/Base/Paths.antt =====
-- Texts as Go's `strings` and `path` take them apart: prefixes, suffixes, and paths with slashes.
use Prim.Native.Nat.{ℕ}
use Prim.Native.Char.{Char, code}
use Prim.Native.String.{String}
use Prim.Native.String
use mathlib.Core.Bool.{Bool, true, ◌&&◌, ◌||◌}
use mathlib.Core.List.{List, [], ◌∷◌}
use mathlib.Core.Option.{Option, none, some}
use text.Mathlib.Text.{◌==◌ as str_eq}
use portcloak.Base.Tests.{◌==◌, if◌then◌else◌}
use portcloak.Base.Text.{concat}

is_slash : Char → Bool
is_slash c = code c == b'/'

-- `strings.HasPrefix` with the rest after the prefix.
unfoldable pub strip_prefix : String → String → Option String
strip_prefix String.[] s = some s
strip_prefix (String.◌∷◌ c p) String.[] = none
strip_prefix (String.◌∷◌ c p) (String.◌∷◌ d s) =
    let rest = strip_prefix p s in if code c == code d then rest else none

-- `strings.HasSuffix` with what stands before the suffix.
unfoldable pub strip_suffix : String → String → Option String
strip_suffix suffix String.[] = if str_eq "" suffix then some "" else none
strip_suffix suffix (String.◌∷◌ c s) =
    let rest = strip_suffix suffix s in
    if str_eq (String.◌∷◌ c s) suffix
    then some ""
    else elim rest [ none ↦ none | some t ↦ some (String.◌∷◌ c t) ]

-- `strings.Contains`
unfoldable pub contains : String → String → Bool
unfolding strip_prefix
contains String.[] phrase = str_eq phrase ""
contains (String.◌∷◌ c s) phrase =
    let rest = contains s phrase in
    elim (strip_prefix phrase (String.◌∷◌ c s)) [ some t ↦ true | none ↦ rest ]

-- `strings.TrimLeft(s, cutset)` and `strings.TrimRight` for a cutset of one character.
unfoldable pub trim_left : ℕ → String → String
trim_left d String.[] = ""
trim_left d (String.◌∷◌ c s) =
    let rest = trim_left d s in if code c == d then rest else String.◌∷◌ c s

unfoldable pub trim_right : ℕ → String → String
trim_right d String.[] = ""
trim_right d (String.◌∷◌ c s) =
    let rest = trim_right d s in if code c == d && str_eq rest "" then "" else String.◌∷◌ c rest

-- `path.Split`: up to the last slash, and what follows it.
unfoldable pub split_path : String → String × String
unfolding is_slash
split_path String.[] = ("", "")
split_path (String.◌∷◌ c s) =
    let (dir, base) = split_path s in
    if str_eq dir ""
    then if is_slash c then ("/", s) else ("", String.◌∷◌ c s)
    else (String.◌∷◌ c dir, base)

-- `path.Base`
unfoldable pub base_name : String → String
unfolding trim_right split_path
base_name s =
    let base = (split_path (trim_right b'/' s)).1 in
    if str_eq s "" then "." else if str_eq base "" then "/" else base

-- `strings.Split(s, "/")`
unfoldable pub segments : String → List String
unfolding is_slash
segments String.[] = "" ∷ []
segments (String.◌∷◌ c s) =
    let rest = segments s in
    if is_slash c
    then "" ∷ rest
    else elim rest [ [] ↦ String.◌∷◌ c "" ∷ [] | seg ∷ more ↦ String.◌∷◌ c seg ∷ more ]

-- The segments kept so far, the last first.
keep_segment : Bool → List String → String → List String
keep_segment rooted kept seg =
    if str_eq seg "" || str_eq seg "."
    then kept
    else if str_eq seg ".."
    then elim kept [
      | [] ↦ if rooted then [] else ".." ∷ []
      | last ∷ more ↦ if str_eq last ".." then ".." ∷ last ∷ more else more
    ]
    else seg ∷ kept

keep_segments : Bool → List String → List String → List String
unfolding keep_segment
keep_segments rooted kept [] = kept
keep_segments rooted kept (seg ∷ more) = keep_segments rooted (keep_segment rooted kept seg) more

-- The last first, put in order with slashes between.
slashed : List String → String → String
slashed [] s = s
slashed (seg ∷ more) s = slashed more (if str_eq s "" then seg else concat (seg ∷ "/" ∷ s ∷ []))

-- `path.Clean`
unfoldable pub clean : String → String
unfolding segments keep_segments slashed is_slash
clean String.[] = "."
clean (String.◌∷◌ c s) =
    let body = slashed (keep_segments (is_slash c) [] (segments (String.◌∷◌ c s))) "" in
    if is_slash c then String.◌++◌ "/" body else if str_eq body "" then "." else body

joined : List String → String
joined [] = ""
joined (s ∷ more) =
    let rest = joined more in
    if str_eq s "" then rest else if str_eq rest "" then s else concat (s ∷ "/" ∷ rest ∷ [])

-- `path.Join`
unfoldable pub path_join : List String → String
unfolding joined clean
path_join parts = if str_eq (joined parts) "" then "" else clean (joined parts)
