-- ===== src/Clone/Labels.antt =====
-- internal/engine/target/clone/clone.go: the labels of a clone. `stamp` is the time as `labelTimestamp`
-- writes it.
pub mod Values
use portcloak.Base.{
  ◌≡◌, refl, sym, ap, ◌∙◌, ◌↔◌, inl, inr, ℕ, zero, suc, ◌+◌, ◌≤◌, Bool, true, false, not, ◌&&◌,
  ◌||◌, List, [], ◌∷◌, String, ltb, leb, ◌==◌, str_eq, arith, Bool-cases, if◌then◌else◌,
}
use Prim.Native.Char.{Char, code}
use Prim.Native.String
use portcloak.Base.Dict
use portcloak.Base.Dict.{Dict}

abbrev pub is_alnum : ℕ → Bool
is_alnum c = leb b'a' c && leb c b'z' || leb b'A' c && leb c b'Z' || leb b'0' c && leb c b'9'

abbrev pub is_separator : ℕ → Bool
is_separator c = c == b'-' || c == b'_' || c == b'.'

abbrev dash : Char
dash = "-"

-- The loop: what is not legal becomes a dash.
sanitized : String → String
sanitized String.[] = ""
sanitized (String.◌∷◌ c s) =
    String.◌∷◌ (if is_alnum (code c) || is_separator (code c) then c else dash) (sanitized s)

-- `out[:n]`, where it is longer.
cut_at : ℕ → String → String
cut_at zero s = ""
cut_at (suc n) String.[] = ""
cut_at (suc n) (String.◌∷◌ c s) = String.◌∷◌ c (cut_at n s)

-- `strings.Trim(out, "-._")`
trim_front : String → String
trim_front String.[] = ""
trim_front (String.◌∷◌ c s) =
    let rest = trim_front s in if is_separator (code c) then rest else String.◌∷◌ c s

trim_back : String → String
trim_back String.[] = ""
trim_back (String.◌∷◌ c s) =
    let rest = trim_back s in
    if is_separator (code c) && str_eq rest "" then "" else String.◌∷◌ c rest

-- `labelValue`
unfoldable pub label_value : String → String
unfolding sanitized cut_at trim_front trim_back
label_value s = trim_back (trim_front (cut_at 63 (sanitized s)))

abbrev pub label_ephemeral : String
label_ephemeral = "portcloak.io/ephemeral"

abbrev label_job : String
label_job = "portcloak.io/job"

abbrev label_realm : String
label_realm = "portcloak.io/realm"

abbrev label_created_at : String
label_created_at = "portcloak.io/created-at"

-- The last loop of `Labels`.
clean_labels : Dict String → Dict String
unfolding label_value
clean_labels [] = []
clean_labels ((k, v) ∷ more) =
    let rest = clean_labels more in
    if str_eq (label_value v) "" then rest else (k, label_value v) ∷ rest

-- `Labels`
unfoldable pub labels : String → String → String → Dict String
unfolding clean_labels
labels job_id realm stamp = clean_labels (
    (label_ephemeral, "true")
    ∷ (label_job, job_id)
    ∷ (label_created_at, stamp)
    ∷ (if str_eq realm "" then [] else (label_realm, realm) ∷ []))
