-- ===== src/Base/Text.antt =====
-- Texts as Go's `strings` and `fmt` use them: concatenation, decimal numbers, and the search for a
-- phrase without regard to the case of ASCII letters.
use Prim.Native.Nat.{ℕ, zero, suc, ◌+◌, ◌/◌, ◌%◌}
use Prim.Native.Char.{code}
use Prim.Native.String.{String}
use Prim.Native.String
use text.Mathlib.Text.{◌==◌ as str_eq}
use mathlib.Core.Bool.{Bool, true, false, ◌&&◌, ◌||◌}
use mathlib.Core.List.{List, [], ◌∷◌, map}
use mathlib.Core.Option.{Option, none, some}
use portcloak.Base.Tests.{ltb, leb, ◌==◌, if◌then◌else◌}

-- The texts, one after the other: Go's `+` and the verb `%s`.
abbrev pub concat : List String → String
concat [] = ""
concat (s ∷ []) = s
concat (s ∷ t ∷ rest) = String.◌++◌ s (concat (t ∷ rest))

digit : ℕ → String
digit d =
    if d == 0
    then "0"
    else if d == 1
    then "1"
    else if d == 2
    then "2"
    else if d == 3
    then "3"
    else if d == 4
    then "4"
    else if d == 5
    then "5"
    else if d == 6
    then "6"
    else if d == 7
    then "7"
    else if d == 8
    then "8"
    else "9"

itoa_fuel : ℕ → ℕ → String
unfolding digit
itoa_fuel zero n = ""
itoa_fuel (suc f) n =
    let rest = itoa_fuel f (n / 10) in
    if ltb n 10 then digit n else String.◌++◌ rest (digit (n % 10))

-- The decimal form of a number, the verb `%d`. A number has fewer digits than `n + 1`.
unfoldable pub itoa : ℕ → String
unfolding itoa_fuel
itoa n = itoa_fuel (suc n) n

-- The code points of a text.
abbrev pub codes : String → List ℕ
codes String.[] = []
codes (String.◌∷◌ c s) = code c ∷ codes s

lower : ℕ → ℕ
lower c = if leb b'A' c && leb c b'Z' then c + 32 else c

begins : List ℕ → List ℕ → Bool
begins [] t = true
begins (c ∷ p) [] = false
begins (c ∷ p) (d ∷ t) = c == d && begins p t

contains_codes : List ℕ → List ℕ → Bool
contains_codes p [] = begins p []
contains_codes p (d ∷ t) = begins p (d ∷ t) || contains_codes p t

-- `strings.Contains(strings.ToLower(s), phrase)`, for ASCII letters.
unfoldable pub contains_fold : String → String → Bool
unfolding contains_codes begins lower
contains_fold s phrase = contains_codes (codes phrase) (map lower (codes s))

abbrev pub any {ℓ} : {A : Type ℓ} → (A → Bool) → List A → Bool
any p [] = false
any p (x ∷ xs) = p x || any p xs

-- `strings.HasPrefix` and the rest after a prefix that is there.
unfoldable pub has_prefix : String → String → Bool
unfolding begins
has_prefix s p = begins (codes p) (codes s)

-- `strings.Cut` at the first byte `sep`, on code points: what stands before and after it.
unfoldable pub cut : ℕ → List ℕ → Option (List ℕ × List ℕ)
cut sep [] = none
cut sep (c ∷ s) =
    let rest = cut sep s in
    if c == sep then some ([], s) else elim rest [ none ↦ none | some (a, b) ↦ some (c ∷ a, b) ]

unfoldable pub same_codes : List ℕ → List ℕ → Bool
same_codes [] [] = true
same_codes (c ∷ s) (d ∷ t) = c == d && same_codes s t
same_codes _ _ = false

unfoldable pub lower_codes : List ℕ → List ℕ
unfolding lower
lower_codes s = map lower s

-- Unicode's white space, which `strings.TrimSpace` takes off.
unfoldable pub is_space : ℕ → Bool
is_space c =
    (leb 9 c && leb c 13)
    || c == 32
    || c == 0x85
    || c == 0xa0
    || c == 0x1680
    || (leb 0x2000 c && leb c 0x200a)
    || c == 0x2028
    || c == 0x2029
    || c == 0x202f
    || c == 0x205f
    || c == 0x3000

all_space : List ℕ → Bool
all_space [] = true
all_space (c ∷ s) = is_space c && all_space s

-- `strings.TrimSpace(s) == ""`
unfoldable pub is_blank : String → Bool
unfolding all_space is_space
is_blank s = all_space (codes s)

-- `s < t`, by the bytes, which is the order of the code points.
unfoldable pub text_less : String → String → Bool
text_less s t = elim (String.compare s t) [ Prim.Native.Nat.lt ↦ true | _ ↦ false ]

trim_space_left : String → String
unfolding is_space
trim_space_left String.[] = ""
trim_space_left (String.◌∷◌ c s) =
    let rest = trim_space_left s in if is_space (code c) then rest else String.◌∷◌ c s

trim_space_right : String → String
unfolding is_space
trim_space_right String.[] = ""
trim_space_right (String.◌∷◌ c s) =
    let rest = trim_space_right s in
    if is_space (code c) && str_eq rest "" then "" else String.◌∷◌ c rest

-- `strings.TrimSpace`
unfoldable pub trim_space : String → String
unfolding trim_space_left trim_space_right
trim_space s = trim_space_right (trim_space_left s)
