-- ===== src/Clone/Labels/Values.antt =====
-- internal/engine/target/clone/clone.go: what `labelValue` makes is a label value, and what is one stays.
use portcloak.Base.{
  subst, ◌≡◌, refl, ap, ◌∙◌, ◌↔◌, inl, inr, ℕ, zero, suc, ◌≤◌, Bool, true, false, ◌&&◌, ◌||◌,
  String, str_eq, eq_iff, arith, Bool-cases, if◌then◌else◌,
}
use Prim.Native.Char.{code}
use portcloak.Clone.Labels.{
  is_alnum, is_separator, sanitized, cut_at, trim_front, trim_back, label_value,
}

abbrev size : String → ℕ
size String.[] = 0
size (String.◌∷◌ c s) = suc (size s)

abbrev all_legal : String → Bool
all_legal String.[] = true
all_legal (String.◌∷◌ c s) = (is_alnum (code c) || is_separator (code c)) && all_legal s

abbrev starts_well : String → Bool
starts_well String.[] = true
starts_well (String.◌∷◌ c s) = is_alnum (code c)

abbrev ends_well : String → Bool
ends_well String.[] = true
ends_well (String.◌∷◌ c s) = if str_eq s "" then is_alnum (code c) else ends_well s

-- What the cluster accepts: at most 63 characters, each a letter, a digit or a separator, the first
-- and the last a letter or a digit.
abbrev pub IsLabelValue : String → Type 0
IsLabelValue s =
    (size s ≤ 63) × (all_legal s ≡ true) × (starts_well s ≡ true) × (ends_well s ≡ true)

alnum_plain : (c : ℕ) → is_alnum c ≡ true → is_separator c ≡ false
alnum_plain c h = ground arith

sanitized-legal : (s : String) → all_legal (sanitized s) ≡ true
unfolding sanitized
sanitized-legal String.[] = refl
sanitized-legal (String.◌∷◌ c s) = elim (Bool-cases (is_alnum (code c) || is_separator (code c))) [
  | inl good ↦ rw (good, sanitized) (rw good (sanitized-legal s))
  | inr bad ↦ rw (bad, sanitized) (sanitized-legal s)
]

sanitized-same : (s : String) → all_legal s ≡ true → sanitized s ≡ s
unfolding sanitized
sanitized-same String.[] h = refl
sanitized-same (String.◌∷◌ c s) h = elim (Bool-cases (is_alnum (code c) || is_separator (code c))) [
  | inl good ↦ rw (good, sanitized) (ap (String.◌∷◌ c) (sanitized-same s (ground (arith, h, good))))
  | inr bad ↦ absurd (ground (arith, h, bad))
]

cut_at-legal : (n : ℕ) (s : String) → all_legal s ≡ true → all_legal (cut_at n s) ≡ true
unfolding cut_at
cut_at-legal zero s h = refl
cut_at-legal (suc n) String.[] h = refl
cut_at-legal (suc n) (String.◌∷◌ c s) h = ground (arith, h, cut_at-legal n s)

size-cut_at : (n : ℕ) (s : String) → size (cut_at n s) ≤ n
unfolding cut_at
size-cut_at zero s = omega arith
size-cut_at (suc n) String.[] = omega arith
size-cut_at (suc n) (String.◌∷◌ c s) = omega (arith, size-cut_at n s)

cut_at-same : (n : ℕ) (s : String) → size s ≤ n → cut_at n s ≡ s
unfolding cut_at
cut_at-same zero String.[] h = refl
cut_at-same zero (String.◌∷◌ c s) h = absurd (omega arith)
cut_at-same (suc n) String.[] h = refl
cut_at-same (suc n) (String.◌∷◌ c s) h = ap (String.◌∷◌ c) (cut_at-same n s (omega arith))

-- A text that has lost what stood at its front.
trim_front_lem :
    (s : String)
    → all_legal s ≡ true
    → (size (trim_front s) ≤ size s)
      × (all_legal (trim_front s) ≡ true)
      × (starts_well (trim_front s) ≡ true)
unfolding trim_front
trim_front_lem String.[] h = (omega arith, refl, refl)
trim_front_lem (String.◌∷◌ c s) h = elim (Bool-cases (is_separator (code c))) [
  | inl sep ↦
      let (a, b, d) = trim_front_lem s (ground (arith, h)) in
      rw (sep, trim_front) (omega (arith, a), b, d)
  | inr plain ↦ rw (plain, trim_front) (omega arith, h, ground (arith, h, plain))
]

trim_front-same : (s : String) → starts_well s ≡ true → trim_front s ≡ s
unfolding trim_front
trim_front-same String.[] h = refl
trim_front-same (String.◌∷◌ c s) h = rw (alnum_plain (code c) h, trim_front) refl

-- And at its back.
trim_back_lem :
    (s : String)
    → all_legal s ≡ true
    → (size (trim_back s) ≤ size s)
      × (all_legal (trim_back s) ≡ true)
      × (ends_well (trim_back s) ≡ true)
unfolding trim_back
trim_back_lem String.[] h = (omega arith, refl, refl)
trim_back_lem (String.◌∷◌ c s) h =
    let (a, b, d) = trim_back_lem s (ground (arith, h)) in
    elim (Bool-cases (is_separator (code c) && str_eq (trim_back s) "")) [
      | inl gone ↦ rw (gone, trim_back) (omega arith, refl, refl)
      | inr stays ↦
          rw (stays, trim_back)
            (omega (arith, a), ground (arith, h, b), ground (arith, h, stays, d))
    ]

trim_back-starts : (s : String) → starts_well s ≡ true → starts_well (trim_back s) ≡ true
unfolding trim_back
trim_back-starts String.[] h = refl
trim_back-starts (String.◌∷◌ c s) h = rw (alnum_plain (code c) h, trim_back) h

ends_empty : (s : String) → str_eq s "" ≡ true → ends_well s ≡ true
ends_empty s h = rw ((eq_iff s "").0 h) refl

trim_back-same : (s : String) → ends_well s ≡ true → trim_back s ≡ s
unfolding trim_back
trim_back-same String.[] h = refl
trim_back-same (String.◌∷◌ c s) h = elim (Bool-cases (str_eq s "")) [
  | inl last ↦
      rw (alnum_plain (code c) (ground (arith, h, last)), trim_back)
        (ap (String.◌∷◌ c) (trim_back-same s (ends_empty s last)))
  | inr more ↦
      let rest = trim_back-same s (ground (arith, h, more)) in
      let kept : str_eq (trim_back s) "" ≡ false = rw rest more in
      let stays : is_separator (code c) && str_eq (trim_back s) "" ≡ false = ground (arith, kept) in
      rw (stays, trim_back) (ap (String.◌∷◌ c) rest)
]

label_value-IsLabelValue : (s : String) → IsLabelValue (label_value s)
unfolding label_value
label_value-IsLabelValue s =
    let cut = cut_at 63 (sanitized s) in
    let (short, legal, starts) =
      trim_front_lem cut (cut_at-legal 63 (sanitized s) (sanitized-legal s)) in
    let (shorter, still, ends) = trim_back_lem (trim_front cut) legal in
    (
      omega (arith, short, shorter, size-cut_at 63 (sanitized s)),
      still,
      trim_back-starts (trim_front cut) starts,
      ends,
    )

-- `labelValue` answers a label value for every text, and leaves a text as it is exactly where it is one.
pub label_value_lem :
    (s : String) → IsLabelValue (label_value s) × ((label_value s ≡ s) ↔ IsLabelValue s)
unfolding label_value
label_value_lem s =
    let is_one = label_value-IsLabelValue s in
    (
      is_one,
      (
        λ same. subst IsLabelValue same is_one,
        λ (short, legal, starts, ends).
            ap (λ t. trim_back (trim_front (cut_at 63 t))) (sanitized-same s legal)
            ∙ (ap (λ t. trim_back (trim_front t)) (cut_at-same 63 s short)
                ∙ (ap trim_back (trim_front-same s starts) ∙ trim_back-same s ends)),
      ),
    )
