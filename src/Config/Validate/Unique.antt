-- ===== src/Config/Validate/Unique.antt =====
-- internal/engine/config/validate.go: the names and the default storage of a configuration without
-- problems.
use portcloak.Base.{
  ◌≡◌, refl, ap, ℕ, ◌+◌, ◌≤◌, ltb, Bool, true, false, Option, none, List, [], ◌∷◌, ◌++◌, String,
  str_eq, eq_iff, arith, All, map, sort_by, insert_by, inl, inr, Bool-cases, Option-cases, is_blank,
  concat, itoa,
}
use portcloak.Base.Dict
use portcloak.Base.Dict.{Dict, get-put}
use portcloak.Config.Model.{Environment, Storage, Key, Config}
use portcloak.Config.Validate.{
  check_entries, duplicate_of, count_defaults, found_problems, validate,
}
use portcloak.Config.Validate.Complaints.{Complaint, Found, add_if}
use portcloak.Config.Validate.Environments.{validate_environment}
use portcloak.Config.Validate.Storages.{validate_storage, validate_key}

abbrev is_nil {ℓ} : {A : Type ℓ} → List A → Bool
is_nil [] = true
is_nil (x ∷ xs) = false

append_nil {ℓ} : {A : Type ℓ} (xs ys : List A) → xs ++ ys ≡ [] → (xs ≡ []) × (ys ≡ [])
append_nil [] ys h = (refl, h)
append_nil (x ∷ xs) ys h = absurd (ground (arith, h))

duplicate_of-nil :
    (seen : Dict ℕ) (base name : String)
    → duplicate_of seen base name ≡ []
    → Dict.get seen name ≡ none
unfolding duplicate_of
duplicate_of-nil seen base name h = elim (Option-cases (Dict.get seen name)) [
  | inl n ↦ n
  | inr (i, f) ↦ absurd (ground (arith, f, h))
]

module _ {A : Type 0} (name_of : A → String) where
  -- Every entry has a name that is not empty and that no later one has.
  abbrev pub IsDistinct : List A → Type 0
  IsDistinct [] = Unit
  IsDistinct (x ∷ xs) =
      (str_eq (name_of x) "" ≡ false)
      × All (λ y. str_eq (name_of x) (name_of y) ≡ false) xs
      × IsDistinct xs

  abbrev Unseen : Dict ℕ → List A → Type 0
  Unseen seen xs = All (λ y. Dict.get seen (name_of y) ≡ none) xs

  module _ (check : A → String → List Found) (list : String)
      (named : (x : A) (base : String) → check x base ≡ [] → str_eq (name_of x) "" ≡ false) where
    -- What the head of a list without problems says.
    check_entries-head :
        (seen : Dict ℕ) (i : ℕ) (x : A) (xs : List A)
        → check_entries name_of check list seen i (x ∷ xs) ≡ []
        → (str_eq (name_of x) "" ≡ false)
          × (Dict.get seen (name_of x) ≡ none)
          × (check_entries name_of check list (Dict.put seen (name_of x) i) (i + 1) xs ≡ [])
    unfolding check_entries duplicate_of
    check_entries-head seen i x xs h =
        let (fine, rest) = append_nil (check x (concat (list ∷ "[" ∷ itoa i ∷ "]" ∷ []))) _ h in
        let given = named x (concat (list ∷ "[" ∷ itoa i ∷ "]" ∷ [])) fine in
        let (new, later) =
          append_nil (duplicate_of seen (concat (list ∷ "[" ∷ itoa i ∷ "]" ∷ [])) (name_of x)) _
            (rw given at rest) in
        (
          given,
          duplicate_of-nil seen (concat (list ∷ "[" ∷ itoa i ∷ "]" ∷ [])) (name_of x) new,
          later,
        )

    put-Unseen :
        (seen : Dict ℕ) (n : String) (i : ℕ) (xs : List A)
        → Unseen (Dict.put seen n i) xs
        → All (λ y. str_eq n (name_of y) ≡ false) xs × Unseen seen xs
    put-Unseen seen n i [] h = (tt, tt)
    put-Unseen seen n i (y ∷ ys) h =
        let (apart, unseen) = put-Unseen seen n i ys h.1 in
        (
          (ground (arith, h.0, get-put seen n (name_of y) i), apart),
          (ground (arith, h.0, get-put seen n (name_of y) i), unseen),
        )

    check_entries-IsDistinct :
        (seen : Dict ℕ) (i : ℕ) (xs : List A)
        → check_entries name_of check list seen i xs ≡ []
        → Unseen seen xs × IsDistinct xs
    check_entries-IsDistinct seen i [] h = (tt, tt)
    check_entries-IsDistinct seen i (x ∷ xs) h =
        let (given, new, rest) = check_entries-head seen i x xs h in
        let (unseen, distinct) =
          check_entries-IsDistinct (Dict.put seen (name_of x) i) (i + 1) xs rest in
        let (apart, others) = put-Unseen seen (name_of x) i xs unseen in
        ((new, others), (given, apart, distinct))

blank_empty : (n : String) → is_blank n ≡ false → str_eq n "" ≡ false
unfolding is_blank
blank_empty n h = elim (Bool-cases (str_eq n "")) [
  | inl e ↦ absurd (ground (arith, rw ((eq_iff n "").0 e) at h))
  | inr other ↦ other
]

add_if_nil : (b : Bool) (path : String) (c : Complaint) → add_if b path c ≡ [] → b ≡ false
add_if_nil b path c h = ground (arith, h)

named_environment :
    (e : Environment) (base : String) → validate_environment e base ≡ [] → str_eq e.name "" ≡ false
unfolding validate_environment
named_environment e base h =
    blank_empty e.name (add_if_nil (is_blank e.name) _ _ (append_nil _ _ h).0)

named_storage :
    (s : Storage) (base : String) → validate_storage s base ≡ [] → str_eq s.name "" ≡ false
unfolding validate_storage
named_storage s base h = blank_empty s.name (add_if_nil (is_blank s.name) _ _ (append_nil _ _ h).0)

named_key : (k : Key) (base : String) → validate_key k base ≡ [] → str_eq k.name "" ≡ false
unfolding validate_key
named_key k base h = blank_empty k.name (add_if_nil (is_blank k.name) _ _ (append_nil _ _ h).0)

insert_by-nonempty :
    {A : Type 0} (less : A → A → Bool) (x : A) (xs : List A) → is_nil (insert_by less x xs) ≡ false
unfolding insert_by
insert_by-nonempty less x [] = refl
insert_by-nonempty less x (y ∷ ys) = ground arith

sort_by-nil :
    {A B : Type 0} (less : B → B → Bool) (f : A → B) (xs : List A)
    → sort_by less (map f xs) ≡ []
    → xs ≡ []
unfolding sort_by
sort_by-nil less f [] h = refl
sort_by-nil less f (x ∷ xs) h =
    absurd (ground (arith, ap is_nil h, insert_by-nonempty less (f x) (sort_by less (map f xs))))

validate_nil : (c : Config) (l : Option (String → ℕ)) → validate c l ≡ [] → found_problems c ≡ []
unfolding validate sort_by
validate_nil c l h = sort_by-nil _ _ (found_problems c) h

-- A configuration in which `Validate` finds no problem has environments, storages and keys whose names are
-- not empty and differ within each list, and at most one default storage.
pub valid-IsDistinct :
    (c : Config) (l : Option (String → ℕ))
    → validate c l ≡ []
    → IsDistinct (λ e. e.name) c.environments
      × IsDistinct (λ s. s.name) c.storage
      × IsDistinct (λ k. k.name) c.keys
      × (count_defaults c.storage ≤ 1)
unfolding found_problems
valid-IsDistinct c l h =
    let (environments, rest) = append_nil _ _ (validate_nil c l h) in
    let (storages, rest₁) = append_nil _ _ rest in
    let (defaults, keys) = append_nil _ _ rest₁ in
    let few = add_if_nil (ltb 1 (count_defaults c.storage)) _ _ defaults in
    (
      (check_entries-IsDistinct (λ e. e.name) validate_environment "environments" named_environment
          [] 0 c.environments environments).1,
      (check_entries-IsDistinct (λ s. s.name) validate_storage "storage" named_storage [] 0
          c.storage storages).1,
      (check_entries-IsDistinct (λ k. k.name) validate_key "keys" named_key [] 0 c.keys keys).1,
      ground (arith, few),
    )
