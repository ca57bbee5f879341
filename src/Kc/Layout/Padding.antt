-- ===== src/Kc/Layout/Padding.antt =====
-- internal/engine/kc/kc.go: the names that `PadUserFiles` gives to the user files.
use portcloak.Base.{
  AreDistinct, ne-false, any-false, All-In, All-of, In-left, In-right, subst⁻¹, ◌≡◌, refl, sym, ap,
  ◌∙◌, ◌≢◌, ◌⊎◌, inl, inr, ℕ, List, [], ◌∷◌, ◌++◌, Option, none, some, String, str_eq, eq_iff,
  eq_refl, any, map, All, In, here, there, arith, Bool-cases, Option-cases,
}
use portcloak.Base.Dict
use portcloak.Base.Dict.{Dict}
use portcloak.Kc.Layout.{
  ExportLayout, padded, pad_all, padding, with_padding, pad_user_files, width_over,
  user_file_digits,
}

-- The name a file is carried under.
abbrev pub renamed : Dict String → String → String
renamed renames name = elim (Dict.get renames name) [ none ↦ name | some next ↦ next ]

map-apart :
    (name next : String) (more : Dict String) (names : List String)
    → All (λ y. name ≢ y) names
    → map (renamed ((name, next) ∷ more)) names ≡ map (renamed more) names
unfolding Dict.get
map-apart name next more [] a = refl
map-apart name next more (y ∷ ys) a =
    ground (arith, ne-false name y (a.0), map-apart name next more ys (a.1))

abbrev Others : Dict String → List String → Type 0
Others renames names = (y : String) → All (λ x. y ≢ x) names → Dict.get renames y ≡ none

-- The files of the given names are carried under the given new ones, and no other is renamed.
abbrev Carries : Dict String → List String → List String → Type 0
Carries renames names files = (map (renamed renames) names ≡ files) × Others renames names

first_renamed :
    (name next : String) (names rest : List String) (renames more : Dict String)
    (taken : List String)
    → All (λ y. name ≢ y) names
    → ((next ≡ name) × (renames ≡ more))
      ⊎ (All (λ y. next ≢ y) taken × (renames ≡ (name, next) ∷ more))
    → map (renamed more) names ≡ rest
    → Others more names
    → Carries renames (name ∷ names) (next ∷ rest)
unfolding Dict.get
first_renamed name next names rest renames more taken a (inl (same, e)) carried others =
    let first : renamed more name ≡ next = rw (others name a, renamed) (sym same) in
    subst⁻¹ (λ r. Carries r (name ∷ names) (next ∷ rest)) e
      (rw (first, carried) refl, λ y b. others y (b.1))
first_renamed name next names rest renames more taken a (inr (new, e)) carried others =
    let first : renamed ((name, next) ∷ more) name ≡ next = rw (eq_refl name, renamed) refl in
    subst⁻¹ (λ r. Carries r (name ∷ names) (next ∷ rest)) e
      (
        rw (first, map-apart name next more names a, carried) refl,
        λ y b. rw (ne-false name y (λ q. b.0 (sym q))) (others y (b.1)),
      )

module _ (width : ℕ) where
  -- A round that ends with names: what the rest gave, and a name that is unchanged or new.
  abbrev Step : List String → String → List String → List String → Dict String → Type 0
  Step taken name names files renames =
      (rest : List String) × (more : Dict String) × (pad_all width (padded width name ∷ taken) names
        ≡ some (rest, more))
      × (files ≡ padded width name ∷ rest)
      × (((padded width name ≡ name) × (renames ≡ more))
          ⊎ (All (λ y. padded width name ≢ y) taken × (renames ≡ (name, padded width name) ∷ more)))

  pad_all-Step :
      (taken : List String) (name : String) (names files : List String) (renames : Dict String)
      → pad_all width taken (name ∷ names) ≡ some (files, renames)
      → Step taken name names files renames
  unfolding pad_all
  pad_all-Step taken name names files renames h =
      elim (Option-cases (pad_all width (padded width name ∷ taken) names)) [
        | inl n ↦ absurd (ground (arith, h, n))
        | inr ((rest, more), s) ↦ elim (Bool-cases (str_eq (padded width name) name)) [
          | inl e ↦ (
            rest,
            more,
            s,
            ground (arith, h, s, e),
            inl ((eq_iff (padded width name) name).0 e, ground (arith, h, s, e)),
          )
          | inr n ↦ elim (Bool-cases (any (str_eq (padded width name)) taken)) [
            | inl t ↦ absurd (ground (arith, h, n, t))
            | inr f ↦ (
              rest,
              more,
              s,
              ground (arith, h, s, n, f),
              inr (any-false (padded width name) taken f, ground (arith, h, s, n, f)),
            )
          ]
        ]
      ]

  -- A name of the rest is an old one or was not taken, so the name of the round differs from it.
  differs :
      (taken names : List String) (name next : String)
      → All (λ y. name ≢ y) names
      → ((y : String) → In y names → In y taken)
      → (next ≡ name) ⊎ All (λ y. next ≢ y) taken
      → (y : String) → In y names ⊎ (In y (next ∷ taken) → ⊥)
      → next ≢ y
  differs taken names name next d held how y (inr fresh) e = fresh (here (sym e))
  differs taken names name next d held (inl same) y (inl m) e =
      All-In (λ z. name ≢ z) names d m (sym same ∙ e)
  differs taken names name next d held (inr new) y (inl m) e =
      All-In (λ z. next ≢ z) taken new (held y m) e

  from_how :
      (name next : String) (taken : List String) {renames more more' : Dict String}
      → ((next ≡ name) × (renames ≡ more)) ⊎ (All (λ y. next ≢ y) taken × (renames ≡ more'))
      → (next ≡ name) ⊎ All (λ y. next ≢ y) taken
  from_how name next taken (inl (same, _)) = inl same
  from_how name next taken (inr (new, _)) = inr new

  old_or_new :
      (taken names rest : List String) (name next : String)
      → (next ≡ name) ⊎ All (λ y. next ≢ y) taken
      → ((y : String) → In y rest → In y names ⊎ (In y (next ∷ taken) → ⊥))
      → (y : String) → In y (next ∷ rest)
      → In y (name ∷ names) ⊎ (In y taken → ⊥)
  old_or_new taken names rest name next (inl same) source y (here e) = inl (here (e ∙ same))
  old_or_new taken names rest name next (inr new) source y (here e) =
      inr (λ m. All-In (λ z. next ≢ z) taken new m (sym e))
  old_or_new taken names rest name next how source y (there m) = elim (source y m) [
    | inl old ↦ inl (there old)
    | inr fresh ↦ inr (λ t. fresh (there t))
  ]

  -- The new names differ, and each is one of the old ones or was not taken.
  pad_all-AreDistinct :
      (taken names files : List String) (renames : Dict String)
      → AreDistinct names
      → ((y : String) → In y names → In y taken)
      → pad_all width taken names ≡ some (files, renames)
      → AreDistinct files × ((y : String) → In y files → In y names ⊎ (In y taken → ⊥))
  unfolding pad_all
  pad_all-AreDistinct taken [] files renames d held h =
      let none_left : files ≡ [] = ground (arith, h) in rw none_left (tt, λ y m. inl m)
  pad_all-AreDistinct taken (name ∷ names) files renames d held h =
      let (rest, more, s, e, how) = pad_all-Step taken name names files renames h in
      let next = padded width name in
      let (apart, source) =
        pad_all-AreDistinct (next ∷ taken) names rest more (d.1) (λ y m. there (held y (there m)))
          s in
      rw e (
        (
          All-of (λ y. next ≢ y) rest
              (λ y m.
                differs taken names name next (d.0) (λ z k. held z (there k))
                  (from_how name next taken how) y (source y m)),
          apart,
        ),
        old_or_new taken names rest name next (from_how name next taken how) source,
      )

  -- Carried under the renames, the old names are the new ones in their order, and no other name is
  -- renamed.
  pad_all-renamed :
      (taken names files : List String) (renames : Dict String)
      → AreDistinct names
      → pad_all width taken names ≡ some (files, renames)
      → Carries renames names files
  unfolding pad_all Dict.get
  pad_all-renamed taken [] files renames d h =
      let no_files : files ≡ [] = ground (arith, h) in
      let no_renames : renames ≡ [] = ground (arith, h) in (sym no_files, λ y a. rw no_renames refl)
  pad_all-renamed taken (name ∷ names) files renames d h =
      let (rest, more, s, e, how) = pad_all-Step taken name names files renames h in
      let next = padded width name in
      let (carried, others) = pad_all-renamed (next ∷ taken) names rest more (d.1) s in
      rw e (first_renamed name next names rest renames more taken (d.0) how carried others)

map_nothing : (names : List String) → map (renamed []) names ≡ names
unfolding Dict.get
map_nothing [] = refl
map_nothing (y ∷ ys) = ap (λ t. y ∷ t) (map_nothing ys)

-- None of the given names is a user file's.
abbrev pub IsApart : List String → List String → Type 0
IsApart files rest = All (λ y. All (λ x. x ≢ y) files) rest

abbrev pub IsPadded : ExportLayout → ExportLayout × Dict String → Type 0
IsPadded l (out, renames) =
    AreDistinct out.user_files
    × IsApart out.user_files (l.other ++ l.realm_file ∷ [])
    × (map (renamed renames) l.user_files ≡ out.user_files)
    × (out.realm_file ≡ l.realm_file)
    × (out.other ≡ l.other)

with_padding-IsPadded :
    (l : ExportLayout) (o : Option (List String × Dict String))
    → padding l ≡ o
    → AreDistinct l.user_files
    → IsApart l.user_files (l.other ++ l.realm_file ∷ [])
    → IsPadded l (with_padding l o)
unfolding with_padding padding
with_padding-IsPadded l none e d apart = (d, apart, map_nothing l.user_files, refl, refl)
with_padding-IsPadded l (some (files, [])) e d apart =
    (d, apart, map_nothing l.user_files, refl, refl)
with_padding-IsPadded l (some (files, r ∷ renames)) e d apart =
    let width = width_over user_file_digits l.user_files in
    let rest = l.other ++ l.realm_file ∷ [] in
    let taken = l.user_files ++ rest in
    let (distinct, source) =
      pad_all-AreDistinct width taken l.user_files files (r ∷ renames) d
        (λ y m. In-left l.user_files rest m) e in
    let fresh : (y : String) → In y rest → (x : String) → In x files → x ≢ y = λ y m x k q.
      elim (source x k) [
        | inl old ↦
            All-In (λ z. z ≢ y) l.user_files
              (All-In (λ z. All (λ w. w ≢ z) l.user_files) rest apart m) old q
        | inr new ↦ new (In-right l.user_files rest (rw q m))
      ] in
    (
      distinct,
      All-of (λ y. All (λ x. x ≢ y) files) rest (λ y m. All-of (λ x. x ≢ y) files (fresh y m)),
      (pad_all-renamed width taken l.user_files files (r ∷ renames) d e).0,
      refl,
      refl,
    )

-- PadUserFiles carries the export's files under names of which no two are the same, where no two
-- were before: its renames take the old user files to the new ones in their order, it leaves the realm
-- file and the rest alone, and no user file gets the name of another file of the export.
pub pad_user_files_lem :
    (l : ExportLayout)
    → AreDistinct l.user_files
    → IsApart l.user_files (l.other ++ l.realm_file ∷ [])
    → IsPadded l (pad_user_files l)
unfolding pad_user_files
pad_user_files_lem l d apart = with_padding-IsPadded l (padding l) refl d apart
