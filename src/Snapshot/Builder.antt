-- ===== src/Snapshot/Builder.antt =====
-- internal/engine/snapshot/packer.go: the leaves and the size that a builder keeps.
-- Writing an artifact into the staging folder while it is hashed is a parameter, which answers the
-- size and the digest.
use portcloak.Base.{
  ◌≡◌, refl, ap, ◌∙◌, ◌≢◌, inl, inr, subst, ◌≤◌, ℕ, ◌+◌, ◌-◌, true, ◌||◌, List, [], ◌∷◌, none, some,
  String, str_eq, eq_iff, str_eq-false, if◌then◌else◌, IsDistinct, Apart, arith, Bool-cases,
  has_prefix, strip_prefix, clean, sort_by,
}
use portcloak.Base.Result.{Result, ok, err, ◌>>=◌, bind-ok, passed, ok-inj}
use portcloak.Snapshot.{ArtifactDigest, IntegrityTree, name_less, new_integrity_tree, verify}
use portcloak.Snapshot.Integrity.{name_of, verify-new_integrity_tree}

-- `Builder`, without its folder.
pub record Builder : Type 0 where
  pub artifacts : List ArtifactDigest
  pub payload : ℕ

pub data StageError : Type 0 where
  not_a_name : String → StageError
  not_written : String → StageError

abbrev integrity_path : String
integrity_path = "integrity.json"

abbrev envelope_path : String
envelope_path = "envelope.json"

unfoldable pub new_builder : Builder
new_builder = record { artifacts = []; payload = 0 }

-- The size of the leaf that `replace` puts another in place of.
size_of : List ArtifactDigest → String → ℕ
size_of [] name = 0
size_of (a ∷ more) name =
    let rest = size_of more name in if str_eq a.name name then a.size else rest

with_leaf : List ArtifactDigest → ArtifactDigest → List ArtifactDigest
with_leaf [] d = d ∷ []
with_leaf (a ∷ more) d =
    let rest = with_leaf more d in if str_eq a.name d.name then d ∷ more else a ∷ rest

-- `Builder.replace`
replace : Builder → ArtifactDigest → Builder
unfolding size_of with_leaf
replace b d = record {
  artifacts = with_leaf b.artifacts d;
  payload = b.payload - size_of b.artifacts d.name;
}

-- `path.Clean(strings.TrimPrefix(name, "/"))`
artifact_name : String → String
unfolding clean strip_prefix
artifact_name name = clean (elim (strip_prefix "/" name) [ none ↦ name | some rest ↦ rest ])

-- `Builder.Stage`
unfoldable pub stage :
    (String → Result StageError (ℕ × String))
    → Builder
    → String
    → Result StageError (ArtifactDigest × Builder)
unfolding replace artifact_name has_prefix
stage write b name =
    let clean_name = artifact_name name in
    if str_eq clean_name "." || has_prefix clean_name ".."
    then err (not_a_name clean_name)
    else write clean_name >>= λ (size, digest).
        let d : ArtifactDigest = record { name = clean_name; size = size; sha256 = digest } in
        let replaced = replace b d in ok (d, record replaced { payload = replaced.payload + size })

-- `SealedLeaves`
unfoldable pub sealed_leaves : List ArtifactDigest → List ArtifactDigest
sealed_leaves [] = []
sealed_leaves (a ∷ more) =
    let rest = sealed_leaves more in
    if str_eq a.name integrity_path || str_eq a.name envelope_path then rest else a ∷ rest

-- `Builder.Artifacts` and `Builder.Tree`
unfoldable pub artifacts_of : Builder → List ArtifactDigest
unfolding sort_by name_less
artifacts_of b = sort_by name_less b.artifacts

unfoldable pub tree_of : (String → String) → Builder → IntegrityTree
unfolding new_integrity_tree sealed_leaves
tree_of sha256_hex b = new_integrity_tree sha256_hex (sealed_leaves b.artifacts)

pub total : List ArtifactDigest → ℕ
total [] = 0
total (a ∷ more) = a.size + total more

-- The leaves have distinct names, and the payload is the sum of their sizes.
abbrev pub IsTallied : Builder → Type 0
IsTallied b = IsDistinct name_of b.artifacts × (b.payload ≡ total b.artifacts)

Apart-with_leaf :
    (a : ArtifactDigest) (leaves : List ArtifactDigest) (d : ArtifactDigest)
    → a.name ≢ d.name
    → Apart name_of a leaves
    → Apart name_of a (with_leaf leaves d)
unfolding with_leaf
Apart-with_leaf a [] d n h = (n, tt)
Apart-with_leaf a (x ∷ leaves) d n h = elim (Bool-cases (str_eq x.name d.name)) [
  | inl e ↦ rw e (n, h.1)
  | inr f ↦ rw f (h.0, Apart-with_leaf a leaves d n (h.1))
]

Apart-same :
    (a d : ArtifactDigest) (leaves : List ArtifactDigest)
    → a.name ≡ d.name
    → Apart name_of a leaves
    → Apart name_of d leaves
Apart-same a d [] e h = tt
Apart-same a d (x ∷ leaves) e h = (λ q. h.0 (e ∙ q), Apart-same a d leaves e (h.1))

with_leaf-IsDistinct :
    (leaves : List ArtifactDigest) (d : ArtifactDigest)
    → IsDistinct name_of leaves
    → IsDistinct name_of (with_leaf leaves d)
unfolding with_leaf
with_leaf-IsDistinct [] d h = (tt, tt)
with_leaf-IsDistinct (a ∷ leaves) d h = elim (Bool-cases (str_eq a.name d.name)) [
  | inl e ↦ rw e (Apart-same a d leaves ((eq_iff a.name d.name).0 e) (h.0), h.1)
  | inr f ↦ rw f (
    Apart-with_leaf a leaves d (str_eq-false a.name d.name f) (h.0),
    with_leaf-IsDistinct leaves d (h.1),
  )
]

total-with_leaf :
    (leaves : List ArtifactDigest) (d : ArtifactDigest)
    → total (with_leaf leaves d) + size_of leaves d.name ≡ total leaves + d.size
unfolding total with_leaf size_of
total-with_leaf [] d = omega arith
total-with_leaf (a ∷ leaves) d = ground (arith, total-with_leaf leaves d)

size_of-le : (leaves : List ArtifactDigest) (n : String) → size_of leaves n ≤ total leaves
unfolding total size_of
size_of-le [] n = omega arith
size_of-le (a ∷ leaves) n = ground (arith, size_of-le leaves n)

-- The size of a leaf that is replaced is part of the payload, so taking it off does not go below zero.
replace-total :
    (leaves : List ArtifactDigest) (d : ArtifactDigest) (p : ℕ)
    → p ≡ total leaves
    → p - size_of leaves d.name + d.size ≡ total (with_leaf leaves d)
replace-total leaves d p h = omega (arith, h, total-with_leaf leaves d, size_of-le leaves d.name)

-- `Stage` for each of the names, up to the first error.
unfoldable pub stage_all :
    (String → Result StageError (ℕ × String)) → Builder → List String → Result StageError Builder
unfolding stage
stage_all write b [] = ok b
stage_all write b (name ∷ names) = stage write b name >>= λ (d, b'). stage_all write b' names

sealed_leaves-Apart :
    (a : ArtifactDigest) (leaves : List ArtifactDigest)
    → Apart name_of a leaves
    → Apart name_of a (sealed_leaves leaves)
unfolding sealed_leaves
sealed_leaves-Apart a [] h = tt
sealed_leaves-Apart a (x ∷ leaves) h =
    elim (Bool-cases (str_eq x.name integrity_path || str_eq x.name envelope_path)) [
      | inl e ↦ rw e (sealed_leaves-Apart a leaves (h.1))
      | inr f ↦ rw f (h.0, sealed_leaves-Apart a leaves (h.1))
    ]

sealed_leaves-IsDistinct :
    (leaves : List ArtifactDigest)
    → IsDistinct name_of leaves
    → IsDistinct name_of (sealed_leaves leaves)
unfolding sealed_leaves
sealed_leaves-IsDistinct [] d = tt
sealed_leaves-IsDistinct (x ∷ leaves) d =
    elim (Bool-cases (str_eq x.name integrity_path || str_eq x.name envelope_path)) [
      | inl e ↦ rw e (sealed_leaves-IsDistinct leaves (d.1))
      | inr f ↦ rw f (sealed_leaves-Apart x leaves (d.0), sealed_leaves-IsDistinct leaves (d.1))
    ]

module _ (write : String → Result StageError (ℕ × String)) where
  stage-IsTallied :
      (b : Builder) (name : String) (d : ArtifactDigest) (b' : Builder)
      → IsTallied b
      → stage write b name ≡ ok (d, b')
      → IsTallied b'
  unfolding stage replace
  stage-IsTallied b name d b' h e =
      let clean_name = artifact_name name in
      let written = (passed (str_eq clean_name "." || has_prefix clean_name "..") _ e).1 in
      let ((size, digest), w, staged) = bind-ok (write clean_name) _ written in
      subst IsTallied (ap (λ (p : ArtifactDigest × Builder). p.1) (ok-inj staged))
        (with_leaf-IsDistinct b.artifacts _ (h.0), replace-total b.artifacts _ b.payload (h.1))

  stage_all-IsTallied :
      (names : List String) (b b' : Builder)
      → IsTallied b
      → stage_all write b names ≡ ok b'
      → IsTallied b'
  unfolding stage_all
  stage_all-IsTallied [] b b' h e = subst IsTallied (ok-inj e) h
  stage_all-IsTallied (name ∷ names) b b' h e =
      let ((d, b₁), w, rest) = bind-ok (stage write b name) _ e in
      stage_all-IsTallied names b₁ b' (stage-IsTallied b name d b₁ h w) rest

  -- Whatever names are staged into a new builder, some of them again, the leaves that it ends with
  -- have distinct names, its payload is the sum of their sizes, and its tree verifies the leaves that
  -- it covers.
  pub stage_all_lem :
      (sha256_hex : String → String) (names : List String) (b : Builder)
      → stage_all write new_builder names ≡ ok b
      → IsTallied b
        × ((verify sha256_hex (tree_of sha256_hex b) (sealed_leaves b.artifacts)).is_ok ≡ true)
  unfolding new_builder tree_of total
  stage_all_lem sha256_hex names b e =
      let tallied = stage_all-IsTallied names new_builder b (tt, refl) e in
      (
        tallied,
        verify-new_integrity_tree sha256_hex (sealed_leaves b.artifacts)
            (sealed_leaves-IsDistinct b.artifacts (tallied.0)),
      )
