-- ===== src/Snapshot.antt =====
-- internal/engine/snapshot: the checksum tree over the artifacts of a snapshot (integrity.go), and the
-- leaves that a builder holds (packer.go). SHA-256 is a parameter, from a text to its digest in
-- hexadecimal. The bytes of an artifact, the archive and the encryption are not modelled.
pub mod Integrity
pub mod Builder
pub mod Ids
mod Tests
use portcloak.Base.{
  ℕ, ◌+◌, Bool, true, false, not, ◌&&◌, ◌||◌, List, [], ◌∷◌, ◌++◌, Option, none, some, String,
  str_eq, if◌then◌else◌, concat, itoa, length, map, sort_by, text_less,
}
use portcloak.Base.Dict
use portcloak.Base.Dict.{Dict}
use Prim.Native.String
use Prim.Native.Char.{nul}

pub record ArtifactDigest : Type 0 where
  pub name : String
  pub size : ℕ
  pub sha256 : String

pub record IntegrityTree : Type 0 where
  pub algorithm : String
  pub root : String
  pub artifacts : List ArtifactDigest

pub record ArtifactResult : Type 0 where
  pub name : String
  pub expected : String
  pub actual : String
  pub is_ok : Bool
  pub note : String

pub record VerifyResult : Type 0 where
  pub root_expected : String
  pub root_actual : String
  pub message : String
  pub artifacts : List ArtifactResult
  pub is_ok : Bool
  pub is_decryptable : Bool

unfoldable pub name_less : ArtifactDigest → ArtifactDigest → Bool
unfolding text_less
name_less a b = text_less a.name b.name

result_less : ArtifactResult → ArtifactResult → Bool
unfolding text_less
result_less a b = text_less a.name b.name

-- What `NewIntegrityTree` writes into the hash: the name, a NUL, the digest, a NUL, the size.
leaf_line : ArtifactDigest → String
unfolding itoa
leaf_line a =
    concat (a.name ∷ String.◌∷◌ nul "" ∷ a.sha256 ∷ String.◌∷◌ nul "" ∷ itoa a.size ∷ "\n" ∷ [])

leaf_lines : List ArtifactDigest → String
unfolding leaf_line
leaf_lines [] = ""
leaf_lines (a ∷ more) = String.◌++◌ (leaf_line a) (leaf_lines more)

-- `IntegrityTree.Lookup`
unfoldable pub lookup_leaf : List ArtifactDigest → String → Option ArtifactDigest
lookup_leaf [] name = none
lookup_leaf (a ∷ more) name =
    let rest = lookup_leaf more name in if str_eq a.name name then some a else rest

-- `VerifyResult.Failures`
unfoldable pub failures : List ArtifactResult → List ArtifactResult
failures [] = []
failures (a ∷ more) = let rest = failures more in if a.is_ok then rest else a ∷ rest

-- The map `seen` of `Verify`: of two observed artifacts with one name it holds the later.
seen_all : Dict ArtifactDigest → List ArtifactDigest → Dict ArtifactDigest
unfolding Dict.put
seen_all seen [] = seen
seen_all seen (o ∷ more) = seen_all (Dict.put seen o.name o) more

check_leaf : ArtifactDigest → Option ArtifactDigest → ArtifactResult
check_leaf want none = record {
  name = want.name;
  expected = want.sha256;
  actual = "";
  is_ok = false;
  note = "this artifact is listed in the snapshot but is not in the bundle";
}
check_leaf want (some got) =
    if str_eq got.sha256 want.sha256
    then record {
      name = want.name;
      expected = want.sha256;
      actual = got.sha256;
      is_ok = true;
      note = "";
    }
    else record {
      name = want.name;
      expected = want.sha256;
      actual = got.sha256;
      is_ok = false;
      note = "the contents do not match what was sealed";
    }

-- The loop over the leaves: their results, and what is left of `seen`.
check_leaves : Dict ArtifactDigest → List ArtifactDigest → List ArtifactResult × Dict ArtifactDigest
unfolding check_leaf Dict.get Dict.remove
check_leaves seen [] = ([], seen)
check_leaves seen (want ∷ more) =
    let (results, left) = check_leaves (Dict.remove seen want.name) more in
    (check_leaf want (Dict.get seen want.name) ∷ results, left)

-- The loop over what is left.
unlisted : Dict ArtifactDigest → List ArtifactResult
unlisted [] = []
unlisted ((name, got) ∷ more) =
    record {
      name = name;
      expected = "";
      actual = got.sha256;
      is_ok = false;
      note = "the bundle holds an artifact that was not part of the sealed set";
    }
    ∷ unlisted more

all_ok : List ArtifactResult → Bool
all_ok [] = true
all_ok (a ∷ more) = a.is_ok && all_ok more

first_three : List ArtifactResult → List String
first_three (a ∷ b ∷ c ∷ more) = a.name ∷ b.name ∷ c.name ∷ []
first_three few = map (λ (a : ArtifactResult). a.name) few

listed : List String → String
listed [] = ""
listed (s ∷ []) = s
listed (s ∷ t ∷ more) = concat (s ∷ ", " ∷ listed (t ∷ more) ∷ [])

verify_message : Bool → Bool → List ArtifactResult → String
unfolding failures first_three listed itoa
verify_message true true results =
    concat ("All " ∷ itoa (length results) ∷ " artifacts match what was sealed." ∷ [])
verify_message true false results =
    "Every artifact matched individually, but the checksum tree's own root does not. The integrity record itself has been altered."
verify_message false same_root results = concat (
    itoa (length (failures results))
    ∷ " of "
    ∷ itoa (length results)
    ∷ " artifacts did not verify: "
    ∷ listed (first_three (failures results))
    ∷ "."
    ∷ [])

module _ (sha256_hex : String → String) where
  -- `NewIntegrityTree`
  unfoldable pub new_integrity_tree : List ArtifactDigest → IntegrityTree
  unfolding leaf_lines sort_by name_less
  new_integrity_tree artifacts =
      let sorted = sort_by name_less artifacts in
      record { algorithm = "sha-256"; root = sha256_hex (leaf_lines sorted); artifacts = sorted }

  -- `IntegrityTree.Verify`; the loop over a map takes its entries in any order, and the sort comes
  -- after it.
  unfoldable pub verify : IntegrityTree → List ArtifactDigest → VerifyResult
  unfolding check_leaves seen_all unlisted all_ok verify_message sort_by result_less
      new_integrity_tree
  verify t observed =
      let (checked, left) = check_leaves (seen_all [] observed) t.artifacts in
      let results = checked ++ unlisted left in
      let sorted = sort_by result_less results in
      let actual = (new_integrity_tree observed).root in
      let same_root = str_eq actual t.root in
      record {
        root_expected = t.root;
        root_actual = actual;
        message = verify_message (all_ok results) same_root sorted;
        artifacts = sorted;
        is_ok = all_ok results && same_root;
        is_decryptable = false;
      }
