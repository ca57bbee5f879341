-- ===== src/Snapshot/Tests.antt =====
-- internal/engine/snapshot: its theorems at a small bundle, with a digest that is the text itself.
use portcloak.Base.{
  ◌≡◌, refl, ◌↔◌, ℕ, true, List, [], ◌∷◌, String, IsDistinct, str_eq-false, is_some,
}
use portcloak.Base.Result.{Result, ok, err}
use portcloak.Snapshot.{ArtifactDigest, IntegrityTree, new_integrity_tree, verify, lookup_leaf}
use portcloak.Snapshot.Integrity.{name_of, IsIntact, verify_iff, verify-new_integrity_tree}
use portcloak.Snapshot.Ids.{new_id, new_id-window}
use portcloak.Snapshot.Builder.{
  Builder, StageError, new_builder, not_a_name, stage, stage_all, tree_of, sealed_leaves, IsTallied,
  stage_all_lem,
}

abbrev no_digest : String → String
no_digest s = s

abbrev realm_leaf : ArtifactDigest
realm_leaf = record { name = "realm/acme-realm.json"; size = 12; sha256 = "aa" }

abbrev users_leaf : ArtifactDigest
users_leaf = record { name = "realm/acme-users-0.json"; size = 30; sha256 = "bb" }

abbrev bundle : List ArtifactDigest
bundle = users_leaf ∷ realm_leaf ∷ []

abbrev tree : IntegrityTree
tree = new_integrity_tree no_digest bundle

bundle-IsDistinct : IsDistinct name_of bundle
bundle-IsDistinct = ((str_eq-false _ _ refl, tt), (tt, tt))

tree-IsDistinct : IsDistinct name_of tree.artifacts
unfolding new_integrity_tree
tree-IsDistinct = ((str_eq-false _ _ refl, tt), (tt, tt))

verify_iff_example : ((verify no_digest tree bundle).is_ok ≡ true) ↔ IsIntact no_digest tree bundle
verify_iff_example = verify_iff no_digest tree bundle tree-IsDistinct bundle-IsDistinct

verify-new_integrity_tree_example :
    (verify no_digest (new_integrity_tree no_digest bundle) bundle).is_ok ≡ true
verify-new_integrity_tree_example = verify-new_integrity_tree no_digest bundle bundle-IsDistinct

-- A changed artifact and one that nobody sealed are named.
abbrev tampered : List ArtifactDigest
tampered =
    record users_leaf { sha256 = "cc" }
    ∷ realm_leaf
    ∷ record { name = "x"; size = 1; sha256 = "dd" }
    ∷ []

tampered_message :
    (verify no_digest tree tampered).message
    ≡ "2 of 3 artifacts did not verify: realm/acme-users-0.json, x."
unfolding verify new_integrity_tree
tampered_message = refl

resized_message :
    (verify no_digest tree (record users_leaf { size = 31 } ∷ realm_leaf ∷ [])).message
    ≡ "Every artifact matched individually, but the checksum tree's own root does not. The integrity record itself has been altered."
unfolding verify new_integrity_tree
resized_message = refl

leaf_found : is_some (lookup_leaf bundle "realm/acme-realm.json") ≡ true
unfolding lookup_leaf
leaf_found = refl

abbrev write_ten : String → Result StageError (ℕ × String)
write_ten name = ok (10, name)

abbrev staged_names : List String
staged_names = "/realm/a.json" ∷ "integrity.json" ∷ "realm/../realm/a.json" ∷ []

abbrev staged : Builder
staged = record {
  artifacts =
      record { name = "realm/a.json"; size = 10; sha256 = "realm/a.json" }
      ∷ record { name = "integrity.json"; size = 10; sha256 = "integrity.json" }
      ∷ [];
  payload = 20;
}

staged_is : stage_all write_ten new_builder staged_names ≡ ok staged
unfolding stage_all new_builder
staged_is = refl

escape_refused :
    stage write_ten new_builder "realm/../../etc/passwd" ≡ err (not_a_name "../etc/passwd")
unfolding stage
escape_refused = refl

stage_all_lem_example :
    IsTallied staged
    × ((verify no_digest (tree_of no_digest staged) (sealed_leaves staged.artifacts)).is_ok ≡ true)
stage_all_lem_example = stage_all_lem write_ten no_digest staged_names staged staged_is

-- A later snapshot of the same minute with a smaller identifier.
earlier_id : new_id 1788000000000 (200 ∷ 0 ∷ 0 ∷ 0 ∷ []) ≡ "0000382D3B400000"
unfolding new_id
earlier_id = refl

later_id : new_id 1788000000001 (100 ∷ 0 ∷ 0 ∷ 0 ∷ []) ≡ "0000382D39J00000"
unfolding new_id
later_id = refl

new_id-window_example :
    new_id 1788000000000 (1 ∷ 2 ∷ 3 ∷ 4 ∷ []) ≡ new_id 1788000000001 (1 ∷ 2 ∷ 3 ∷ 4 ∷ [])
new_id-window_example = new_id-window 1788000000000 1788000000001 (1 ∷ 2 ∷ 3 ∷ 4 ∷ []) refl
