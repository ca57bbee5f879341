-- ===== src/Blobs/Tests.antt =====
-- internal/engine/store/store.go: a listing with a snapshot, a stray digest and a foreign object.
use portcloak.Base.{
  ℕ, ◌+◌, Option, none, true, ◌≡◌, refl, List, [], ◌∷◌, String, here, there, map, IsDistinct,
  str_eq-false,
}
use portcloak.Resil.Errors.{GoError}
use portcloak.Blobs.Progress.{Callbacks, new_progress, write_all}
use portcloak.Blobs.{ObjectInfo}
use portcloak.Blobs.Layout.{Layout, Triplet, new_layout, group}
use portcloak.Blobs.Layout.Grouping.{key_of, IsGrouped, group-IsGrouped}

abbrev object : String → ObjectInfo
object key = record { key = key; size = 1; mod_time = 0; etag = "" }

abbrev layout : Layout
layout = new_layout "/backups/"

abbrev listing : List ObjectInfo
listing =
    object "backups/acme/2026-08-28T0602-0000.pck"
    ∷ object "backups/acme/2026-08-28T0602-0000.manifest.json"
    ∷ object "backups/acme/2026-08-29T0602-0001.sha256"
    ∷ object "backups/readme.txt"
    ∷ []

listing-IsDistinct : IsDistinct key_of listing
listing-IsDistinct = (
  (str_eq-false _ _ refl, (str_eq-false _ _ refl, (str_eq-false _ _ refl, tt))),
  ((str_eq-false _ _ refl, (str_eq-false _ _ refl, tt)), ((str_eq-false _ _ refl, tt), (tt, tt))),
)

snapshot_ids : map (λ (t : Triplet). t.snapshot_id) (group layout listing).0 ≡ "0001" ∷ "0000" ∷ []
unfolding group new_layout
snapshot_ids = refl

realms : map (λ (t : Triplet). t.realm) (group layout listing).0 ≡ "acme" ∷ "acme" ∷ []
unfolding group new_layout
realms = refl

group-IsGrouped_example :
    IsGrouped layout
      (group layout listing)
      (object "backups/acme/2026-08-28T0602-0000.manifest.json")
group-IsGrouped_example =
    group-IsGrouped layout listing (object "backups/acme/2026-08-28T0602-0000.manifest.json")
      listing-IsDistinct (there (here refl))

-- A destination that takes five million bytes of each write.
abbrev all_set : Callbacks
all_set = record { on_write = true; on_checkpoint = true; has_hash = true }

abbrev takes : List ℕ → ℕ → (ℕ × Option GoError) × ℕ
takes b n = ((5000000, none), n + 5000000)

abbrev alive : ℕ → Option GoError
alive n = none

abbrev state : ℕ → List ℕ
state n = n ∷ []

abbrev three : List (List ℕ)
three = (1 ∷ []) ∷ (2 ∷ []) ∷ (3 ∷ []) ∷ []

one_checkpoint : (write_all alive takes state all_set three (new_progress 0) 0).0 ≡ record {
  written = 15000000;
  checkpointed = 10000000;
  reports = 15000000 ∷ 10000000 ∷ 5000000 ∷ [];
  checkpoints = (10000000, 10000000 ∷ []) ∷ [];
}
unfolding write_all new_progress
one_checkpoint = refl
