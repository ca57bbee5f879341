-- ===== src/Config/Crud/Storages.antt =====
-- internal/engine/config/crud.go: the operations on storage definitions.
use portcloak.Base.{
  ℕ, true, false, not, ◌&&◌, ◌==◌, Option, none, some, List, [], ◌∷◌, ◌++◌, String, str_eq,
  if◌then◌else◌, ltb, length,
}
use portcloak.Base.Result.{Result, ok, err}
use portcloak.Config.Model.{Storage, ProbeStamp, Config, storage_by_name}
use portcloak.Config.Store.{Store, StoreError, not_found, already_exists, in_use, Edit, update}
use portcloak.Config.Crud.{
  change_first, remove_first, is_taken, unique_name, Keychain, JobLookup, running, after_delete,
}
use portcloak.Config.Crud.Environments.{kept_probe, bare_hop}
use portcloak.Config.Crud.Reach.{storage_reachability_changed}
use portcloak.Config.Files.{Faults}

abbrev name_of : Storage → String
name_of s = s.name

-- `makeDefaultExclusive`
unfoldable pub make_default_exclusive : List Storage → String → List Storage
make_default_exclusive [] name = []
make_default_exclusive (s ∷ ss) name =
    record s { is_default = str_eq s.name name } ∷ make_default_exclusive ss name

-- The first storage defined becomes the default.
mark_first : List Storage → List Storage
mark_first [] = []
mark_first (s ∷ ss) = record s { is_default = true } ∷ ss

unfoldable pub with_storage : List Storage → Storage → List Storage
unfolding make_default_exclusive mark_first
with_storage ss st =
    let all = ss ++ st ∷ [] in
    if st.is_default
    then make_default_exclusive all st.name
    else if length all == 1
    then mark_first all
    else all

unfoldable pub adding_storage : Storage → Edit (Unit {0})
unfolding is_taken with_storage
adding_storage st place c =
    if is_taken name_of c.storage st.name
    then err (already_exists "storage" st.name)
    else ok (tt, record c { storage = with_storage c.storage st })

unfoldable pub saved_storage : Storage → Storage → Storage
unfolding storage_reachability_changed kept_probe
saved_storage prev st = record st {
  last_probe = kept_probe (storage_reachability_changed prev st) prev.last_probe st.last_probe;
}

unfoldable pub saving_storage : String → Storage → Edit (Unit {0})
unfolding is_taken change_first saved_storage storage_by_name make_default_exclusive
saving_storage original st place c = elim (storage_by_name c original) [
  | none ↦ err (not_found "storage" original)
  | some prev ↦
      let all = change_first name_of (λ old. saved_storage prev st) c.storage original in
      if not (str_eq st.name original) && is_taken name_of c.storage st.name
      then err (already_exists "storage" st.name)
      else ok (
        tt,
        record c { storage = if st.is_default then make_default_exclusive all st.name else all },
      )
]

unfoldable pub bare_storage : ℕ → Storage → String → Storage
unfolding bare_hop
bare_storage place s name = record s {
  name = name;
  credential_ref = "";
  is_default = false;
  last_probe = none;
  jump_host = bare_hop place s.jump_host;
}

unfoldable pub duplicating_storage : String → String → Edit Storage
unfolding is_taken unique_name bare_storage storage_by_name
duplicating_storage name new place c = elim (storage_by_name c name) [
  | none ↦ err (not_found "storage" name)
  | some s ↦
      let new' = if str_eq new "" then unique_name name_of c.storage name else new in
      let dup = bare_storage place s new' in
      if is_taken name_of c.storage new'
      then err (already_exists "storage" new')
      else ok (dup, record c { storage = c.storage ++ dup ∷ [] })
]

-- The default goes only when it is alone.
unfoldable pub deleting_storage : String → Edit (List String)
unfolding remove_first storage_by_name
deleting_storage name place c = elim (storage_by_name c name) [
  | none ↦ err (not_found "storage" name)
  | some s ↦
      if s.is_default && ltb 1 (length c.storage)
      then err (in_use name "the default storage for new captures; choose another default first")
      else ok (s.credential_ref ∷ [], record c { storage = remove_first name_of c.storage name })
]

unfoldable pub setting_default : String → Edit (Unit {0})
unfolding make_default_exclusive storage_by_name
setting_default name place c = elim (storage_by_name c name) [
  | none ↦ err (not_found "storage" name)
  | some s ↦ ok (tt, record c { storage = make_default_exclusive c.storage name })
]

unfoldable pub probing_storage : String → ProbeStamp → Edit (Unit {0})
unfolding change_first storage_by_name
probing_storage name stamp place c = elim (storage_by_name c name) [
  | none ↦ err (not_found "storage" name)
  | some s ↦ ok (
    tt,
    record c {
      storage = change_first name_of (λ x. record x { last_probe = some stamp }) c.storage name;
    },
  )
]

module _ (marshal : Config → Result String String) (fs : Faults) where
  unfoldable pub add_storage : Storage → Store → Result StoreError (Unit {0}) × Store
  unfolding update adding_storage
  add_storage st s = update marshal fs s (adding_storage st)

  unfoldable pub save_storage : String → Storage → Store → Result StoreError (Unit {0}) × Store
  unfolding update saving_storage
  save_storage original st s = update marshal fs s (saving_storage original st)

  unfoldable pub duplicate_storage : String → String → Store → Result StoreError Storage × Store
  unfolding update duplicating_storage
  duplicate_storage name new s = update marshal fs s (duplicating_storage name new)

  unfoldable pub delete_storage :
      String
      → Option Keychain
      → JobLookup
      → Store
      → (Result StoreError (Unit {0}) × Option Keychain) × Store
  unfolding update deleting_storage after_delete running
  delete_storage name creds jobs s = elim (running jobs name) [
    | some id ↦ ((err (in_use name id), creds), s)
    | none ↦ after_delete creds (update marshal fs s (deleting_storage name))
  ]

  unfoldable pub set_default_storage : String → Store → Result StoreError (Unit {0}) × Store
  unfolding update setting_default
  set_default_storage name s = update marshal fs s (setting_default name)

  unfoldable pub record_storage_probe :
      String → ProbeStamp → Store → Result StoreError (Unit {0}) × Store
  unfolding update probing_storage
  record_storage_probe name stamp s = update marshal fs s (probing_storage name stamp)
