-- ===== src/Config/Crud/Keys.antt =====
-- internal/engine/config/keys.go: `AddKey`, `SaveKey` and `DeleteKey`. The keys of the copy that an edit gets
-- share their array with those of the store, and `SaveKey` and `DeleteKey` write to it; what `AddKey` appends
-- lies past the end of the store's own slice.
pub mod Shared
mod Tests
use portcloak.Base.{
  not, ◌&&◌, Option, none, some, List, [], ◌∷◌, ◌++◌, String, str_eq, if◌then◌else◌,
}
use portcloak.Base.Result.{Result, ok, err}
use portcloak.Config.Model.{Key, Config, key_by_name}
use portcloak.Config.Store.{
  Store, StoreError, not_found, already_exists, Edit, update_in_place, update,
}
use portcloak.Config.Crud.{change_first, remove_first, is_taken, Keychain, after_delete}
use portcloak.Config.Files.{Faults}

abbrev pub name_of : Key → String
name_of k = k.name

unfoldable pub adding_key : Key → Edit (Unit {0})
unfolding is_taken
adding_key k place c =
    if is_taken name_of c.keys k.name
    then err (already_exists "key" k.name)
    else ok (tt, record c { keys = c.keys ++ k ∷ [] })

unfoldable pub saving_key : String → Key → Edit (Unit {0})
unfolding is_taken change_first key_by_name
saving_key original k place c = elim (key_by_name c original) [
  | none ↦ err (not_found "key" original)
  | some prev ↦
      if not (str_eq k.name original) && is_taken name_of c.keys k.name
      then err (already_exists "key" k.name)
      else ok (tt, record c { keys = change_first name_of (λ old. k) c.keys original })
]

-- `c.Keys[idx] = k`, as the store's own slice shows it.
unfoldable pub written_over : String → Key → Config → List Key
unfolding change_first
written_over original k c = change_first name_of (λ old. k) c.keys original

last_of : Key → List Key → Key
last_of k [] = k
last_of k (x ∷ xs) = last_of x xs

-- `append(c.Keys[:idx], c.Keys[idx+1:]...)`, as the store's own slice shows it: the keys after the first of
-- the name have moved one to the front, and the last place is as it was.
unfoldable pub moved_up : String → List Key → List Key
unfolding last_of
moved_up name [] = []
moved_up name (k ∷ ks) =
    let rest = moved_up name ks in if str_eq k.name name then ks ++ last_of k ks ∷ [] else k ∷ rest

-- The edit of `DeleteKey`, with the handle whose secret is to go.
unfoldable pub deleting_key : String → Edit (List String)
unfolding remove_first key_by_name
deleting_key name place c = elim (key_by_name c name) [
  | none ↦ err (not_found "key" name)
  | some k ↦ ok (k.credential_ref ∷ [], record c { keys = remove_first name_of c.keys name })
]

module _ (marshal : Config → Result String String) (fs : Faults) where
  unfoldable pub add_key : Key → Store → Result StoreError (Unit {0}) × Store
  unfolding update adding_key
  add_key k s = update marshal fs s (adding_key k)

  unfoldable pub save_key : String → Key → Store → Result StoreError (Unit {0}) × Store
  unfolding update_in_place saving_key written_over
  save_key original k s =
      update_in_place marshal fs s (saving_key original k) (written_over original k)

  unfoldable pub delete_key :
      String → Option Keychain → Store → (Result StoreError (Unit {0}) × Option Keychain) × Store
  unfolding update_in_place deleting_key after_delete moved_up
  delete_key name creds s =
      after_delete creds
        (update_in_place marshal fs s (deleting_key name) (λ c. moved_up name c.keys))
