-- ===== src/Config/Crud.antt =====
-- internal/engine/config/crud.go and keys.go: what is done to the entries of the configuration, each
-- as one `Update`. Here is what the kinds of entries share.
pub mod Reach
pub mod Environments
pub mod Storages
pub mod Keys
pub mod Defaults
pub mod Deletions
pub mod Duplicates
pub mod Probes
use portcloak.Base.{
  ℕ, zero, suc, ◌+◌, Bool, true, false, Option, none, some, List, [], ◌∷◌, String, str_eq, length,
  is_some, concat, itoa, if◌then◌else◌,
}
use portcloak.Base.Dict
use portcloak.Base.Dict.{Dict}
use portcloak.Base.Result.{Result, ok, err}
use portcloak.Config.Model.{Preferences, Config, ProbeStamp, by_name}
use portcloak.Config.Store.{Store, StoreError, not_found, already_exists, Edit, update}
use portcloak.Config.Files.{Faults}

module _ {A : Type 0} (name_of : A → String) where
  -- The entry at the first index with the name, changed in its place.
  unfoldable pub change_first : (A → A) → List A → String → List A
  change_first f [] n = []
  change_first f (x ∷ xs) n =
      let rest = change_first f xs n in if str_eq (name_of x) n then f x ∷ xs else x ∷ rest

  -- The list without the entry at the first index with the name.
  unfoldable pub remove_first : List A → String → List A
  remove_first [] n = []
  remove_first (x ∷ xs) n =
      let rest = remove_first xs n in if str_eq (name_of x) n then xs else x ∷ rest

  -- A new name that another entry has.
  unfoldable pub is_taken : List A → String → Bool
  unfolding by_name
  is_taken xs n = is_some (by_name name_of xs n)

  unique_from : ℕ → List A → String → ℕ → String
  unfolding is_taken
  unique_from zero xs base n = concat (base ∷ " copy " ∷ itoa n ∷ [])
  unique_from (suc f) xs base n =
      let candidate = concat (base ∷ " copy " ∷ itoa n ∷ []) in
      let rest = unique_from f xs base (n + 1) in if is_taken xs candidate then rest else candidate

  -- `uniqueName`: of `length xs + 1` different candidates, one is free.
  unfoldable pub unique_name : List A → String → String
  unfolding unique_from
  unique_name xs base =
      let candidate = concat (base ∷ " copy" ∷ []) in
      let numbered = unique_from (length xs) xs base 2 in
      if is_taken xs candidate then numbered else candidate

-- The keychain of this machine; `refuses` says for which handles `Delete` fails.
pub record Keychain : Type 0 where
  pub secrets : Dict String
  pub refuses : String → Bool

-- `Delete`, whose error is passed over.
unfoldable pub forget : Keychain → String → Keychain
forget k h = if k.refuses h then k else record k { secrets = Dict.remove k.secrets h }

-- The handles that are not empty, forgotten one after the other.
unfoldable pub forget_all : Keychain → List String → Keychain
unfolding forget
forget_all k [] = k
forget_all k (h ∷ hs) = if str_eq h "" then forget_all k hs else forget_all (forget k h) hs

-- A job lookup: the job that uses a name.
abbrev pub JobLookup : Type 0
JobLookup = Option (String → Option String)

unfoldable pub running : JobLookup → String → Option String
running none n = none
running (some jobs) n = jobs n

-- The end of a deletion: the keychain is cleaned when the configuration has been written.
unfoldable pub after_delete :
    Option Keychain
    → Result StoreError (List String) × Store
    → (Result StoreError (Unit {0}) × Option Keychain) × Store
unfolding forget_all
after_delete creds (err e, s) = ((err e, creds), s)
after_delete none (ok refs, s) = ((ok tt, none), s)
after_delete (some k) (ok refs, s) = ((ok tt, some (forget_all k refs)), s)

module _ (marshal : Config → Result String String) (fs : Faults) where
  -- `SetPreferences`
  unfoldable pub set_preferences : Preferences → Store → Result StoreError (Unit {0}) × Store
  unfolding update
  set_preferences p s = update marshal fs s (λ place c. ok (tt, record c { preferences = p }))
