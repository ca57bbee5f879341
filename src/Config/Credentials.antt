-- ===== src/Config/Credentials.antt =====
-- internal/engine/config/credentials.go: the stores of secrets, as an interface of three operations on a
-- state, with its implementations. The keyring of the operating system is the parameter `Keyring`.
pub mod Laws
use Prim.Native.Char.{code}
use Prim.Native.String
use portcloak.Base.{
  Bool, true, false, ◌||◌, ◌&&◌, not, Option, none, some, String, str_eq, ◌==◌, if◌then◌else◌,
  concat, List, [], ◌∷◌,
}
use portcloak.Base.Dict
use portcloak.Base.Dict.{Dict}
use portcloak.Base.Result.{Result, ok, err}
use portcloak.Config.Validate.Complaints.{is_valid_handle}

-- `missing` holds the handle and the owner, `not_a_handle` the text, and the others the handle and what
-- the keyring says.
pub data CredentialError : Type 0 where
  missing : String → String → CredentialError
  not_a_handle : String → CredentialError
  not_read not_stored not_removed : String → String → CredentialError

-- `CredentialStore`
pub record CredentialStore (S : Type 0) : Type 0 where
  pub get : S → String → Result CredentialError String
  pub set : S → String → String → Result CredentialError (Unit {0}) × S
  pub delete : S → String → Result CredentialError (Unit {0}) × S

-- `Handle`
unfoldable pub handle_of : String → String → String
handle_of kind name = concat ("keychain://portcloak/" ∷ kind ∷ "/" ∷ name ∷ [])

-- `strings.CutPrefix`
strip : String → String → Option String
strip String.[] t = some t
strip (String.◌∷◌ c p) String.[] = none
strip (String.◌∷◌ c p) (String.◌∷◌ d t) =
    let rest = strip p t in if code c == code d then rest else none

-- `handleKey`: the account name, for a well-formed handle.
unfoldable pub handle_key : String → Result CredentialError String
unfolding strip
handle_key h = elim (strip "keychain://portcloak/" h) [
  | none ↦ err (not_a_handle h)
  | some rest ↦ if is_valid_handle h then ok rest else err (not_a_handle h)
]

-- `MemoryCredentials`
unfoldable pub memory : CredentialStore (Dict String)
unfolding handle_key
memory = record {
  get = λ m h. elim (handle_key h) [
    | err e ↦ err e
    | ok k ↦ elim (Dict.get m k) [ none ↦ err (missing h "") | some v ↦ ok v ]
  ];
  set = λ m h v. elim (handle_key h) [ err e ↦ (err e, m) | ok k ↦ (ok tt, Dict.put m k v) ];
  delete = λ m h. elim (handle_key h) [ err e ↦ (err e, m) | ok k ↦ (ok tt, Dict.remove m k) ];
}

-- What the keyring answers besides a value: nothing of that name, or a fault.
pub data KeyringError : Type 0 where
  absent : KeyringError
  broken : String → KeyringError

pub record Keyring (S : Type 0) : Type 0 where
  pub find : S → String → Result KeyringError String
  pub store : S → String → String → Option String × S
  pub remove : S → String → Option KeyringError × S

-- `Keychain`
unfoldable pub os_keychain : {S : Type 0} → Keyring S → CredentialStore S
unfolding handle_key
os_keychain r = record {
  get = λ s h. elim (handle_key h) [
    | err e ↦ err e
    | ok k ↦ elim (r.find s k) [
      | ok v ↦ ok v
      | err absent ↦ err (missing h "")
      | err (broken m) ↦ err (not_read h m)
    ]
  ];
  set = λ s h v. elim (handle_key h) [
    | err e ↦ (err e, s)
    | ok k ↦
        let (res, s') = r.store s k v in
        elim res [ none ↦ (ok tt, s') | some m ↦ (err (not_stored h m), s') ]
  ];
  delete = λ s h. elim (handle_key h) [
    | err e ↦ (err e, s)
    | ok k ↦
        let (res, s') = r.remove s k in
        elim res [
          | none ↦ (ok tt, s')
          | some absent ↦ (ok tt, s')
          | some (broken m) ↦ (err (not_removed h m), s')
        ]
  ];
}

-- `Resolve`: a missing credential is reported under its owner.
unfoldable pub resolve :
    {S : Type 0} → CredentialStore S → S → String → String → Result CredentialError String
resolve cs s h owner =
    let found = cs.get s h in
    if str_eq h "" then ok "" else elim found [
      | ok v ↦ ok v
      | err (missing g o) ↦ err (missing g owner)
      | err (not_a_handle g) ↦ err (not_a_handle g)
      | err (not_read g m) ↦ err (not_read g m)
      | err (not_stored g m) ↦ err (not_stored g m)
      | err (not_removed g m) ↦ err (not_removed g m)
    ]

-- `NewOverlay` and the methods of `Overlay`
unfoldable pub new_overlay : {S : Type 0} → CredentialStore S → String → String → CredentialStore S
new_overlay base h v =
    if str_eq h "" || str_eq v ""
    then base
    else record base { get = λ s g. let found = base.get s g in if str_eq g h then ok v else found }

-- A value, if it is one and not empty.
given : Result CredentialError String → Option String
given (err e) = none
given (ok v) = if str_eq v "" then none else some v

-- `Get` of `Fallback`
unfoldable pub fall_back :
    Result CredentialError String → Result CredentialError String → Result CredentialError String
unfolding given
fall_back first second = elim (given first) [
  | some v ↦ ok v
  | none ↦ elim (given second) [ some w ↦ ok w | none ↦ first ]
]

-- `NewFallback` of two stores and the methods of `Fallback`: only the primary is written.
unfoldable pub new_fallback :
    {S T : Type 0} → CredentialStore S → CredentialStore T → CredentialStore (S × T)
unfolding fall_back
new_fallback primary secondary = record {
  get = λ s h. fall_back (primary.get s.0 h) (secondary.get s.1 h);
  set = λ s h v. let (res, p) = primary.set s.0 h v in (res, (p, s.1));
  delete = λ s h. let (res, p) = primary.delete s.0 h in (res, (p, s.1));
}
