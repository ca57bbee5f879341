-- ===== src/Manifest/Ledger.antt =====
-- internal/engine/manifest/model.go: the ledger of secrets, which holds no value, and the categories of one
-- status. A kind of secret is the text that it is.
mod Tests
use portcloak.Base.{ℕ, suc, Bool, List, [], ◌∷◌, String, str_eq, text_less, sort_by, if◌then◌else◌}
use portcloak.Manifest.{Status, captured, missing, out_of_scope, not_checked, Category}

abbrev pub SecretKind : Type 0
SecretKind = String

-- `KindLabel`
unfoldable pub kind_label : SecretKind → String
kind_label k =
    if str_eq k "client-secret"
    then "Client secret"
    else if str_eq k "ldap-bind"
    then "LDAP bind credential"
    else if str_eq k "idp-secret"
    then "IdP client secret"
    else if str_eq k "key-private"
    then "Private key material"
    else if str_eq k "smtp"
    then "SMTP password"
    else if str_eq k "authcfg"
    then "Authenticator secret"
    else if str_eq k "registration-token"
    then "Registration access token"
    else if str_eq k "realm-attribute"
    then "Realm attribute"
    else k

pub record Secret : Type 0 where
  pub kind : SecretKind
  pub location : String
  pub is_carried : Bool
  pub is_masked : Bool
  pub note : String
  pub algorithm : String

-- `SecretCounts`: all, those carried, and those masked.
unfoldable pub secret_counts : List Secret → ℕ × ℕ × ℕ
secret_counts [] = (0, 0, 0)
secret_counts (s ∷ more) =
    let (total, carried, masked) = secret_counts more in
    (
      suc total,
      if s.is_carried then suc carried else carried,
      if s.is_masked then suc masked else masked,
    )

-- The order of `sortSecrets`, and its stable sort.
secret_less : Secret → Secret → Bool
unfolding text_less
secret_less a b =
    if str_eq a.kind b.kind then text_less a.location b.location else text_less a.kind b.kind

unfoldable pub sort_secrets : List Secret → List Secret
unfolding sort_by secret_less
sort_secrets ss = sort_by secret_less ss

same_status : Status → Status → Bool
same_status captured captured = Bool.true
same_status Status.partial Status.partial = Bool.true
same_status missing missing = Bool.true
same_status out_of_scope out_of_scope = Bool.true
same_status not_checked not_checked = Bool.true
same_status a b = Bool.false

-- `By`
unfoldable pub by_status : List Category → Status → List Category
unfolding same_status
by_status [] status = []
by_status (c ∷ cs) status =
    let rest = by_status cs status in if same_status c.status status then c ∷ rest else rest
