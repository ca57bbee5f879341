-- ===== src/Crypto.antt =====
-- internal/engine/crypto/crypto.go: the settings of an encryption and their check. The parser of age's
-- public keys is a parameter; an error is a value in place of its sentence.
use portcloak.Base.{
  Bool, Option, none, some, List, [], ◌∷◌, String, str_eq, is_blank, trim_space, if◌then◌else◌,
}

-- `EncryptionMode` is a text, as in the code, which refuses one that it does not know.
abbrev pub Mode : Type 0
Mode = String

abbrev pub mode_none : Mode
mode_none = ""

abbrev pub mode_passphrase : Mode
mode_passphrase = "passphrase"

abbrev pub mode_recipients : Mode
mode_recipients = "recipients"

-- `crypto.Config`
pub record Encryption : Type 0 where
  pub enabled : Bool
  pub mode : Mode
  pub passphrase : String
  pub recipients : List String

pub data EncryptionError : Type 0 where
  no_passphrase no_recipients no_mode : EncryptionError
  not_a_public_key unknown_mode : String → EncryptionError

module _ (is_public_key : String → Bool) where
  unfoldable pub first_refused : List String → Option EncryptionError
  unfolding trim_space
  first_refused [] = none
  first_refused (r ∷ rs) =
      let rest = first_refused rs in
      if is_public_key (trim_space r) then rest else some (not_a_public_key r)

  -- `Config.Validate`
  unfoldable pub validate_encryption : Encryption → Option EncryptionError
  unfolding first_refused is_blank
  validate_encryption c =
      if c.enabled
      then if str_eq c.mode mode_passphrase
        then if is_blank c.passphrase then some no_passphrase else none
        else if str_eq c.mode mode_recipients
        then elim c.recipients [ [] ↦ some no_recipients | r ∷ rs ↦ first_refused (r ∷ rs) ]
        else if str_eq c.mode mode_none
        then some no_mode
        else some (unknown_mode c.mode)
      else none
