-- ===== src/Orchestrator/Restore/Report.antt =====
-- internal/engine/orchestrator/restore.go: the preconditions of a restore, and the validation after it.
pub mod Laws
use portcloak.Base.{
  ℕ, ◌+◌, Bool, true, false, not, ◌&&◌, Option, none, some, List, [], ◌∷◌, ◌++◌, String, leb, ◌==◌,
  str_eq, length, concat, itoa, any, if◌then◌else◌,
}
use portcloak.Manifest.{Manifest, active_signing_key}
use portcloak.Orchestrator.Restore.Preview.{RealmShape}

pub record Precondition : Type 0 where
  pub kind : String
  pub name : String
  pub detected_at : String
  pub action : String
  pub consequence : String

plural : ℕ → String
plural n = if n == 1 then "" else "s"

-- The summary of `Preconditions`.
unfoldable pub preconditions_summary : String → List Precondition → String
unfolding plural
preconditions_summary scan ds =
    if not (str_eq scan "completed")
    then "Dependency detection did not run when this snapshot was captured, so PortCloak cannot say whether this realm needs anything the destination does not have."
    else elim ds [
      | [] ↦
          "This realm references no themes, provider JARs or keystore files outside the realm itself."
      | d ∷ more ↦ concat (
          "This realm expects "
          ∷ itoa (length (d ∷ more))
          ∷ " item"
          ∷ plural (length (d ∷ more))
          ∷ " to already exist on the destination. A realm referencing a missing theme or authenticator imports cleanly and then fails at login."
          ∷ [])
    ]

pub record ValidationRow : Type 0 where
  pub category : String
  pub expected : ℕ
  pub actual : ℕ
  pub is_fine : Bool
  pub note : String

pub record Validation : Type 0 where
  pub summary : String
  pub continuity_note : String
  pub rows : List ValidationRow
  pub performed : Bool
  pub token_continuity : Bool

unperformed : String → Validation
unperformed summary = record {
  summary = summary;
  continuity_note = "";
  rows = [];
  performed = false;
  token_continuity = false;
}

unfoldable pub not_performed : Validation
unfolding unperformed
not_performed =
    unperformed
      "Validation was not performed, because the destination's Admin API could not be read."

unfoldable pub not_read : Validation
unfolding unperformed
not_read =
    unperformed
      "Validation was not performed, because the destination realm could not be read back."

-- The closure `add`.
unfoldable pub row : String → ℕ → ℕ → ValidationRow
row category expected actual = record {
  category = category;
  expected = expected;
  actual = actual;
  is_fine = leb expected actual;
  note = "";
}

-- The key id that the destination must have, or an empty text.
unfoldable pub expected_kid : Manifest → String
unfolding active_signing_key
expected_kid m = elim (active_signing_key m) [ none ↦ "" | some k ↦ k.kid ]

unfoldable pub count_rows : Manifest → RealmShape → List ValidationRow
unfolding row
count_rows m shape =
    row "Users" m.counts.users shape.users
    ∷ row "Clients" m.counts.clients shape.clients
    ∷ row "Realm roles" m.counts.realm_roles shape.realm_roles
    ∷ row "Groups" m.counts.groups shape.groups
    ∷ row "Identity providers" m.counts.identity_providers shape.identity_providers
    ∷ row "User federation" m.counts.federations shape.federations
    ∷ []

unfoldable pub key_row : String → Bool → ValidationRow
key_row kid present = record {
  category = "Active signing key";
  expected = 1;
  actual = if present then 1 else 0;
  is_fine = present;
  note = concat ("kid " ∷ kid ∷ []);
}

abbrev pub drift_of : List ValidationRow → ℕ
drift_of [] = 0
drift_of (r ∷ rs) = if r.is_fine then drift_of rs else 1 + drift_of rs

abbrev pub reconciles : String
reconciles = "Every category reconciles with the manifest."

unfoldable pub drift_text : ℕ → String
drift_text n =
    if n == 0
    then reconciles
    else concat (
        itoa n
        ∷ " categor"
        ∷ (if n == 1 then "y" else "ies")
        ∷ " did not reconcile with the manifest."
        ∷ [])

-- `validate`, on a destination realm that was read.
unfoldable pub validation : Manifest → RealmShape → Validation
unfolding count_rows expected_kid key_row drift_text
validation m shape =
    let kid = expected_kid m in
    let present = any (str_eq kid) shape.key_ids in
    let rows = count_rows m shape ++ (if str_eq kid "" then [] else key_row kid present ∷ []) in
    record {
      summary = drift_text (drift_of rows);
      continuity_note =
          if str_eq kid ""
          then "This snapshot carried no active signing key, so token continuity could not be established."
          else if present
          then concat (
              "The active signing key (kid " ∷ kid
              ∷ ") is present on the destination, so tokens issued before the move still verify."
              ∷ [])
          else concat (
              "The active signing key (kid " ∷ kid
              ∷ ") is not on the destination, so tokens issued before the move will not verify here."
              ∷ []);
      rows = rows;
      performed = true;
      token_continuity = not (str_eq kid "") && present;
    }
