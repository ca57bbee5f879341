-- ===== src/Manifest.antt =====
-- internal/engine/manifest/model.go: what a manifest says of a realm, as far as a restore and the library
-- read it: the counts, the keys, the entries that arrive without a secret, and the verdict.
pub mod Laws
pub mod Ledger
mod Tests
use portcloak.Base.{
  ℕ, ◌+◌, Bool, true, false, not, ◌&&◌, ◌||◌, Option, none, some, List, [], ◌∷◌, String, ltb, ◌==◌,
  str_eq, concat, codes, lower_codes, same_codes, any, map, if◌then◌else◌,
}
use portcloak.Base.Int.{ℤ, pos, negsuc}

pub data Status : Type 0 where
  captured partial missing out_of_scope not_checked : Status

pub record Category : Type 0 where
  pub name : String
  pub status : Status
  pub count : ℕ
  pub reason : String

pub data Verdict : Type 0 where
  full partial gaps : Verdict

pub record Completeness : Type 0 where
  pub categories : List Category
  pub warnings : List String
  pub verdict : Verdict

-- One round of the loop of `Recompute`.
step : Verdict → Status → Verdict
step v missing = gaps
step gaps Status.partial = gaps
step v Status.partial = Verdict.partial
step v _ = v

fold_verdict : Verdict → List Category → Verdict
unfolding step
fold_verdict v [] = v
fold_verdict v (c ∷ cs) = fold_verdict (step v c.status) cs

-- `Recompute`
unfoldable pub recompute : Completeness → Completeness
unfolding fold_verdict
recompute c = record c { verdict = fold_verdict full c.categories }

pub record Key : Type 0 where
  pub kid : String
  pub provider : String
  pub kind : String
  pub algorithm : String
  pub use_for : String
  pub priority : ℤ
  pub is_active : Bool
  pub private_carried : Bool

pub record ClientSummary : Type 0 where
  pub client_id : String
  pub is_confidential : Bool
  pub secret_present : Bool

pub record IdpSummary : Type 0 where
  pub alias : String
  pub secret_carried : Bool

pub record FederationSummary : Type 0 where
  pub name : String
  pub bind_carried : Bool

pub record Counts : Type 0 where
  pub users : ℕ
  pub clients : ℕ
  pub client_scopes : ℕ
  pub realm_roles : ℕ
  pub client_roles : ℕ
  pub groups : ℕ
  pub identity_providers : ℕ
  pub federations : ℕ
  pub key_providers : ℕ
  pub auth_flows : ℕ
  pub required_actions : ℕ

pub record Manifest : Type 0 where
  pub counts : Counts
  pub keys : List Key
  pub clients : List ClientSummary
  pub identity_providers : List IdpSummary
  pub federations : List FederationSummary
  pub environment_name : String
  pub dependency_scan : String

-- `a > b`
above : ℤ → ℤ → Bool
above (pos a) (pos b) = ltb b a
above (pos a) (negsuc b) = true
above (negsuc a) (pos b) = false
above (negsuc a) (negsuc b) = ltb a b

-- `signingRank`
signing_rank : Key → ℕ
signing_rank k =
    if str_eq k.kind "RSA"
    then 3
    else if str_eq k.kind "EC" || str_eq k.kind "keystore"
    then 2
    else 1

-- Whether a key can be the active signing key.
unfoldable pub can_sign : Key → Bool
can_sign k = k.is_active && not (same_codes (lower_codes (codes k.use_for)) (codes "enc"))

unfoldable pub outranks : Key → Key → Bool
unfolding signing_rank above
outranks k best =
    ltb (signing_rank best) (signing_rank k)
    || signing_rank k == signing_rank best && above k.priority best.priority

best_key : Option Key → List Key → Option Key
unfolding can_sign outranks
best_key best [] = best
best_key best (k ∷ ks) =
    best_key
      (if can_sign k
        then elim best [ none ↦ some k | some b ↦ if outranks k b then some k else some b ]
        else best)
      ks

-- `ActiveSigningKey`
unfoldable pub active_signing_key : Manifest → Option Key
unfolding best_key
active_signing_key m = best_key none m.keys

-- `strings.Join(parts, ", ")` of at most two texts, of which an empty one is left out.
describe_key : Key → String
describe_key k =
    let how = if str_eq k.algorithm "" then k.kind else k.algorithm in
    if str_eq k.kid ""
    then if str_eq how "" then k.provider else how
    else if str_eq how ""
    then concat ("kid " ∷ k.kid ∷ [])
    else concat ("kid " ∷ k.kid ∷ ", " ∷ how ∷ [])

-- `TokenContinuity`
unfoldable pub token_continuity : Manifest → Bool × String
unfolding active_signing_key describe_key
token_continuity m = elim (active_signing_key m) [
  | none ↦ (
    false,
    "No active signing key was found in this snapshot, so tokens issued before a restore will not verify against the destination.",
  )
  | some k ↦
      if k.private_carried
      then (
        true,
        concat (
            "The active signing key ("
            ∷ describe_key k
            ∷ ") travels with this snapshot, so tokens issued before the move remain verifiable afterwards."
            ∷ []),
      )
      else (
        false,
        concat (
            "The active signing key ("
            ∷ describe_key k
            ∷ ") travelled without its private material, so tokens issued before a restore will not verify against the destination."
            ∷ []),
      )
]
