-- ===== src/Manifest/Tests.antt =====
-- internal/engine/manifest/model.go: a manifest whose first key is for encryption, and a snapshot with a
-- category missing.
use portcloak.Base.{◌≡◌, refl, true, some, [], ◌∷◌, String, same_codes, lower_codes}
use portcloak.Base.Int.{ℤ, pos}
use portcloak.Manifest.{
  Key, Manifest, Completeness, captured, missing, full, gaps, recompute, active_signing_key,
  token_continuity,
}

abbrev key : String → String → String → ℤ → Key
key kid kind use_for priority = record {
  kid = kid;
  provider = "";
  kind = kind;
  algorithm = "";
  use_for = use_for;
  priority = priority;
  is_active = true;
  private_carried = true;
}

abbrev manifest : Manifest
manifest = record {
  counts = record {
    users = 0;
    clients = 0;
    client_scopes = 0;
    realm_roles = 0;
    client_roles = 0;
    groups = 0;
    identity_providers = 0;
    federations = 0;
    key_providers = 4;
    auth_flows = 0;
    required_actions = 0;
  };
  keys =
      key "a" "RSA" "ENC" (pos 300)
      ∷ key "b" "EC" "sig" (pos 200)
      ∷ key "c" "RSA" "sig" (pos 100)
      ∷ key "d" "RSA" "sig" (pos 100)
      ∷ [];
  clients = [];
  identity_providers = [];
  federations = [];
  environment_name = "";
  dependency_scan = "";
}

first_rsa_key : active_signing_key manifest ≡ some (key "c" "RSA" "sig" (pos 100))
unfolding active_signing_key same_codes lower_codes
first_rsa_key = refl

continuity_described : token_continuity manifest ≡ (
  true,
  "The active signing key (kid c, RSA) travels with this snapshot, so tokens issued before the move remain verifiable afterwards.",
)
unfolding token_continuity same_codes lower_codes
continuity_described = refl

abbrev incomplete : Completeness
incomplete = record {
  categories =
      record { name = "users"; status = captured; count = 2; reason = "" }
      ∷ record { name = "keys"; status = missing; count = 0; reason = "no private material" }
      ∷ [];
  warnings = [];
  verdict = full;
}

gaps_found : (recompute incomplete).verdict ≡ gaps
unfolding recompute
gaps_found = refl
