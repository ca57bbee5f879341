-- ===== src/Orchestrator/Restore/Report/Laws.antt =====
-- internal/engine/orchestrator/restore.go: what a validation that drifts nowhere says.
use portcloak.Base.{◌≡◌, ◌≢◌, ◌≤◌, some, In}
use portcloak.Manifest.{Manifest, Counts, Key, active_signing_key}
use portcloak.Orchestrator.Restore.Preview.{RealmShape}

-- Each count of the manifest is reached.
abbrev pub AreReached : Counts → RealmShape → Type 0
AreReached n shape =
    (n.users ≤ shape.users)
    × (n.clients ≤ shape.clients)
    × (n.realm_roles ≤ shape.realm_roles)
    × (n.groups ≤ shape.groups)
    × (n.identity_providers ≤ shape.identity_providers)
    × (n.federations ≤ shape.federations)

-- The active signing key has an identifier, and the destination has that key.
abbrev pub KeepsTokens : Manifest → RealmShape → Type 0
KeepsTokens m shape =
    (k : Key) × (active_signing_key m ≡ some k) × (k.kid ≢ "") × In k.kid shape.key_ids
