-- ===== src/Manifest/Ledger/Tests.antt =====
-- internal/engine/manifest/model.go: a ledger of two secrets, of which one is masked.
use portcloak.Base.{◌≡◌, refl, Bool, true, false, List, [], ◌∷◌, String, map}
use portcloak.Manifest.Ledger.{Secret, kind_label, secret_counts, sort_secrets}

abbrev secret : String → String → Bool → Secret
secret kind location masked = record {
  kind = kind;
  location = location;
  is_carried = true;
  is_masked = masked;
  note = "";
  algorithm = "";
}

abbrev ledger : List Secret
ledger = secret "smtp" "smtpServer" false ∷ secret "client-secret" "clients[web]" true ∷ []

counted : secret_counts ledger ≡ (2, 2, 1)
unfolding secret_counts
counted = refl

client_first :
    map (λ (s : Secret). kind_label s.kind) (sort_secrets ledger)
    ≡ "Client secret" ∷ "SMTP password" ∷ []
unfolding sort_secrets kind_label
client_first = refl
