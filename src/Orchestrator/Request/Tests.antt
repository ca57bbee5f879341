-- ===== src/Orchestrator/Request/Tests.antt =====
-- internal/engine/orchestrator/capture.go: two realms captured into a storage that wants encryption.
use portcloak.Base.{
  ◌≡◌, refl, ◌⊎◌, ℕ, ◌≤◌, Bool, true, false, some, length, List, [], ◌∷◌, String, str_eq, map, All,
}
use portcloak.Base.Int.{pos}
use portcloak.Base.Result.{Result, ok, err}
use portcloak.Config.Fixtures.{no_faults, config, main_disk}
use portcloak.Config.Jobs.{Job}
use portcloak.Config.Jobs.Store.{Codec}
use portcloak.Config.Model.{Config}
use portcloak.Crypto.{mode_recipients}
use portcloak.Orchestrator.{World}
use portcloak.Orchestrator.Request.{
  CaptureRequest, Batch, RequestError, encryption_required, queue_capture,
}
use portcloak.Orchestrator.Request.Checks.{IsChecked, IsQueuedFor, queue_capture_lem}

abbrev codec : Codec Job
codec = record { marshal = λ j. some j; unmarshal = λ j. some j; size = λ j. 1 }

abbrev strict : Config
strict = record config { storage = record main_disk { encryption_required = true } ∷ [] }

abbrev is_public_key : String → Bool
is_public_key s = str_eq s "age1abc"

abbrev random : ℕ → List ℕ
random n = n ∷ 2 ∷ 3 ∷ 4 ∷ []

abbrev request : CaptureRequest
request = record {
  environment = "prod";
  realms = "acme" ∷ "beta" ∷ [];
  storage = "disk";
  users_mode = "";
  users_per_file = pos 5000;
  verify = true;
  detect_dependencies = false;
  no_transaction_timeout = false;
  encryption = record {
    enabled = true;
    mode = mode_recipients;
    passphrase = "";
    recipients = " age1abc " ∷ [];
  };
}

abbrev plain : CaptureRequest
plain = record request { encryption = record request.encryption { enabled = false } }

abbrev idle : World (Unit {0}) Job
idle = record { env = tt; dir = []; torn_down = []; events = [] }

refused_unencrypted :
    (queue_capture codec no_faults 7000000 is_public_key random strict plain idle).0
    ≡ err (encryption_required "disk")
unfolding queue_capture
refused_unencrypted = refl

accepted_jobs : Result RequestError Batch → ℕ
accepted_jobs (ok b) = length b.jobs
accepted_jobs (err e) = 0

two_realms_queued :
    accepted_jobs (queue_capture codec no_faults 7000000 is_public_key random strict request idle).0
    ≡ 2
unfolding queue_capture accepted_jobs
two_realms_queued = refl

queue_capture_lem_example :
    let (res, w') =
      queue_capture codec no_faults 7000000 is_public_key random strict request idle in
    ((e : RequestError) × (res ≡ err e) × (w' ≡ idle))
    ⊎ ((b : Batch) × (res ≡ ok b)
        × IsChecked is_public_key strict request b.environment b.storage
        × (map (λ (j : Job). j.realm) b.jobs ≡ request.realms)
        × (map (λ (j : Job). j.id) b.jobs ≡ b.handle.job_ids)
        × All (IsQueuedFor b.environment b.storage request.encryption) b.jobs
        × ((n : ℕ) × (b.request.users_per_file ≡ pos n) × (10 ≤ n) × (n ≤ 1000)))
queue_capture_lem_example =
    queue_capture_lem codec no_faults 7000000 is_public_key random strict request idle
