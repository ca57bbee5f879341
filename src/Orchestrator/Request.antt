-- ===== src/Orchestrator/Request.antt =====
-- internal/engine/orchestrator/capture.go: `Capture`, which checks a request and queues a job for each
-- realm. The batch that it detaches is a result, for `run_capture_batch`. `random` gives the random bytes
-- of each identifier; an error is a value in place of its sentence.
pub mod Checks
mod Tests
use portcloak.Base.{
  ℕ, suc, zero, ◌/◌, Bool, true, false, not, ◌&&◌, Option, none, some, List, [], ◌∷◌, String,
  str_eq, concat, if◌then◌else◌,
}
use portcloak.Base.Int.{ℤ, pos, nonpositive}
use portcloak.Base.Result.{Result, ok, err}
use portcloak.Config.Files.{Faults}
use portcloak.Config.Jobs.{Job, JobKind, capture, queued}
use portcloak.Config.Jobs.Store.{Codec}
use portcloak.Config.Model.{
  Config, Environment, EnvironmentKind, local, ssh, docker, kubernetes, unset, unknown, Storage,
  environment_kind_text, environment_by_name, storage_by_name,
}
use portcloak.Config.Preferences.{resolved}
use portcloak.Crypto.{Encryption, EncryptionError, validate_encryption}
use portcloak.Kc.{clamp_users_per_file}
use portcloak.Snapshot.Ids.{new_id}
use portcloak.Orchestrator.{World, save_job}

pub record CaptureRequest : Type 0 where
  pub environment : String
  pub realms : List String
  pub storage : String
  pub users_mode : String
  pub users_per_file : ℤ
  pub verify : Bool
  pub detect_dependencies : Bool
  pub no_transaction_timeout : Bool
  pub encryption : Encryption

pub record CaptureHandle : Type 0 where
  pub job_ids : List String
  pub realms : List String

-- The handle, and the arguments of the batch.
pub record Batch : Type 0 where
  pub handle : CaptureHandle
  pub environment : Environment
  pub storage : Storage
  pub request : CaptureRequest
  pub jobs : List Job

pub data RequestError : Type 0 where
  no_environment no_storage encryption_required : String → RequestError
  no_realm : RequestError
  encryption_refused : EncryptionError → RequestError

-- `Environment.Target`
unfoldable pub environment_target : Environment → String
environment_target e = elim e.kind [
  | local ↦ e.server_folder
  | ssh ↦ concat (e.user ∷ "@" ∷ e.host ∷ ":" ∷ e.server_folder ∷ [])
  | docker ↦ e.container
  | kubernetes ↦ concat (e.namespace ∷ "/" ∷ e.workload ∷ [])
  | _ ↦ ""
]

-- `newJob`
unfoldable pub new_job : ℕ → JobKind → String → Job
new_job now kind id = record {
  id = id;
  kind = kind;
  state = queued;
  phase = "";
  realm = "";
  source = "";
  environment = "";
  storage = "";
  snapshot_id = "";
  storage_key = "";
  origin = none;
  encrypted = false;
  encryption_mode = "";
  recipients = [];
  created_at = now;
  updated_at = now;
  started_at = none;
  ended_at = none;
  message = "";
  hint = "";
  retryable = false;
  ledger = [];
  checkpoint = none;
  provenance = record {
    environment_kind = "";
    execution_mode = "";
    clone_ref = "";
    keycloak_version = "";
    capture_mode = "";
  };
  completed_phases = [];
  skipped_phases = [];
}

-- The job of a realm.
unfoldable pub capture_job : ℕ → Environment → Storage → Encryption → String → String → Job
unfolding new_job environment_target
capture_job now env st enc id realm =
    let j = new_job now capture id in
    record j {
      realm = realm;
      environment = env.name;
      storage = st.name;
      source = environment_target env;
      encrypted = enc.enabled;
      encryption_mode = if enc.enabled then enc.mode else "";
      recipients = if enc.enabled then enc.recipients else [];
      provenance = record j.provenance {
        environment_kind = environment_kind_text env.kind;
        capture_mode = "offline-export";
      };
      message = "Queued.";
    }

-- A request with what it leaves out.
unfoldable pub settled : Config → CaptureRequest → CaptureRequest
unfolding resolved clamp_users_per_file
settled cfg req =
    let prefs = resolved cfg.preferences in
    let pages =
      if nonpositive req.users_per_file then prefs.users_per_file else req.users_per_file in
    record req {
      users_mode = if str_eq req.users_mode "" then prefs.users_mode else req.users_mode;
      users_per_file = pos (clamp_users_per_file pages);
    }

unfoldable pub ids_of : List Job → List String
ids_of [] = []
ids_of (j ∷ js) = j.id ∷ ids_of js

module _ (is_public_key : String → Bool) where
  -- The checks of `Capture`, in their order.
  unfoldable pub check_request :
      Config → CaptureRequest → Result RequestError (Environment × Storage)
  unfolding environment_by_name storage_by_name validate_encryption
  check_request cfg req = elim (environment_by_name cfg req.environment) [
    | none ↦ err (no_environment req.environment)
    | some env ↦ elim (storage_by_name cfg req.storage) [
      | none ↦ err (no_storage req.storage)
      | some st ↦ elim req.realms [
        | [] ↦ err no_realm
        | r ∷ rs ↦
            if st.encryption_required && not req.encryption.enabled
            then err (encryption_required st.name)
            else elim (validate_encryption is_public_key req.encryption) [
              | some e ↦ err (encryption_refused e)
              | none ↦ ok (env, st)
            ]
      ]
    ]
  ]

module _ {S Bytes : Type 0} (codec : Codec Bytes) (fs : Faults) (now : ℕ)
    (is_public_key : String → Bool) (random : ℕ → List ℕ) where
  -- The loop over the realms, from the n-th on.
  unfoldable pub queue_all :
      (ℕ → String → Job) → ℕ → List String → World S Bytes → List Job × World S Bytes
  unfolding save_job
  queue_all job_of n [] w = ([], w)
  queue_all job_of n (r ∷ rs) w =
      let (j, w₁) = save_job codec fs now (job_of n r) w in
      let (js, w₂) = queue_all job_of (suc n) rs w₁ in (j ∷ js, w₂)

  -- Past the checks.
  unfoldable pub queue_batch :
      Config → CaptureRequest → Environment → Storage → World S Bytes → Batch × World S Bytes
  unfolding queue_all ids_of settled capture_job new_id
  queue_batch cfg req env st w =
      let job_of : ℕ → String → Job =
        λ n r. capture_job now env st req.encryption (new_id (now / 1000000) (random n)) r in
      let (js, w') = queue_all job_of 0 req.realms w in
      (
        record {
          handle = record { job_ids = ids_of js; realms = req.realms };
          environment = env;
          storage = st;
          request = settled cfg req;
          jobs = js;
        },
        w',
      )

  -- `Capture`
  unfoldable pub queue_capture :
      Config → CaptureRequest → World S Bytes → Result RequestError Batch × World S Bytes
  unfolding check_request queue_batch
  queue_capture cfg req w = elim (check_request is_public_key cfg req) [
    | err e ↦ (err e, w)
    | ok (env, st) ↦ let (b, w') = queue_batch cfg req env st w in (ok b, w')
  ]
