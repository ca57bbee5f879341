-- ===== src/Orchestrator/Tests.antt =====
-- internal/engine/orchestrator: a job that fails, and clones whose `Prepare` fails, over a world that
-- counts the clones that run.
use portcloak.Base.{◌≡◌, refl, ℕ, ◌+◌, ◌-◌, true, false, not, none, some, [], ◌∷◌, if◌then◌else◌}
use portcloak.Resil.Errors.{GoError, typed, retryable}
use portcloak.Config.Files.{Faults}
use portcloak.Config.Jobs.{Job, capture, running, is_resumable, is_terminal}
use portcloak.Config.Jobs.Store.{Codec}
use portcloak.Orchestrator.{World, phase_upload, fail_job, plan_resume}
use portcloak.Orchestrator.Capture.{ExecContext, Steps, teardown, run_clone}
use portcloak.Orchestrator.Capture.Teardown.{teardown_once, failed_prepare_stays}
use portcloak.Orchestrator.Outcomes.{fail_resumable, is_dropped, has_bundle, expected_plan}

abbrev no_faults : Faults
no_faults = record {
  on_write = λ c n. false;
  on_read = λ n. false;
  on_remove = λ n. false;
  on_list = false;
}

-- The bytes of a job are the job.
abbrev codec : Codec Job
codec = record { marshal = λ j. some j; unmarshal = λ j. some j; size = λ j. 1 }

abbrev job : Job
job = record {
  id = "a";
  kind = capture;
  state = running;
  phase = "upload";
  realm = "acme";
  source = "";
  environment = "dev";
  storage = "nas";
  snapshot_id = "";
  storage_key = "";
  origin = none;
  encrypted = false;
  encryption_mode = "";
  recipients = [];
  created_at = 5;
  updated_at = 6;
  started_at = some 5;
  ended_at = none;
  message = "";
  hint = "";
  retryable = false;
  ledger = [];
  checkpoint = some (record {
    stage = "upload";
    key = "acme/one.pck";
    byte_offset = 400;
    upload_id = "";
    parts = [];
    blocks = [];
    fetched_artifacts = [];
    local_bundle = "/work/a/bundle.pck";
    digest = "";
    hash_state = [];
    updated_at = 6;
  });
  provenance = record {
    environment_kind = "";
    execution_mode = "";
    clone_ref = "";
    keycloak_version = "";
    capture_mode = "";
  };
  completed_phases = [];
  skipped_phases = [];
}

abbrev dropped : GoError
dropped =
    typed
      (record { op = "upload"; message = "dropped"; advice = ""; endpoint = ""; class = retryable })

fail_resumable_example :
    let j' = fail_job 9 phase_upload dropped job in
    (is_resumable j'.state ≡ is_dropped dropped)
    × (is_terminal j'.state ≡ not (is_dropped dropped))
    × (j'.ended_at ≡ (if is_dropped dropped then none else some 9))
    × (j'.checkpoint ≡ job.checkpoint)
    × ((plan_resume (λ f. true) j').kind
        ≡ expected_plan (is_dropped dropped) (has_bundle (λ f. true) job))
fail_resumable_example = fail_resumable (λ f. true) 9 phase_upload dropped job refl

-- Each `Prepare` creates a clone, and fails before it is ready; a teardown destroys one.
abbrev nowhere : ExecContext
nowhere = record { work_dir = ""; clone_ref = "" }

abbrev stuck : Steps ℕ (Unit {0})
stuck = record {
  make_executor = λ n. (none, n);
  make_store = λ n. (none, n);
  probe = λ n. ((record { blocker = none; summary = "" }, none), n);
  prepare = λ n. ((nowhere, some dropped), n + 1);
  teardown = λ n. (none, n - 1);
  discover = λ n. n;
  ctx_err = λ n. none;
  collect = λ j n. ((none, j), n);
  seal_and_store = λ c j n. (j, n);
}

abbrev idle : World ℕ Job
idle = record { env = 0; dir = []; torn_down = []; events = [] }

abbrev batch : World ℕ Job → World ℕ Job
batch w = (run_clone codec no_faults 7 stuck (job ∷ []) w).1

first_clone_destroyed : (batch idle).env ≡ 0
unfolding run_clone
first_clone_destroyed = refl

second_clone_runs : (batch (batch idle)).env ≡ 1
unfolding run_clone
second_clone_runs = refl

failed_prepare_stays_example : (batch (batch idle)).env ≡ (batch idle).env + 1
failed_prepare_stays_example =
    failed_prepare_stays codec no_faults 7 stuck stuck nowhere (job ∷ []) (job ∷ []) idle dropped
      dropped refl refl

teardown_once_example :
    let w' = (teardown codec no_faults 7 stuck nowhere (job ∷ []) idle).1 in
    teardown codec no_faults 7 stuck nowhere [] w' ≡ ([], w')
teardown_once_example = teardown_once codec no_faults 7 stuck nowhere (job ∷ []) [] idle
