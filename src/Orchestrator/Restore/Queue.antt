-- ===== src/Orchestrator/Restore/Queue.antt =====
-- internal/engine/orchestrator/restore.go: `Restore`, which checks a request and queues its job.
use portcloak.Base.{ℕ, ◌/◌, none, some, List, String, str_eq, if◌then◌else◌}
use portcloak.Base.Result.{Result, ok, err}
use portcloak.Config.Files.{Faults}
use portcloak.Config.Jobs.{Job, restore}
use portcloak.Config.Jobs.Store.{Codec}
use portcloak.Config.Model.{
  Config, Environment, Storage, environment_kind_text, environment_by_name, storage_by_name,
}
use portcloak.Snapshot.Ids.{new_id}
use portcloak.Orchestrator.{World, save_job}
use portcloak.Orchestrator.Request.{new_job, environment_target}
use portcloak.Orchestrator.Restore.Steps.{RestoreRequest}

pub data RestoreError : Type 0 where
  no_environment no_storage : String → RestoreError
  no_strategy : RestoreError

-- The job of a restore.
restore_job : ℕ → RestoreRequest → Environment → Storage → String → Job
unfolding new_job environment_target
restore_job now req env st id =
    let j = new_job now restore id in
    record j {
      realm = req.realm;
      environment = env.name;
      storage = st.name;
      snapshot_id = req.snapshot_id;
      storage_key = req.bundle_key;
      source = environment_target env;
      provenance = record j.provenance { environment_kind = environment_kind_text env.kind };
      message = "Queued.";
    }

-- `Restore`, from the random bytes of the job's identifier. What it detaches is `run_restore`, on the
-- environment, the storage and the job that are the result.
unfoldable pub queue_restore :
    {S Bytes : Type 0}
    → Codec Bytes
    → Faults
    → ℕ
    → List ℕ
    → Config
    → RestoreRequest
    → World S Bytes
    → Result RestoreError (Environment × Storage × Job) × World S Bytes
unfolding environment_by_name storage_by_name new_id restore_job save_job
queue_restore codec fs now random cfg req w = elim (environment_by_name cfg req.environment) [
  | none ↦ (err (no_environment req.environment), w)
  | some env ↦ elim (storage_by_name cfg req.storage) [
    | none ↦ (err (no_storage req.storage), w)
    | some st ↦
        if str_eq req.strategy ""
        then (err no_strategy, w)
        else (let id = new_id (now / 1000000) random in
            let (j, w') = save_job codec fs now (restore_job now req env st id) w in
            (ok (env, st, j), w'))
  ]
]
