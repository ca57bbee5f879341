-- ===== src/Config/Jobs/Tests.antt =====
-- The job records on a folder of two: one that was running when the process died, and one that is done.
use portcloak.Base.{
  ℕ, ◌≡◌, refl, true, false, ◌&&◌, none, some, [], ◌∷◌, String, arith, eq_iff, if◌then◌else◌,
  sort_by, sym,
}
use portcloak.Base.Dict
use portcloak.Base.Dict.{Dict}
use portcloak.Base.Result.{ok, err}
use portcloak.Config.Files.{Faults}
use portcloak.Config.Jobs.{Job, JobState, JobKind, LedgerEntry}
use portcloak.Config.Jobs.Store.{
  Codec, not_found, save, load, list_jobs, purge_finished, IsNamed, purge_all, load_all, delete,
}
use portcloak.Config.Jobs.Loads.{is_saved, load-save}
use portcloak.Config.Jobs.Purge.{purge_finished_lem}

abbrev no_faults : Faults
no_faults = record {
  on_write = λ c n. false;
  on_read = λ n. false;
  on_remove = λ n. false;
  on_list = false;
}

-- The bytes of a job are the job.
abbrev codec : Codec Job
codec = record { marshal = λ j. some j; unmarshal = λ j. some j; size = λ j. 1 }

abbrev entry : LedgerEntry
entry = record {
  phase = "upload";
  item = "users-0";
  attempts = 1;
  last_error = "reset";
  outcome = "failed";
  retryable = true;
  at = 4;
}

abbrev again : LedgerEntry
again = record entry { attempts = 2; last_error = ""; outcome = "completed"; at = 9 }

abbrev alive : Job
alive = record {
  id = "a";
  kind = JobKind.capture;
  state = JobState.running;
  phase = "upload";
  realm = "main";
  source = "";
  environment = "dev";
  storage = "nas";
  snapshot_id = "";
  storage_key = "";
  origin = none;
  encrypted = false;
  encryption_mode = "";
  recipients = [];
  created_at = 5;
  updated_at = 6;
  started_at = some 5;
  ended_at = none;
  message = "";
  hint = "";
  retryable = false;
  ledger = entry ∷ [];
  checkpoint = none;
  provenance = record {
    environment_kind = "";
    execution_mode = "";
    clone_ref = "";
    keycloak_version = "";
    capture_mode = "";
  };
  completed_phases = "export" ∷ [];
  skipped_phases = [];
}

abbrev done : Job
done = record alive { id = "b"; state = JobState.completed; environment = "prod"; created_at = 2 }

abbrev folder : Dict Job
folder = ("a", alive) ∷ ("b", done) ∷ []

folder-IsNamed : IsNamed codec no_faults folder
unfolding load Dict.get
folder-IsNamed id j h = ground (arith, h, eq_iff "a" id, eq_iff "b" id)

abbrev clock : String → ℕ
clock id = 20

purge_finished_lem_example :
    load codec no_faults "b" (purge_finished codec no_faults (λ id. false) folder).1
    ≡ err (not_found "b")
unfolding list_jobs purge_all sort_by load_all Dict.keys load Dict.get delete purge_finished
purge_finished_lem_example =
    purge_finished_lem codec no_faults (λ id. false) folder "b" folder-IsNamed refl

load-save_example :
    let (res, dir') = save codec no_faults 9 (record done { state = JobState.failed }) folder in
    load codec no_faults "b" dir' ≡ (
      if is_saved res && true
      then ok (record done { state = JobState.failed; updated_at = 9 })
      else load codec no_faults "b" folder)
load-save_example =
    load-save codec no_faults (λ j b e. sym e) 9 (record done { state = JobState.failed }) folder
      "b" refl
