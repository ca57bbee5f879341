-- ===== src/Orchestrator/Restore.antt =====
-- internal/engine/orchestrator/restore.go: a restore, from its request to the end of its job. What the
-- session, the adapters, the destination and kc.sh answer are parameters on the world `S`. The lines of
-- `Log` and the counts of `Progress` change no record and are left out, and so is the clean-up after a
-- panic.
pub mod Preview
pub mod Report
pub mod Steps
pub mod Import
pub mod Reads
pub mod Queue
pub mod Gates
mod Tests
use portcloak.Base.{
  ℕ, ◌+◌, ◌/◌, Bool, true, false, not, ◌&&◌, Option, none, some, List, [], ◌∷◌, ◌++◌, String,
  str_eq, ◌==◌, concat, itoa, base_name, path_join, if◌then◌else◌,
}
use portcloak.Base.Int.{ℤ, pos, negsuc}
use portcloak.Base.Result.{Result, ok, err}
use portcloak.Resil.Errors.{
  GoError, Class, typed, typed_by, retryable, error_text, fatal, with_advice,
}
use portcloak.Config.Files.{Faults}
use portcloak.Config.Jobs.{
  Job, JobKind, restore, running, LedgerEntry, SnapshotOrigin, append, complete_phase, skip_phase,
}
use portcloak.Config.Jobs.Store.{Codec}
use portcloak.Config.Model.{
  Config, Environment, Storage, environment_kind_text, environment_by_name, storage_by_name,
}
use portcloak.Kc.{
  ImportStrategy, ImportRequest, KcCommand, OptionSet, BuildError, Ports, build_import,
}
use portcloak.Kc.Failure.{Outcome, Reason, classify_failure}
use portcloak.Manifest.{Manifest}
use portcloak.Snapshot.Ids.{new_id}
use portcloak.Orchestrator.{
  World, Event, phase_started, phase_completed, clone_created, job_state, save_job, fail, complete,
  record_phase,
}
use portcloak.Orchestrator.Request.{new_job, environment_target}
use portcloak.Orchestrator.Restore.Preview.{RealmShape, DiffCategory, diff_rows, total}
use portcloak.Orchestrator.Restore.Report.{
  Precondition, preconditions_summary, Validation, not_performed, not_read, validation,
}
use portcloak.Orchestrator.Restore.Reads.{DryRun, compute_dry_run, validate_restore, wants_name}
use portcloak.Orchestrator.Restore.Steps.{
  RestoreRequest, Session, Destination, Ran, is_zero, RestoreSteps, Sentences, strategy_overwrite,
  strategy_merge, Applied, nothing_applied, describe,
}
use portcloak.Orchestrator.Restore.Import.{tell, apply_import, phase_import, phase_integrity}

module _ {S Bytes : Type 0} (codec : Codec Bytes) (fs : Faults) (now : ℕ) (steps : RestoreSteps S)
    (texts : Sentences) (env : Environment) (st : Storage) (req : RestoreRequest) where
  -- The end of a restore whose import has failed.
  import_failed : Session → Applied → GoError → Job → World S Bytes → Job × World S Bytes
  unfolding append describe error_text fail
  import_failed session applied e j w =
      let entry : LedgerEntry = record {
        phase = phase_import;
        item = "destination state";
        attempts = 1;
        last_error = error_text e;
        outcome = describe applied;
        retryable = false;
        at = now;
      } in
      let (j', w') = fail codec fs now phase_import e (append j entry) w in
      (j', record w' { env = steps.audit "did not finish" (describe applied) w'.env })

  -- The end of one whose import has not.
  unfoldable pub import_done : Session → Applied → Job → World S Bytes → Job × World S Bytes
  unfolding complete_phase skip_phase complete tell describe
  import_done session applied j w =
      let (j₁, w₁) =
        tell codec fs now steps texts env req (phase_started "validate")
          (complete_phase j phase_import) w in
      let (v, s) = validate_restore steps texts req session w₁.env in
      let (j₂, w₂) =
        tell codec fs now steps texts env req (phase_completed "validate" v.summary) j₁
          (record w₁ { env = s }) in
      let j₃ = complete_phase j₂ "validate" in
      let j₄ = if v.performed then j₃ else skip_phase j₃ "validate" in
      let (j₅, w₃) =
        complete codec fs now
          (concat ("Restored " ∷ session.realm ∷ " into " ∷ env.name ∷ ". " ∷ v.summary ∷ [])) j₄
          w₂ in
      (
        j₅,
        record w₃ {
          env =
              steps.audit "restored"
                (concat (req.strategy ∷ " · " ∷ describe applied ∷ " · " ∷ v.summary ∷ [])) w₃.env;
        },
      )

  -- Past the gates: the informative steps, and the import.
  unfoldable pub past_gates : Session → Job → World S Bytes → Job × World S Bytes
  unfolding tell complete_phase preconditions_summary apply_import import_failed import_done
  past_gates session j w =
      let report = tell codec fs now steps texts env req in
      let (j₁, w₁) = report (phase_started "preconditions") j w in
      let (j₂, w₂) =
        report
          (phase_completed "preconditions"
            (preconditions_summary session.manifest.dependency_scan session.dependencies))
          j₁ w₁ in
      let (j₃, w₃) = report (phase_started "dryRun") (complete_phase j₂ "preconditions") w₂ in
      let (dry, s) = compute_dry_run steps texts req session w₃.env in
      let (j₄, w₄) =
        report (phase_completed "dryRun" (if dry.available then dry.summary else dry.unavailable))
          j₃ (record w₃ { env = s }) in
      let done =
        apply_import codec fs now steps texts env req session (complete_phase j₄ "dryRun") w₄ in
      elim done.error [
        | some e ↦ import_failed session done.applied e done.job done.world
        | none ↦ import_done session done.applied done.job done.world
      ]

  unproven : Session → GoError
  unfolding fatal with_advice
  unproven session =
      with_advice
        "Verify it against another copy, or capture again. Nothing was contacted on the destination."
        (fatal "verify the snapshot"
          (concat (
            "This snapshot could not be proven intact, so PortCloak will not write it to a target. "
            ∷ session.verify_message ∷ []))
          none)

  unconfirmed : Session → GoError
  unfolding fatal
  unconfirmed session =
      fatal "apply the import"
        (concat (
          "Overwriting "
          ∷ texts.quoted session.realm
          ∷ " replaces the realm that is already on "
          ∷ env.name
          ∷ ". Confirm by typing its name."
          ∷ []))
        none

  -- Once the snapshot is open: its origin, the proof of its integrity, and the confirmation.
  unfoldable pub with_session : Session → Job → World S Bytes → Job × World S Bytes
  unfolding save_job fail complete_phase unproven unconfirmed wants_name past_gates
  with_session session j w =
      let (j₁, w₁) =
        save_job codec fs now
          (record j {
            origin = some (record {
              captured_at = session.captured_at;
              environment = session.manifest.environment_name;
            });
          })
          w in
      if not session.verified
      then fail codec fs now phase_integrity (unproven session) j₁ w₁
      else (let (wanted, s) = wants_name steps texts req session w₁.env in
          let j₂ = complete_phase j₁ phase_integrity in
          let w₂ = record w₁ { env = s } in
          if wanted
          then fail codec fs now phase_import (unconfirmed session) j₂ w₂
          else past_gates session j₂ w₂)

  -- `runRestore`
  unfoldable pub run_restore : Job → World S Bytes → Job × World S Bytes
  unfolding save_job fail with_session
  run_restore j w =
      let (j₁, w₁) =
        save_job codec fs now (record j { state = running; started_at = some now }) w in
      let told =
        job_state running (concat ("Restoring " ∷ req.realm ∷ " into " ∷ env.name ∷ "." ∷ [])) in
      let (no_store, s) = steps.make_store w₁.env in
      let w₂ = record w₁ { env = s; events = w₁.events ++ (j₁.id, told) ∷ [] } in
      elim no_store [
        | some e ↦ fail codec fs now "download" e j₁ w₂
        | none ↦
            let ((session, e), s') = steps.open_session s in
            let w₃ = record w₂ { env = s' } in
            elim e [
              | some x ↦ fail codec fs now phase_integrity x j₁ w₃
              | none ↦ with_session session j₁ w₃
            ]
      ]
