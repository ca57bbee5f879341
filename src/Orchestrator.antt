-- ===== src/Orchestrator.antt =====
-- internal/engine/orchestrator: how a job ends, what it announces and what a resume would do
-- (orchestrator.go, resume.go), and in Orchestrator/Capture.antt the batch that shares one execution
-- context (capture.go). A record is saved through the store of Config/Jobs/Store.antt; a save that
-- fails is logged only, so its result is dropped. One call reads the clock once: `now`.
pub mod Capture
pub mod Outcomes
pub mod Request
pub mod Restore
mod Tests
use portcloak.Base.{
  ◌≡◌, ℕ, ◌+◌, Bool, true, false, not, ◌&&◌, Option, none, some, List, [], ◌∷◌, ◌++◌, String, ltb,
  length, str_eq, concat, if◌then◌else◌,
}
use portcloak.Base.Dict
use portcloak.Base.Dict.{Dict}
use portcloak.Base.Result.{Result, ok, err}
use portcloak.Resil.Errors.{
  GoError, canceled, deadline_exceeded, foreign, wrapped, typed, typed_by, is_retryable, error_text,
  hint, fatal,
}
use portcloak.Config.Files.{Faults}
use portcloak.Config.Jobs.{
  Job, JobKind, JobState, LedgerEntry, Checkpoint, capture, queued, running, interrupted, completed,
  failed, cancelled, is_resumable, append, complete_phase,
}
use portcloak.Config.Jobs.Store.{Codec, save}

-- The phases of `obs`, as the texts that they are.
abbrev pub Phase : Type 0
Phase = String

abbrev pub phase_probe : Phase
phase_probe = "probe"

abbrev pub phase_clone : Phase
phase_clone = "clone"

abbrev pub phase_export : Phase
phase_export = "export"

abbrev pub phase_teardown : Phase
phase_teardown = "teardown"

abbrev pub phase_upload : Phase
phase_upload = "upload"

-- The events that a job's reporter sends.
pub data Event : Type 0 where
  phase_started : Phase → Event
  phase_completed phase_failed : Phase → String → Event
  clone_created clone_destroyed : String → Event
  job_state : JobState → String → Event

-- `errors.Is(err, context.Canceled)`
unfoldable pub is_canceled : GoError → Bool
is_canceled canceled = true
is_canceled deadline_exceeded = false
is_canceled (foreign f) = false
is_canceled (wrapped f e) = is_canceled e
is_canceled (typed t) = false
is_canceled (typed_by t e) = is_canceled e

unfoldable pub state_text : JobState → String
state_text queued = "queued"
state_text running = "running"
state_text interrupted = "interrupted"
state_text completed = "completed"
state_text failed = "failed"
state_text cancelled = "cancelled"

-- The switch of `fail`.
unfoldable pub ended_by : GoError → Job → Job
unfolding is_canceled error_text hint is_retryable
ended_by e j =
    if is_canceled e
    then record j { state = cancelled; message = "Cancelled." }
    else if is_retryable (some e)
    then record j {
      state = interrupted;
      ended_at = none;
      retryable = true;
      message = error_text e;
      hint = hint e;
    }
    else record j { state = failed; message = error_text e; hint = hint e }

-- The record that `fail` leaves.
unfoldable pub fail_job : ℕ → Phase → GoError → Job → Job
unfolding ended_by state_text append
fail_job now phase e j =
    let j' = ended_by e (record j { ended_at = some now; phase = phase }) in
    append j' (record {
      phase = phase;
      item = j'.realm;
      attempts = 1;
      last_error = j'.message;
      outcome = state_text j'.state;
      retryable = j'.retryable;
      at = now;
    })

-- The record that `complete` leaves.
unfoldable pub complete_job : ℕ → String → Job → Job
complete_job now message j = record j {
  state = completed;
  ended_at = some now;
  message = message;
  checkpoint = none;
}

-- `recordPhase`: whether the record has changed, and the record.
unfoldable pub record_phase : Job → Event → Bool × Job
unfolding complete_phase
record_phase j (phase_started p) =
    if str_eq j.phase p then (false, j) else (true, record j { phase = p })
record_phase j (phase_completed p message) =
    let j' = complete_phase j p in
    (ltb (length j.completed_phases) (length j'.completed_phases), j')
record_phase j _ = (false, j)

-- What the orchestrator keeps: the folder of records, the keys of the contexts that are torn down,
-- the events sent with their job's id, and the world outside.
pub record World (S Bytes : Type 0) : Type 0 where
  pub env : S
  pub dir : Dict Bytes
  pub torn_down : List String
  pub events : List (String × Event)

module _ {S Bytes : Type 0} (codec : Codec Bytes) (fs : Faults) (now : ℕ) where
  -- `saveJob`
  unfoldable pub save_job : Job → World S Bytes → Job × World S Bytes
  unfolding save
  save_job j w =
      let (res, dir) = save codec fs now j w.dir in
      (record j { updated_at = now }, record w { dir = dir })

  -- The reporter of `reporterFor`: each job of the batch records the phase and is sent the event.
  unfoldable pub announce : Event → List Job → World S Bytes → List Job × World S Bytes
  unfolding record_phase save_job
  announce e [] w = ([], w)
  announce e (j ∷ js) w =
      let (changed, j₁) = record_phase j e in
      let (j₂, w₁) = if changed then save_job j₁ w else (j₁, w) in
      let (js', w₂) = announce e js (record w₁ { events = w₁.events ++ (j₂.id, e) ∷ [] }) in
      (j₂ ∷ js', w₂)

  -- `fail`
  unfoldable pub fail : Phase → GoError → Job → World S Bytes → Job × World S Bytes
  unfolding fail_job save_job
  fail phase e j w =
      let (j', w') = save_job (fail_job now phase e j) w in
      (
        j',
        record w' {
          events =
              w'.events
              ++ (j'.id, phase_failed phase j'.message)
                ∷ (j'.id, job_state j'.state j'.message)
                ∷ [];
        },
      )

  unfoldable pub fail_all : Phase → GoError → List Job → World S Bytes → List Job × World S Bytes
  unfolding fail
  fail_all phase e [] w = ([], w)
  fail_all phase e (j ∷ js) w =
      let (j', w₁) = fail phase e j w in let (js', w₂) = fail_all phase e js w₁ in (j' ∷ js', w₂)

  -- `complete`
  unfoldable pub complete : String → Job → World S Bytes → Job × World S Bytes
  unfolding complete_job save_job
  complete message j w =
      let (j', w') = save_job (complete_job now message j) w in
      (j', record w' { events = w'.events ++ (j'.id, job_state completed message) ∷ [] })

pub data ResumeKind : Type 0 where
  resume_upload resume_restart resume_unavailable : ResumeKind

pub record ResumePlan : Type 0 where
  pub kind : ResumeKind
  pub reason : String

-- `PlanResume`; `exists` is `os.Stat` without an error.
unfoldable pub plan_resume : (String → Bool) → Job → ResumePlan
unfolding state_text
plan_resume exists j =
    if not (is_resumable j.state)
    then record {
      kind = resume_unavailable;
      reason =
          concat ("This job is " ∷ state_text j.state ∷ ", so there is nothing to resume." ∷ []);
    }
    else elim j.kind [
      | capture ↦ elim j.checkpoint [
        | none ↦ export_again
        | some cp ↦
            if str_eq cp.local_bundle ""
            then export_again
            else if exists cp.local_bundle
            then record {
              kind = resume_upload;
              reason =
                  "The snapshot is already sealed on this machine, so resuming only repeats the upload.";
            }
            else record {
              kind = resume_restart;
              reason =
                  "The sealed bundle is no longer on this machine, so resuming runs the export again.";
            }
      ]
      | _ ↦ record {
        kind = resume_unavailable;
        reason =
            "A restore is not resumed automatically. Keycloak's import is not transactional, so replaying one is not always safe. Review what was applied and start again deliberately.";
      }
    ]
  where
    export_again : ResumePlan
    export_again = record {
      kind = resume_restart;
      reason = "The export did not finish, so resuming runs it again. Nothing partial was kept.";
    }
