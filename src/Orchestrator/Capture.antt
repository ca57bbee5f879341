-- ===== src/Orchestrator/Capture.antt =====
-- internal/engine/orchestrator/capture.go: the batch of jobs that shares one execution context, and its
-- teardown. What the adapters answer is a parameter, and so are the two passes over one realm (`collect`
-- and `sealAndStore`, which read and write files), by what they leave of the job,
-- and `discover`, which makes the verifier and asks for the options of an export. The clean-up after a
-- panic and the closing of the executor and the store at the end are not modelled.
pub mod Teardown
use portcloak.Base.{
  ℕ, Bool, true, false, Option, none, some, List, [], ◌∷◌, ◌++◌, String, str_eq, any, concat,
  if◌then◌else◌,
}
use Prim.Native.Char.{nul}
use Prim.Native.String
use portcloak.Resil.Errors.{GoError, error_text, fatal, with_advice}
use portcloak.Config.Files.{Faults}
use portcloak.Config.Jobs.{Job, LedgerEntry, append, complete_phase}
use portcloak.Config.Jobs.Store.{Codec}
use portcloak.Orchestrator.{
  World, Event, phase_started, phase_completed, phase_failed, clone_created, clone_destroyed,
  phase_probe, phase_clone, phase_export, phase_teardown, phase_upload, save_job, announce,
  fail_all,
}

-- `ExecContext`, as far as a batch reads it. Its zero value has two empty texts.
pub record ExecContext : Type 0 where
  pub work_dir : String
  pub clone_ref : String

-- What a probe found: a check that blocks the run, by its name, its value and its advice, or nothing.
pub record Blocker : Type 0 where
  pub name : String
  pub value : String
  pub advice : String

pub record Facts : Type 0 where
  pub blocker : Option Blocker
  pub summary : String

-- What a batch calls, on a world `S`. `C` is what one realm produced while the context was alive.
pub record Steps (S C : Type 0) : Type 0 where
  pub make_executor : S → Option GoError × S
  pub make_store : S → Option GoError × S
  pub probe : S → (Facts × Option GoError) × S
  pub prepare : S → (ExecContext × Option GoError) × S
  pub teardown : S → Option GoError × S
  pub discover : S → S
  pub ctx_err : S → Option GoError
  pub collect : Job → S → (Option C × Job) × S
  pub seal_and_store : C → Job → S → Job × S

-- The key under which `teardown` notes a context.
unfoldable pub teardown_key : ExecContext → String
teardown_key c = concat (c.work_dir ∷ String.◌∷◌ nul "" ∷ c.clone_ref ∷ [])

module _ {S C Bytes : Type 0} (codec : Codec Bytes) (fs : Faults) (now : ℕ)
    (steps : Steps S C) where
  -- The ledger line of a teardown that failed, on each job.
  left_behind : ExecContext → GoError → List Job → World S Bytes → List Job × World S Bytes
  unfolding append error_text save_job
  left_behind c e [] w = ([], w)
  left_behind c e (j ∷ js) w =
      let entry : LedgerEntry = record {
        phase = phase_teardown;
        item = c.clone_ref;
        attempts = 1;
        last_error = error_text e;
        outcome = "left behind";
        retryable = false;
        at = now;
      } in
      let (j', w₁) = save_job codec fs now (append j entry) w in
      let (js', w₂) = left_behind c e js w₁ in (j' ∷ js', w₂)

  all_destroyed : ExecContext → List Job → World S Bytes → List Job × World S Bytes
  unfolding complete_phase save_job
  all_destroyed c [] w = ([], w)
  all_destroyed c (j ∷ js) w =
      let done =
        complete_phase (record j { provenance = record j.provenance { clone_ref = c.clone_ref } })
          phase_teardown in
      let (j', w₁) = save_job codec fs now done w in
      let (js', w₂) = all_destroyed c js w₁ in (j' ∷ js', w₂)

  -- `CloneDestroyed` is sent for a clone only.
  destroyed : ExecContext → List Job → World S Bytes → List Job × World S Bytes
  unfolding all_destroyed announce
  destroyed c jobs w =
      let (jobs₁, w₁) =
        if str_eq c.clone_ref ""
        then (jobs, w)
        else announce codec fs now (clone_destroyed c.clone_ref) jobs w in
      let (jobs₂, w₂) =
        announce codec fs now (phase_completed phase_teardown "Nothing was left behind.") jobs₁
          w₁ in
      all_destroyed c jobs₂ w₂

  -- `teardown` past its guard.
  tear_down : ExecContext → List Job → World S Bytes → List Job × World S Bytes
  unfolding left_behind destroyed announce error_text
  tear_down c jobs w =
      let (jobs₁, w₁) = announce codec fs now (phase_started phase_teardown) jobs w in
      let (res, s) = steps.teardown w₁.env in
      let w₂ = record w₁ { env = s } in
      elim res [
        | some e ↦
            let (jobs₂, w₃) =
              announce codec fs now (phase_failed phase_teardown (error_text e)) jobs₁ w₂ in
            left_behind c e jobs₂ w₃
        | none ↦ destroyed c jobs₁ w₂
      ]

  -- `teardown`
  unfoldable pub teardown : ExecContext → List Job → World S Bytes → List Job × World S Bytes
  unfolding tear_down teardown_key
  teardown c jobs w =
      if any (str_eq (teardown_key c)) w.torn_down
      then (jobs, w)
      else tear_down c jobs (record w { torn_down = teardown_key c ∷ w.torn_down })

  -- The first pass. Once the context of the batch has an error, the jobs that remain fail with it.
  unfoldable pub collect_all : List Job → World S Bytes → List (Job × Option C) × World S Bytes
  unfolding fail_all
  collect_all [] w = ([], w)
  collect_all (j ∷ js) w = elim (steps.ctx_err w.env) [
    | some e ↦
        let (failed, w') = fail_all codec fs now phase_export e (j ∷ js) w in
        (uncollected failed, w')
    | none ↦
        let ((c, j'), s) = steps.collect j w.env in
        let (rest, w') = collect_all js (record w { env = s }) in ((j', c) ∷ rest, w')
  ]
    where
      uncollected : List Job → List (Job × Option C)
      uncollected [] = []
      uncollected (j ∷ js) = (j, none) ∷ uncollected js

  -- The second pass, over the realms that were collected.
  unfoldable pub store_all : List (Job × Option C) → World S Bytes → List Job × World S Bytes
  store_all [] w = ([], w)
  store_all ((j, none) ∷ more) w = let (rest, w') = store_all more w in (j ∷ rest, w')
  store_all ((j, some c) ∷ more) w =
      let (j', s) = steps.seal_and_store c j w.env in
      let (rest, w') = store_all more (record w { env = s }) in (j' ∷ rest, w')

  jobs_of : List (Job × Option C) → List Job
  jobs_of [] = []
  jobs_of ((j, c) ∷ more) = j ∷ jobs_of more

  with_jobs : List Job → List (Job × Option C) → List (Job × Option C)
  with_jobs (j ∷ js) ((k, c) ∷ more) = (j, c) ∷ with_jobs js more
  with_jobs _ rest = []

  -- The batch once `Prepare` has succeeded: the first pass, the teardown, the second pass, and the
  -- deferred teardown.
  unfoldable pub run_prepared : ExecContext → List Job → World S Bytes → List Job × World S Bytes
  unfolding collect_all store_all teardown jobs_of with_jobs announce
  run_prepared c jobs w =
      let (jobs₀, w₀) =
        if str_eq c.clone_ref ""
        then (jobs, w)
        else announce codec fs now (clone_created c.clone_ref) jobs w in
      let message =
        if str_eq c.clone_ref ""
        then "This environment exports in place, so no clone was needed. The serving instance is not touched either way."
        else concat (c.clone_ref ∷ " is running." ∷ []) in
      let (jobs₁, w₁) = announce codec fs now (phase_completed phase_clone message) jobs₀ w₀ in
      let (collected, w₂) = collect_all jobs₁ (record w₁ { env = steps.discover w₁.env }) in
      let (jobs₃, w₃) = teardown c (jobs_of collected) w₂ in
      let (jobs₄, w₄) = store_all (with_jobs jobs₃ collected) w₃ in teardown c jobs₄ w₄

  -- From `Prepare` on. A `Prepare` that fails is torn down after the jobs have failed.
  unfoldable pub run_clone : List Job → World S Bytes → List Job × World S Bytes
  unfolding run_prepared fail_all teardown announce
  run_clone jobs w =
      let (jobs₁, w₁) = announce codec fs now (phase_started phase_clone) jobs w in
      let ((c, e), s) = steps.prepare w₁.env in
      let w₂ = record w₁ { env = s } in
      elim e [
        | some x ↦
            let (jobs₃, w₃) = fail_all codec fs now phase_clone x jobs₁ w₂ in teardown c jobs₃ w₃
        | none ↦ run_prepared c jobs₁ w₂
      ]

  blocked : Blocker → GoError
  unfolding fatal with_advice
  blocked b =
      with_advice b.advice
        (fatal "check the environment" (concat (b.name ∷ ": " ∷ b.value ∷ [])) none)

  -- `runCaptureBatch`
  unfoldable pub run_capture_batch : List Job → World S Bytes → List Job × World S Bytes
  unfolding run_clone fail_all blocked announce
  run_capture_batch jobs w =
      let (no_executor, s₁) = steps.make_executor w.env in
      elim no_executor [
        | some e ↦ fail_all codec fs now phase_probe e jobs (record w { env = s₁ })
        | none ↦
            let (no_store, s₂) = steps.make_store s₁ in
            elim no_store [
              | some e ↦ fail_all codec fs now phase_upload e jobs (record w { env = s₂ })
              | none ↦ run_probe jobs (record w { env = s₂ })
            ]
      ]
    where
      run_probe : List Job → World S Bytes → List Job × World S Bytes
      run_probe jobs w =
          let (jobs₁, w₁) = announce codec fs now (phase_started phase_probe) jobs w in
          let ((facts, e), s) = steps.probe w₁.env in
          let w₂ = record w₁ { env = s } in
          elim e [
            | some x ↦ fail_all codec fs now phase_probe x jobs₁ w₂
            | none ↦ elim facts.blocker [
              | some b ↦ fail_all codec fs now phase_probe (blocked b) jobs₁ w₂
              | none ↦
                  let (jobs₂, w₃) =
                    announce codec fs now (phase_completed phase_probe facts.summary) jobs₁ w₂ in
                  run_clone jobs₂ w₃
            ]
          ]
