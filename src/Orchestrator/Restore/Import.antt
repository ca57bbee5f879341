-- ===== src/Orchestrator/Restore/Import.antt =====
-- internal/engine/orchestrator/restore.go: `applyImport`, by the Admin API or through kc.sh.
pub mod Honesty
use portcloak.Base.{
  ℕ, ◌+◌, Bool, true, false, Option, none, some, List, [], ◌∷◌, ◌++◌, String, str_eq, concat,
  base_name, path_join, if◌then◌else◌,
}
use portcloak.Base.Result.{Result, ok, err}
use portcloak.Resil.Errors.{GoError, typed, typed_by, retryable, error_text, fatal, with_advice}
use portcloak.Config.Files.{Faults}
use portcloak.Config.Jobs.{Job}
use portcloak.Config.Jobs.Store.{Codec}
use portcloak.Config.Model.{Environment}
use portcloak.Kc.{KcCommand, OptionSet, BuildError, build_import}
use portcloak.Kc.Failure.{classify_failure}
use portcloak.Orchestrator.{
  World, Event, phase_started, phase_completed, clone_created, save_job, record_phase,
}
use portcloak.Orchestrator.Capture.{ExecContext, Steps, Facts, Blocker, teardown}
use portcloak.Orchestrator.Restore.Steps.{
  RestoreRequest, Session, Destination, is_zero, RestoreSteps, Sentences, strategy_merge, Applied,
  nothing_applied, describe,
}

-- How `applyImport` ended, before its deferred calls.
pub record Import (S Bytes : Type 0) : Type 0 where
  pub applied : Applied
  pub error : Option GoError
  pub job : Job
  pub world : World S Bytes

-- `err.Class = resil.Retryable`
made_retryable : Bool → GoError → GoError
made_retryable true (typed t) = typed (record t { class = retryable })
made_retryable true (typed_by t e) = typed_by (record t { class = retryable }) e
made_retryable _ e = e

abbrev pub phase_import : String
phase_import = "import"

abbrev pub phase_integrity : String
phase_integrity = "integrity"

module _ {S Bytes : Type 0} (codec : Codec Bytes) (fs : Faults) (now : ℕ) (steps : RestoreSteps S)
    (texts : Sentences) (env : Environment) (req : RestoreRequest) where
  -- The reporter of one job.
  unfoldable pub tell : Event → Job → World S Bytes → Job × World S Bytes
  unfolding record_phase save_job
  tell e j w =
      let (changed, j₁) = record_phase j e in
      let (j₂, w₁) = if changed then save_job codec fs now j₁ w else (j₁, w) in
      (j₂, record w₁ { events = w₁.events ++ (j₂.id, e) ∷ [] })

  -- `teardown` of the one job.
  unfoldable pub torn_down : ExecContext → Job → World S Bytes → Job × World S Bytes
  unfolding teardown
  torn_down c j w =
      let only : Steps S (Unit {0}) = record {
        make_executor = steps.make_executor;
        make_store = steps.make_store;
        probe = steps.probe;
        prepare = steps.prepare;
        teardown = steps.teardown;
        discover = λ s. s;
        ctx_err = λ s. none;
        collect = λ j s. ((none, j), s);
        seal_and_store = λ u j s. (j, s);
      } in
      let (js, w') = teardown codec fs now only c (j ∷ []) w in
      (elim js [ [] ↦ j | j' ∷ more ↦ j' ], w')

  -- The loop that pushes the realm's files.
  unfoldable pub push_all : String → List String → S → Option GoError × S
  push_all dir [] s = (none, s)
  push_all dir (name ∷ names) s =
      let ((size, e), s₁) = steps.open_file name s in
      elim e [
        | some x ↦ (some x, s₁)
        | none ↦
            let (failed, s₂) = steps.push (path_join (dir ∷ base_name name ∷ [])) size s₁ in
            elim failed [ some x ↦ (some x, s₂) | none ↦ push_all dir names s₂ ]
      ]

  abbrev pub stopped : Applied → GoError → Job → World S Bytes → Import S Bytes
  stopped a e j w = record { applied = a; error = some e; job = j; world = w }

  abbrev pub started : Applied
  started = record nothing_applied { started = true }

  -- Merge, through the destination's Admin API.
  unfoldable pub merged : Session → Destination S → Job → World S Bytes → Import S Bytes
  unfolding tell describe
  merged session dest j w =
      let ((body, e), s) = steps.realm_file w.env in
      elim e [
        | some x ↦ stopped nothing_applied x j (record w { env = s })
        | none ↦
            let ((counts, failed), s') = dest.partial_import session.realm body s in
            let w' = record w { env = s' } in
            elim failed [
              | some x ↦ stopped started x j w'
              | none ↦
                  let applied = record started {
                    completed = true;
                    added = counts.0;
                    overwritten = counts.1;
                    skipped = counts.2;
                  } in
                  let (j', w'') = tell (phase_completed phase_import (describe applied)) j w' in
                  record { applied = applied; error = none; job = j'; world = w'' }
            ]
      ]

  -- The run of kc.sh import, and what its end means.
  unfoldable pub ran_import : Session → KcCommand → Job → World S Bytes → Import S Bytes
  unfolding tell classify_failure with_advice fatal made_retryable
  ran_import session cmd j w =
      let ((ran, e), s) = steps.run cmd w.env in
      let w' = record w { env = s } in
      elim e [
        | some x ↦ stopped started x j w'
        | none ↦
            if is_zero ran.exit_code
            then (let (j', w'') =
                  tell
                    (phase_completed phase_import (
                      concat
                        ("The realm was imported using the " ∷ req.strategy ∷ " strategy." ∷ [])))
                    j w' in
                record {
                  applied = record started {
                    completed = true;
                    added = session.manifest.counts.users + session.manifest.counts.clients;
                  };
                  error = none;
                  job = j';
                  world = w'';
                })
            else (let (reason, again) =
                  classify_failure session.realm (record ran.outcome { exit_code = ran.exit_code })
                    ran.stderr in
                let (message, advice) = texts.reason_text reason in
                stopped
                  (record started {
                    note =
                        "the import ran and did not finish; Keycloak's import is not transactional, so some resources may already exist on the destination";
                  })
                  (made_retryable again
                    (with_advice advice (fatal "apply the import" message none)))
                  j w')
      ]

  -- The command, before it is run.
  unfoldable pub import_command : Facts → ExecContext → OptionSet → Result BuildError KcCommand
  unfolding build_import
  import_command facts c supported = build_import (record {
    kc_path = steps.kc_path facts;
    dir = path_join (c.work_dir ∷ "import" ∷ []);
    file = "";
    strategy = req.strategy;
    ports = steps.ports_of c;
    supported = supported;
    optimized = false;
    no_transaction_timeout = req.no_transaction_timeout;
    extra_args = [];
  })

  -- The clone that `Prepare` has made, in the record.
  unfoldable pub named_clone : ExecContext → Job → World S Bytes → Job × World S Bytes
  unfolding tell save_job
  named_clone c j w =
      if str_eq c.clone_ref ""
      then (j, w)
      else (let (j', w') = tell (clone_created c.clone_ref) j w in
          save_job codec fs now
            (record j' {
              provenance = record j'.provenance {
                clone_ref = c.clone_ref;
                execution_mode = steps.mode_of c;
              };
            })
            w')

  -- Once `Prepare` has succeeded.
  unfoldable pub in_context : Session → Facts → ExecContext → Job → World S Bytes → Import S Bytes
  unfolding named_clone push_all import_command ran_import fatal error_text
  in_context session facts c j w =
      let (j₁, w₁) = named_clone c j w in
      let (failed, s) =
        push_all (path_join (c.work_dir ∷ "import" ∷ [])) session.realm_files w₁.env in
      elim failed [
        | some x ↦ stopped nothing_applied x j₁ (record w₁ { env = s })
        | none ↦
            let (supported, s') = steps.discover s in
            let w₂ = record w₁ { env = s' } in
            elim (import_command facts c supported) [
              | err b ↦
                  stopped nothing_applied
                    (fatal "build the import command" (error_text (texts.build_text b))
                      (some (texts.build_text b)))
                    j₁ w₂
              | ok cmd ↦ ran_import session cmd j₁ w₂
            ]
      ]

  -- The clean-up that `Prepare` leaves to the end.
  unfoldable pub cleaned_up : ExecContext → Import S Bytes → Import S Bytes
  unfolding torn_down
  cleaned_up c import =
      let (j, w) = torn_down c import.job import.world in record import { job = j; world = w }

  -- Once `Prepare` has answered.
  unfoldable pub prepared :
      Session → Facts → ExecContext → Option GoError → Job → World S Bytes → Import S Bytes
  unfolding in_context cleaned_up
  prepared session facts c (some x) j w = cleaned_up c (stopped nothing_applied x j w)
  prepared session facts c none j w = cleaned_up c (in_context session facts c j w)

  -- Once the destination has been probed.
  unfoldable pub probed : Session → Facts → Option Blocker → Job → World S Bytes → Import S Bytes
  unfolding with_advice fatal
  probed session facts (some b) j w =
      stopped nothing_applied
        (with_advice b.advice
          (fatal "check the destination" (concat (b.name ∷ ": " ∷ b.value ∷ [])) none))
        j w
  probed session facts none j w =
      let ((c, e), s) = steps.prepare w.env in prepared session facts c e j (record w { env = s })

  -- The import through kc.sh, with its deferred teardown.
  unfoldable pub offline : Session → Job → World S Bytes → Import S Bytes
  offline session j w =
      let (no_executor, s₁) = steps.make_executor w.env in
      elim no_executor [
        | some x ↦ stopped nothing_applied x j (record w { env = s₁ })
        | none ↦
            let ((facts, dark), s₂) = steps.probe s₁ in
            let w₂ = record w { env = s₂ } in
            elim dark [
              | some x ↦ stopped nothing_applied x j w₂
              | none ↦ probed session facts facts.blocker j w₂
            ]
      ]

  -- `applyImport`
  unfoldable pub apply_import : Session → Job → World S Bytes → Import S Bytes
  unfolding tell with_advice fatal
  apply_import session j w =
      let (j₁, w₁) = tell (phase_started phase_import) j w in
      if str_eq req.strategy strategy_merge
      then elim steps.destination [
        | none ↦
            stopped nothing_applied
              (with_advice
                "Configure the Admin API on this environment, or choose overwrite or skip, which use kc.sh import."
                (fatal "apply the import"
                  "Merge is applied through the destination's Admin API, and this environment has no Admin API configured."
                  none))
              j₁ w₁
        | some dest ↦ merged session dest j₁ w₁
      ]
      else offline session j₁ w₁
