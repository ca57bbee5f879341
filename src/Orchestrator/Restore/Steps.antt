-- ===== src/Orchestrator/Restore/Steps.antt =====
-- internal/engine/orchestrator/restore.go: what a restore is asked for, and what it calls.
use portcloak.Base.{
  ℕ, Bool, false, not, Option, List, [], ◌∷◌, String, str_eq, ◌==◌, concat, itoa, if◌then◌else◌,
}
use portcloak.Base.Int.{ℤ, pos, negsuc}
use portcloak.Resil.Errors.{GoError}
use portcloak.Kc.{ImportStrategy, KcCommand, OptionSet, BuildError, Ports}
use portcloak.Kc.Failure.{Outcome, Reason}
use portcloak.Manifest.{Manifest}
use portcloak.Orchestrator.Capture.{ExecContext, Facts}
use portcloak.Orchestrator.Restore.Preview.{RealmShape}
use portcloak.Orchestrator.Restore.Report.{Precondition}

pub record RestoreRequest : Type 0 where
  pub environment : String
  pub storage : String
  pub bundle_key : String
  pub snapshot_id : String
  pub realm : String
  pub strategy : ImportStrategy
  pub confirm_realm : String
  pub no_transaction_timeout : Bool

-- What an open session shows.
pub record Session : Type 0 where
  pub id : String
  pub realm : String
  pub verified : Bool
  pub verify_message : String
  pub captured_at : String
  pub dependencies : List Precondition
  pub manifest : Manifest
  pub realm_files : List String

-- `Destination`
pub record Destination (S : Type 0) : Type 0 where
  pub reachable : S → Bool × S
  pub read_realm : String → S → (RealmShape × Option GoError) × S
  pub partial_import : String → String → S → ((ℕ × ℕ × ℕ) × Option GoError) × S

-- How kc.sh ended: its code, its parsed streams and its standard error.
pub record Ran : Type 0 where
  pub exit_code : ℤ
  pub outcome : Outcome
  pub stderr : String

abbrev pub is_zero : ℤ → Bool
is_zero (pos n) = n == 0
is_zero (negsuc n) = false

-- What a restore calls. The adapter's context has a mode and ports beside what a teardown reads.
pub record RestoreSteps (S : Type 0) : Type 0 where
  pub make_store : S → Option GoError × S
  pub open_session : S → (Session × Option GoError) × S
  pub destination : Option (Destination S)
  pub make_executor : S → Option GoError × S
  pub probe : S → (Facts × Option GoError) × S
  pub kc_path : Facts → String
  pub prepare : S → (ExecContext × Option GoError) × S
  pub mode_of : ExecContext → String
  pub ports_of : ExecContext → Ports
  pub teardown : S → Option GoError × S
  pub realm_file : S → (String × Option GoError) × S
  pub open_file : String → S → (ℕ × Option GoError) × S
  pub push : String → ℕ → S → Option GoError × S
  pub discover : S → OptionSet × S
  pub run : KcCommand → S → (Ran × Option GoError) × S
  pub audit : String → String → S → S

-- The sentences that other modules keep as values, and the verb %q.
pub record Sentences : Type 0 where
  pub reason_text : Reason → String × String
  pub build_text : BuildError → GoError
  pub quoted : String → String

abbrev pub strategy_overwrite : ImportStrategy
strategy_overwrite = "overwrite"

abbrev pub strategy_merge : ImportStrategy
strategy_merge = "merge"

-- `appliedState`
pub record Applied : Type 0 where
  pub started : Bool
  pub completed : Bool
  pub added : ℕ
  pub overwritten : ℕ
  pub skipped : ℕ
  pub note : String

abbrev pub nothing_applied : Applied
nothing_applied = record {
  started = false;
  completed = false;
  added = 0;
  overwritten = 0;
  skipped = 0;
  note = "";
}

-- `describe`
unfoldable pub describe : Applied → String
describe a =
    if not a.started
    then "nothing was written to the destination"
    else if a.completed
    then concat (
        itoa a.added
        ∷ " created, "
        ∷ itoa a.overwritten
        ∷ " overwritten, "
        ∷ itoa a.skipped
        ∷ " left alone"
        ∷ [])
    else if str_eq a.note ""
    then "the import had started, so some changes may already have been applied. Keycloak's import is not transactional"
    else a.note
