-- ===== src/Config/Jobs.antt =====
-- internal/engine/config/jobs.go: the record of a job, and what a job says about itself.
-- Times are in nanoseconds. A nil pointer is `none`, and a nil slice is the empty list.
pub mod Ledger
pub mod Store
pub mod Loads
pub mod Sweep
pub mod Startup
pub mod Purge
mod Tests
use portcloak.Base.{
  ℕ, Bool, true, false, ◌||◌, ◌&&◌, Option, none, some, List, [], ◌∷◌, ◌++◌, String, str_eq,
  if◌then◌else◌, any,
}

pub data JobKind : Type 0 where
  capture restore index : JobKind

pub data JobState : Type 0 where
  queued running interrupted completed failed cancelled : JobState

-- `Terminal` and `Resumable`
abbrev pub is_terminal : JobState → Bool
is_terminal completed = true
is_terminal failed = true
is_terminal cancelled = true
is_terminal _ = false

abbrev pub is_resumable : JobState → Bool
is_resumable interrupted = true
is_resumable _ = false

-- `j.State == JobRunning || j.State == JobQueued`
abbrev pub is_live : JobState → Bool
is_live running = true
is_live queued = true
is_live _ = false

pub record LedgerEntry : Type 0 where
  pub phase : String
  pub item : String
  pub attempts : ℕ
  pub last_error : String
  pub outcome : String
  pub retryable : Bool
  pub at : ℕ

pub record Part : Type 0 where
  pub number : ℕ
  pub etag : String
  pub size : ℕ

pub record Checkpoint : Type 0 where
  pub stage : String
  pub key : String
  pub byte_offset : ℕ
  pub upload_id : String
  pub parts : List Part
  pub blocks : List String
  pub fetched_artifacts : List String
  pub local_bundle : String
  pub digest : String
  pub hash_state : List ℕ
  pub updated_at : ℕ

pub record Provenance : Type 0 where
  pub environment_kind : String
  pub execution_mode : String
  pub clone_ref : String
  pub keycloak_version : String
  pub capture_mode : String

pub record SnapshotOrigin : Type 0 where
  pub captured_at : String
  pub environment : String

pub record Job : Type 0 where
  pub id : String
  pub kind : JobKind
  pub state : JobState
  pub phase : String
  pub realm : String
  pub source : String
  pub environment : String
  pub storage : String
  pub snapshot_id : String
  pub storage_key : String
  pub origin : Option SnapshotOrigin
  pub encrypted : Bool
  pub encryption_mode : String
  pub recipients : List String
  pub created_at : ℕ
  pub updated_at : ℕ
  pub started_at : Option ℕ
  pub ended_at : Option ℕ
  pub message : String
  pub hint : String
  pub retryable : Bool
  pub ledger : List LedgerEntry
  pub checkpoint : Option Checkpoint
  pub provenance : Provenance
  pub completed_phases : List String
  pub skipped_phases : List String

-- The entries of one ledger line: the same phase and the same item.
abbrev pub same_line : LedgerEntry → LedgerEntry → Bool
same_line a b = str_eq a.phase b.phase && str_eq a.item b.item

-- The loop of `Append`: the first entry of the line is overwritten, but for its phase and item.
unfoldable pub append_entry : List LedgerEntry → LedgerEntry → List LedgerEntry
append_entry [] e = e ∷ []
append_entry (l ∷ ls) e =
    let rest = append_entry ls e in
    if same_line l e
    then record l {
      attempts = e.attempts;
      last_error = e.last_error;
      outcome = e.outcome;
      retryable = e.retryable;
      at = e.at;
    }
      ∷ ls
    else l ∷ rest

-- `Append`
unfoldable pub append : Job → LedgerEntry → Job
append j e = record j { ledger = append_entry j.ledger e }

unfoldable pub add_phase : List String → String → List String
add_phase ps phase = if any (λ p. str_eq p phase) ps then ps else ps ++ phase ∷ []

-- `SkipPhase` and `CompletePhase`
unfoldable pub skip_phase : Job → String → Job
unfolding add_phase
skip_phase j phase = record j { skipped_phases = add_phase j.skipped_phases phase }

unfoldable pub complete_phase : Job → String → Job
unfolding add_phase
complete_phase j phase = record j { completed_phases = add_phase j.completed_phases phase }
