-- ===== src/Blobs.antt =====
-- internal/engine/store/store.go: the contract of a storage backend, as operations on a world `S`; in
-- Blobs/Layout.antt the keys and the sorting of a listing into snapshots. The SHA-256 of a transfer is a
-- parameter of the parts that carry it.
pub mod Disk
pub mod Layout
pub mod Progress
mod Tests
use portcloak.Base.{ℕ, Bool, true, false, List, Option, String}
use portcloak.Resil.Errors.{GoError}

-- Times are in nanoseconds.
pub record ObjectInfo : Type 0 where
  pub key : String
  pub size : ℕ
  pub mod_time : ℕ
  pub etag : String

pub data Access : Type 0 where
  access_none access_read_only access_writable : Access

pub data Integrity : Type 0 where
  client_side remote_command server_side read_back : Integrity

pub record Reach : Type 0 where
  pub access : Access
  pub root : String
  pub latency : ℕ
  pub is_resumable : Bool
  pub integrity : Integrity
  pub free_bytes : ℕ
  pub failed_step : String
  pub detail : String
  pub probed_at : ℕ

-- `Reach.OK`
unfoldable pub is_reached : Reach → Bool
is_reached r = elim r.access [ access_none ↦ false | _ ↦ true ]

-- The callbacks are not functions here: `has_checkpoint` tells whether `Checkpoint` is given, and its
-- calls are the reports of `Uploaded`. `Progress`, which drives the user interface, is left out.
pub record PutOptions : Type 0 where
  pub size : ℕ
  pub digest : String
  pub offset : ℕ
  pub hash_state : String
  pub has_checkpoint : Bool
  pub content_type : String

pub record PutResult : Type 0 where
  pub key : String
  pub size : ℕ
  pub digest : String
  pub etag : String
  pub is_resumed : Bool

pub record GetOptions : Type 0 where
  pub offset : ℕ

pub record GetResult : Type 0 where
  pub size : ℕ
  pub digest : String

-- What a call of `Checkpoint` is given: the bytes written, and the hash state over them.
abbrev pub Report : Type 0
Report = ℕ × String

-- How a call of `Put` ended, and the reports it made.
pub record Uploaded (S : Type 0) : Type 0 where
  pub result : PutResult
  pub error : Option GoError
  pub reports : List Report
  pub world : S

-- An `io.Reader`, which is an `io.Seeker` where it can be put back to its start.
pub record Reader (S : Type 0) : Type 0 where
  pub seek_start : Option (S → Option GoError × S)

-- A result of Go's, a value beside an error, and the world after it.
abbrev pub Answer : Type 0 → Type 0 → Type 0
Answer S A = (A × Option GoError) × S

-- `BlobStore`
pub record BlobStore (S : Type 0) : Type 0 where
  pub probe : S → Answer S Reach
  pub stat : String → S → Answer S ObjectInfo
  pub put : String → Reader S → PutOptions → S → Uploaded S
  pub get : String → GetOptions → S → Answer S GetResult
  pub list : String → S → Answer S (List ObjectInfo)
  pub delete : String → S → Option GoError × S
  pub endpoint : String
