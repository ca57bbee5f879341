-- ===== src/Config/Jobs/Startup.antt =====
-- What `AdoptRunning` of internal/engine/config/jobs.go does to the records on disk.
use portcloak.Base.{ℕ, ◌≡◌, Bool, false, some, String, if◌then◌else◌}
use portcloak.Base.Dict
use portcloak.Base.Dict.{Dict, get-put, In-keys}
use portcloak.Base.Result.{Result, ok, err}
use portcloak.Config.Files.{Faults}
use portcloak.Config.Jobs.{Job, is_live}
use portcloak.Config.Jobs.Store.{Codec, JobError, adopt, Loads}

module _ {Bytes : Type 0} (codec : Codec Bytes) (fs : Faults)
    (round_trip : (j : Job) (b : Bytes)
      → codec.marshal j ≡ some b
      → codec.unmarshal b ≡ some j) where
  -- What the startup makes of a loaded record.
  abbrev pub adopted : (String → ℕ) → String → Result JobError Job → Result JobError Job
  adopted clock id (err e) = err e
  adopted clock id (ok j) =
      if is_live j.state then ok (record (adopt j) { updated_at = clock id }) else ok j

  abbrev pub reads_live : Result JobError Job → Bool
  reads_live (err e) = false
  reads_live (ok j) = is_live j.state
