-- ===== src/Config/Jobs/Store.antt =====
-- internal/engine/config/jobs.go, `JobStore`: one file for each job, `<id>.json`. A directory entry
-- is known by its name without that suffix; folders and other names are passed over by `List` and
-- are left out of the directory. The mutex is held over each method of one step.
use portcloak.Base.{
  ◌≡◌, ℕ, ◌+◌, Bool, true, false, Option, none, some, List, [], ◌∷◌, String, ltb, str_eq, sort_by,
  if◌then◌else◌,
}
use portcloak.Base.Dict
use portcloak.Base.Dict.{Dict}
use portcloak.Base.Result.{Result, ok, err}
use portcloak.Config.Files.{
  FileError, Faults, write_atomic, read_failed, remove_failed, list_failed,
}
use portcloak.Config.Jobs.{Job, interrupted, is_terminal, is_live}

-- `encoding/json` on a job: `marshal` fails with an error or gives the bytes, and what it gives is
-- read back by `unmarshal` as the same job. `size` is the length of the bytes.
pub record Codec (Bytes : Type 0) : Type 0 where
  pub marshal : Job → Option Bytes
  pub unmarshal : Bytes → Option Job
  pub size : Bytes → ℕ

pub data JobError : Type 0 where
  not_found unreadable : String → JobError
  not_marshalled : String → JobError
  file : FileError → JobError

-- `List` sorts newest first.
abbrev pub newer : Job → Job → Bool
newer a b = ltb b.created_at a.created_at

-- A job that was in flight when the process died.
abbrev pub adopt : Job → Job
adopt j = record j {
  state = interrupted;
  message = "PortCloak closed while this job was running.";
  retryable = true;
}

module _ {Bytes : Type 0} (codec : Codec Bytes) (fs : Faults) where
  -- `Save` stamps the job that it is given, and answers it too.
  unfoldable pub save : ℕ → Job → Dict Bytes → Result JobError Job × Dict Bytes
  save now j dir =
      let stamped = record j { updated_at = now } in
      elim (codec.marshal stamped) [
        | none ↦ (err (not_marshalled j.id), dir)
        | some b ↦
            let (res, dir') = write_atomic fs dir j.id b in
            elim res [ ok _ ↦ (ok stamped, dir') | err e ↦ (err (file e), dir') ]
      ]

  decode : String → Option Bytes → Result JobError Job
  decode id none = err (not_found id)
  decode id (some b) = elim (codec.unmarshal b) [ none ↦ err (unreadable id) | some j ↦ ok j ]

  -- `Load`, `loadLocked`
  unfoldable pub load : String → Dict Bytes → Result JobError Job
  unfolding decode
  load id dir = if fs.on_read id then err (file (read_failed id)) else decode id (Dict.get dir id)

  -- The loop of `List`: what cannot be read is passed over.
  unfoldable pub load_all : List String → Dict Bytes → List Job
  load_all [] dir = []
  load_all (id ∷ ids) dir =
      let rest = load_all ids dir in elim (load id dir) [ ok j ↦ j ∷ rest | err e ↦ rest ]

  -- `List`. A home folder with no jobs directory is an empty directory.
  unfoldable pub list_jobs : Dict Bytes → Result JobError (List Job)
  list_jobs dir =
      if fs.on_list
      then err (file list_failed)
      else ok (sort_by newer (load_all (Dict.keys dir) dir))

  -- Each record is in the file that its id names, as `Save` puts it.
  abbrev pub IsNamed : Dict Bytes → Type 0
  IsNamed dir = (id : String) (j : Job) → load id dir ≡ ok j → j.id ≡ id

  abbrev pub Loads : Dict Bytes → Job → Type 0
  Loads dir j = load j.id dir ≡ ok j

  -- `Delete`: a record that is not there is no error.
  unfoldable pub delete : String → Dict Bytes → Result JobError (Unit {0}) × Dict Bytes
  delete id dir = elim (Dict.get dir id) [
    | none ↦ (ok tt, dir)
    | some b ↦
        if fs.on_remove id
        then (err (file (remove_failed id)), dir)
        else (ok tt, Dict.remove dir id)
  ]

  -- The loop of `AdoptRunning`; `clock` is the time at which each job is saved.
  unfoldable pub adopt_all :
      (String → ℕ) → List Job → Dict Bytes → Result JobError (List Job) × Dict Bytes
  adopt_all clock [] dir = (ok [], dir)
  adopt_all clock (j ∷ js) dir = elim (is_live j.state) [
    | false ↦ adopt_all clock js dir
    | true ↦
        let (res, dir₁) = save (clock j.id) (adopt j) dir in
        elim res [
          | err e ↦ (err e, dir₁)
          | ok j' ↦
              let (rest, dir₂) = adopt_all clock js dir₁ in
              elim rest [ err e ↦ (err e, dir₂) | ok adopted ↦ (ok (j' ∷ adopted), dir₂) ]
        ]
  ]

  -- `AdoptRunning`
  unfoldable pub adopt_running : (String → ℕ) → Dict Bytes → Result JobError (List Job) × Dict Bytes
  adopt_running clock dir = elim (list_jobs dir) [
    | err e ↦ (err e, dir)
    | ok jobs ↦ adopt_all clock jobs dir
  ]

  -- The size of a record that can be inspected; `Stat` that fails counts nothing.
  pub size_of : (String → Bool) → Dict Bytes → String → ℕ
  size_of cannot_stat dir id =
      if cannot_stat id then 0 else elim (Dict.get dir id) [ none ↦ 0 | some b ↦ codec.size b ]

  -- The loop of `PurgeFinished`: the number of records removed and their bytes, also beside an error.
  unfoldable pub purge_all :
      (String → Bool) → List Job → ℕ → ℕ → Dict Bytes → (Option JobError × ℕ × ℕ) × Dict Bytes
  unfolding size_of
  purge_all cannot_stat [] removed bytes dir = ((none, removed, bytes), dir)
  purge_all cannot_stat (j ∷ js) removed bytes dir = elim (is_terminal j.state) [
    | false ↦ purge_all cannot_stat js removed bytes dir
    | true ↦
        let bytes' = bytes + size_of cannot_stat dir j.id in
        let (res, dir') = delete j.id dir in
        elim res [
          | err e ↦ ((some e, removed, bytes'), dir')
          | ok _ ↦ purge_all cannot_stat js (removed + 1) bytes' dir'
        ]
  ]

  -- `PurgeFinished`
  unfoldable pub purge_finished :
      (String → Bool) → Dict Bytes → (Option JobError × ℕ × ℕ) × Dict Bytes
  purge_finished cannot_stat dir = elim (list_jobs dir) [
    | err e ↦ ((some e, 0, 0), dir)
    | ok jobs ↦ purge_all cannot_stat jobs 0 0 dir
  ]

-- What a job may be using.
pub data Used : Type 0 where
  environment storage : Used

abbrev pub uses : Used → Job → String
uses environment j = j.environment
uses storage j = j.storage

unfoldable pub find_user : Used → String → List Job → Option String
find_user kind name [] = none
find_user kind name (j ∷ js) =
    let rest = find_user kind name js in
    if is_terminal j.state then rest else if str_eq (uses kind j) name then some j.id else rest

-- `Running`: the first job, newest first, that is not finished and uses the name.
unfoldable pub find_running :
    {Bytes : Type 0} → Codec Bytes → Faults → Used → String → Dict Bytes → Option String
unfolding find_user
find_running codec fs kind name dir = elim (list_jobs codec fs dir) [
  | err e ↦ none
  | ok jobs ↦ find_user kind name jobs
]
