-- ===== src/Blobs/Disk/Written.antt =====
-- internal/engine/store/disk/disk.go: what a `Put` leaves in the folder.
use portcloak.Base.{
  ◌++◌, ◌≡◌, ◌⊎◌, ℕ, false, Option, none, some, List, [], String, take, str_eq, ◌==◌, if◌then◌else◌,
}
use portcloak.Base.Dict
use portcloak.Base.Dict.{Dict, dict_laws}
use portcloak.Base.Result.{Result, ok, err}
use portcloak.Resil.Errors.{GoError}
use portcloak.Blobs.{PutResult}
use portcloak.Blobs.Progress.{Progress}
use portcloak.Blobs.Disk.Copied.{joined}
use portcloak.Blobs.Disk.Sources.{IsMoved}
use portcloak.Blobs.Disk.Resume.{
  DiskEnv, Sha, Source, WriteOptions, Writing, WriteFault, Files, part_of,
}

-- What an outcome leaves at a path `q`: an error leaves what was there, and a success puts a content of
-- `IsContent` in place at `p`, where its digest is the one that was asked for, and leaves the rest.
abbrev LeavesContent :
    (List ℕ → Type 0)
    → String
    → String
    → WriteOptions
    → Files
    → Result GoError PutResult × Files
    → Type 0
LeavesContent IsContent p q opts files (err e, files') = Dict.get files' q ≡ Dict.get files q
LeavesContent IsContent p q opts files (ok r, files') =
    (b : List ℕ) × IsContent b
    × (Dict.get files' q ≡ (if str_eq p q then some b else Dict.get files q))
    × ((opts.digest ≡ "") ⊎ (opts.digest ≡ r.digest))

abbrev bytes_at : String → Files → List ℕ
bytes_at tmp files = elim (Dict.get files tmp) [ none ↦ [] | some b ↦ b ]

-- The first `n` bytes of the partial file, and behind them all that the source reads, without an error,
-- from the place it is put to.
abbrev IsContinued : String → Source → Files → ℕ → List ℕ → Type 0
IsContinued p r files n b =
    (r' : Source) × IsMoved r n r'
    × ((r.reads r'.position).1 ≡ none)
    × (b ≡ take n (bytes_at (part_of p) files) ++ joined (r.reads r'.position).0)

abbrev pub IsAtomic :
    String → String → WriteOptions → Source → Files → Result GoError PutResult × Files → Type 0
IsAtomic p q opts r files = LeavesContent (λ b. (n : ℕ) × IsContinued p r files n b) p q opts files

module _ {H : Type 0} (sha : Sha H) (env : DiskEnv) (ctx_err : Writing H → Option GoError)
    (fault : WriteFault) (key p q : String) (other : str_eq (part_of p) q ≡ false) where
  abbrev HasAtEnd : (List ℕ → Type 0) → Option GoError × Progress × Writing H → Type 0
  HasAtEnd C (some e, progress, s) = Unit {0}
  HasAtEnd C (none, progress, s) = C s.part

  -- The bytes that stay in the partial file.
  abbrev kept : ℕ → Files → List ℕ
  kept n files = if n == 0 then [] else bytes_at (part_of p) files

  abbrev KeepsOther : Files → Result GoError Files → Type 0
  KeepsOther files (err e) = Unit {0}
  KeepsOther files (ok files') = Dict.get files' q ≡ Dict.get files q
