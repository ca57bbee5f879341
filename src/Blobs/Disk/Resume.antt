-- ===== src/Blobs/Disk/Resume.antt =====
-- internal/engine/store/disk/disk.go: the environment of the store, the paths of its keys, and where an
-- interrupted write goes on; and `ResumeHash` of internal/engine/store/store.go.
use portcloak.Base.{
  ℕ, Bool, not, ◌&&◌, Option, none, some, List, [], ◌∷◌, String, ltb, ◌==◌, length, take, str_eq,
  concat, any, path_join, strip_prefix, is_some, segments, if◌then◌else◌,
}
use portcloak.Base.Dict
use portcloak.Base.Dict.{Dict}
use portcloak.Base.Result.{Result, ok, err, ◌>>=◌}
use portcloak.Resil.Errors.{GoError, foreign, wrapped, error_text, fatal}
use portcloak.Blobs.Progress.{Callbacks}

-- The system calls that may fail, each on a path.
pub data Call : Type 0 where
  make_parent stat_file truncate open_prefix open_part sync close remove rename : Call

pub record DiskEnv : Type 0 where
  pub root : String
  pub fails : Call → String → Option GoError
  pub dir_of : String → String
  pub quoted : String → String
  pub mod_time : String → ℕ

-- What is used of crypto/sha256.
pub record Sha (H : Type 0) : Type 0 where
  pub fresh : H
  pub absorb : List ℕ → H → H
  pub sum : H → String
  pub unmarshal : List ℕ → Option H
  pub marshal : H → List ℕ

-- An `io.Reader`: whether it is an `io.Seeker`, what `Seek` answers, where it stands, and for each
-- place how the rest is read: the pieces, and the error that ends them, if any.
pub record Source : Type 0 where
  pub can_seek : Bool
  pub refuses : ℕ → Option GoError
  pub position : ℕ
  pub reads : ℕ → List (List ℕ) × Option GoError

-- What `Put` reads of its options.
pub record WriteOptions : Type 0 where
  pub digest : String
  pub offset : ℕ
  pub hash_state : List ℕ
  pub callbacks : Callbacks

abbrev pub Files : Type 0
Files = Dict (List ℕ)

unfoldable pub min64 : ℕ → ℕ → ℕ
min64 a b = if ltb a b then a else b

-- `fmt.Errorf`, without and with an error inside.
abbrev pub plain : String → GoError
plain text = foreign (record { text = text; sentinel = none; timeout = none; dns = none })

abbrev pub around : String → GoError → GoError
around text e =
    wrapped
      (record {
        text = concat (text ∷ ": " ∷ error_text e ∷ []);
        sentinel = none;
        timeout = none;
        dns = none;
      })
      e

abbrev pub not_found : String → GoError
not_found key =
    wrapped
      (record {
        text = concat ("no object with that key: " ∷ key ∷ []);
        sentinel = none;
        timeout = none;
        dns = none;
      })
      (plain "no object with that key")

-- `seekTo`
unfoldable pub seek_to : Source → ℕ → Option GoError × Source
seek_to r offset =
    if not r.can_seek
    then if offset == 0 then (none, r) else (some (plain "this source cannot be repositioned"), r)
    else elim (r.refuses offset) [
      | some e ↦ (some e, r)
      | none ↦ (none, record r { position = offset })
    ]

-- The file being written, and the hash beside it.
pub record Writing (H : Type 0) : Type 0 where
  pub part : List ℕ
  pub hash : H

-- How a write below the progress ends, by the number of bytes that were there before: all of it is taken,
-- or some, with an error.
abbrev pub WriteFault : Type 0
WriteFault = ℕ → Option (ℕ × GoError)

-- `store.ResumeHash`, whose prefix is what the file holds or an error.
unfoldable pub resume_hash :
    {H : Type 0} → Sha H → List ℕ → ℕ → Result GoError (List ℕ) → Result GoError H
resume_hash sha state offset prefix =
    if offset == 0 then ok sha.fresh else elim (usable sha state) [
      | some h ↦ ok h
      | none ↦ prefix >>= λ held.
          if ltb (length held) offset
          then err (plain "EOF")
          else ok (sha.absorb (take offset held) sha.fresh)
    ]
  where
    usable : {H : Type 0} → Sha H → List ℕ → Option H
    usable sha [] = none
    usable sha (b ∷ bs) = sha.unmarshal (b ∷ bs)

abbrev pub part_of : String → String
part_of p = concat (p ∷ ".part" ∷ [])

module _ (env : DiskEnv) where
  outside : String → GoError
  unfolding fatal
  outside key =
      fatal "resolve a key" (concat (env.quoted key ∷ " points outside the storage folder." ∷ []))
        none

  -- `path`
  unfoldable pub path : String → Result GoError String
  unfolding segments strip_prefix path_join outside
  path key =
      let full = path_join (env.root ∷ key ∷ []) in
      if any (str_eq "..") (segments key)
      then err (outside key)
      else if not (is_some (strip_prefix (concat (env.root ∷ "/" ∷ [])) full))
          && not (str_eq full env.root)
      then err (outside key)
      else ok full

  -- What the destination holds of an interrupted write.
  unfoldable pub held : Files → String → ℕ → ℕ
  unfolding min64
  held files tmp offset =
      if ltb 0 offset && not (is_some (env.fails stat_file tmp))
      then elim (Dict.get files tmp) [ none ↦ 0 | some b ↦ min64 (length b) offset ]
      else 0

  -- The source, where the write goes on, and that place.
  unfoldable pub positioned : Source → ℕ → ℕ × Source
  unfolding seek_to
  positioned r n =
      if n == 0
      then (0, r)
      else (let (e, r') = seek_to r n in elim e [ none ↦ (n, r') | some x ↦ (0, r') ])

  unfoldable pub rewound : String → Source → ℕ → ℕ → Result GoError Source
  unfolding seek_to fatal
  rewound key r offset n =
      if n == 0
      then (let (e, r') = seek_to r 0 in
          elim e [
            | none ↦ ok r'
            | some x ↦
                if ltb 0 offset
                then err (
                    fatal "resume the upload"
                      (concat
                        (key ∷ " cannot be resumed because its source cannot be rewound." ∷ []))
                      (some x))
                else ok r'
          ])
      else ok r

  -- The partial file, cut to what is kept of it.
  unfoldable pub truncated : String → ℕ → Files → Result GoError Files
  truncated tmp n files = if n == 0 then ok files else elim (env.fails truncate tmp) [
    | some e ↦ err e
    | none ↦ elim (Dict.get files tmp) [
      | none ↦ err (plain "file does not exist")
      | some b ↦ ok (Dict.put files tmp (take n b))
    ]
  ]

  -- The bytes that `os.Open(tmp)` reads.
  unfoldable pub opened : String → Files → Result GoError (List ℕ)
  opened tmp files = elim (env.fails open_prefix tmp) [
    | some e ↦ err e
    | none ↦ elim (Dict.get files tmp) [ none ↦ err (plain "file does not exist") | some b ↦ ok b ]
  ]
