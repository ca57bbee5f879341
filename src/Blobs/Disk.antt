-- ===== src/Blobs/Disk.antt =====
-- internal/engine/store/disk/disk.go: the objects of a folder, over a dictionary from paths to their bytes
-- in which directories are not kept. Which system call fails, and with what error, is up to the
-- environment; SHA-256 with its states is a parameter. The sync of the directory after a rename is left
-- out, since it cannot fail a write.
pub mod Resume
pub mod Copied
pub mod Sources
pub mod Digest
pub mod Written
mod Tests
use portcloak.Base.{
  ℕ, ◌+◌, Bool, true, false, not, ◌&&◌, ◌||◌, Option, none, some, List, [], ◌∷◌, ◌++◌, String, ltb,
  ◌==◌, length, take, str_eq, concat, any, path_join, strip_prefix, is_some, itoa, segments,
  if◌then◌else◌,
}
use portcloak.Base.Dict
use portcloak.Base.Dict.{Dict}
use portcloak.Base.Result.{Result, ok, err, ◌>>=◌}
use portcloak.Resil.Errors.{GoError, foreign, wrapped, error_text, fatal}
use portcloak.Blobs.{ObjectInfo, PutResult, GetResult}
use portcloak.Blobs.Progress.{Progress, Callbacks, new_progress, write}
use portcloak.Blobs.Disk.Resume.{
  Call, DiskEnv, Sha, Source, WriteOptions, Files, min64, plain, around, not_found, seek_to,
  Writing, WriteFault, resume_hash, part_of, path, held, positioned, rewound, truncated, opened,
  make_parent, stat_file, truncate, open_prefix, open_part, sync, close, remove, rename,
}

module _ (env : DiskEnv) where
  -- `Stat`
  unfoldable pub stat : String → Files → Result GoError ObjectInfo
  unfolding path
  stat key files = path env key >>= λ p. elim (env.fails stat_file p) [
    | some e ↦ err e
    | none ↦ elim (Dict.get files p) [
      | none ↦ err (not_found key)
      | some b ↦ ok (record { key = key; size = length b; mod_time = env.mod_time p; etag = "" })
    ]
  ]

  -- `Delete`, without the pruning of directories that are left empty.
  unfoldable pub delete : String → Files → Option GoError × Files
  unfolding path
  delete key files = elim (path env key) [
    | err e ↦ (some e, files)
    | ok p ↦ elim (env.fails remove p) [
      | some e ↦ (some e, files)
      | none ↦ (none, Dict.remove files p)
    ]
  ]

module _ {H : Type 0} (sha : Sha H) (env : DiskEnv) (ctx_err : Writing H → Option GoError)
    (fault : WriteFault) where
  -- The write to the file and the hash, `io.MultiWriter(f, h)`.
  unfoldable pub write_both : List ℕ → Writing H → (ℕ × Option GoError) × Writing H
  write_both b s = elim (fault (length s.part)) [
    | none ↦ ((length b, none), record s { part = s.part ++ b; hash = sha.absorb b s.hash })
    | some (n, e) ↦
        let taken = take n b in ((length taken, some e), record s { part = s.part ++ taken })
  ]

  -- `io.Copy`, from the pieces that are read and the error that ends them.
  unfoldable pub copy :
      Callbacks
      → List (List ℕ)
      → Option GoError
      → Progress
      → Writing H
      → Option GoError × Progress × Writing H
  unfolding write
  copy set [] last p s = (last, p, s)
  copy set (b ∷ bs) last p s =
      let ((n, e), p', s') = write ctx_err write_both (λ x. sha.marshal x.hash) set b p s in
      let rest = copy set bs last p' s' in elim e [ some x ↦ (some x, p', s') | none ↦ rest ]

  -- Once the copy has ended: the flush, the digest and the rename.
  unfoldable pub commit :
      String
      → String
      → WriteOptions
      → Progress
      → Writing H
      → Files
      → Result GoError PutResult × Files
  unfolding fatal
  commit key p opts progress s files =
      let tmp = part_of p in
      let digest = sha.sum s.hash in
      elim (env.fails sync tmp) [
        | some e ↦ (err (around (concat ("flushing " ∷ tmp ∷ " to disk" ∷ [])) e), files)
        | none ↦ elim (env.fails close tmp) [
          | some e ↦ (err e, files)
          | none ↦
              if not (str_eq opts.digest "") && not (str_eq opts.digest digest)
              then (
                err (
                    fatal "verify the write"
                      (concat (
                        key
                        ∷ " did not arrive intact. The bytes written do not match the digest computed before the transfer."
                        ∷ []))
                      none),
                if is_some (env.fails remove tmp) then files else Dict.remove files tmp,
              )
              else elim (env.fails rename p) [
                | some e ↦ (err (around (concat ("replacing " ∷ p ∷ [])) e), files)
                | none ↦ (
                  ok (record {
                    key = key;
                    size = progress.written;
                    digest = digest;
                    etag = "";
                    is_resumed = ltb 0 opts.offset;
                  }),
                  Dict.put (Dict.remove files tmp) p s.part,
                )
              ]
        ]
      ]

  -- Once the copy has ended.
  unfoldable pub finished :
      String
      → String
      → WriteOptions
      → Files
      → Option GoError × Progress × Writing H
      → Result GoError PutResult × Files
  unfolding commit
  finished key p opts files (some e, progress, s) = (err e, Dict.put files (part_of p) s.part)
  finished key p opts files (none, progress, s) =
      commit key p opts progress s (Dict.put files (part_of p) s.part)

  -- The write into the partial file, from its n-th byte on.
  unfoldable pub written :
      String → String → Source → WriteOptions → ℕ → H → Files → Result GoError PutResult × Files
  unfolding copy finished new_progress
  written key p r opts n h files =
      let tmp = part_of p in
      elim (env.fails open_part tmp) [
        | some e ↦ (err (around (concat ("creating " ∷ tmp ∷ [])) e), files)
        | none ↦
            let kept =
              if n == 0 then [] else elim (Dict.get files tmp) [ none ↦ [] | some b ↦ b ] in
            let (pieces, last) = r.reads r.position in
            finished key p opts files
              (copy opts.callbacks pieces last (new_progress n) (record { part = kept; hash = h }))
      ]

  -- From the place where the write goes on. The options have that place as their offset before it is compared
  -- with it, so the state is never dropped.
  unfoldable pub resumed :
      String → String → Source → WriteOptions → ℕ → Files → Result GoError PutResult × Files
  unfolding rewound truncated resume_hash opened written fatal
  resumed key p r opts n files =
      let tmp = part_of p in
      elim (rewound env key r opts.offset n) [
        | err e ↦ (err e, files)
        | ok r' ↦ elim (truncated env tmp n files) [
          | err e ↦ (err e, files)
          | ok files' ↦
              let opts' = record opts { offset = n } in
              let state = if not (n == opts'.offset) then [] else opts'.hash_state in
              elim (resume_hash sha state n (opened env tmp files')) [
                | err e ↦ (
                  err (
                      fatal "resume the write"
                        (concat (
                          "PortCloak could not re-establish the checksum of the "
                          ∷ itoa n
                          ∷ " bytes of "
                          ∷ key
                          ∷ " already written, so resuming would commit them unverified."
                          ∷ []))
                        (some e)),
                  files',
                )
                | ok h ↦ written key p r' opts' n h files'
              ]
        ]
      ]

  -- `Put`
  unfoldable pub put : String → Source → WriteOptions → Files → Result GoError PutResult × Files
  unfolding path held positioned resumed
  put key r opts files = elim (path env key) [
    | err e ↦ (err e, files)
    | ok p ↦ elim (env.fails make_parent p) [
      | some e ↦ (err (around (concat ("creating " ∷ env.dir_of p ∷ [])) e), files)
      | none ↦
          let tmp = part_of p in
          let (n, r') = positioned env r (held env files tmp opts.offset) in
          resumed key p r' opts n files
    ]
  ]
