-- ===== src/Blobs/Disk/Digest.antt =====
-- internal/engine/store/disk/disk.go: what the digest that `Put` answers is over.
use portcloak.Base.{
  subst, ◌≡◌, refl, sym, ap, ◌∙◌, ◌⊎◌, inl, inr, ℕ, ◌+◌, ◌≤◌, Bool, true, false, not, ◌&&◌, Option,
  none, some, List, [], ◌∷◌, ◌++◌, String, ltb, length, length-append, length-take, take_all, take,
  str_eq, eq_iff, ◌==◌, arith, Bool-cases, Option-cases, if◌then◌else◌,
}
use portcloak.Base.Dict
use portcloak.Base.Dict.{Dict, dict_laws}
use portcloak.Base.Result.{Result, ok, err, Result-cases}
use portcloak.Resil.Errors.{GoError}
use portcloak.Blobs.{PutResult}
use portcloak.Blobs.Progress.{Progress, Callbacks, new_progress, write, written-write}
use portcloak.Blobs.Disk.Copied.{told_both, passed}
use portcloak.Blobs.Disk.{write_both, copy, commit, finished, written, resumed, put}
use portcloak.Blobs.Disk.Resume.{
  DiskEnv, Sha, Source, WriteOptions, Writing, WriteFault, Files, part_of, path, held, positioned,
  rewound, truncated, opened, resume_hash, rename, sync, close, open_part, open_prefix, make_parent,
  truncate,
}

-- What crypto/sha256 documents of a hash: writing adds to what was written.
pub record IsHash {H : Type 0} (sha : Sha H) : Type 0 where
  pub absorb-append : (a b : List ℕ) (h : H) → sha.absorb (a ++ b) h ≡ sha.absorb b (sha.absorb a h)
  pub absorb-empty : (h : H) → sha.absorb [] h ≡ h

module _ {H : Type 0} (sha : Sha H) (law : IsHash sha) (env : DiskEnv)
    (ctx_err : Writing H → Option GoError) (fault : WriteFault) where
  -- The hash and the count are those of the bytes in the file.
  abbrev IsTold : Progress → Writing H → Type 0
  IsTold p s = (s.hash ≡ sha.absorb s.part sha.fresh) × (p.written ≡ length s.part)

  abbrev IsToldAtEnd : Option GoError × Progress × Writing H → Type 0
  IsToldAtEnd (some e, p, s) = Unit {0}
  IsToldAtEnd (none, p, s) = IsTold p s

  abbrev below : List ℕ → Writing H → (ℕ × Option GoError) × Writing H
  below = write_both sha env ctx_err fault

  abbrev writing :
      Callbacks → List ℕ → Progress → Writing H → (ℕ × Option GoError) × Progress × Writing H
  writing set = write ctx_err below (λ x. sha.marshal x.hash) set

  write-IsTold :
      (set : Callbacks) (b : List ℕ) (p : Progress) (s : Writing H)
      → IsTold p s
      → (writing set b p s).0.1 ≡ none
      → IsTold (writing set b p s).1 (writing set b p s).2
  write-IsTold set b p s (hashed, counted) h =
      let (same, there) = passed sha env ctx_err fault set b p s h in
      let (all, grown, absorbed) =
        told_both sha env ctx_err fault b s (ap (λ (x : ℕ × Option GoError). x.1) (sym same) ∙ h) in
      let count = written-write ctx_err below (λ x. sha.marshal x.hash) set b p s in
      (
        ap (λ (x : Writing H). x.hash) there
            ∙ absorbed
            ∙ ap (sha.absorb b) hashed
            ∙ sym (law.absorb-append s.part b sha.fresh)
            ∙ ap (λ x. sha.absorb x sha.fresh) (sym (ap (λ (x : Writing H). x.part) there ∙ grown)),
        count
            ∙ ap (λ (x : ℕ × Option GoError). p.written + x.0) same
            ∙ ap (λ x. p.written + x) all
            ∙ ap (λ x. x + length b) counted
            ∙ sym (length-append s.part b)
            ∙ sym (ap length (ap (λ (x : Writing H). x.part) there ∙ grown)),
      )

  copy-IsTold :
      (set : Callbacks) (bs : List (List ℕ)) (last : Option GoError) (p : Progress) (s : Writing H)
      → IsTold p s
      → IsToldAtEnd (copy sha env ctx_err fault set bs last p s)
  unfolding copy
  copy-IsTold set [] none p s told = told
  copy-IsTold set [] (some e) p s told = tt
  copy-IsTold set (b ∷ bs) last p s told = elim (Option-cases (writing set b p s).0.1) [
    | inr (e, failed) ↦ rw (failed, copy) tt
    | inl taken ↦
        rw (taken, copy)
          (copy-IsTold set bs last (writing set b p s).1 (writing set b p s).2
            (write-IsTold set b p s told taken))
  ]

  -- What a Put that succeeds has stored: an object whose digest and size are the ones that it answers.
  abbrev pub IsWhole : String → Result GoError PutResult × Files → Type 0
  IsWhole p (err e, files') = Unit {0}
  IsWhole p (ok r, files') =
      (b : List ℕ) × (Dict.get files' p ≡ some b)
      × (r.digest ≡ sha.sum (sha.absorb b sha.fresh))
      × (r.size ≡ length b)

  module _ (key p : String) (opts : WriteOptions) where
    commit-IsWhole :
        (progress : Progress) (s : Writing H) (opts' : WriteOptions) (files : Files)
        → IsTold progress s
        → IsWhole p (commit sha env ctx_err fault key p opts' progress s files)
    unfolding commit
    commit-IsWhole progress s opts' files (hashed, counted) =
        let tmp = part_of p in
        let digest = sha.sum s.hash in
        elim (Option-cases (env.fails sync tmp)) [
          | inr (e, failed) ↦ rw (failed, commit) tt
          | inl synced ↦ elim (Option-cases (env.fails close tmp)) [
            | inr (e, failed) ↦ rw (synced, failed, commit) tt
            | inl closed ↦
                elim (Bool-cases
                  (not (str_eq opts'.digest "") && not (str_eq opts'.digest digest))) [
                    | inl damaged ↦ rw (synced, closed, damaged, commit) tt
                    | inr intact ↦ elim (Option-cases (env.fails rename p)) [
                      | inr (e, failed) ↦ rw (synced, closed, intact, failed, commit) tt
                      | inl renamed ↦
                          let placed =
                            Dict.get-put (Dict.remove files tmp) p p s.part
                            ∙ rw ((eq_iff p p).1 refl) refl in
                          rw (synced, closed, intact, renamed, commit)
                            (s.part, placed, ap sha.sum hashed, counted)
                    ]
                  ]
          ]
        ]

    finished-IsWhole :
        (opts' : WriteOptions) (files : Files) (end : Option GoError × Progress × Writing H)
        → IsToldAtEnd end
        → IsWhole p (finished sha env ctx_err fault key p opts' files end)
    unfolding finished
    finished-IsWhole opts' files (some e, progress, s) told = tt
    finished-IsWhole opts' files (none, progress, s) told =
        commit-IsWhole progress s opts' (Dict.put files (part_of p) s.part) told

    -- The bytes that stay in the partial file.
    abbrev kept : ℕ → Files → List ℕ
    kept n files =
        if n == 0 then [] else elim (Dict.get files (part_of p)) [ none ↦ [] | some b ↦ b ]

    written-IsWhole :
        (r : Source) (opts' : WriteOptions) (n : ℕ) (h : H) (files : Files)
        → h ≡ sha.absorb (kept n files) sha.fresh
        → n ≡ length (kept n files)
        → IsWhole p (written sha env ctx_err fault key p r opts' n h files)
    unfolding written new_progress
    written-IsWhole r opts' n h files hashed counted =
        elim (Option-cases (env.fails open_part (part_of p))) [
          | inr (e, failed) ↦ rw (failed, written) tt
          | inl begun ↦
              let (pieces, last) = r.reads r.position in
              rw (begun, written)
                (finished-IsWhole opts' files _ (
                  copy-IsTold opts'.callbacks pieces last (new_progress n)
                    (record { part = kept n files; hash = h }) (hashed, counted)))
        ]

    abbrev IsCut : ℕ → Result GoError Files → Type 0
    IsCut n (err e) = Unit {0}
    IsCut n (ok files') =
        (n ≡ 0) ⊎ ((b : List ℕ) × (Dict.get files' (part_of p) ≡ some b) × (length b ≤ n))

    truncated-IsCut : (n : ℕ) (files : Files) → IsCut n (truncated env (part_of p) n files)
    unfolding truncated
    truncated-IsCut n files = elim (Bool-cases (n == 0)) [
      | inl start ↦ rw (start, truncated) (inl (ground (arith, start)))
      | inr on ↦ elim (Option-cases (env.fails truncate (part_of p))) [
        | inr (e, failed) ↦ rw (on, failed, truncated) tt
        | inl cut ↦ elim (Option-cases (Dict.get files (part_of p))) [
          | inl missing ↦ rw (on, cut, missing, truncated) tt
          | inr (b, there) ↦
              rw (on, cut, there, truncated)
                (inr (
                  take n b,
                  Dict.get-put files (part_of p) (part_of p) (take n b)
                      ∙ rw ((eq_iff (part_of p) (part_of p)).1 refl) refl,
                  length-take n b,
                ))
        ]
      ]
    ]

    -- Without a state, the hash is taken again from the bytes that stay.
    abbrev IsAgain : ℕ → Files → Result GoError H → Type 0
    IsAgain n files (err e) = Unit {0}
    IsAgain n files (ok h) = (h ≡ sha.absorb (kept n files) sha.fresh) × (n ≡ length (kept n files))

    resume_hash-IsAgain :
        (n : ℕ) (files : Files)
        → IsCut n (ok files)
        → IsAgain n files (resume_hash sha [] n (opened env (part_of p) files))
    unfolding resume_hash opened
    resume_hash-IsAgain n files cut = elim (Bool-cases (n == 0)) [
      | inl start ↦
          rw (start, resume_hash)
            (rw start (sym (law.absorb-empty sha.fresh), ground (arith, start)))
      | inr on ↦ elim (Option-cases (env.fails open_prefix (part_of p))) [
        | inr (e, failed) ↦ rw (on, failed, resume_hash, opened) tt
        | inl seen ↦ elim cut [
          | inl none_kept ↦ absurd (ground (arith, on, none_kept))
          | inr (b, there, short) ↦ elim (Bool-cases (ltb (length b) n)) [
            | inl lost ↦ rw (on, seen, there, lost, resume_hash, opened) tt
            | inr whole ↦
                rw (on, seen, there, whole, resume_hash, opened)
                  (rw (on, there)
                    (
                      ap (λ x. sha.absorb x sha.fresh) (take_all n b short),
                      ground (arith, whole, short),
                    ))
          ]
        ]
      ]
    ]

    no_state : (c : Bool) (state : List ℕ) → state ≡ [] → (if c then [] else state) ≡ []
    no_state true state h = refl
    no_state false state h = h

    resumed-IsWhole :
        (r : Source) (opts' : WriteOptions) (n : ℕ) (files : Files)
        → opts'.hash_state ≡ []
        → IsWhole p (resumed sha env ctx_err fault key p r opts' n files)
    unfolding resumed
    resumed-IsWhole r opts' n files stateless =
        elim (Result-cases (rewound env key r opts'.offset n)) [
          | inr (e, stuck) ↦ rw (stuck, resumed) tt
          | inl (r', ready) ↦ elim (Result-cases (truncated env (part_of p) n files)) [
            | inr (e, uncut) ↦ rw (ready, uncut, resumed) tt
            | inl (files', cut) ↦
                let is_cut = subst (IsCut n) cut (truncated-IsCut n files) in
                let state = if not (n == n) then [] else opts'.hash_state in
                elim (Result-cases (resume_hash sha state n (opened env (part_of p) files'))) [
                  | inr (e, unsummed) ↦ rw (ready, cut, unsummed, resumed) tt
                  | inl (h, summed) ↦
                      let again = resume_hash-IsAgain n files' is_cut in
                      let same =
                        ap (λ (x : List ℕ). resume_hash sha x n (opened env (part_of p) files'))
                          (sym (no_state (not (n == n)) opts'.hash_state stateless)) in
                      let (hashed, counted) = subst (IsAgain n files') (same ∙ summed) again in
                      rw (ready, cut, summed, resumed)
                        (written-IsWhole r' (record opts' { offset = n }) n h files' hashed counted)
                ]
          ]
        ]

    -- A Put without a hash state that succeeds has stored an object of the digest and of the size that it
    -- answers, also where it goes on after the bytes of an interrupted one.
    pub put-IsWhole :
        (r : Source) (files : Files)
        → path env key ≡ ok p
        → opts.hash_state ≡ []
        → IsWhole p (put sha env ctx_err fault key r opts files)
    unfolding put
    put-IsWhole r files here stateless = elim (Option-cases (env.fails make_parent p)) [
      | inr (e, failed) ↦ rw (here, failed, put) tt
      | inl made ↦
          let n = held env files (part_of p) opts.offset in
          let (m, r') = positioned env r n in
          rw (here, made, put) (resumed-IsWhole r' opts m files stateless)
    ]
