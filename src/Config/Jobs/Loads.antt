-- ===== src/Config/Jobs/Loads.antt =====
-- What `Save`, `Load` and `List` of internal/engine/config/jobs.go find on disk.
use portcloak.Base.{
  ℕ, ◌≡◌, refl, sym, ap, ◌∙◌, ◌⊎◌, inl, inr, Bool, true, false, ◌&&◌, if◌then◌else◌, eq_iff,
  Bool-cases, some, List, [], ◌∷◌, String, str_eq, eq_refl, arith, All, In, here, there,
  Option-cases, sort_by, In-sort_by, All-sort_by,
}
use portcloak.Base.Dict
use portcloak.Base.Dict.{Dict, get-put, In-keys}
use portcloak.Base.Result.{Result, ok, err, Result-cases}
use portcloak.Config.Files.{Faults, write_atomic_cases}
use portcloak.Config.Jobs.{Job}
use portcloak.Config.Jobs.Store.{
  Codec, JobError, save, load, load_all, list_jobs, newer, IsNamed, Loads, not_marshalled, file,
}

abbrev pub is_saved : Result JobError Job → Bool
is_saved (ok j) = true
is_saved (err e) = false

module _ {Bytes : Type 0} (codec : Codec Bytes) (fs : Faults) where
  -- A save puts the stamped job in place, or fails and leaves the directory as it was.
  pub save_cases :
      (now : ℕ) (j : Job) (dir : Dict Bytes)
      → ((b : Bytes) × (codec.marshal (record j { updated_at = now }) ≡ some b)
          × (save codec fs now j dir ≡ (ok (record j { updated_at = now }), Dict.put dir j.id b)))
        ⊎ ((e : JobError) × (save codec fs now j dir ≡ (err e, dir)))
  unfolding save
  save_cases now j dir = elim (Option-cases (codec.marshal (record j { updated_at = now }))) [
    | inl n ↦ inr (not_marshalled j.id, rw (n, save))
    | inr (b, m) ↦ elim (write_atomic_cases fs dir j.id b) [
      | inl w ↦ inl (b, m, ground (arith, m, w))
      | inr (e, w) ↦ inr (file e, ground (arith, m, w))
    ]
  ]

  pub load-put_ne :
      (id k : String) (b : Bytes) (dir : Dict Bytes)
      → str_eq k id ≡ false
      → load codec fs id (Dict.put dir k b) ≡ load codec fs id dir
  unfolding load
  load-put_ne id k b dir h = ground (arith, get-put dir k id b)

  In-load_all :
      {id : String} {j : Job} {ids : List String} (dir : Dict Bytes)
      → load codec fs id dir ≡ ok j
      → In id ids
      → In j (load_all codec fs ids dir)
  unfolding load_all
  In-load_all {id} {j} {ids = i ∷ ids} dir l (here e) =
      rw (ap (λ k. load codec fs k dir) (sym e) ∙ l, load_all) (here refl)
  In-load_all {id} {j} {ids = i ∷ ids} dir l (there m) = elim (Result-cases (load codec fs i dir)) [
    | inl (k, p) ↦ rw (p, load_all) (there (In-load_all dir l m))
    | inr (e, p) ↦ rw (p, load_all) (In-load_all dir l m)
  ]
  In-load_all {ids = []} dir l m = elim m [ ]

  load_all-Loads :
      (ids : List String) (dir : Dict Bytes)
      → IsNamed codec fs dir
      → All (Loads codec fs dir) (load_all codec fs ids dir)
  unfolding load_all
  load_all-Loads [] dir named = tt
  load_all-Loads (i ∷ ids) dir named = elim (Result-cases (load codec fs i dir)) [
    | inl (k, p) ↦
        rw (p, load_all)
          (ap (λ x. load codec fs x dir) (named i k p) ∙ p, load_all-Loads ids dir named)
    | inr (e, p) ↦ rw (p, load_all) (load_all-Loads ids dir named)
  ]

  load-In-keys :
      (id : String) (j : Job) (dir : Dict Bytes)
      → load codec fs id dir ≡ ok j
      → In id (Dict.keys dir)
  unfolding load
  load-In-keys id j dir h = elim (Option-cases (Dict.get dir id)) [
    | inl n ↦ absurd (ground (arith, n))
    | inr (b, g) ↦ In-keys dir id g
  ]

  list_jobs_ok :
      (dir : Dict Bytes) {jobs : List Job}
      → list_jobs codec fs dir ≡ ok jobs
      → sort_by newer (load_all codec fs (Dict.keys dir) dir) ≡ jobs
  unfolding list_jobs
  list_jobs_ok dir h = ground arith

  -- `List` finds every job that `Load` reads, and no other.
  pub list_jobs_lem :
      (dir : Dict Bytes) {jobs : List Job}
      → IsNamed codec fs dir
      → list_jobs codec fs dir ≡ ok jobs
      → ((id : String) (j : Job) → load codec fs id dir ≡ ok j → In j jobs)
        × All (Loads codec fs dir) jobs
  list_jobs_lem dir named h = rw (← list_jobs_ok dir h) (
    (λ id j l. In-sort_by newer (In-load_all dir l (load-In-keys id j dir l))),
    All-sort_by newer (Loads codec fs dir) _ (load_all-Loads (Dict.keys dir) dir named),
  )

  pub load_readable :
      (id : String) (dir : Dict Bytes) {j : Job}
      → load codec fs id dir ≡ ok j
      → fs.on_read id ≡ false
  unfolding load
  load_readable id dir h = ground arith

module _ {Bytes : Type 0} (codec : Codec Bytes) (fs : Faults)
    (round_trip : (j : Job) (b : Bytes)
      → codec.marshal j ≡ some b
      → codec.unmarshal b ≡ some j) where
  pub load-put_self :
      (id : String) (j : Job) (b : Bytes) (dir : Dict Bytes)
      → fs.on_read id ≡ false
      → codec.marshal j ≡ some b
      → load codec fs id (Dict.put dir id b) ≡ ok j
  unfolding load
  load-put_self id j b dir r m = ground (arith, get-put dir id id b, eq_refl id, round_trip j b m)

  -- A job that `Save` has stored is what `Load` then reads under its id, stamped with the time of the save;
  -- what is stored under other ids, and everything where the save fails, loads as before.
  pub load-save :
      (now : ℕ) (j : Job) (dir : Dict Bytes) (id : String)
      → fs.on_read id ≡ false
      → let (res, dir') = save codec fs now j dir in
        load codec fs id dir' ≡ (
          if is_saved res && str_eq j.id id
          then ok (record j { updated_at = now })
          else load codec fs id dir)
  load-save now j dir id readable = elim (save_cases codec fs now j dir) [
    | inr (e, q) ↦ rw q
    | inl (b, m, q) ↦ elim (Bool-cases (str_eq j.id id)) [
      | inl same ↦
          let e = (eq_iff j.id id).0 same in
          rw (q, same)
            (ap (λ i. load codec fs i (Dict.put dir j.id b)) (sym e)
              ∙ load-put_self j.id (record j { updated_at = now }) b dir
                  (ap fs.on_read e ∙ readable) m)
      | inr other ↦ rw (q, other) (load-put_ne codec fs id j.id b dir other)
    ]
  ]
