-- ===== src/Config/Jobs/Purge.antt =====
-- What `PurgeFinished` of internal/engine/config/jobs.go removes, and what `Running` finds.
use portcloak.Base.{
  ℕ, ◌+◌, ◌≡◌, refl, sym, ◌∙◌, ◌≢◌, inl, inr, Bool, true, false, none, List, [], ◌∷◌, String,
  str_eq, eq_iff, arith, if◌then◌else◌, All, In, here, there, Bool-cases,
}
use mathlib.Core.Path.{subst}
use portcloak.Base.Dict.{Dict, get-remove}
use portcloak.Base.Result.{Result, ok, err, Result-cases}
use portcloak.Config.Files.{Faults}
use portcloak.Config.Jobs.{Job, is_terminal}
use portcloak.Config.Jobs.Store.{
  Codec, JobError, load, delete, list_jobs, purge_all, purge_finished, find_user, find_running,
  uses, Used, IsNamed, Loads, not_found, size_of,
}
use portcloak.Config.Jobs.Loads.{list_jobs_lem}
use portcloak.Config.Jobs.Sweep.{Done, Done-next, Done-end}

All-In {ℓ κ} : {A : Type ℓ} (P : A → Type κ) {a : A} (xs : List A) → All P xs → In a xs → P a
All-In P (x ∷ xs) h (here e) = subst P (sym e) h.0
All-In P (x ∷ xs) h (there m) = All-In P xs h.1 m
All-In P [] h m = elim m [ ]

-- A user of a name is found exactly among the jobs that are not finished.
find_user-none :
    (kind : Used) (name : String) (js : List Job)
    → find_user kind name js ≡ none
    → All (λ j. is_terminal j.state ≡ false → uses kind j ≢ name) js
unfolding find_user
find_user-none kind name [] h = tt
find_user-none kind name (j ∷ js) h =
    ground (arith, find_user-none kind name js, eq_iff (uses kind j) name)

module _ {Bytes : Type 0} (codec : Codec Bytes) (fs : Faults) where
  -- What the purge makes of a loaded record.
  abbrev pub purged : String → Result JobError Job → Result JobError Job
  purged id (err e) = err e
  purged id (ok j) = if is_terminal j.state then err (not_found id) else ok j

  purged_err : (id : String) (e : JobError) → purged id (err e) ≡ err e
  purged_err id e = refl

  delete_self :
      (id : String) {j : Job} (dir : Dict Bytes)
      → load codec fs id dir ≡ ok j
      → (delete codec fs id dir).0 ≡ ok tt
      → load codec fs id (delete codec fs id dir).1 ≡ err (not_found id)
  unfolding load delete
  delete_self id dir l d = ground (arith, get-remove dir id id, eq_iff id id)

  delete_ne :
      (id k : String) (dir : Dict Bytes)
      → str_eq k id ≡ false
      → load codec fs id (delete codec fs k dir).1 ≡ load codec fs id dir
  unfolding load delete
  delete_ne id k dir h = ground (arith, get-remove dir k id)

  delete_gone :
      (id : String) (dir : Dict Bytes)
      → load codec fs id dir ≡ err (not_found id)
      → load codec fs id (delete codec fs id dir).1 ≡ err (not_found id)
  unfolding load delete
  delete_gone id dir l = ground (arith, get-remove dir id id, eq_iff id id)

  purge_all_deleted :
      (cannot_stat : String → Bool) (j : Job) (js : List Job) (removed bytes : ℕ) (dir : Dict Bytes)
      → is_terminal j.state ≡ true
      → (purge_all codec fs cannot_stat (j ∷ js) removed bytes dir).0.0 ≡ none
      → (bytes' : ℕ) × ((delete codec fs j.id dir).0 ≡ ok tt)
        × (purge_all codec fs cannot_stat (j ∷ js) removed bytes dir
            ≡ purge_all codec fs cannot_stat js (removed + 1) bytes' (delete codec fs j.id dir).1)
  unfolding purge_all
  purge_all_deleted cs j js removed bytes dir t h =
      elim (Result-cases (delete codec fs j.id dir).0) [
        | inl (u, d) ↦ (bytes + size_of codec fs cs dir j.id, d, ground (arith, d))
        | inr (e, d) ↦ absurd (ground (arith, d))
      ]

  -- The record of the head of the list once it has been dealt with.
  self_kept :
      (old dir : Dict Bytes) (j : Job) (js : List Job)
      → Loads codec fs old j
      → is_terminal j.state ≡ false
      → Done codec fs purged old (j ∷ js) dir
      → load codec fs j.id dir ≡ purged j.id (load codec fs j.id old)
  self_kept old dir j js l n done = elim (done j.id) [
    | inl p ↦ p
    | inr (p, listed) ↦ p ∙ l ∙ rw (l, purged) (rw n refl)
  ]

  self_removed :
      (old dir : Dict Bytes) (j : Job) (js : List Job)
      → Loads codec fs old j
      → is_terminal j.state ≡ true
      → (delete codec fs j.id dir).0 ≡ ok tt
      → Done codec fs purged old (j ∷ js) dir
      → load codec fs j.id (delete codec fs j.id dir).1 ≡ purged j.id (load codec fs j.id old)
  self_removed old dir j js l t d done = elim (done j.id) [
    | inl p ↦ delete_gone j.id dir (p ∙ final) ∙ sym final
    | inr (p, listed) ↦ delete_self j.id dir (p ∙ l) d ∙ sym final
  ]
    where
      final : purged j.id (load codec fs j.id old) ≡ err (not_found j.id)
      final = rw (l, purged) (rw t refl)

  purge_all-Done :
      (cannot_stat : String → Bool) (old dir : Dict Bytes) (js : List Job) (removed bytes : ℕ)
      → IsNamed codec fs old
      → All (Loads codec fs old) js
      → Done codec fs purged old js dir
      → (purge_all codec fs cannot_stat js removed bytes dir).0.0 ≡ none
      → Done codec fs purged old [] (purge_all codec fs cannot_stat js removed bytes dir).1
  unfolding purge_all
  purge_all-Done cs old dir [] removed bytes named loads done h = done
  purge_all-Done cs old dir (j ∷ js) removed bytes named loads done h =
      elim (Bool-cases (is_terminal j.state)) [
        | inl t ↦
            let (bytes', d, same) = purge_all_deleted cs j js removed bytes dir t h in
            let dir' = (delete codec fs j.id dir).1 in
            rw same (
              purge_all-Done cs old dir' js (removed + 1) bytes' named loads.1
                (Done-next codec fs purged purged_err old dir dir' j js named
                  (self_removed old dir j js loads.0 t d done) (λ id o. delete_ne id j.id dir o)
                  done)
                (rw same at h))
        | inr n ↦
            rw (n, purge_all)
              (purge_all-Done cs old dir js removed bytes named loads.1
                (Done-next codec fs purged purged_err old dir dir j js named
                  (self_kept old dir j js loads.0 n done) (λ id o. refl) done)
                (rw (n, purge_all) at h))
      ]

  -- Where `PurgeFinished` reports no error, over a folder in which each record is in the file of its
  -- id, the finished jobs are gone and every other record loads as before.
  pub purge_finished_lem :
      (cannot_stat : String → Bool) (dir : Dict Bytes) (id : String)
      → IsNamed codec fs dir
      → (purge_finished codec fs cannot_stat dir).0.0 ≡ none
      → load codec fs id (purge_finished codec fs cannot_stat dir).1
        ≡ purged id (load codec fs id dir)
  unfolding purge_finished
  purge_finished_lem cs dir id named h = elim (Result-cases (list_jobs codec fs dir)) [
    | inl (js, listed) ↦
        let (complete, sound) = list_jobs_lem codec fs dir named listed in
        let done =
          purge_all-Done cs dir dir js 0 0 named sound (λ k. inr (refl, complete k))
            (rw (listed, purge_finished) at h) in
        rw (listed, purge_finished)
          (Done-end codec fs purged purged_err dir (purge_all codec fs cs js 0 0 dir).1 id done)
    | inr (e, failing) ↦ absurd (ground (arith, failing))
  ]

  -- Where the jobs can be listed and `Running` answers that no job uses the name, no job that can be
  -- loaded and is not finished uses it.
  pub find_running-none :
      (kind : Used) (name : String) (dir : Dict Bytes) {js : List Job} (id : String) (j : Job)
      → IsNamed codec fs dir
      → list_jobs codec fs dir ≡ ok js
      → find_running codec fs kind name dir ≡ none
      → load codec fs id dir ≡ ok j
      → is_terminal j.state ≡ false
      → uses kind j ≢ name
  unfolding find_running
  find_running-none kind name dir {js} id j named listed none_found l n =
      All-In _ js (find_user-none kind name js (rw (listed, find_running) at none_found))
        ((list_jobs_lem codec fs dir named listed).0 id j l) n
