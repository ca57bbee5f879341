-- ===== src/Config/Jobs/Sweep.antt =====
-- A loop over the listed jobs that brings each record to a final form: what has been dealt with is
-- told from what is still listed. The loops of `AdoptRunning` and `PurgeFinished` in
-- internal/engine/config/jobs.go are such.
use portcloak.Base.{
  ◌≡◌, sym, ap, ◌∙◌, ◌⊎◌, inl, inr, false, List, [], ◌∷◌, String, str_eq, eq_iff, arith, In,
  In-tail, ◌≢◌, Bool-cases,
}
use portcloak.Base.Dict.{Dict}
use portcloak.Base.Result.{Result, ok, err, Result-cases}
use portcloak.Config.Files.{Faults}
use portcloak.Config.Jobs.{Job}
use portcloak.Config.Jobs.Store.{Codec, JobError, load, IsNamed}

module _ {Bytes : Type 0} (codec : Codec Bytes) (fs : Faults)
    (final : String → Result JobError Job → Result JobError Job) where
  -- How far the loop has come: a record is in its final form, or is as it was and still listed.
  abbrev pub Done : Dict Bytes → List Job → Dict Bytes → Type 0
  Done old js dir =
      (id : String)
      → (load codec fs id dir ≡ final id (load codec fs id old))
        ⊎ ((load codec fs id dir ≡ load codec fs id old)
            × ((j : Job) → load codec fs id old ≡ ok j → In j js))

module _ {Bytes : Type 0} (codec : Codec Bytes) (fs : Faults)
    (final : String → Result JobError Job → Result JobError Job)
    (final_err : (id : String) (e : JobError) → final id (err e) ≡ err e) where
  -- A record of another name than `j` is not `j`.
  other_job :
      (old : Dict Bytes) (id : String) (j k : Job)
      → IsNamed codec fs old
      → str_eq j.id id ≡ false
      → load codec fs id old ≡ ok k
      → k ≢ j
  other_job old id j k named n l e =
      ground (arith, n, eq_iff j.id id, ap (λ (x : Job). x.id) e, named id k l)

  -- The head of the list is dealt with; the records of other names are as they were.
  pub Done-next :
      (old dir dir' : Dict Bytes) (j : Job) (js : List Job)
      → IsNamed codec fs old
      → (load codec fs j.id dir' ≡ final j.id (load codec fs j.id old))
      → ((id : String) → str_eq j.id id ≡ false → load codec fs id dir' ≡ load codec fs id dir)
      → Done codec fs final old (j ∷ js) dir
      → Done codec fs final old js dir'
  Done-next old dir dir' j js named self others done id = elim (Bool-cases (str_eq j.id id)) [
    | inl same ↦ inl (rw (← (eq_iff j.id id).0 same) self)
    | inr other ↦ elim (done id) [
      | inl p ↦ inl (others id other ∙ p)
      | inr (p, listed) ↦
          inr
            (others id other ∙ p, λ k l. In-tail (listed k l) (other_job old id j k named other l))
    ]
  ]

  pub Done-end :
      (old dir : Dict Bytes) (id : String)
      → Done codec fs final old [] dir
      → load codec fs id dir ≡ final id (load codec fs id old)
  Done-end old dir id done = elim (done id) [
    | inl p ↦ p
    | inr (p, listed) ↦ elim (Result-cases (load codec fs id old)) [
      | inl (k, l) ↦ absurd (nothing (listed k l))
      | inr (e, l) ↦ p ∙ l ∙ sym (ap (final id) l ∙ final_err id e)
    ]
  ]
    where
      nothing : {k : Job} → In k [] → ⊥
      nothing m = elim m [ ]
