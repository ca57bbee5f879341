-- ===== src/Orchestrator/Restore/Reads.antt =====
-- internal/engine/orchestrator/restore.go: what a restore reads of the destination: the dry run, the
-- validation, and whether an overwrite wants a confirmation.
use portcloak.Base.{
  Bool, true, false, not, ◌&&◌, Option, none, some, List, [], ◌∷◌, String, str_eq, concat, itoa,
  if◌then◌else◌,
}
use portcloak.Resil.Errors.{GoError, error_text}
use portcloak.Orchestrator.Restore.Preview.{RealmShape, DiffCategory, diff_rows, total}
use portcloak.Orchestrator.Restore.Report.{Validation, not_performed, not_read, validation}
use portcloak.Orchestrator.Restore.Steps.{
  RestoreRequest, Session, RestoreSteps, Sentences, strategy_overwrite,
}

pub record DryRun : Type 0 where
  pub available : Bool
  pub target_exists : Bool
  pub rows : List DiffCategory
  pub summary : String
  pub unavailable : String

module _ {S : Type 0} (steps : RestoreSteps S) (texts : Sentences) (req : RestoreRequest) where
  dry_summary : Session → RealmShape → List DiffCategory → String
  unfolding total
  dry_summary session shape rows =
      let created = itoa (total (λ r. r.create) rows) in
      if shape.exists
      then concat (
          created
          ∷ " to create, "
          ∷ itoa (total (λ r. r.overwrite) rows)
          ∷ " to overwrite against the existing realm."
          ∷ [])
      else concat (
          "The realm "
          ∷ texts.quoted session.realm
          ∷ " does not exist on the destination, so all "
          ∷ created
          ∷ " items are new."
          ∷ [])

  no_preview : String → DryRun
  no_preview why = record {
    available = false;
    target_exists = false;
    rows = [];
    summary = "";
    unavailable = why;
  }

  -- A destination that answers, read; `none` stands for one that is nil or does not answer.
  unfoldable pub read_shape : String → S → Option (RealmShape × Option GoError) × S
  read_shape realm s = elim steps.destination [
    | none ↦ (none, s)
    | some dest ↦
        let (up, s₁) = dest.reachable s in
        if up then (let (res, s₂) = dest.read_realm realm s₁ in (some res, s₂)) else (none, s₁)
  ]

  -- `ComputeDryRun`
  unfoldable pub compute_dry_run : Session → S → DryRun × S
  unfolding diff_rows dry_summary no_preview error_text read_shape
  compute_dry_run session s =
      let (res, s') = read_shape session.realm s in
      (
        elim res [
          | none ↦
              no_preview
                "The destination's Admin API could not be read, so PortCloak cannot preview the changes. The import can still proceed."
          | some (shape, some e) ↦
              no_preview (concat ("The destination realm could not be read: " ∷ error_text e ∷ []))
          | some (shape, none) ↦
              let rows = diff_rows session.manifest shape req.strategy in
              record {
                available = true;
                target_exists = shape.exists;
                rows = rows;
                summary = dry_summary session shape rows;
                unavailable = "";
              }
        ],
        s',
      )

  -- `validate`
  unfoldable pub validate_restore : Session → S → Validation × S
  unfolding not_performed not_read validation read_shape
  validate_restore session s =
      let (res, s') = read_shape session.realm s in
      (
        elim res [
          | none ↦ not_performed
          | some (shape, some e) ↦ not_read
          | some (shape, none) ↦
              if shape.exists then validation session.manifest shape else not_read
        ],
        s',
      )

  -- Whether an overwrite still wants the realm's name.
  unfoldable pub wants_name : Session → S → Bool × S
  unfolding read_shape
  wants_name session s =
      if str_eq req.strategy strategy_overwrite
      then (let (res, s') = read_shape session.realm s in
          (
            elim res [
              | some (shape, none) ↦ shape.exists && not (str_eq req.confirm_realm session.realm)
              | _ ↦ false
            ],
            s',
          ))
      else (false, s)
