-- ===== src/Clone.antt =====
-- internal/engine/target/clone/clone.go: the life of an ephemeral clone, over a platform that Docker
-- and Kubernetes fill. The executor's fields are a record beside the platform's world `S`; each method
-- reads and writes them under its mutex. `lines` of a result are what `OnStdout` was given.
pub mod Labels
pub mod Owner
pub mod Derivation
pub mod Lifecycle
pub mod Retried
mod Tests
use portcloak.Base.{
  ℕ, Bool, true, false, not, ◌&&◌, ◌||◌, List, [], ◌∷◌, ◌++◌, Option, none, some, String, ◌==◌,
  str_eq, any, concat, codes, split_path, clean, sort_by, ltb, if◌then◌else◌,
}
use portcloak.Base.Int.{ℤ, pos, negsuc}
use portcloak.Base.Dict.{Dict}
use Prim.Native.Char.{Char, code}
use Prim.Native.String
use portcloak.Resil.Errors.{GoError, fatal, with_advice}
use portcloak.Blobs.{Reader, Answer}
use portcloak.Reliable.Executors.{Types, Executor, Sweeper}
use portcloak.Clone.Labels.{labels}
use portcloak.Clone.Derivation.{
  Spec, Command, ExecResult, PrepareOptions, Ports, ExecContext, Orphan, Platform, Clone, Cloned,
  is_zero, make_dir, dir_name, current_ref, below, no_context, no_image_advice, derived,
}
use portcloak.Clone.Owner.{FileOwner, root_owner, owner_of}

no_clone : String → String → GoError
unfolding fatal
no_clone op message = fatal op message none

-- The error of a clone that stays.
unfoldable pub left_running : String → GoError → GoError
unfolding fatal with_advice
left_running ref e =
    with_advice "PortCloak will offer to remove it again the next time it starts." (
      fatal "destroy the ephemeral clone"
        (concat (
          "PortCloak could not remove " ∷ ref
          ∷ ". It holds the same database credentials as the serving instance, so remove it by hand."
          ∷ []))
        (some e))

older : Orphan → Orphan → Bool
older a b = ltb a.created_at b.created_at

module _ {Facts Sink S : Type 0} (p : Platform Facts Sink S) (stamp : S → String) where
  -- `Prepare` once the clone is created: it is recorded before it is waited for.
  unfoldable pub set_up : Spec → String → Cloned S → Answer (Cloned S) ExecContext
  unfolding make_dir
  set_up spec ref c =
      let recorded = record c.clone {
        ref = ref;
        spec = some spec;
        created = true;
        made_dirs = [];
        owner = none;
      } in
      let (late, s₁) = p.wait_running ref c.world in
      elim late [
        | some e ↦ ((no_context, some e), record { world = s₁; clone = recorded })
        | none ↦
            let ((made, e), s₂) = p.exec ref (make_dir spec.work_dir) s₁ in
            elim e [
              | some x ↦ ((no_context, some x), record { world = s₂; clone = recorded })
              | none ↦
                  if is_zero made.exit_code
                  then (
                    (
                      record {
                        mode = "ephemeral-clone";
                        clone_ref = ref;
                        work_dir = spec.work_dir;
                        ports = record { http = 8080; https = 8443; management = 9000 };
                      },
                      none,
                    ),
                    record {
                      world = s₂;
                      clone = record recorded { made_dirs = spec.work_dir ∷ [] };
                    },
                  )
                  else (
                    (
                      no_context,
                      some (
                          with_advice no_image_advice (
                            fatal "prepare the ephemeral clone"
                              (concat (
                                "PortCloak could not create " ∷ spec.work_dir ∷ " inside " ∷ ref
                                ∷ "." ∷ []))
                              none)),
                    ),
                    record { world = s₂; clone = recorded },
                  )
            ]
      ]

  -- `Prepare`
  unfoldable pub prepare : PrepareOptions → Cloned S → Answer (Cloned S) ExecContext
  unfolding set_up derived
  prepare o c =
      let ((spec, e), s₁) = p.inspect o.job_id o.realms c.world in
      elim e [
        | some x ↦ ((no_context, some x), record c { world = s₁ })
        | none ↦
            let spec' = derived o (stamp s₁) spec in
            let ((ref, refused), s₂) = p.create spec' s₁ in
            elim refused [
              | some x ↦ ((no_context, some x), record c { world = s₂ })
              | none ↦ set_up spec' ref (record c { world = s₂ })
            ]
      ]

  -- `Run`
  unfoldable pub run : Command → Cloned S → Answer (Cloned S) ExecResult
  unfolding current_ref no_clone
  run cmd c = elim (current_ref c.clone) [
    | none ↦ (
      (
        record { exit_code = pos 0; lines = [] },
        some (
            no_clone "run the export"
              "There is no ephemeral clone to run in. Prepare did not complete."),
      ),
      c,
    )
    | some ref ↦ let (res, s) = p.exec ref cmd c.world in (res, record c { world = s })
  ]

  -- `FetchDir`
  unfoldable pub fetch_dir : String → Sink → Cloned S → Option GoError × Cloned S
  unfolding current_ref no_clone
  fetch_dir remote sink c = elim (current_ref c.clone) [
    | none ↦ (
      some (no_clone "collect the exported files" "There is no ephemeral clone to read from."),
      c,
    )
    | some ref ↦ let (e, s) = p.copy_out ref remote sink c.world in (e, record c { world = s })
  ]

  -- `runtimeOwner`
  runtime_owner : String → Cloned S → FileOwner × Cloned S
  unfolding owner_of
  runtime_owner ref c = elim c.clone.owner [
    | some owner ↦ (owner, c)
    | none ↦
        let ((res, e), s) =
          p.exec ref (record { path = "/bin/sh"; args = "-c" ∷ "id -u; id -g" ∷ [] }) c.world in
        let owner : FileOwner = elim e [
          | some x ↦ root_owner
          | none ↦ if is_zero res.exit_code then owner_of res.lines else root_owner
        ] in
        (owner, record { world = s; clone = record c.clone { owner = some owner } })
  ]

  -- `ensureDir`
  ensure_dir : String → String → Cloned S → Option GoError × Cloned S
  unfolding make_dir
  ensure_dir ref dir c =
      if str_eq dir "" || str_eq dir "." || str_eq dir "/" || any (str_eq dir) c.clone.made_dirs
      then (none, c)
      else (let ((res, e), s) = p.exec ref (make_dir dir) c.world in
          elim e [
            | some x ↦ (some x, record c { world = s })
            | none ↦
                if is_zero res.exit_code
                then (
                  none,
                  record {
                    world = s;
                    clone = record c.clone { made_dirs = dir ∷ c.clone.made_dirs };
                  },
                )
                else (
                  some (
                      with_advice no_image_advice (
                        fatal "send the snapshot"
                          (concat (
                            "PortCloak could not create " ∷ dir ∷ " inside " ∷ ref
                            ∷ " to write the snapshot into." ∷ []))
                          none)),
                  record c { world = s },
                )
          ])

  -- `PushFile`
  unfoldable pub push_file : String → ℕ → Reader (Cloned S) → Cloned S → Option GoError × Cloned S
  unfolding current_ref no_clone ensure_dir runtime_owner dir_name below
  push_file remote size reader c = elim (current_ref c.clone) [
    | none ↦ (some (no_clone "send the snapshot" "There is no ephemeral clone to write to."), c)
    | some ref ↦
        let (e, c₁) = ensure_dir ref (dir_name remote) c in
        elim e [
          | some x ↦ (some x, c₁)
          | none ↦
              let (owner, c₂) = runtime_owner ref c₁ in
              let (failed, s) = p.copy_in ref remote size owner (below c₂.clone reader) c₂.world in
              (failed, record c₂ { world = s })
        ]
  ]

  -- `Teardown`
  unfoldable pub teardown : Cloned S → Option GoError × Cloned S
  unfolding left_running
  teardown c =
      if not c.clone.created || c.clone.torn_down || str_eq c.clone.ref ""
      then (none, c)
      else (let (e, s) = p.destroy c.clone.ref c.world in
          let c' : Cloned S = record { world = s; clone = record c.clone { torn_down = true } } in
          elim e [ none ↦ (none, c') | some x ↦ (some (left_running c.clone.ref x), c') ])

  -- `FindOrphans`
  unfoldable pub find_orphans : Cloned S → Answer (Cloned S) (List Orphan)
  unfolding older sort_by
  find_orphans c =
      let ((orphans, e), s) = p.find_orphans c.world in
      (
        elim e [ some x ↦ ([], some x) | none ↦ (sort_by older orphans, none) ],
        record c { world = s },
      )

  -- `RemoveOrphan`
  unfoldable pub remove_orphan : String → Cloned S → Option GoError × Cloned S
  remove_orphan ref c = let (e, s) = p.destroy ref c.world in (e, record c { world = s })

  -- `Probe`
  unfoldable pub probe : Cloned S → Answer (Cloned S) Facts
  probe c = let (res, s) = p.probe c.world in (res, record c { world = s })
