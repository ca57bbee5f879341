-- ===== src/Clone/Lifecycle.antt =====
-- internal/engine/target/clone/clone.go: what a `Teardown` destroys, and what it leaves.
use portcloak.Base.{
  ◌≡◌, refl, ap, ◌∙◌, ◌⊎◌, inl, inr, ℕ, Bool, true, false, not, ◌||◌, ◌&&◌, is_some, Option, none,
  some, String, str_eq, arith, Bool-cases, Option-cases, subst⁻¹,
}
use portcloak.Resil.Errors.{GoError}
use portcloak.Blobs.{Reader, Answer}
use portcloak.Clone.Derivation.{
  Spec, Command, PrepareOptions, Platform, Clone, Cloned, new_clone, current_ref, derived, is_zero,
  make_dir,
}
use portcloak.Clone.{set_up, prepare, run, fetch_dir, push_file, teardown, left_running}

module _ {Facts Sink S : Type 0} (p : Platform Facts Sink S) (stamp : S → String) where
  -- The executor holds a clone that is not torn down.
  abbrev pub IsHeld : Clone → Type 0
  IsHeld c = (c.created ≡ true) × (c.torn_down ≡ false) × (str_eq c.ref "" ≡ false)

  -- What `Teardown` leaves of it.
  abbrev pub destroyed : Cloned S → Cloned S
  destroyed c = record {
    world = (p.destroy c.clone.ref c.world).1;
    clone = record c.clone { torn_down = true };
  }

  -- `Teardown` of a clone that is held, for either answer of the platform.
  pub teardown-held : (c : Cloned S) → IsHeld c.clone → (teardown p stamp c).1 ≡ destroyed c
  unfolding teardown
  teardown-held c (made, up, full) =
      let held : not c.clone.created || c.clone.torn_down || str_eq c.clone.ref "" ≡ false =
        ground (arith, made, up, full) in
      elim (Option-cases (p.destroy c.clone.ref c.world).0) [
        | inl gone ↦ rw (held, teardown) (rw gone refl)
        | inr (x, stays) ↦ rw (held, teardown) (rw stays refl)
      ]

  pub teardown-held_fails :
      (c : Cloned S) (x : GoError)
      → IsHeld c.clone
      → (p.destroy c.clone.ref c.world).0 ≡ some x
      → (teardown p stamp c).0 ≡ some (left_running c.clone.ref x)
  unfolding teardown
  teardown-held_fails c x (made, up, full) stays =
      let held : not c.clone.created || c.clone.torn_down || str_eq c.clone.ref "" ≡ false =
        ground (arith, made, up, full) in
      rw (held, teardown) (rw stays refl)

  -- The executor uses its clone no more.
  abbrev IsSpent : Command → String → Sink → ℕ → Reader (Cloned S) → Cloned S → Type 0
  IsSpent cmd remote sink size reader c =
      (teardown p stamp c ≡ (none, c))
      × ((run p stamp cmd c).1 ≡ c)
      × ((fetch_dir p stamp remote sink c).1 ≡ c)
      × ((push_file p stamp remote size reader c).1 ≡ c)

  spent :
      (cmd : Command) (remote : String) (sink : Sink) (size : ℕ) (reader : Reader (Cloned S))
      (c : Cloned S)
      → c.clone.torn_down ≡ true
      → IsSpent cmd remote sink size reader c
  unfolding teardown run fetch_dir push_file current_ref
  spent cmd remote sink size reader c h =
      let idle : not c.clone.created || c.clone.torn_down || str_eq c.clone.ref "" ≡ true =
        ground (arith, h) in
      let gone : current_ref c.clone ≡ none = ground (arith, h) in
      (
        rw (idle, teardown) refl,
        rw (gone, run) refl,
        rw (gone, fetch_dir) refl,
        rw (gone, push_file) refl,
      )

  -- Once Teardown has been called on a clone, whether or not the platform could destroy it, the executor
  -- uses it no more: another Teardown answers nil, and no command, fetch or push reaches the platform.
  pub teardown_final :
      (c : Cloned S) (cmd : Command) (remote : String) (sink : Sink) (size : ℕ)
      (reader : Reader (Cloned S))
      → IsHeld c.clone
      → let c' = (teardown p stamp c).1 in
        (teardown p stamp c' ≡ (none, c'))
        × ((run p stamp cmd c').1 ≡ c')
        × ((fetch_dir p stamp remote sink c').1 ≡ c')
        × ((push_file p stamp remote size reader c').1 ≡ c')
  teardown_final c cmd remote sink size reader h =
      subst⁻¹ (IsSpent cmd remote sink size reader) (teardown-held c h)
        (spent cmd remote sink size reader _ refl)

  -- What `Prepare` has set up, however it ended.
  set_up-IsHeld :
      (spec : Spec) (ref : String) (c : Cloned S)
      → c.clone.torn_down ≡ false
      → str_eq ref "" ≡ false
      → IsHeld (set_up p stamp spec ref c).1.clone × ((set_up p stamp spec ref c).1.clone.ref ≡ ref)
  unfolding set_up
  set_up-IsHeld spec ref c h full = elim (Option-cases (p.wait_running ref c.world).0) [
    | inr (e, late) ↦ rw (late, set_up) ((refl, h, full), refl)
    | inl up ↦
        let made = p.exec ref (make_dir spec.work_dir) (p.wait_running ref c.world).1 in
        elim (Option-cases made.0.1) [
          | inr (x, failed) ↦ rw (up, set_up) (rw (failed, set_up) ((refl, h, full), refl))
          | inl fine ↦ elim (Bool-cases (is_zero made.0.0.exit_code)) [
            | inl zero_code ↦
                rw (up, set_up) (rw (fine, set_up) (rw (zero_code, set_up) ((refl, h, full), refl)))
            | inr other ↦
                rw (up, set_up) (rw (fine, set_up) (rw (other, set_up) ((refl, h, full), refl)))
          ]
        ]
  ]

  abbrev pub fresh : S → Cloned S
  fresh s = record { world = s; clone = new_clone }

  -- What the platform answers to the two calls before a clone is recorded.
  abbrev pub asked : PrepareOptions → S → Answer S Spec
  asked o s = p.inspect o.job_id o.realms s

  abbrev pub offered : PrepareOptions → S → Answer S String
  offered o s = p.create (derived o (stamp (asked o s).1) (asked o s).0.0) (asked o s).1

  abbrev pub is_made : PrepareOptions → S → Bool
  is_made o s = not (is_some (asked o s).0.1) && not (is_some (offered o s).0.1)

  -- What a `Teardown` answers after a `Prepare`, and what it leaves.
  abbrev pub IsTornDown : PrepareOptions → S → Cloned S → Option GoError × Cloned S → Type 0
  IsTornDown o s before after =
      ((is_made o s ≡ false) × (after.0 ≡ none) × (after.1 ≡ before))
      ⊎ ((is_made o s ≡ true) × (after.1.world ≡ (p.destroy (offered o s).0.0 before.world).1))

  abbrev pub prepared : PrepareOptions → S → Cloned S
  prepared o s = (prepare p stamp o (fresh s)).1

  unmade : (c : Cloned S) → c.clone.created ≡ false → teardown p stamp c ≡ (none, c)
  unfolding teardown
  unmade c h =
      let idle : not c.clone.created || c.clone.torn_down || str_eq c.clone.ref "" ≡ true =
        ground (arith, h) in
      rw (idle, teardown) refl

  -- Where no clone is created, nothing is recorded.
  prepare-unmade :
      (o : PrepareOptions) (s : S) → is_made o s ≡ false → (prepared o s).clone ≡ new_clone
  unfolding prepare
  prepare-unmade o s h = elim (Option-cases (asked o s).0.1) [
    | inr (x, dark) ↦ rw (dark, prepared, prepare) refl
    | inl seen ↦ elim (Option-cases (offered o s).0.1) [
      | inr (x, refused) ↦ rw (seen, prepared, prepare) (rw (refused, prepare) refl)
      | inl made ↦ absurd (ground (arith, h, seen, made))
    ]
  ]

  -- Where one is, the rest of `Prepare` runs.
  prepare-made :
      (o : PrepareOptions) (s : S)
      → is_made o s ≡ true
      → prepared o s
        ≡ (set_up p stamp
            (derived o (stamp (asked o s).1) (asked o s).0.0)
            (offered o s).0.0
            (record (fresh s) { world = (offered o s).1 })).1
  unfolding prepare
  prepare-made o s h =
      let seen : (asked o s).0.1 ≡ none = ground (arith, h) in
      let made : (offered o s).0.1 ≡ none = ground (arith, h) in
      rw (seen, prepared, prepare) (rw (made, prepare) refl)

  -- A Teardown after the first Prepare of an executor, however that Prepare ended: where the platform
  -- could not be inspected or would not create a clone it answers nil and touches nothing, and else it
  -- destroys the clone that Create answered. The reference that Create answers is no empty text.
  pub prepare-teardown :
      (o : PrepareOptions) (s : S)
      → str_eq (offered o s).0.0 "" ≡ false
      → IsTornDown o s (prepared o s) (teardown p stamp (prepared o s))
  unfolding new_clone
  prepare-teardown o s full = elim (Bool-cases (is_made o s)) [
    | inr bare ↦
        let idle =
          unmade (prepared o s) (ap (λ (c : Clone). c.created) (prepare-unmade o s bare)) in
        inl (
          bare,
          ap (λ (r : Option GoError × Cloned S). r.0) idle,
          ap (λ (r : Option GoError × Cloned S). r.1) idle,
        )
    | inl made ↦
        let spec = derived o (stamp (asked o s).1) (asked o s).0.0 in
        let (held, named) =
          set_up-IsHeld spec (offered o s).0.0 (record (fresh s) { world = (offered o s).1 }) refl
            full in
        let same = prepare-made o s made in
        let is_held = subst⁻¹ (λ (c : Cloned S). IsHeld c.clone) same held in
        let ref_of = ap (λ (c : Cloned S). c.clone.ref) same ∙ named in
        inr (
          made,
          ap (λ (c : Cloned S). c.world) (teardown-held (prepared o s) is_held)
              ∙ ap (λ ref. (p.destroy ref (prepared o s).world).1) ref_of,
        )
  ]
