-- ===== src/Config/Crud/Probes.antt =====
-- internal/engine/config/crud.go: what becomes of the stamp of an environment that is saved.
use portcloak.Base.{
  ◌≡◌, refl, ℕ, ◌<◌, true, not, ◌&&◌, none, some, List, [], ◌∷◌, String, str_eq, arith, In, here,
  there, inl, inr, Bool-cases,
}
use portcloak.Base.Result.{Result, ok}
use portcloak.Config.Files.{Faults}
use portcloak.Config.Model.{Ref, SshHop, Environment, Config, by_name, environment_by_name}
use portcloak.Config.Store.{Store, clone_config, clone_hop}
use portcloak.Config.Store.Atomic.{update_ok}
use portcloak.Config.Store.Clone.{clone_environment_by_name}
use portcloak.Config.Crud.{change_first, is_taken}
use portcloak.Config.Crud.Reach.{
  place_of, same_field, same_print, print_environment, environment_reachability_changed,
}
use portcloak.Config.Crud.Environments.{
  kept_probe, saved_environment, saving_environment, save_environment, environment_name,
}

In-change_first :
    {A : Type 0} (name_of : A → String) (y : A) (xs : List A) (n : String) {x : A}
    → by_name name_of xs n ≡ some x
    → In y (change_first name_of (λ old. y) xs n)
unfolding by_name change_first
In-change_first name_of y [] n h = absurd (ground (arith, h))
In-change_first name_of y (x ∷ xs) n h = elim (Bool-cases (str_eq (name_of x) n)) [
  | inl same ↦ rw (same, change_first) (here refl)
  | inr other ↦
      rw (other, change_first) (there (In-change_first name_of y xs n (rw (other, by_name) at h)))
]

-- Jump hosts at different places print differently.
other_place :
    (a b : Environment) (i j : Ref SshHop)
    → a.jump_host ≡ some i
    → b.jump_host ≡ some j
    → j.addr < i.addr
    → environment_reachability_changed a b ≡ true
unfolding environment_reachability_changed print_environment place_of same_print same_field
other_place a b i j p q d = ground (arith, p, q, d)

saving_environment-In :
    (original : String) (e : Environment) (place : ℕ) (c c' : Config) (prev : Environment)
    → environment_by_name c original ≡ some prev
    → saving_environment original e place c ≡ ok (tt, c')
    → In (saved_environment prev e) c'.environments
unfolding saving_environment environment_by_name
saving_environment-In original e place c c' prev f h =
    elim (Bool-cases
      (not (str_eq e.name original) && is_taken environment_name c.environments e.name)) [
        | inl taken ↦ absurd (ground (arith, f, taken, h))
        | inr free ↦
            let all : c'.environments
                ≡ change_first environment_name (λ old. saved_environment prev e) c.environments
                    original =
              ground (arith, f, free, h) in
            rw all (
              In-change_first environment_name (saved_environment prev e) c.environments original f)
      ]

module _ (marshal : Config → Result String String) (fs : Faults) where
  -- A `SaveEnvironment` that succeeds on an environment with a jump host saves it without a stamp, whatever
  -- has changed: even the environment that the store holds, unchanged, when its jump host is at a place
  -- that was taken before the call.
  pub hop_loses_stamp :
      (original : String) (e prev : Environment) (s s' : Store) (i j : Ref SshHop)
      → environment_by_name s.cfg original ≡ some prev
      → prev.jump_host ≡ some i
      → e.jump_host ≡ some j
      → j.addr < s.heap
      → save_environment marshal fs original e s ≡ (ok tt, s')
      → In (record e { last_probe = none }) s'.cfg.environments
  unfolding save_environment saved_environment kept_probe clone_hop
  hop_loses_stamp original e prev s s' i j f p q old h =
      let (place, le, found) = clone_environment_by_name s.heap s.cfg original prev f in
      let copy = record prev { jump_host = clone_hop place prev.jump_host } in
      let at_place : Ref SshHop = record { addr = place; value = i.value } in
      let (edited, valid) = update_ok marshal fs s s' (saving_environment original e) tt h in
      let changed : environment_reachability_changed copy e ≡ true =
        other_place copy e at_place j (rw (p, clone_hop)) q (omega arith) in
      let saved =
        saving_environment-In original e (clone_config s.heap s.cfg).1 (clone_config s.heap s.cfg).0
          s'.cfg copy found edited in
      rw (changed, saved_environment, kept_probe) at saved
