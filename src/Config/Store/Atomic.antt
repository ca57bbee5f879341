-- ===== src/Config/Store/Atomic.antt =====
-- internal/engine/config/store.go: what `Update` and `Save` leave in the store and in its file.
use portcloak.Base.{
  ◌≡◌, refl, ◌⊎◌, inl, inr, none, some, List, [], ◌∷◌, String, eq_refl, arith, ℕ, suc,
}
use portcloak.Base.Dict
use portcloak.Base.Dict.{Dict, get-put}
use portcloak.Base.Result.{Result, ok, err, Result-cases}
use portcloak.Config.Files.{Faults, write_atomic_cases}
use portcloak.Config.Model.{Key, Config}
use portcloak.Config.Validate.{Problem, validate}
use portcloak.Config.Store.{
  Store, StoreError, not_marshalled, file, invalid, config_file, Edit, clone_config, body_of,
  committed, save_locked, save_store, save_valid, write_next, update_in_place, update,
}

-- The store and the file are as they were; places may have been taken.
unfoldable pub Unchanged : Store → Store → Type 0
Unchanged s s' =
    (s'.cfg ≡ s.cfg) × (s'.raw ≡ s.raw) × (s'.baseline ≡ s.baseline) × (s'.home ≡ s.home)

-- The store holds `next`, and the file the bytes that the store remembers.
unfoldable pub Written : Store → Store → Config → Type 0
Written s s' next =
    (s'.cfg ≡ next)
    × ((body : String) × (s'.raw ≡ some body) × (s'.home ≡ Dict.put s.home config_file body))

-- What an `Update` by an edit that leaves `shared` in the array of the keys answers and leaves.
abbrev pub IsUpdated :
    {A : Type 0} → Store → Edit A → (Config → List Key) → Result StoreError A × Store → Type 0
IsUpdated {A} s edit shared outcome =
    let (copy, place) = clone_config s.heap s.cfg in
    ((e : StoreError) × (edit place copy ≡ err e)
      × (s' : Store) × (outcome ≡ (err e, s'))
      × Unchanged s s')
    ⊎ ((a : A) × (next : Config) × (edit place copy ≡ ok (a, next))
        × (((e : StoreError) × (s' : Store) × (outcome ≡ (err e, s'))
              × Unchanged (record s { cfg = record s.cfg { keys = shared copy } }) s')
            ⊎ ((s' : Store) × (outcome ≡ (ok a, s'))
                × (validate next none ≡ [])
                × Written s s' next)))

module _ (marshal : Config → Result String String) (fs : Faults) where
  save_locked_cases :
      (s : Store) (next : Config)
      → ((e : StoreError) × (save_locked marshal fs s next ≡ (err e, s)))
        ⊎ ((s' : Store) × (save_locked marshal fs s next ≡ (ok tt, s')) × Written s s' next)
  unfolding save_locked committed Written
  save_locked_cases s next = elim (Result-cases (marshal next)) [
    | inr (m, q) ↦ inl (not_marshalled m, rw (q, save_locked, committed))
    | inl (out, m) ↦ elim (write_atomic_cases fs s.home config_file (body_of s out)) [
      | inr (e, w) ↦ inl (file e, rw (m, w, save_locked, committed))
      | inl w ↦ inr (
        record s {
          cfg = next;
          raw = some (body_of s out);
          baseline = some out;
          home = Dict.put s.home config_file (body_of s out);
        },
        rw (m, w, save_locked, committed),
        (refl, (body_of s out, refl, refl)),
      )
    ]
  ]

  save_valid_cases :
      {A : Type 0} (s : Store) (a : A) (next : Config) (problems : List Problem)
      → ((e : StoreError) × (save_valid marshal fs s a next problems ≡ (err e, s)))
        ⊎ ((s' : Store) × (problems ≡ [])
            × (save_valid marshal fs s a next problems ≡ (ok a, s'))
            × Written s s' next)
  unfolding save_valid write_next
  save_valid_cases s a next (p ∷ ps) = inl (invalid (p ∷ ps), refl)
  save_valid_cases s a next [] = elim (save_locked_cases s next) [
    | inl (e, q) ↦ inl (e, rw (q, save_valid, write_next))
    | inr (s', q, w) ↦ inr (s', refl, rw (q, save_valid, write_next), w)
  ]

  pub update_in_place_lem :
      {A : Type 0} (s : Store) (edit : Edit A) (shared : Config → List Key)
      → IsUpdated s edit shared (update_in_place marshal fs s edit shared)
  unfolding update_in_place Unchanged Written
  update_in_place_lem {A} s edit shared = elim (Result-cases (edit heap copy)) [
    | inr (e, q) ↦ inl (e, q, s₀, rw (q, update_in_place), (refl, refl, refl, refl))
    | inl ((a, next), q) ↦ inr (
      a,
      next,
      q,
      elim (save_valid_cases s₁ a next (validate next none)) [
        | inl (e, p) ↦ inl (e, s₁, rw (q, update_in_place) p, (refl, refl, refl, refl))
        | inr (s', v, p, w) ↦ inr (s', rw (q, update_in_place) p, v, w)
      ],
    )
  ]
    where
      heap : ℕ
      heap = (clone_config s.heap s.cfg).1

      copy : Config
      copy = (clone_config s.heap s.cfg).0

      s₀ : Store
      s₀ = record s { heap = suc heap }

      s₁ : Store
      s₁ = record s₀ { cfg = record s.cfg { keys = shared copy } }

  -- An `Update` whose edit leaves the array of the keys alone changes everything or nothing.
  pub update_all_or_nothing :
      {A : Type 0} (s : Store) (edit : Edit A)
      → ((e : StoreError) × (s' : Store) × (update marshal fs s edit ≡ (err e, s'))
          × Unchanged s s')
        ⊎ ((a : A) × (next : Config) × (s' : Store) × (update marshal fs s edit ≡ (ok a, s'))
            × (edit (clone_config s.heap s.cfg).1 (clone_config s.heap s.cfg).0 ≡ ok (a, next))
            × (validate next none ≡ [])
            × Written s s' next)
  unfolding update clone_config
  update_all_or_nothing s edit = elim (update_in_place_lem s edit (λ c. c.keys)) [
    | inl (e, q, s', p, u) ↦ inl (e, s', p, u)
    | inr (a, next, q, saved) ↦ elim saved [
      | inl (e, s', p, u) ↦ inl (e, s', p, u)
      | inr (s', p, v, w) ↦ inr (a, next, s', p, q, v, w)
    ]
  ]

  -- A `Save` of a configuration that still prints as what was loaded, when it succeeds, leaves in the file
  -- exactly the bytes that were read.
  pub unchanged_keeps_text :
      (s s' : Store) (loaded printed : String)
      → s.raw ≡ some loaded
      → s.baseline ≡ some printed
      → marshal (clone_config s.heap s.cfg).0 ≡ ok printed
      → save_store marshal fs s ≡ (ok tt, s')
      → Dict.get s'.home config_file ≡ some loaded
  unfolding save_store save_locked body_of committed
  unchanged_keeps_text s s' loaded printed r b m h =
      elim (write_atomic_cases fs s.home config_file loaded) [
        | inl w ↦ ground (
          arith,
          r,
          b,
          m,
          h,
          w,
          eq_refl printed,
          eq_refl config_file,
          get-put s.home config_file config_file loaded,
        )
        | inr (e, w) ↦ ground (arith, r, b, m, h, w, eq_refl printed)
      ]

  -- What an `Update` that succeeded has done.
  pub update_ok :
      {A : Type 0} (s s' : Store) (edit : Edit A) (a : A)
      → update marshal fs s edit ≡ (ok a, s')
      → (edit (clone_config s.heap s.cfg).1 (clone_config s.heap s.cfg).0 ≡ ok (a, s'.cfg))
        × (validate s'.cfg none ≡ [])
  unfolding Written
  update_ok s s' edit a h = elim (update_all_or_nothing s edit) [
    | inl (e, s₁, q, u) ↦ cc
    | inr (b, next, s₁, q, d, v, w) ↦ (cc, cc)
  ]

  -- What an `Update` that failed has left.
  pub update_err :
      {A : Type 0} (s s' : Store) (edit : Edit A) (e : StoreError)
      → update marshal fs s edit ≡ (err e, s')
      → Unchanged s s'
  unfolding Unchanged
  update_err s s' edit e h = elim (update_all_or_nothing s edit) [
    | inl (e₁, s₁, q, (c, r, b, f)) ↦ (cc, cc, cc, cc)
    | inr (b, next, s₁, q, d, v, w) ↦ cc
  ]
