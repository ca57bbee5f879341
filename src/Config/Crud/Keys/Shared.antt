-- ===== src/Config/Crud/Keys/Shared.antt =====
-- internal/engine/config/keys.go: what a `SaveKey` that fails leaves in the array of the keys.
use portcloak.Base.{
  ◌≡◌, inl, inr, ℕ, sym, ◌∙◌, subst, some, List, [], ◌∷◌, String, str_eq, eq_iff, Bool-cases, arith,
}
use portcloak.Base.Result.{Result, err}
use portcloak.Config.Files.{Faults}
use portcloak.Config.Model.{Key, Config, by_name, key_by_name}
use portcloak.Config.Store.{Store, StoreError, clone_config}
use portcloak.Config.Store.Atomic.{Unchanged, update_in_place_lem}
use portcloak.Config.Crud.{change_first}
use portcloak.Config.Crud.Keys.{name_of, saving_key, written_over, save_key}

by_name-change_first :
    (ks : List Key) (original : String) (k prev : Key)
    → by_name name_of ks original ≡ some prev
    → k.name ≡ original
    → by_name name_of (change_first name_of (λ old. k) ks original) original ≡ some k
unfolding by_name change_first
by_name-change_first [] original k prev f same = cc
by_name-change_first (x ∷ xs) original k prev f same = elim (Bool-cases (str_eq x.name original)) [
  | inl here ↦ rw (here, change_first) (ground (arith, (eq_iff k.name original).1 same))
  | inr there ↦
      let rest = by_name-change_first xs original k prev (rw (there, by_name) at f) same in
      rw (there, change_first) (rw (there, by_name) rest)
]

key_by_name-written_over :
    (c : Config) (place : ℕ) (original : String) (k prev : Key)
    → key_by_name c original ≡ some prev
    → k.name ≡ original
    → key_by_name (record c { keys = written_over original k (clone_config place c).0 }) original
      ≡ some k
unfolding key_by_name written_over clone_config
key_by_name-written_over c place original k prev f same =
    by_name-change_first c.keys original k prev f same

saving_key-known :
    (c : Config) (place : ℕ) (original : String) (k prev : Key) (e : StoreError)
    → key_by_name c original ≡ some prev
    → k.name ≡ original
    → saving_key original k (clone_config place c).1 (clone_config place c).0 ≡ err e
    → ⊥
unfolding saving_key clone_config key_by_name
saving_key-known c place original k prev e f same h =
    ground (arith, f, h, (eq_iff k.name original).1 same)

module _ (marshal : Config → Result String String) (fs : Faults) where
  -- A `SaveKey` of a key that is there, under the name it has, that answers an error has left the new key in
  -- the configuration of the store: from then on it is what the name finds there, while the file, and the
  -- bytes that the store remembers of it, are as they were.
  pub failed_save_shows :
      (original : String) (k prev : Key) (s s' : Store) (e : StoreError)
      → key_by_name s.cfg original ≡ some prev
      → k.name ≡ original
      → save_key marshal fs original k s ≡ (err e, s')
      → (key_by_name s'.cfg original ≡ some k) × (s'.raw ≡ s.raw) × (s'.home ≡ s.home)
  unfolding save_key Unchanged
  failed_save_shows original k prev s s' e f same h =
      let place = (clone_config s.heap s.cfg).1 in
      elim (update_in_place_lem marshal fs s (saving_key original k) (written_over original k)) [
        | inl (x, q, s₁, p, u) ↦ absurd (saving_key-known s.cfg s.heap original k prev x f same q)
        | inr (a, next, q, saved) ↦ elim saved [
          | inl (x, s₁, p, (c, r, b, files)) ↦
              let kept : s₁.cfg ≡ s'.cfg = cc in
              let found = key_by_name-written_over s.cfg s.heap original k prev f same in
              (subst (λ d. key_by_name d original ≡ some k) (sym c ∙ kept) found, cc, cc)
          | inr (s₁, p, v, w) ↦ cc
        ]
      ]
