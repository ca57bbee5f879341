-- ===== src/Blobs/Layout/Grouping.antt =====
-- internal/engine/store/store.go: where `Group` puts the objects of a listing.
use portcloak.Base.{
  subst⁻¹, sort_by, ◌≡◌, refl, sym, ap, ◌∙◌, ◌≢◌, ◌⊎◌, inl, inr, Bool, true, false, ◌&&◌, Option,
  none, some, List, [], ◌∷◌, ◌++◌, String, str_eq, eq_iff, eq_refl, In, here, there, In-left,
  In-right, In-sort_by, IsDistinct, Apart, strip_suffix, arith, Bool-cases, Option-cases,
  if◌then◌else◌,
}
use Prim.Native.String
use portcloak.Blobs.{ObjectInfo}
use portcloak.Blobs.Layout.{
  Layout, Extension, bundle_ext, manifest_ext, digest_ext, ext_text, Triplet, place, new_triplet,
  with_object, add_object, group_all, later, key_less, group,
}

abbrev pub key_of : ObjectInfo → String
key_of o = o.key

abbrev same_ext : Extension → Extension → Bool
same_ext bundle_ext bundle_ext = true
same_ext manifest_ext manifest_ext = true
same_ext digest_ext digest_ext = true
same_ext _ _ = false

same_ext-eq : (e e' : Extension) → same_ext e e' ≡ true → e ≡ e'
same_ext-eq e e' h = ground arith

same_ext_refl : (e : Extension) → same_ext e e ≡ true
same_ext_refl e = ground arith

-- The object that a triplet holds as an extension.
abbrev pub slot : Extension → Triplet → Option ObjectInfo
slot bundle_ext t = t.bundle
slot manifest_ext t = t.manifest
slot digest_ext t = t.digest

-- What stands in the first triplet of a base.
look : List Triplet → String → Extension → Option ObjectInfo
look [] b e = none
look (t ∷ ts) b e = let rest = look ts b e in if str_eq t.base b then slot e t else rest

strip_suffix-append :
    (suffix s base : String) → strip_suffix suffix s ≡ some base → s ≡ String.◌++◌ base suffix
unfolding strip_suffix
strip_suffix-append suffix String.[] base h = elim (Bool-cases (str_eq "" suffix)) [
  | inl e ↦
      let no_base : base ≡ "" = ground (arith, h, e) in
      rw (no_base, sym ((eq_iff "" suffix).0 e)) refl
  | inr f ↦ absurd (ground (arith, h, f))
]
strip_suffix-append suffix (String.◌∷◌ c s) base h =
    elim (Bool-cases (str_eq (String.◌∷◌ c s) suffix)) [
      | inl e ↦
          let no_base : base ≡ "" = ground (arith, h, e) in
          rw no_base ((eq_iff (String.◌∷◌ c s) suffix).0 e ∙ sym (String.append.nil suffix))
      | inr f ↦ elim (Option-cases (strip_suffix suffix s)) [
        | inl nothing ↦ absurd (ground (arith, h, f, nothing))
        | inr (t, found) ↦
            let kept : base ≡ String.◌∷◌ c t = ground (arith, h, f, found) in
            rw kept (
              ap (String.◌∷◌ c) (strip_suffix-append suffix s t found)
              ∙ sym (String.append.cons c t suffix))
      ]
    ]

-- The key that a place stands for.
spelled : Option (String × Extension) → String
spelled none = ""
spelled (some (b, e)) = String.◌++◌ b (ext_text e)

-- The place of an object spells its key.
place-key :
    (o : ObjectInfo) (b : String) (e : Extension)
    → place o ≡ some (b, e)
    → o.key ≡ String.◌++◌ b (ext_text e)
unfolding place spelled
place-key o b e h = elim (Option-cases (strip_suffix (ext_text manifest_ext) o.key)) [
  | inr (t, m) ↦
      let found : place o ≡ some (t, manifest_ext) = rw (m, place) refl in
      strip_suffix-append (ext_text manifest_ext) o.key t m ∙ ap spelled (sym found ∙ h)
  | inl no_manifest ↦ elim (Option-cases (strip_suffix (ext_text digest_ext) o.key)) [
    | inr (t, d) ↦
        let found : place o ≡ some (t, digest_ext) = rw (no_manifest, d, place) refl in
        strip_suffix-append (ext_text digest_ext) o.key t d ∙ ap spelled (sym found ∙ h)
    | inl no_digest ↦ elim (Option-cases (strip_suffix (ext_text bundle_ext) o.key)) [
      | inr (t, p) ↦
          let found : place o ≡ some (t, bundle_ext) = rw (no_manifest, no_digest, p, place) refl in
          strip_suffix-append (ext_text bundle_ext) o.key t p ∙ ap spelled (sym found ∙ h)
      | inl nothing ↦ absurd (ground (arith, h, no_manifest, no_digest, nothing))
    ]
  ]
]

slot-with_object :
    (e e' : Extension) (o : ObjectInfo) (t : Triplet)
    → slot e' (with_object e o t) ≡ (if same_ext e e' then some o else slot e' t)
unfolding with_object
slot-with_object e e' o t = ground arith

base-with_object :
    (e : Extension) (o : ObjectInfo) (t : Triplet) → (with_object e o t).base ≡ t.base
unfolding with_object
base-with_object e o t = ground arith

new_triplet-bare :
    (l : Layout) (b : String) (e : Extension)
    → (slot e (new_triplet l b) ≡ none) × ((new_triplet l b).base ≡ b)
unfolding new_triplet
new_triplet-bare l b bundle_ext = (refl, refl)
new_triplet-bare l b manifest_ext = (refl, refl)
new_triplet-bare l b digest_ext = (refl, refl)

add_object-new :
    (l : Layout) (b : String) (e : Extension) (o : ObjectInfo)
    → add_object l b e o [] ≡ with_object e o (new_triplet l b) ∷ []
unfolding add_object
add_object-new l b e o = refl

add_object-here :
    (l : Layout) (b : String) (e : Extension) (o : ObjectInfo) (t : Triplet) (ts : List Triplet)
    → str_eq t.base b ≡ true
    → add_object l b e o (t ∷ ts) ≡ with_object e o t ∷ ts
unfolding add_object
add_object-here l b e o t ts same = rw (same, add_object) refl

add_object-later :
    (l : Layout) (b : String) (e : Extension) (o : ObjectInfo) (t : Triplet) (ts : List Triplet)
    → str_eq t.base b ≡ false
    → add_object l b e o (t ∷ ts) ≡ t ∷ add_object l b e o ts
unfolding add_object
add_object-later l b e o t ts other = rw (other, add_object) refl

look-next :
    (t : Triplet) (ts : List Triplet) (b : String) (e : Extension)
    → look (t ∷ ts) b e ≡ (if str_eq t.base b then slot e t else look ts b e)
unfolding look
look-next t ts b e = refl

-- A triplet with an object put in, looked up.
look-with_object :
    (e e' : Extension) (o : ObjectInfo) (t : Triplet) (ts : List Triplet) (b' : String)
    → look (with_object e o t ∷ ts) b' e'
      ≡ (if str_eq t.base b' then if same_ext e e' then some o else slot e' t else look ts b' e')
look-with_object e e' o t ts b' =
    look-next (with_object e o t) ts b' e'
    ∙ (ap (λ n. if str_eq n b' then slot e' (with_object e o t) else look ts b' e')
          (base-with_object e o t)
        ∙ ap (λ x. if str_eq t.base b' then x else look ts b' e') (slot-with_object e e' o t))

first_of :
    (s s' same : Bool) (x y z : Option ObjectInfo)
    → s ≡ s'
    → y ≡ none
    → (if s then if same then x else y else none) ≡ (if s' && same then x else none)
first_of s s' same x y z e n = ground (arith, e, n)

put_first :
    (s s' same : Bool) (x y z : Option ObjectInfo)
    → s ≡ s'
    → (if s then if same then x else y else z) ≡ (if s' && same then x else if s then y else z)
put_first s s' same x y z e = ground (arith, e)

put_later :
    (s s' same : Bool) (x y z : Option ObjectInfo)
    → s && s' ≡ false
    → (if s then y else if s' && same then x else z)
      ≡ (if s' && same then x else if s then y else z)
put_later s s' same x y z e = ground (arith, e)

apart : (a b c : String) → str_eq a b ≡ false → str_eq a c && str_eq b c ≡ false
apart a b c h = ground (arith, h, eq_iff a b, eq_iff a c, eq_iff b c)

look-add_object :
    (l : Layout) (b : String) (e : Extension) (o : ObjectInfo) (ts : List Triplet) (b' : String)
    (e' : Extension)
    → look (add_object l b e o ts) b' e'
      ≡ (if str_eq b b' && same_ext e e' then some o else look ts b' e')
unfolding look
look-add_object l b e o [] b' e' =
    let fresh = new_triplet l b in
    let (bare, named) = new_triplet-bare l b e' in
    ap (λ ts. look ts b' e') (add_object-new l b e o)
    ∙ (look-with_object e e' o fresh [] b'
        ∙ first_of (str_eq fresh.base b') (str_eq b b') (same_ext e e') (some o) (slot e' fresh)
            none (ap (λ n. str_eq n b') named) bare)
look-add_object l b e o (t ∷ ts) b' e' = elim (Bool-cases (str_eq t.base b)) [
  | inl same ↦
      ap (λ us. look us b' e') (add_object-here l b e o t ts same)
      ∙ (look-with_object e e' o t ts b'
          ∙ put_first (str_eq t.base b') (str_eq b b') (same_ext e e') (some o) (slot e' t)
              (look ts b' e') (ap (λ n. str_eq n b') ((eq_iff t.base b).0 same)))
  | inr other ↦
      ap (λ us. look us b' e') (add_object-later l b e o t ts other)
      ∙ (look-next t (add_object l b e o ts) b' e'
          ∙ (ap (λ x. if str_eq t.base b' then slot e' t else x) (look-add_object l b e o ts b' e')
              ∙ put_later (str_eq t.base b') (str_eq b b') (same_ext e e') (some o) (slot e' t)
                  (look ts b' e') (apart t.base b b' other)))
]

-- A snapshot of the list that holds the object as an extension.
abbrev pub IsHeldAs : List Triplet → ObjectInfo → String → Extension → Type 0
IsHeldAs ts o b e = (t : Triplet) × In t ts × (t.base ≡ b) × (slot e t ≡ some o)

look-IsHeldAs :
    (ts : List Triplet) (o : ObjectInfo) (b : String) (e : Extension)
    → look ts b e ≡ some o
    → IsHeldAs ts o b e
unfolding look
look-IsHeldAs [] o b e h = absurd (ground (arith, h))
look-IsHeldAs (t ∷ ts) o b e h = elim (Bool-cases (str_eq t.base b)) [
  | inl same ↦ (t, here refl, (eq_iff t.base b).0 same, ground (arith, h, same))
  | inr other ↦
      let (x, m, n, s) = look-IsHeldAs ts o b e (ground (arith, h, other)) in (x, there m, n, s)
]

-- An object of another key is put elsewhere.
elsewhere :
    (o x : ObjectInfo) (b b' : String) (e e' : Extension)
    → place o ≡ some (b, e)
    → place x ≡ some (b', e')
    → o.key ≢ x.key
    → str_eq b' b && same_ext e' e ≡ false
elsewhere o x b b' e e' p q n = elim (Bool-cases (str_eq b' b && same_ext e' e)) [
  | inr other ↦ other
  | inl same ↦
      let names : b' ≡ b = ground (arith, same, eq_iff b' b) in
      let kinds : e' ≡ e = same_ext-eq e' e (ground (arith, same)) in
      absurd (
        n (
          place-key o b e p
          ∙ (ap (λ y. String.◌++◌ y (ext_text e)) (sym names)
              ∙ (ap (λ k. String.◌++◌ b' (ext_text k)) (sym kinds) ∙ sym (place-key x b' e' q)))))
]

module _ (l : Layout) where
  -- The rest of a listing leaves an object where it is, and what was foreign.
  group_all-keeps :
      (os : List ObjectInfo) (ts : List Triplet) (foreign : List ObjectInfo) (o : ObjectInfo)
      (b : String) (e : Extension)
      → place o ≡ some (b, e)
      → Apart key_of o os
      → look ts b e ≡ some o
      → look (group_all l os ts foreign).0 b e ≡ some o
  unfolding group_all
  group_all-keeps [] ts foreign o b e p a h = h
  group_all-keeps (x ∷ os) ts foreign o b e p a h = elim (Option-cases (place x)) [
    | inl nowhere ↦ rw (nowhere, group_all) (group_all-keeps os ts _ o b e p (a.1) h)
    | inr ((b', e'), q) ↦
        rw (q, group_all)
          (group_all-keeps os _ foreign o b e p (a.1)
            (look-add_object l b' e' x ts b e ∙ rw (elsewhere o x b b' e e' p q (a.0)) h))
  ]

  group_all-foreign :
      (os : List ObjectInfo) (ts : List Triplet) (foreign : List ObjectInfo) (o : ObjectInfo)
      → In o foreign
      → In o (group_all l os ts foreign).1
  unfolding group_all
  group_all-foreign [] ts foreign o m = m
  group_all-foreign (x ∷ os) ts foreign o m = elim (Option-cases (place x)) [
    | inl nowhere ↦
        rw (nowhere, group_all)
          (group_all-foreign os ts (foreign ++ x ∷ []) o (In-left foreign (x ∷ []) m))
    | inr ((b', e'), q) ↦ rw (q, group_all) (group_all-foreign os _ foreign o m)
  ]

  -- Where an object stands in the end.
  abbrev pub IsGrouped : List Triplet × List ObjectInfo → ObjectInfo → Type 0
  IsGrouped r o =
      ((b : String) × (e : Extension) × (o.key ≡ String.◌++◌ b (ext_text e)) × IsHeldAs r.0 o b e)
      ⊎ ((place o ≡ none) × In o r.1)

  group_all-unplaced :
      (x : ObjectInfo) (os : List ObjectInfo) (ts : List Triplet) (foreign : List ObjectInfo)
      → place x ≡ none
      → group_all l (x ∷ os) ts foreign ≡ group_all l os ts (foreign ++ x ∷ [])
  unfolding group_all
  group_all-unplaced x os ts foreign h = rw (h, group_all) refl

  group_all-placed :
      (x : ObjectInfo) (os : List ObjectInfo) (ts : List Triplet) (foreign : List ObjectInfo)
      {b : String} {e : Extension}
      → place x ≡ some (b, e)
      → group_all l (x ∷ os) ts foreign ≡ group_all l os (add_object l b e x ts) foreign
  unfolding group_all
  group_all-placed x os ts foreign h = rw (h, group_all) refl

  -- The object of a round.
  group_all-first :
      (x : ObjectInfo) (os : List ObjectInfo) (ts : List Triplet) (foreign : List ObjectInfo)
      → Apart key_of x os
      → IsGrouped (group_all l (x ∷ os) ts foreign) x
  group_all-first x os ts foreign a = elim (Option-cases (place x)) [
    | inl nowhere ↦
        subst⁻¹ (λ r. IsGrouped r x) (group_all-unplaced x os ts foreign nowhere)
          (inr (
            nowhere,
            group_all-foreign os ts (foreign ++ x ∷ []) x (In-right foreign (x ∷ []) (here refl)),
          ))
    | inr ((b, e), q) ↦
        let added = add_object l b e x ts in
        let stands : look added b e ≡ some x =
          look-add_object l b e x ts b e ∙ rw (eq_refl b, same_ext_refl e) refl in
        subst⁻¹ (λ r. IsGrouped r x) (group_all-placed x os ts foreign q)
          (inl (
            b,
            e,
            place-key x b e q,
            look-IsHeldAs (group_all l os added foreign).0 x b e
                (group_all-keeps os added foreign x b e q a stands),
          ))
  ]

  group_all-IsGrouped :
      (os : List ObjectInfo) (ts : List Triplet) (foreign : List ObjectInfo) (o : ObjectInfo)
      → IsDistinct key_of os
      → In o os
      → IsGrouped (group_all l os ts foreign) o
  unfolding group_all
  group_all-IsGrouped [] ts foreign o d m = elim m [ ]
  group_all-IsGrouped (x ∷ os) ts foreign o d (there m) = elim (Option-cases (place x)) [
    | inl nowhere ↦ rw (nowhere, group_all) (group_all-IsGrouped os ts _ o (d.1) m)
    | inr ((b', e'), q) ↦ rw (q, group_all) (group_all-IsGrouped os _ foreign o (d.1) m)
  ]
  group_all-IsGrouped (x ∷ os) ts foreign o d (here same) =
      subst⁻¹ (IsGrouped (group_all l (x ∷ os) ts foreign)) same
        (group_all-first x os ts foreign (d.0))

  sorted-IsGrouped :
      (r : List Triplet × List ObjectInfo) (o : ObjectInfo)
      → IsGrouped r o
      → IsGrouped (sort_by later r.0, sort_by key_less r.1) o
  sorted-IsGrouped (ts, foreign) o (inl (b, e, k, (t, m, n, s))) =
      inl (b, e, k, (t, In-sort_by later m, n, s))
  sorted-IsGrouped (ts, foreign) o (inr (nowhere, m)) = inr (nowhere, In-sort_by key_less m)

  -- Group loses no object of a listing with distinct keys: each stands in a snapshot, as the extension
  -- that its key has after the snapshot's base, or it has none of the extensions and is among the
  -- foreign objects.
  pub group-IsGrouped :
      (objects : List ObjectInfo) (o : ObjectInfo)
      → IsDistinct key_of objects
      → In o objects
      → IsGrouped (group l objects) o
  unfolding group
  group-IsGrouped objects o d m =
      sorted-IsGrouped (group_all l objects [] []) o (group_all-IsGrouped objects [] [] o d m)
