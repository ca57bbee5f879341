-- ===== src/Orchestrator/Restore/Preview.antt =====
-- internal/engine/orchestrator/restore.go: the dry run, which compares a snapshot with the destination.
pub mod Laws
use portcloak.Base.{
  ℕ, ◌+◌, ◌-◌, Bool, true, false, not, ◌&&◌, ◌||◌, Option, none, some, List, [], ◌∷◌, ◌++◌, String,
  ltb, length, str_eq, concat, contains, itoa, sort_by, text_less, map, any, if◌then◌else◌,
}
use portcloak.Kc.{ImportStrategy}
use portcloak.Manifest.{Manifest, Counts, ClientSummary, IdpSummary, FederationSummary}

-- `RealmShape`
pub record RealmShape : Type 0 where
  pub exists : Bool
  pub users : ℕ
  pub clients : ℕ
  pub client_scopes : ℕ
  pub realm_roles : ℕ
  pub groups : ℕ
  pub identity_providers : ℕ
  pub federations : ℕ
  pub key_ids : List String

pub record DiffCategory : Type 0 where
  pub category : String
  pub create : ℕ
  pub overwrite : ℕ
  pub leave_alone : ℕ
  pub note : String
  pub note_level : String

min_int : ℕ → ℕ → ℕ
min_int a b = if ltb a b then a else b

-- `maxInt(a - b, 0)`
over : ℕ → ℕ → ℕ
over a b = a - b

abbrev pub strategy_skip : ImportStrategy
strategy_skip = "skip"

-- The closure `add`.
unfoldable pub diff_row :
    RealmShape → ImportStrategy → String → ℕ → ℕ → String → String → DiffCategory
unfolding min_int over
diff_row shape strategy category incoming existing note level =
    let row : DiffCategory = record {
      category = category;
      create = 0;
      overwrite = 0;
      leave_alone = 0;
      note = note;
      note_level = level;
    } in
    if not shape.exists
    then record row { create = incoming }
    else if str_eq strategy strategy_skip
    then record row { create = over incoming existing; leave_alone = min_int incoming existing }
    else record row { overwrite = min_int incoming existing; create = over incoming existing }

-- `usersNote`
pub users_note : ℕ → ℕ → Bool → String
unfolding min_int
users_note incoming existing exists =
    if not exists || not (ltb 0 existing)
    then ""
    else concat (itoa (min_int incoming existing) ∷ " accounts already exist here" ∷ [])

-- The confidential clients without a secret.
abbrev pub missing_secrets : List ClientSummary → List String
missing_secrets [] = []
missing_secrets (c ∷ cs) =
    if c.is_confidential && not c.secret_present
    then c.client_id ∷ missing_secrets cs
    else missing_secrets cs

note_of_missing : List String → String
note_of_missing [] = ""
note_of_missing (c ∷ []) = concat (c ∷ " arrives without its secret" ∷ [])
note_of_missing (c ∷ d ∷ cs) =
    concat (itoa (length (c ∷ d ∷ cs)) ∷ " clients arrive without their secrets" ∷ [])

-- `clientsNote`
unfoldable pub clients_note : Manifest → String
unfolding note_of_missing sort_by text_less
clients_note m = note_of_missing (sort_by text_less (missing_secrets m.clients))

-- `keysNote`
unfoldable pub keys_note : RealmShape → ImportStrategy → String
keys_note shape strategy =
    if not shape.exists
    then ""
    else if str_eq strategy strategy_skip
    then "the destination keeps its own signing keys, so tokens signed by the source will not verify here"
    else elim shape.key_ids [
      | [] ↦ ""
      | k ∷ ks ↦ "tokens signed by the destination's current keys stop verifying"
    ]

-- The first entry that arrives without a secret, by its name.
first_bare : List (String × Bool) → Option String
first_bare [] = none
first_bare ((name, carried) ∷ more) = if carried then first_bare more else some name

-- `idpNote`
pub idp_note : Manifest → String
unfolding first_bare
idp_note m =
    elim (first_bare (map (λ (p : IdpSummary). (p.alias, p.secret_carried)) m.identity_providers)) [
      | some name ↦ concat (name ∷ " arrives without its client secret" ∷ [])
      | none ↦ elim m.identity_providers [
        | [] ↦ ""
        | p ∷ ps ↦ "redirect URIs still point at the source, review after import"
      ]
    ]

-- `federationNote`
pub federation_note : Manifest → String
unfolding first_bare
federation_note m =
    elim (first_bare (map (λ (f : FederationSummary). (f.name, f.bind_carried)) m.federations)) [
      | some name ↦ concat (name ∷ " arrives without its bind credential" ∷ [])
      | none ↦ elim m.federations [ [] ↦ "" | f ∷ fs ↦ "bind credential carried" ]
    ]

-- `noteLevel`
unfoldable pub note_level : String → String
unfolding contains
note_level note =
    if str_eq note ""
    then ""
    else if contains note "without its"
        || contains note "not verify"
        || contains note "stop verifying"
    then "warning"
    else "caution"

-- The rows of a dry run against a realm that could be read.
unfoldable pub diff_rows : Manifest → RealmShape → ImportStrategy → List DiffCategory
unfolding diff_row users_note clients_note keys_note idp_note federation_note note_level
diff_rows m shape strategy =
    let n = m.counts in
    let clients = clients_note m in
    let keys = keys_note shape strategy in
    let idp = idp_note m in
    let row = diff_row shape strategy in
    row "Users" n.users shape.users (users_note n.users shape.users shape.exists) "info"
    ∷ row "Clients" n.clients shape.clients clients (note_level clients)
    ∷ row "Key providers" n.key_providers (length shape.key_ids) keys (note_level keys)
    ∷ row "Identity providers" n.identity_providers shape.identity_providers idp (note_level idp)
    ∷ row "User federation" n.federations shape.federations (federation_note m) "info"
    ∷ row "Roles, groups, scopes, flows"
        (n.realm_roles + n.client_roles + n.groups + n.client_scopes + n.auth_flows)
        (shape.realm_roles + shape.groups + shape.client_scopes) "" ""
    ∷ []

unfoldable pub total : (DiffCategory → ℕ) → List DiffCategory → ℕ
total f [] = 0
total f (r ∷ rs) = f r + total f rs
