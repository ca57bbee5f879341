-- ===== src/Orchestrator/Restore/Tests.antt =====
-- internal/engine/orchestrator/restore.go: restores against a destination that counts its calls and that
-- holds one user of the two that the snapshot has.
use portcloak.Base.{
  ◌≡◌, refl, ℕ, suc, Bool, true, false, none, some, [], ◌∷◌, String, itoa, path_join,
}
use portcloak.Base.Int.{pos}
use portcloak.Resil.Errors.{GoError}
use portcloak.Config.Fixtures.{no_faults, local_environment, main_disk}
use portcloak.Config.Jobs.{Job, restore, failed}
use portcloak.Config.Jobs.Store.{Codec}
use portcloak.Manifest.{Manifest, Key, ClientSummary}
use portcloak.Orchestrator.{World}
use portcloak.Orchestrator.Request.{new_job}
use portcloak.Orchestrator.Capture.{ExecContext}
use portcloak.Orchestrator.Restore.{run_restore, past_gates, import_done}
use portcloak.Orchestrator.Restore.Reads.{compute_dry_run, validate_restore}
use portcloak.Orchestrator.Restore.Gates.{unverified_untouched, unconfirmed_untouched}
use portcloak.Orchestrator.Restore.Import.{apply_import, offline, probed, prepared, in_context}
use portcloak.Orchestrator.Restore.Import.Honesty.{other, unstarted_writes_nothing}
use portcloak.Orchestrator.Restore.Preview.{RealmShape, diff_rows, clients_note, note_level}
use portcloak.Orchestrator.Restore.Preview.Laws.{AreDiffs, compared, diff_rows_lem}
use portcloak.Orchestrator.Restore.Steps.{
  RestoreRequest, Session, Destination, RestoreSteps, Sentences, strategy_overwrite,
}

-- How often the destination was read, and how often kc.sh ran on it.
record Seen : Type 0 where
  reads : ℕ
  imports : ℕ

abbrev codec : Codec Job
codec = record { marshal = λ j. some j; unmarshal = λ j. some j; size = λ j. 1 }

abbrev key : Key
key = record {
  kid = "k1";
  provider = "rsa-generated";
  kind = "RSA";
  algorithm = "RS256";
  use_for = "SIG";
  priority = pos 100;
  is_active = true;
  private_carried = true;
}

abbrev client : String → ClientSummary
client name = record { client_id = name; is_confidential = true; secret_present = false }

abbrev manifest : Manifest
manifest = record {
  counts = record {
    users = 2;
    clients = 1;
    client_scopes = 0;
    realm_roles = 3;
    client_roles = 0;
    groups = 0;
    identity_providers = 0;
    federations = 0;
    key_providers = 1;
    auth_flows = 0;
    required_actions = 0;
  };
  keys = key ∷ [];
  clients = client "app" ∷ [];
  identity_providers = [];
  federations = [];
  environment_name = "dev";
  dependency_scan = "completed";
}

abbrev shape : RealmShape
shape = record {
  exists = true;
  users = 1;
  clients = 4;
  client_scopes = 0;
  realm_roles = 3;
  groups = 0;
  identity_providers = 0;
  federations = 0;
  key_ids = "k0" ∷ "k1" ∷ [];
}

one_client_warns : note_level (clients_note manifest) ≡ "warning"
unfolding note_level clients_note
one_client_warns = refl

-- With two of them the phrase that is looked for is not in the note.
two_clients_caution :
    note_level (clients_note (record manifest { clients = client "app" ∷ client "web" ∷ [] }))
    ≡ "caution"
unfolding note_level clients_note itoa
two_clients_caution = refl

diff_rows_lem_example :
    AreDiffs shape strategy_overwrite
      (compared manifest shape)
      (diff_rows manifest shape strategy_overwrite)
diff_rows_lem_example = diff_rows_lem manifest shape strategy_overwrite

abbrev session : Bool → Session
session verified = record {
  id = "s1";
  realm = "acme";
  verified = verified;
  verify_message = "The digest differs.";
  captured_at = "2026-08-28T06:02:00Z";
  dependencies = [];
  manifest = manifest;
  realm_files = "realm.json" ∷ [];
}

abbrev destination : Destination Seen
destination = record {
  reachable = λ s. (true, s);
  read_realm = λ realm s. ((shape, none), record s { reads = suc s.reads });
  partial_import = λ realm body s. (((1, 0, 0), none), record s { imports = suc s.imports });
}

abbrev context : ExecContext
context = record { work_dir = "/work"; clone_ref = "c1" }

abbrev steps : Bool → RestoreSteps Seen
steps verified = record {
  make_store = λ s. (none, s);
  open_session = λ s. ((session verified, none), s);
  destination = some destination;
  make_executor = λ s. (none, s);
  probe = λ s. ((record { blocker = none; summary = "" }, none), s);
  kc_path = λ f. "/opt/keycloak/bin/kc.sh";
  prepare = λ s. ((context, none), s);
  mode_of = λ c. "clone";
  ports_of = λ c. record { http = pos 0; https = pos 0; management = pos 0 };
  teardown = λ s. (none, s);
  realm_file = λ s. (("{}", none), s);
  open_file = λ name s. ((3, none), s);
  push = λ dir size s. (none, s);
  discover = λ s. ([], s);
  run = λ cmd s. (
    (
      record {
        exit_code = pos 0;
        outcome = record {
          exit_code = pos 0;
          warnings = [];
          errors = [];
          bind_conflict = false;
          transaction_timeout = false;
          rejected_option = "";
          rejected_command = "";
        };
        stderr = "";
      },
      none,
    ),
    record s { imports = suc s.imports },
  );
  audit = λ outcome detail s. s;
}

abbrev unnamed : GoError
unnamed = GoError.canceled

abbrev texts : Sentences
texts = record { reason_text = λ r. ("", ""); build_text = λ b. unnamed; quoted = λ s. s }

abbrev request : String → RestoreRequest
request confirmed = record {
  environment = "dev";
  storage = "disk";
  bundle_key = "acme/one.pck";
  snapshot_id = "s1";
  realm = "acme";
  strategy = strategy_overwrite;
  confirm_realm = confirmed;
  no_transaction_timeout = false;
}

abbrev job : Job
job = new_job 5 restore "r1"

abbrev idle : World Seen Job
idle = record { env = record { reads = 0; imports = 0 }; dir = []; torn_down = []; events = [] }

abbrev run : Bool → String → Job × World Seen Job
run verified confirmed =
    run_restore codec no_faults 7 (steps verified) texts local_environment main_disk
      (request confirmed) job idle

-- A confirmed overwrite reads the realm for the confirmation, the preview and the validation, and
-- imports once.
confirmed_run : let (j, w) = run true "acme" in (w.env.reads ≡ 3) × (w.env.imports ≡ 1)
unfolding run_restore new_job past_gates apply_import offline probed prepared in_context import_done
    compute_dry_run validate_restore path_join itoa
confirmed_run = (refl, refl)

unverified_untouched_example :
    let (j, w) = run false "acme" in (w.env ≡ idle.env) × (j.state ≡ failed)
unverified_untouched_example =
    unverified_untouched codec no_faults 7 (steps false) texts local_environment main_disk
      (request "acme") job idle refl refl refl

unconfirmed_untouched_example :
    let (j, w) = run true "acm" in (w.env ≡ record { reads = 1; imports = 0 }) × (j.state ≡ failed)
unconfirmed_untouched_example =
    unconfirmed_untouched codec no_faults 7 (steps true) texts local_environment main_disk
      (request "acm") job idle destination refl refl refl refl refl refl refl refl refl

-- The realm's files cannot be pushed, so nothing is written.
abbrev stranded : RestoreSteps Seen
stranded = record (steps true) { push = λ dir size s. (some unnamed, s) }

unstarted_writes_nothing_example :
    let unread =
      other codec no_faults 7 stranded texts local_environment
        (request "acme")
        (steps true).run
        destination.partial_import in
    apply_import codec no_faults 7 unread texts local_environment
      (request "acme")
      (session true)
      job
      idle
    ≡ apply_import codec no_faults 7 stranded texts local_environment
        (request "acme")
        (session true)
        job
        idle
unstarted_writes_nothing_example =
    unstarted_writes_nothing codec no_faults 7 stranded texts local_environment (request "acme")
      (steps true).run destination.partial_import (session true) job idle
      (unfold apply_import offline probed prepared in_context path_join in refl)
