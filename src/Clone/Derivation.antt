-- ===== src/Clone/Derivation.antt =====
-- internal/engine/target/clone/clone.go: what a clone is derived from, and the platform that makes it.
use portcloak.Base.{
  ℕ, Bool, false, not, ◌||◌, List, [], ◌∷◌, Option, none, some, String, ◌==◌, str_eq, concat,
  split_path, clean, if◌then◌else◌,
}
use portcloak.Base.Int.{ℤ, pos, negsuc}
use portcloak.Base.Dict.{Dict}
use Prim.Native.Char.{code}
use Prim.Native.String
use portcloak.Resil.Errors.{GoError}
use portcloak.Blobs.{Reader, Answer}
use portcloak.Clone.Labels.{labels}
use portcloak.Clone.Owner.{FileOwner}

pub record Spec : Type 0 where
  pub job_id : String
  pub image : String
  pub command : List String
  pub env : Dict String
  pub labels : Dict String
  pub work_dir : String
  pub kept : List String
  pub stripped : List String

pub record Command : Type 0 where
  pub path : String
  pub args : List String

pub record ExecResult : Type 0 where
  pub exit_code : ℤ
  pub lines : List String

pub record PrepareOptions : Type 0 where
  pub job_id : String
  pub realms : List String

pub record Ports : Type 0 where
  pub http : ℕ
  pub https : ℕ
  pub management : ℕ

pub record ExecContext : Type 0 where
  pub mode : String
  pub clone_ref : String
  pub work_dir : String
  pub ports : Ports

pub record Orphan : Type 0 where
  pub ref : String
  pub job_id : String
  pub created_at : ℕ
  pub state : String

abbrev stripped_fields : List String
stripped_fields =
    "labels" ∷ "annotations" ∷ "ownerReferences" ∷ "resourceVersion" ∷ "uid" ∷ "selfLink"
    ∷ "creationTimestamp" ∷ "nodeName" ∷ "status" ∷ "livenessProbe" ∷ "readinessProbe"
    ∷ "startupProbe" ∷ "lifecycle" ∷ "ports" ∷ "networkAliases" ∷ "healthcheck" ∷ "restartPolicy"
    ∷ "hostname" ∷ []

abbrev kept_fields : List String
kept_fields =
    "image" ∷ "env" ∷ "envFrom" ∷ "imagePullSecrets" ∷ "serviceAccountName" ∷ "volumes"
    ∷ "volumeMounts" ∷ "securityContext" ∷ "nodeSelector" ∷ "tolerations" ∷ "affinity" ∷ "resources"
    ∷ "networks" ∷ "dnsPolicy" ∷ "dnsConfig" ∷ "terminationGracePeriodSeconds" ∷ []

-- `HangCommand`
abbrev hang_command : List String
hang_command =
    "/bin/sh" ∷ "-c" ∷ "trap 'exit 0' TERM INT; while :; do sleep 3600 & wait $!; done" ∷ []

-- `Platform`, without `Close`; the probe's facts and the sink are the target's.
pub record Platform (Facts Sink : Type 0) (S : Type 0) : Type 0 where
  pub inspect : String → List String → S → Answer S Spec
  pub create : Spec → S → Answer S String
  pub wait_running : String → S → Option GoError × S
  pub exec : String → Command → S → Answer S ExecResult
  pub copy_out : String → String → Sink → S → Option GoError × S
  pub copy_in : String → String → ℕ → FileOwner → Reader S → S → Option GoError × S
  pub destroy : String → S → Option GoError × S
  pub probe : S → Answer S Facts
  pub find_orphans : S → Answer S (List Orphan)

-- The fields of the executor.
pub record Clone : Type 0 where
  pub ref : String
  pub spec : Option Spec
  pub created : Bool
  pub torn_down : Bool
  pub made_dirs : List String
  pub owner : Option FileOwner

unfoldable pub new_clone : Clone
new_clone = record {
  ref = "";
  spec = none;
  created = false;
  torn_down = false;
  made_dirs = [];
  owner = none;
}

-- The world of the executor.
pub record Cloned (S : Type 0) : Type 0 where
  pub world : S
  pub clone : Clone

-- `strings.ReplaceAll(s, "'", `'\''`)`
quotes_escaped : String → String
quotes_escaped String.[] = ""
quotes_escaped (String.◌∷◌ c s) =
    let rest = quotes_escaped s in
    if code c == 39 then String.◌++◌ "'\\''" rest else String.◌∷◌ c rest

abbrev pub is_zero : ℤ → Bool
is_zero (pos n) = n == 0
is_zero (negsuc n) = false

-- `path.Dir`
unfoldable pub dir_name : String → String
unfolding split_path clean
dir_name s = clean (split_path s).0

-- `shellQuote`
shell_quote : String → String
unfolding quotes_escaped
shell_quote s = concat ("'" ∷ quotes_escaped s ∷ "'" ∷ [])

unfoldable pub make_dir : String → Command
unfolding shell_quote
make_dir dir = record {
  path = "/bin/sh";
  args =
      "-c" ∷ concat ("mkdir -p " ∷ shell_quote dir ∷ " && chmod 700 " ∷ shell_quote dir ∷ []) ∷ [];
}

-- `currentRef`
unfoldable pub current_ref : Clone → Option String
current_ref c = if not c.created || c.torn_down then none else some c.ref

-- `firstRealm`
abbrev first_realm : List String → String
first_realm [] = ""
first_realm (r ∷ rs) = r

abbrev pub no_context : ExecContext
no_context = record {
  mode = "";
  clone_ref = "";
  work_dir = "";
  ports = record { http = 0; https = 0; management = 0 };
}

abbrev pub no_image_advice : String
no_image_advice = "The clone's image may have no writable /tmp, or no shell to create it with."

-- The spec that `Prepare` creates.
unfoldable pub derived : PrepareOptions → String → Spec → Spec
unfolding labels
derived o stamp spec = record spec {
  command = hang_command;
  labels = labels o.job_id (first_realm o.realms) stamp;
  work_dir =
      if str_eq spec.work_dir "" then concat ("/tmp/portcloak-" ∷ o.job_id ∷ []) else spec.work_dir;
  stripped = stripped_fields;
  kept = kept_fields;
}

-- A reader on the executor's world, as the platform reads it.
unfoldable pub below : {S : Type 0} → Clone → Reader (Cloned S) → Reader S
below {S} k reader = record {
  seek_start = elim reader.seek_start [
    | none ↦ none
    | some seek ↦
        let on_world : S → Option GoError × S =
          λ s. let (e, c) = seek (record { world = s; clone = k }) in (e, c.world) in
        some on_world
  ];
}
