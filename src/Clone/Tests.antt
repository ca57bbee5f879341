-- ===== src/Clone/Tests.antt =====
-- internal/engine/target/clone/clone.go: a platform that counts its clones, in which a clone never comes
-- up and the first call to destroy it fails.
use portcloak.Base.{
  ◌≡◌, refl, ◌↔◌, ℕ, zero, suc, ◌+◌, ◌-◌, true, false, [], ◌∷◌, Option, none, some, String,
}
use portcloak.Base.Int.{pos}
use portcloak.Base.Dict
use portcloak.Resil.Errors.{GoError, typed, retryable, is_retryable}
use portcloak.Resil.Breaker.{new_breaker, is_open, allow}
use portcloak.Resil.Retrier.{Retrier, Env, Run, new, classify, is_endpoint_fault}
use portcloak.Blobs.{Reader}
use portcloak.Reliable.Executors
use portcloak.Clone.Labels.{label_value, labels}
use portcloak.Clone.Labels.Values.{IsLabelValue, label_value_lem}
use portcloak.Clone.Owner.{owner_of}
use portcloak.Clone.Derivation.{Spec, PrepareOptions, Platform, Cloned, Command}
use portcloak.Clone.{run, fetch_dir, push_file, teardown, left_running}
use portcloak.Clone.Lifecycle.{IsTornDown, destroyed, prepared, prepare-teardown, teardown_final}
use portcloak.Clone.Retried.{types, executor, teardown_not_retried}

separators_trimmed : label_value "--My realm: 1.0-" ≡ "My-realm--1.0"
unfolding label_value
separators_trimmed = refl

label_value_lem_example :
    IsLabelValue (label_value "My realm")
    × ((label_value "My realm" ≡ "My realm") ↔ IsLabelValue "My realm")
label_value_lem_example = label_value_lem "My realm"

realm_dropped : Dict.get (labels "01ABC" "___" "20260828T060200Z") "portcloak.io/realm" ≡ none
unfolding labels Dict.get
realm_dropped = refl

owner_read : owner_of ("1000" ∷ " 0 " ∷ []) ≡ record { uid = pos 1000; gid = pos 0 }
unfolding owner_of
owner_read = refl

-- How many clones run, and how many calls of `Destroy` have been made.
record World : Type 0 where
  clones : ℕ
  calls : ℕ

abbrev busy : GoError
busy =
    typed
      (record { op = "destroy"; message = "busy"; advice = ""; endpoint = ""; class = retryable })

abbrev spec : Spec
spec = record {
  job_id = "";
  image = "keycloak";
  command = [];
  env = [];
  labels = [];
  work_dir = "";
  kept = [];
  stripped = [];
}

abbrev refuses_once : ℕ → ℕ → Option GoError × World
refuses_once zero n = (some busy, record { clones = n; calls = 1 })
refuses_once (suc k) n = (none, record { clones = n - 1; calls = suc (suc k) })

abbrev platform : Platform (Unit {0}) (Unit {0}) World
platform = record {
  inspect = λ id realms s. ((spec, none), s);
  create = λ d s. (("c1", none), record s { clones = s.clones + 1 });
  wait_running = λ ref s. (some busy, s);
  exec = λ ref cmd s. ((record { exit_code = pos 0; lines = [] }, none), s);
  copy_out = λ ref path sink s. (none, s);
  copy_in = λ ref path size owner reader s. (none, s);
  destroy = λ ref s. refuses_once s.calls s.clones;
  probe = λ s. ((tt, none), s);
  find_orphans = λ s. (([], none), s);
}

abbrev stamp : World → String
stamp s = "20260828T060200Z"

abbrev options : PrepareOptions
options = record { job_id = "01ABC"; realms = "acme" ∷ [] }

abbrev idle : World
idle = record { clones = 0; calls = 1 }

prepare-teardown_example :
    IsTornDown platform stamp options idle
      (prepared platform stamp options idle)
      (teardown platform stamp (prepared platform stamp options idle))
prepare-teardown_example = prepare-teardown platform stamp options idle refl

abbrev held : Cloned World
held = record {
  world = record { clones = 1; calls = 0 };
  clone = record {
    ref = "c1";
    spec = none;
    created = true;
    torn_down = false;
    made_dirs = [];
    owner = none;
  };
}

abbrev command : Command
command = record { path = "/bin/sh"; args = [] }

abbrev nothing : Reader (Cloned World)
nothing = record { seek_start = none }

teardown_final_example :
    let c' = (teardown platform stamp held).1 in
    (teardown platform stamp c' ≡ (none, c'))
    × ((run platform stamp command c').1 ≡ c')
    × ((fetch_dir platform stamp "/tmp" tt c').1 ≡ c')
    × ((push_file platform stamp "/tmp" 3 nothing c').1 ≡ c')
teardown_final_example =
    teardown_final platform stamp held command "/tmp" tt 3 nothing (refl, refl, refl)

abbrev env : Env (Cloned World)
env = record {
  now = λ s. 0;
  ctx_err = λ s. none;
  sleep = λ d s. (none, s);
  draw = λ d s. (0, s);
  show = λ d. "";
}

abbrev retrier : Retrier
retrier =
    new "docker"
      (record { max_attempts = pos 5; base_delay = pos 0; max_delay = pos 0; classifier = none })
      false

abbrev start : Run (Cloned World)
start = record {
  env = held;
  breaker = new_breaker "docker" (record { threshold = pos 5; cooldown = pos 30 });
  notices = [];
  calls = 0;
}

clone_left_running :
    (Executors.teardown
      (types (Unit {0}) (Unit {0}))
      env
      retrier
      (executor platform stamp)
      start).1.env.world.clones
    ≡ 1
unfolding Executors.teardown teardown new new_breaker allow is_retryable classify is_endpoint_fault
clone_left_running = refl

teardown_not_retried_example :
    let (res, st') =
      Executors.teardown
        (types (Unit {0}) (Unit {0}))
        env
        retrier
        (executor platform stamp)
        start in
    (res.1 ≡ some (classify retrier "destroy the ephemeral clone" (left_running "c1" busy)))
    × (st'.calls ≡ 1)
    × (st'.env ≡ destroyed platform stamp held)
teardown_not_retried_example =
    teardown_not_retried platform stamp env retrier start busy (unfold new_breaker is_open in refl)
      refl (refl, refl, refl) refl
