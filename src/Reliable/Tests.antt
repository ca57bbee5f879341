-- ===== src/Reliable/Tests.antt =====
-- internal/engine/reliable/reliable.go: an upload that drops twice, over a destination that counts bytes.
use portcloak.Base.{◌≡◌, refl, ℕ, zero, suc, ◌+◌, Bool, true, false, [], ◌∷◌, none, some}
use portcloak.Base.Int.{pos}
use portcloak.Resil.Errors.{GoError, typed, retryable, is_retryable}
use portcloak.Resil.Breaker.{new_breaker, allow, failure}
use portcloak.Resil.Retrier.{Retrier, Env, Run, new, classify}
use portcloak.Blobs.{PutOptions, Uploaded, Reader, BlobStore, access_writable, client_side}
use portcloak.Reliable.{put, no_result}

-- The bytes held, whether the reader is at its start, and how many calls are still to fail.
record Disk : Type 0 where
  held : ℕ
  at_start : Bool
  drops : ℕ

abbrev disk_env : Env Disk
disk_env = record {
  now = λ s. 0;
  ctx_err = λ s. none;
  sleep = λ d s. (none, s);
  draw = λ d s. (0, s);
  show = λ d. "";
}

abbrev dropped : GoError
dropped =
    typed
      (record { op = "upload"; message = "dropped"; advice = ""; endpoint = ""; class = retryable })

-- A call that drops sends four bytes and reports them; the other sends ten.
send : ℕ → Disk → Uploaded Disk
send zero s = record {
  result = record no_result { size = s.held + 10 };
  error = none;
  reports = [];
  world = record s { held = s.held + 10; at_start = false };
}
send (suc n) s = record {
  result = no_result;
  error = some dropped;
  reports = (s.held + 4, "state") ∷ [];
  world = record { held = s.held + 4; at_start = false; drops = n };
}

abbrev disk : BlobStore Disk
disk = record {
  probe = λ s. (
    (
      record {
        access = access_writable;
        root = "";
        latency = 0;
        is_resumable = true;
        integrity = client_side;
        free_bytes = 0;
        failed_step = "";
        detail = "";
        probed_at = 0;
      },
      none,
    ),
    s,
  );
  stat = λ key s. ((record { key = key; size = s.held; mod_time = 0; etag = "" }, none), s);
  put = λ key reader o s. send s.drops s;
  get = λ key o s. ((record { size = s.held; digest = "" }, none), s);
  list = λ prefix s. (([], none), s);
  delete = λ key s. (none, s);
  endpoint = "disk";
}

abbrev file : Reader Disk
file = record { seek_start = some (λ s. (none, record s { at_start = true })) }

abbrev retrier : Retrier
retrier =
    new "disk"
      (record { max_attempts = pos 4; base_delay = pos 1; max_delay = pos 8; classifier = none })
      false

abbrev options : PutOptions
options = record {
  size = 10;
  digest = "";
  offset = 0;
  hash_state = "";
  has_checkpoint = true;
  content_type = "";
}

abbrev start : Run Disk
start = record {
  env = record { held = 0; at_start = false; drops = 2 };
  breaker = new_breaker "disk" (record { threshold = pos 5; cooldown = pos 1 });
  notices = [];
  calls = 0;
}

two_reports :
    (put disk_env retrier disk "key" file options start).0.1 ≡ (4, "state") ∷ (8, "state") ∷ []
unfolding put new new_breaker send allow is_retryable classify failure
two_reports = refl
