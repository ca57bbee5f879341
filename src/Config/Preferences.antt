-- ===== src/Config/Preferences.antt =====
-- internal/engine/config/model.go: the preferences that the file leaves out, and the age of a stamp.
use portcloak.Base.{
  ℕ, ◌+◌, ◌≡◌, refl, Bool, true, false, not, ◌&&◌, Option, none, some, String, str_eq, is_some, ltb,
  arith, if◌then◌else◌,
}
use portcloak.Base.Int.{ℤ, pos, negsuc, nonpositive}
use portcloak.Config.Model.{Preferences, ProbeStamp}

-- `DefaultPreferences`, in nanoseconds.
unfoldable pub default_preferences : Preferences
default_preferences = record {
  users_mode = "different_files";
  users_per_file = pos 1000;
  verify_by_default = some true;
  encrypt_by_default = some true;
  allow_secret_reveal = some true;
  probe_stale_after = pos 604800000000000;
  retry_max_attempts = pos 5;
  retry_base_delay = pos 500000000;
  retry_max_delay = pos 30000000000;
  breaker_threshold = pos 5;
  breaker_cooldown = pos 30000000000;
  extra = "";
}

or_default : ℤ → ℤ → ℤ
or_default z d = if nonpositive z then d else z

or_text : String → String → String
or_text s d = if str_eq s "" then d else s

or_flag : Option Bool → Option Bool → Option Bool
or_flag none d = d
or_flag (some b) d = some b

-- `Resolved`
unfoldable pub resolved : Preferences → Preferences
unfolding or_default or_text or_flag default_preferences
resolved p =
    let d = default_preferences in
    record {
      users_mode = or_text p.users_mode d.users_mode;
      users_per_file = or_default p.users_per_file d.users_per_file;
      verify_by_default = or_flag p.verify_by_default d.verify_by_default;
      encrypt_by_default = or_flag p.encrypt_by_default d.encrypt_by_default;
      allow_secret_reveal = or_flag p.allow_secret_reveal d.allow_secret_reveal;
      probe_stale_after = or_default p.probe_stale_after d.probe_stale_after;
      retry_max_attempts = or_default p.retry_max_attempts d.retry_max_attempts;
      retry_base_delay = or_default p.retry_base_delay d.retry_base_delay;
      retry_max_delay = or_default p.retry_max_delay d.retry_max_delay;
      breaker_threshold = or_default p.breaker_threshold d.breaker_threshold;
      breaker_cooldown = or_default p.breaker_cooldown d.breaker_cooldown;
      extra = p.extra;
    }

-- `Stale` of a pointer that may be nil; `after` is a duration, of either sign.
unfoldable pub is_stale : Option ProbeStamp → ℤ → ℕ → Bool
is_stale none after now = false
is_stale (some p) (pos a) now = ltb (p.at + a) now
is_stale (some p) (negsuc a) now = ltb p.at (now + a + 1)

-- Nothing is left out: a text, three flags, and seven numbers above 0.
unfoldable pub is_complete : Preferences → Bool
is_complete p =
    not (str_eq p.users_mode "")
    && is_some p.verify_by_default
    && is_some p.encrypt_by_default
    && is_some p.allow_secret_reveal
    && not (nonpositive p.users_per_file)
    && not (nonpositive p.probe_stale_after)
    && not (nonpositive p.retry_max_attempts)
    && not (nonpositive p.retry_base_delay)
    && not (nonpositive p.retry_max_delay)
    && not (nonpositive p.breaker_threshold)
    && not (nonpositive p.breaker_cooldown)

or_text_given : (s d : String) → str_eq d "" ≡ false → str_eq (or_text s d) "" ≡ false
unfolding or_text
or_text_given s d h = ground (arith, h)

or_default_positive : (z d : ℤ) → nonpositive d ≡ false → nonpositive (or_default z d) ≡ false
unfolding or_default
or_default_positive z d h = ground (arith, h)

or_flag_given : (o : Option Bool) (b : Bool) → is_some (or_flag o (some b)) ≡ true
unfolding or_flag
or_flag_given none b = refl
or_flag_given (some c) b = refl

-- The resolved preferences leave nothing out.
resolved-is_complete : (p : Preferences) → is_complete (resolved p) ≡ true
unfolding resolved is_complete default_preferences
resolved-is_complete p = rw (
  or_text_given p.users_mode "different_files" refl,
  or_flag_given p.verify_by_default true,
  or_flag_given p.encrypt_by_default true,
  or_flag_given p.allow_secret_reveal true,
  or_default_positive p.users_per_file (pos 1000) refl,
  or_default_positive p.probe_stale_after (pos 604800000000000) refl,
  or_default_positive p.retry_max_attempts (pos 5) refl,
  or_default_positive p.retry_base_delay (pos 500000000) refl,
  or_default_positive p.retry_max_delay (pos 30000000000) refl,
  or_default_positive p.breaker_threshold (pos 5) refl,
  or_default_positive p.breaker_cooldown (pos 30000000000) refl,
)

-- Preferences that leave nothing out are resolved to themselves.
pub resolved_keeps : (p : Preferences) → is_complete p ≡ true → resolved p ≡ p
unfolding resolved is_complete or_text or_default or_flag
resolved_keeps p h = ground (arith, h)

-- The resolved preferences leave nothing out, and resolving them once more changes nothing.
pub resolved_lem :
    (p : Preferences) → (is_complete (resolved p) ≡ true) × (resolved (resolved p) ≡ resolved p)
resolved_lem p = (resolved-is_complete p, resolved_keeps (resolved p) (resolved-is_complete p))
