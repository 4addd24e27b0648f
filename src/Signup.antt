-- ===== src/Signup.antt =====
-- The signup limits `SignupRateLimitStore` of src/utils/signupRateLimiter.ts. The normal form of an
-- address is a parameter, as it asks Node's `net`; that of an e-mail is Signup.Email. Time is an
-- argument. The headers, which print the numbers of the result, and the timer of the clean-up are left
-- out.
pub mod Email
pub mod Limits
pub mod Runs
mod Tests
use veritasor_backend.Prelude.{
  ℕ, zero, suc, ◌+◌, ◌-◌, ◌*◌, ◌^◌, min, Bool, true, false, not, ◌&&◌, ◌||◌, List, [], ◌∷◌, Option,
  none, some, ltb, leb, if◌then◌else◌, length,
}
use veritasor_backend.Prelude.Text.{Text, codes}
use veritasor_backend.Prelude.Maps.{get, put}
use veritasor_backend.Signup.Email.{normalize_email}

pub record SignupRateRecord : Type 0 where
  pub attempt_count : ℕ
  pub failed_attempts : ℕ
  pub window_start : ℕ
  pub expires_at : ℕ
  pub is_blocked : Bool
  pub block_reason : Option Text

pub record SignupRateLimitConfig : Type 0 where
  pub window_ms : ℕ
  pub max_attempts_per_ip : ℕ
  pub max_attempts_per_email : ℕ
  pub max_global_attempts : ℕ
  pub block_duration_ms : ℕ
  pub progressive_delay_threshold : ℕ
  pub enable_progressive_delay : Bool

abbrev pub default_signup_rate_limit_config : SignupRateLimitConfig
default_signup_rate_limit_config = record {
  window_ms = 3_600_000;
  max_attempts_per_ip = 5;
  max_attempts_per_email = 3;
  max_global_attempts = 1000;
  block_duration_ms = 86_400_000;
  progressive_delay_threshold = 2;
  enable_progressive_delay = true;
}

abbrev pub Records : Type 0
Records = List (Text × SignupRateRecord)

pub record SignupRateLimitStore : Type 0 where
  pub ip_store : Records
  pub email_store : Records
  pub global_record : SignupRateRecord

pub data BlockReason : Type 0 where
  ip_blocked email_blocked global_limit ip_limit email_limit : BlockReason

-- A result; its reset is a time, where the source gives the time left until then.
pub record RateLimitCheckResult : Type 0 where
  pub allowed : Bool
  pub remaining_attempts : ℕ
  pub resets_at : ℕ
  pub is_blocked : Bool
  pub block_reason : Option BlockReason
  -- Of a request that is allowed; otherwise the source gives the time left until the reset.
  pub suggested_delay_ms : Option ℕ

module _ (config : SignupRateLimitConfig) where
  abbrev pub fresh_record : ℕ → SignupRateRecord
  fresh_record now = record {
    attempt_count = 0;
    failed_attempts = 0;
    window_start = now;
    expires_at = now + config.window_ms;
    is_blocked = false;
    block_reason = none;
  }

  unfoldable pub new_store : ℕ → SignupRateLimitStore
  new_store now = record { ip_store = []; email_store = []; global_record = fresh_record now }

  unfoldable pub drop_expired : ℕ → Records → Records
  drop_expired now [] = []
  drop_expired now ((k, r) ∷ m) =
      if ltb r.expires_at now then drop_expired now m else (k, r) ∷ drop_expired now m

  abbrev pub current_global : ℕ → SignupRateRecord → SignupRateRecord
  current_global now r = if ltb r.expires_at now then fresh_record now else r

  unfoldable pub cleanup : ℕ → SignupRateLimitStore → SignupRateLimitStore
  cleanup now s = record {
    ip_store = drop_expired now s.ip_store;
    email_store = drop_expired now s.email_store;
    global_record = current_global now s.global_record;
  }

  -- `!record || record.expiresAt < now`
  abbrev pub live_or_fresh : ℕ → Option SignupRateRecord → SignupRateRecord
  live_or_fresh now none = fresh_record now
  live_or_fresh now (some r) = if ltb r.expires_at now then fresh_record now else r

  -- The record, which the source puts into the store if it is new.
  unfoldable pub get_or_create_record : ℕ → Records → Text → SignupRateRecord
  get_or_create_record now m k = live_or_fresh now (get m k)

  -- A change of the record in place.
  unfoldable pub change_record :
      ℕ → Records → Text → (SignupRateRecord → SignupRateRecord) → Records
  unfolding get_or_create_record
  change_record now m k f = put m k (f (get_or_create_record now m k))

  abbrev pub blocked_result : SignupRateRecord → BlockReason → RateLimitCheckResult
  blocked_result r reason = record {
    allowed = false;
    remaining_attempts = 0;
    resets_at = r.expires_at;
    is_blocked = true;
    block_reason = some reason;
    suggested_delay_ms = none;
  }

  abbrev pub limited_result : SignupRateRecord → BlockReason → RateLimitCheckResult
  limited_result r reason = record (blocked_result r reason) { is_blocked = false }

  unfoldable pub calculate_progressive_delay : ℕ → ℕ
  calculate_progressive_delay failed_attempts =
      min (1000 * 2 ^ (failed_attempts - config.progressive_delay_threshold)) 60_000

  abbrev pub suggested_delay : SignupRateRecord → ℕ
  suggested_delay ip =
      if config.enable_progressive_delay
        && leb config.progressive_delay_threshold ip.failed_attempts
      then calculate_progressive_delay ip.failed_attempts
      else 0

  abbrev pub allowed_result :
      SignupRateRecord → SignupRateRecord → SignupRateRecord → RateLimitCheckResult
  allowed_result ip email global = record {
    allowed = true;
    remaining_attempts = min (config.max_attempts_per_ip - ip.attempt_count) (
        min (config.max_attempts_per_email - email.attempt_count)
          (config.max_global_attempts - global.attempt_count));
    resets_at = min ip.expires_at (min email.expires_at global.expires_at);
    is_blocked = false;
    block_reason = none;
    suggested_delay_ms = some (suggested_delay ip);
  }

  unfoldable pub judge :
      SignupRateRecord → SignupRateRecord → SignupRateRecord → RateLimitCheckResult
  judge ip email global =
      if ip.is_blocked
      then blocked_result ip ip_blocked
      else if email.is_blocked
      then blocked_result email email_blocked
      else if leb config.max_global_attempts global.attempt_count
      then limited_result global global_limit
      else if leb config.max_attempts_per_ip ip.attempt_count
      then limited_result ip ip_limit
      else if leb config.max_attempts_per_email email.attempt_count
      then limited_result email email_limit
      else allowed_result ip email global

  module _ (normalize_ip : Text → Text) where
    unfoldable pub check_limit :
        ℕ → Text → Text → SignupRateLimitStore → RateLimitCheckResult × SignupRateLimitStore
    unfolding change_record
    check_limit now ip email s = (
      judge (get_or_create_record now s.ip_store (normalize_ip ip))
          (get_or_create_record now s.email_store (normalize_email email)) s.global_record,
      record s {
        ip_store = change_record now s.ip_store (normalize_ip ip) (λ r. r);
        email_store = change_record now s.email_store (normalize_email email) (λ r. r);
      },
    )

    abbrev pub attempted : ℕ → SignupRateRecord → SignupRateRecord
    attempted now r = record r {
      attempt_count = r.attempt_count + 1;
      expires_at = now + config.window_ms;
    }

    abbrev pub attempted_global : ℕ → SignupRateRecord → SignupRateRecord
    attempted_global now r =
        if ltb r.expires_at now
        then record (fresh_record now) { attempt_count = 1 }
        else record r { attempt_count = r.attempt_count + 1 }

    unfoldable pub record_attempt : ℕ → Text → Text → SignupRateLimitStore → SignupRateLimitStore
    unfolding change_record
    record_attempt now ip email s = record {
      ip_store = change_record now s.ip_store (normalize_ip ip) (attempted now);
      email_store = change_record now s.email_store (normalize_email email) (attempted now);
      global_record = attempted_global now s.global_record;
    }

    abbrev pub count_failure : ℕ → Bool → ℕ → SignupRateRecord → SignupRateRecord
    count_failure now block_on_threshold limit r =
        let counted : SignupRateRecord = record r { failed_attempts = r.failed_attempts + 1 } in
        if block_on_threshold && leb (limit * 2) counted.failed_attempts
        then record counted {
          is_blocked = true;
          block_reason = some (codes "Too many failed signup attempts");
          expires_at = now + config.block_duration_ms;
        }
        else counted

    unfoldable pub record_failure :
        ℕ → Text → Text → Bool → SignupRateLimitStore → SignupRateLimitStore
    unfolding change_record
    record_failure now ip email block_on_threshold s = record {
      ip_store =
          change_record now s.ip_store (normalize_ip ip)
            (count_failure now block_on_threshold config.max_attempts_per_ip);
      email_store =
          change_record now s.email_store (normalize_email email)
            (count_failure now block_on_threshold config.max_attempts_per_email);
      global_record = record s.global_record {
        failed_attempts = s.global_record.failed_attempts + 1;
      };
    }

    abbrev pub forget_failures : Records → Text → Option SignupRateRecord → Records
    forget_failures m k none = m
    forget_failures m k (some r) = put m k (record r { failed_attempts = 0 })

    unfoldable pub record_success : Text → Text → SignupRateLimitStore → SignupRateLimitStore
    record_success ip email s = record s {
      ip_store = forget_failures s.ip_store (normalize_ip ip) (get s.ip_store (normalize_ip ip));
      email_store =
          forget_failures s.email_store (normalize_email email)
            (get s.email_store (normalize_email email));
    }

    abbrev pub blocked_until : ℕ → Text → SignupRateRecord → SignupRateRecord
    blocked_until end reason r = record r {
      is_blocked = true;
      block_reason = some reason;
      expires_at = end;
    }

    abbrev pub or_default : Option ℕ → ℕ → ℕ
    or_default none n = n
    or_default (some m) n = m

    unfoldable pub block_ip :
        ℕ → Text → Text → Option ℕ → SignupRateLimitStore → SignupRateLimitStore
    unfolding change_record
    block_ip now ip reason duration s = record s {
      ip_store =
          change_record now s.ip_store (normalize_ip ip)
            (blocked_until (now + or_default duration config.block_duration_ms) reason);
    }

    abbrev pub unblocked : Records → Text → Option SignupRateRecord → Records
    unblocked m k none = m
    unblocked m k (some r) = put m k (record r { is_blocked = false; block_reason = none })

    unfoldable pub unblock_ip : Text → SignupRateLimitStore → SignupRateLimitStore
    unblock_ip ip s = record s {
      ip_store = unblocked s.ip_store (normalize_ip ip) (get s.ip_store (normalize_ip ip));
    }

    unfoldable pub block_email :
        ℕ → Text → Text → Option ℕ → SignupRateLimitStore → SignupRateLimitStore
    unfolding change_record
    block_email now email reason duration s = record s {
      email_store =
          change_record now s.email_store (normalize_email email)
            (blocked_until (now + or_default duration config.block_duration_ms) reason);
    }

    unfoldable pub unblock_email : Text → SignupRateLimitStore → SignupRateLimitStore
    unblock_email email s = record s {
      email_store =
          unblocked s.email_store (normalize_email email)
            (get s.email_store (normalize_email email));
    }
