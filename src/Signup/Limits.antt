-- ===== src/Signup/Limits.antt =====
-- What the signup limits of src/utils/signupRateLimiter.ts let through.
use veritasor_backend.Prelude.{ℕ, ◌≤◌, ◌<◌, ◌≡◌, ◌↔◌, arith, true, false}
use veritasor_backend.Prelude.Text.{Text}
use veritasor_backend.Signup.Email.{normalize_email}
use veritasor_backend.Signup.{
  SignupRateRecord, SignupRateLimitConfig, SignupRateLimitStore, judge, check_limit,
  get_or_create_record,
}

module _ (config : SignupRateLimitConfig) (normalize_ip : Text → Text) where
  -- The records that decide on a request.
  abbrev pub ip_record : ℕ → Text → SignupRateLimitStore → SignupRateRecord
  ip_record now ip s = get_or_create_record config now s.ip_store (normalize_ip ip)

  abbrev pub email_record : ℕ → Text → SignupRateLimitStore → SignupRateRecord
  email_record now email s = get_or_create_record config now s.email_store (normalize_email email)

  pub record IsFree (ip email global : SignupRateRecord) : Type 0 where
    pub ip_free : ip.is_blocked ≡ false
    pub email_free : email.is_blocked ≡ false
    pub global_room : global.attempt_count < config.max_global_attempts
    pub ip_room : ip.attempt_count < config.max_attempts_per_ip
    pub email_room : email.attempt_count < config.max_attempts_per_email

  judge-IsFree :
      (ip email global : SignupRateRecord)
      → (judge config ip email global).allowed ≡ true
      → IsFree ip email global
  unfolding judge
  judge-IsFree ip email global h = record {
    ip_free = ground arith;
    email_free = ground arith;
    global_room = ground arith;
    ip_room = ground arith;
    email_room = ground arith;
  }

  IsFree-judge :
      (ip email global : SignupRateRecord)
      → IsFree ip email global
      → ((judge config ip email global).allowed ≡ true)
        × (0 < (judge config ip email global).remaining_attempts)
  unfolding judge
  IsFree-judge ip email global f = rw (f.ip_free, f.email_free) (ground arith, ground arith)

  -- A signup is allowed exactly if neither its address nor its e-mail is blocked and neither they nor
  -- all signups together have used up their attempts; it then has an attempt left.
  pub check_limit-allowed_iff :
      (now : ℕ) (ip email : Text) (s : SignupRateLimitStore)
      → ((check_limit config normalize_ip now ip email s).0.allowed ≡ true)
        ↔ IsFree (ip_record now ip s) (email_record now email s) s.global_record
  unfolding check_limit
  check_limit-allowed_iff now ip email s =
      (judge-IsFree _ _ s.global_record, λ f. (IsFree-judge _ _ s.global_record f).0)

  pub full_refused :
      (ip email global : SignupRateRecord)
      → config.max_attempts_per_ip ≤ ip.attempt_count
      → (judge config ip email global).allowed ≡ false
  unfolding judge
  full_refused ip email global h = ground arith
