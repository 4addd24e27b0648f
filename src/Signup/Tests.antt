-- ===== src/Signup/Tests.antt =====
-- Concrete signups: src/utils/signupRateLimiter.ts and src/utils/abusePrevention.ts.
use veritasor_backend.Prelude.Text.{trim, trim_start, trim_end, lower}
use veritasor_backend.Prelude.{some, ◌≡◌, refl, true, false, [], ◌∷◌, List, arith}
use veritasor_backend.Prelude.Text.{Text, codes, text_eq, trim, trim_start, trim_end, lower}
use veritasor_backend.Signup.Email.{normalize_email, at_index, before_plus}
use veritasor_backend.Signup.{
  SignupRateLimitConfig, default_signup_rate_limit_config, new_store, check_limit,
}
use veritasor_backend.Signup.Runs.{
  Event, attempts, checks, fails, blocks_ip, unblocks_ip, run, full_address_refused,
}

abbrev ana : Text
ana = codes "ana"

abbrev domain : Text
domain = codes "Gmail.com "

normal_form : normalize_email (codes " Ana+shop@Gmail.com ") ≡ codes "ana@gmail.com"
unfolding normalize_email trim trim_start trim_end lower at_index before_plus text_eq
normal_form = refl

abbrev config : SignupRateLimitConfig
config = record default_signup_rate_limit_config { max_attempts_per_ip = 2 }

abbrev same_ip : Text → Text
same_ip t = t

abbrev calls : List Event
calls =
    attempts 10 (codes "1") (codes "a@b")
    ∷ fails 11 (codes "1") (codes "a@b") true
    ∷ checks 12 (codes "2") (codes "c@b")
    ∷ attempts 13 (codes "1") (codes "d@b")
    ∷ blocks_ip 14 (codes "1") (codes "spam") (some 100)
    ∷ unblocks_ip (codes "1")
    ∷ []

-- Two attempts from one address.
full_address_refused_example :
    (check_limit config same_ip 50
      (codes "1")
      (codes "e@b")
      (run config same_ip calls (new_store config 0))).0.allowed
    ≡ false
unfolding text_eq
full_address_refused_example =
    full_address_refused config same_ip calls (new_store config 0) 50 100 (codes "1") (codes "e@b")
      (omega arith)
      (
        (omega arith, omega arith),
        (
          (omega arith, omega arith),
          (
            (omega arith, omega arith),
            ((omega arith, omega arith), ((omega arith, omega arith), (tt, tt))),
          ),
        ),
      )
      (omega arith) (omega arith)
