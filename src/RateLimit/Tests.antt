-- ===== src/RateLimit/Tests.antt =====
-- The theorems about src/middleware/rateLimiter.ts at concrete inputs.
use veritasor_backend.Prelude.{◌≡◌, inl, inr, refl, List, [], ◌∷◌, ltb, arith}
use veritasor_backend.Prelude.Text.{Text, codes, text_eq}
use veritasor_backend.RateLimit.{sliding_increment, is_let_through, default_window_ms}
use veritasor_backend.RateLimit.Sliding.{
  LimiterEvent, hit, cleaned, run, recent, times_of, is_let_through_iff,
}

abbrev login : Text
login = codes "rate-limit:auth:login:user:1"

abbrev other : Text
other = codes "rate-limit:auth:login:user:2"

abbrev events : List LimiterEvent
events =
    hit 0 login 1000
    ∷ hit 500 login 1000
    ∷ hit 600 other 2000
    ∷ cleaned 700 default_window_ms
    ∷ hit 900 login 1000
    ∷ []

is_let_through_iff_example :
    is_let_through 3 (sliding_increment 1100 login 1000 (run events [])).0
    ≡ ltb (recent 1100 1000 (times_of login events)) 3
unfolding text_eq
is_let_through_iff_example = is_let_through_iff events 1100 login 1000 3 (
  omega arith,
  inr refl,
  (
    omega arith,
    inr refl,
    (omega arith, inl refl, (omega arith, omega arith, (omega arith, inr refl, tt))),
  ),
)
