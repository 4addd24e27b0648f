-- ===== src/Hedging/Tests.antt =====
-- Concrete runs of `hedgedRequest` of src/utils/hedged-request.ts.
use veritasor_backend.Prelude.{ℕ, ◌≡◌, refl, true}
use veritasor_backend.Hedging.{
  HedgedRequest, hedge_ok, primary_fails, timer_fires, start, is_settled, on_settle, react,
  can_happen, Reaches, here, next,
}
use veritasor_backend.Hedging.Runs.{start-settles}

abbrev s0 : HedgedRequest ℕ ℕ
unfolding start
s0 = start 0

abbrev hedged : HedgedRequest ℕ ℕ
unfolding start react on_settle
hedged = react 5 timer_fires (start 0)

abbrev won : HedgedRequest ℕ ℕ
unfolding start react on_settle
won = react 5 (hedge_ok 7) (react 5 timer_fires (start 0))

abbrev late : HedgedRequest ℕ ℕ
unfolding start react on_settle
late = react 5 (primary_fails 1) (react 5 (hedge_ok 7) (react 5 timer_fires (start 0)))

late_run : Reaches 5 (start 0) late
unfolding can_happen start react on_settle
late_run = next timer_fires refl (next (hedge_ok 7) refl (next (primary_fails 1) refl here))

won-late : Reaches 5 won late
unfolding can_happen start react on_settle
won-late = next (primary_fails 1) refl here

start-settles_example : is_settled late.promise ≡ true
unfolding start react on_settle
start-settles_example = start-settles 5 0 late late_run refl refl refl
