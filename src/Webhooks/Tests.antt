-- ===== src/Webhooks/Tests.antt =====
-- Tests of the webhooks.
use veritasor_backend.Prelude.{◌≡◌, false, some, List, [], ◌∷◌}
use veritasor_backend.Prelude.Text.{Text, text_eq}
use veritasor_backend.Webhooks.Rotation.{
  Call, publish, reported, run, published, last_report, is_subscription_current,
  get_adoption_snapshot, flag_of, emit_rotation_status, shown, is_lagging,
}
use veritasor_backend.Webhooks.Rotation.Readers.{adoption-run}

abbrev sub : Text
sub = 115 ∷ 49 ∷ []

abbrev biz : Text
biz = 98 ∷ []

abbrev calls : List Call
calls = publish 3 ∷ reported sub biz 2 ∷ publish 2 ∷ reported sub biz 1 ∷ []

adoption-run_example :
    (is_subscription_current sub (run calls) ≡ some false)
    × (flag_of sub (get_adoption_snapshot (run calls)) ≡ some false)
    × (shown is_lagging sub (emit_rotation_status (run calls)) ≡ some 1)
unfolding published last_report text_eq
adoption-run_example = adoption-run sub calls
