-- ===== src/Webhooks/Rotation.antt =====
-- src/services/webhooks/secretRotation.ts: the version of the secret that each subscription has
-- adopted, against the latest one. Versions are natural numbers; the gauge is the list of its calls.
pub mod Readers
use veritasor_backend.Prelude.{
  ℕ, max, Bool, true, false, not, ◌&&◌, ◌||◌, Option, none, some, List, [], ◌∷◌, ltb, leb, ◌==◌,
  if◌then◌else◌,
}
use veritasor_backend.Prelude.Text.{Text, text_eq}
use veritasor_backend.Prelude.Maps.{put, get, remove}

pub record SubscriptionVersionReport : Type 0 where
  pub subscription_id : Text
  pub business_id : Text
  pub current_version : ℕ

pub record Tracker : Type 0 where
  pub latest_secret_version : ℕ
  pub subscription_versions : List (Text × SubscriptionVersionReport)

abbrev pub fresh : Tracker
fresh = record { latest_secret_version = 0; subscription_versions = [] }

unfoldable pub set_latest_secret_version : ℕ → Tracker → Tracker
set_latest_secret_version version s =
    if ltb s.latest_secret_version version then record s { latest_secret_version = version } else s

unfoldable pub report_subscription_version : Text → Text → ℕ → Tracker → Tracker
report_subscription_version subscription business version s = record s {
  subscription_versions = put s.subscription_versions subscription (record {
    subscription_id = subscription;
    business_id = business;
    current_version = version;
  });
}

unfoldable pub remove_subscription : Text → Tracker → Tracker
remove_subscription subscription s = record s {
  subscription_versions = remove s.subscription_versions subscription;
}

-- The test that the three readers share.
unfoldable pub adopted : ℕ → ℕ → Bool
adopted latest version = (latest == 0) || leb latest version

abbrev pub adoption : ℕ → Option SubscriptionVersionReport → Option Bool
adoption latest none = none
adoption latest (some found) = some (adopted latest found.current_version)

unfoldable pub is_subscription_current : Text → Tracker → Option Bool
is_subscription_current subscription s =
    adoption s.latest_secret_version (get s.subscription_versions subscription)

pub record Adoption : Type 0 where
  pub subscription_id : Text
  pub business_id : Text
  pub current_version : ℕ
  pub is_current : Bool

unfoldable pub adoptions : ℕ → List (Text × SubscriptionVersionReport) → List Adoption
adoptions latest [] = []
adoptions latest ((k, r) ∷ m) =
    record {
      subscription_id = r.subscription_id;
      business_id = r.business_id;
      current_version = r.current_version;
      is_current = adopted latest r.current_version;
    }
    ∷ adoptions latest m

unfoldable pub get_adoption_snapshot : Tracker → List Adoption
get_adoption_snapshot s = adoptions s.latest_secret_version s.subscription_versions

pub data GaugeStatus : Type 0 where
  current lagging : GaugeStatus

pub data GaugeCall : Type 0 where
  gauge_reset : GaugeCall
  gauge_set : Text → Text → GaugeStatus → ℕ → GaugeCall

abbrev pub bit : Bool → ℕ
bit true = 1
bit false = 0

unfoldable pub gauge_sets : ℕ → List (Text × SubscriptionVersionReport) → List GaugeCall
gauge_sets latest [] = []
gauge_sets latest ((k, r) ∷ m) =
    gauge_set r.subscription_id r.business_id current (bit (adopted latest r.current_version))
    ∷ gauge_set r.subscription_id r.business_id lagging
        (bit (not (adopted latest r.current_version)))
    ∷ gauge_sets latest m

unfoldable pub emit_rotation_status : Tracker → List GaugeCall
emit_rotation_status s = gauge_reset ∷ gauge_sets s.latest_secret_version s.subscription_versions

-- `run calls` is the state after the calls, which come newest first.
pub data Call : Type 0 where
  publish : ℕ → Call
  reported : Text → Text → ℕ → Call
  drop : Text → Call
  all_reset : Call

unfoldable pub run : List Call → Tracker
run [] = fresh
run (publish version ∷ h) = set_latest_secret_version version (run h)
run (reported subscription business version ∷ h) =
    report_subscription_version subscription business version (run h)
run (drop subscription ∷ h) = remove_subscription subscription (run h)
run (all_reset ∷ h) = fresh

-- The highest version published since the last reset.
unfoldable pub published : List Call → ℕ
published [] = 0
published (publish version ∷ h) = max version (published h)
published (reported subscription business version ∷ h) = published h
published (drop subscription ∷ h) = published h
published (all_reset ∷ h) = 0

-- The version that a subscription has reported last, since it was removed or all was reset.
unfoldable pub last_report : Text → List Call → Option ℕ
last_report k [] = none
last_report k (publish version ∷ h) = last_report k h
last_report k (reported subscription business version ∷ h) =
    let earlier = last_report k h in if text_eq subscription k then some version else earlier
last_report k (drop subscription ∷ h) =
    let earlier = last_report k h in if text_eq subscription k then none else earlier
last_report k (all_reset ∷ h) = none

abbrev pub at_least : ℕ → Option ℕ → Option Bool
at_least latest none = none
at_least latest (some version) = some (leb latest version)

-- The flag of the first entry of a subscription in a snapshot.
unfoldable pub flag_of : Text → List Adoption → Option Bool
flag_of k [] = none
flag_of k (a ∷ others) =
    let rest = flag_of k others in if text_eq a.subscription_id k then some a.is_current else rest

-- The value that the calls of the gauge give a subscription under a status.
unfoldable pub shown : (GaugeStatus → Bool) → Text → List GaugeCall → Option ℕ
shown test k [] = none
shown test k (gauge_reset ∷ calls) = shown test k calls
shown test k (gauge_set subscription business status v ∷ calls) =
    let rest = shown test k calls in if text_eq subscription k && test status then some v else rest

abbrev pub is_lagging : GaugeStatus → Bool
is_lagging current = false
is_lagging lagging = true

abbrev pub bit_of : (Bool → Bool) → Option Bool → Option ℕ
bit_of f none = none
bit_of f (some b) = some (bit (f b))
