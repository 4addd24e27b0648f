-- ===== src/Webhooks/Rotation/Readers.antt =====
-- What the readers of src/services/webhooks/secretRotation.ts tell after any calls.
use veritasor_backend.Prelude.{
  ℕ, ◌≡◌, refl, sym, not, Option, none, some, List, [], ◌∷◌, inl, inr, arith, ltb, leb, Bool-cases,
  Option-cases,
}
use veritasor_backend.Prelude.Text.{Text, text_eq, text_eq→≡}
use veritasor_backend.Prelude.Maps.{
  get, put, remove, get-put_same, get-put_other, get-remove_same, get-remove_other,
}
use veritasor_backend.Webhooks.Rotation.{
  Tracker, SubscriptionVersionReport, set_latest_secret_version, report_subscription_version,
  remove_subscription, adopted, is_subscription_current, adoptions, get_adoption_snapshot,
  gauge_sets, emit_rotation_status, Call, publish, reported, drop, all_reset, run, published,
  last_report, at_least, flag_of, shown, is_lagging, bit_of,
}

abbrev version_of : Option SubscriptionVersionReport → Option ℕ
version_of none = none
version_of (some r) = some r.current_version

run-latest : (h : List Call) → (run h).latest_secret_version ≡ published h
unfolding run published set_latest_secret_version report_subscription_version remove_subscription
run-latest [] = refl
run-latest (publish version ∷ h) = ground (arith, run-latest h)
run-latest (reported subscription business version ∷ h) = run-latest h
run-latest (drop subscription ∷ h) = run-latest h
run-latest (all_reset ∷ h) = refl

run-version :
    (k : Text) (h : List Call) → version_of (get (run h).subscription_versions k) ≡ last_report k h
unfolding run last_report set_latest_secret_version report_subscription_version remove_subscription
    get
run-version k [] = refl
run-version k (publish version ∷ h) =
    elim (Bool-cases (ltb (run h).latest_secret_version version)) [
      | inl e ↦ rw (e, run-version k h) refl
      | inr e ↦ rw (e, run-version k h) refl
    ]
run-version k (reported subscription business version ∷ h) =
    elim (Bool-cases (text_eq subscription k)) [
      | inl e ↦
          rw (e, text_eq→≡ subscription k e, get-put_same (run h).subscription_versions k) refl
      | inr e ↦
          rw (e, get-put_other (run h).subscription_versions subscription k _ e, run-version k h)
            refl
    ]
run-version k (drop subscription ∷ h) = elim (Bool-cases (text_eq subscription k)) [
  | inl e ↦ rw (e, text_eq→≡ subscription k e, get-remove_same (run h).subscription_versions k) refl
  | inr e ↦
      rw (e, get-remove_other (run h).subscription_versions subscription k e, run-version k h) refl
]
run-version k (all_reset ∷ h) = refl

-- Every report is stored under its own subscription.
unfoldable Keyed : List (Text × SubscriptionVersionReport) → Type 0
Keyed [] = Unit {0}
Keyed ((k, r) ∷ m) = (r.subscription_id ≡ k) × Keyed m

put-Keyed :
    (m : List (Text × SubscriptionVersionReport)) (k b : Text) (v : ℕ)
    → Keyed m
    → Keyed (put m k (record { subscription_id = k; business_id = b; current_version = v }))
unfolding Keyed put
put-Keyed [] k b v h = (refl, tt)
put-Keyed ((x, r) ∷ m) k b v (e, h) = elim (Bool-cases (text_eq x k)) [
  | inl same ↦ rw same (sym (text_eq→≡ x k same), h)
  | inr other ↦ rw other (e, put-Keyed m k b v h)
]

remove-Keyed :
    (m : List (Text × SubscriptionVersionReport)) (k : Text) → Keyed m → Keyed (remove m k)
unfolding Keyed remove
remove-Keyed [] k h = tt
remove-Keyed ((x, r) ∷ m) k (e, h) = elim (Bool-cases (text_eq x k)) [
  | inl same ↦ rw same (remove-Keyed m k h)
  | inr other ↦ rw other (e, remove-Keyed m k h)
]

run-Keyed : (h : List Call) → Keyed (run h).subscription_versions
unfolding run set_latest_secret_version report_subscription_version remove_subscription Keyed
run-Keyed [] = tt
run-Keyed (publish version ∷ h) = elim (Bool-cases (ltb (run h).latest_secret_version version)) [
  | inl e ↦ rw e (run-Keyed h)
  | inr e ↦ rw e (run-Keyed h)
]
run-Keyed (reported subscription business version ∷ h) =
    put-Keyed (run h).subscription_versions subscription business version (run-Keyed h)
run-Keyed (drop subscription ∷ h) =
    remove-Keyed (run h).subscription_versions subscription (run-Keyed h)
run-Keyed (all_reset ∷ h) = tt

adopted_lem : (latest version : ℕ) → adopted latest version ≡ leb latest version
unfolding adopted
adopted_lem latest version = ground arith

is_subscription_current_lem :
    (k : Text) (s : Tracker)
    → is_subscription_current k s
      ≡ at_least s.latest_secret_version (version_of (get s.subscription_versions k))
unfolding is_subscription_current
is_subscription_current_lem k s = elim (Option-cases (get s.subscription_versions k)) [
  | inl e ↦ rw e refl
  | inr (r, e) ↦ rw (e, adopted_lem s.latest_secret_version r.current_version) refl
]

flag_of-adoptions :
    (k : Text) (latest : ℕ) (m : List (Text × SubscriptionVersionReport))
    → Keyed m
    → flag_of k (adoptions latest m) ≡ at_least latest (version_of (get m k))
unfolding Keyed get adoptions flag_of
flag_of-adoptions k latest [] h = refl
flag_of-adoptions k latest ((x, r) ∷ m) (e, h) = elim (Bool-cases (text_eq x k)) [
  | inl same ↦ rw (e, same, adopted_lem latest r.current_version) refl
  | inr other ↦ rw (e, other, flag_of-adoptions k latest m h) refl
]

shown-gauge_sets :
    (k : Text) (latest : ℕ) (m : List (Text × SubscriptionVersionReport))
    → Keyed m
    → shown is_lagging k (gauge_sets latest m) ≡ bit_of not (at_least latest (version_of (get m k)))
unfolding Keyed get gauge_sets shown
shown-gauge_sets k latest [] h = refl
shown-gauge_sets k latest ((x, r) ∷ m) (e, h) = elim (Bool-cases (text_eq x k)) [
  | inl same ↦ rw (e, same, adopted_lem latest r.current_version) refl
  | inr other ↦ rw (e, other, shown-gauge_sets k latest m h) refl
]

-- The test, the snapshot and the gauge's `lagging` values tell of a subscription, after any calls,
-- whether the version that it has reported last, since it was removed or all was reset, is at least
-- the highest version published since the reset; of one that has not reported they tell nothing.
pub adoption-run :
    (k : Text) (h : List Call)
    → (is_subscription_current k (run h) ≡ at_least (published h) (last_report k h))
      × (flag_of k (get_adoption_snapshot (run h)) ≡ at_least (published h) (last_report k h))
      × (shown is_lagging k (emit_rotation_status (run h))
          ≡ bit_of not (at_least (published h) (last_report k h)))
unfolding get_adoption_snapshot emit_rotation_status shown
adoption-run k h =
    rw (sym (run-latest h), sym (run-version k h))
      (
        is_subscription_current_lem k (run h),
        flag_of-adoptions k (run h).latest_secret_version (run h).subscription_versions
            (run-Keyed h),
        shown-gauge_sets k (run h).latest_secret_version (run h).subscription_versions
            (run-Keyed h),
      )
