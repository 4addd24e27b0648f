-- ===== src/Signup/Runs.antt =====
-- Attempts from one address in every order of calls, of src/utils/signupRateLimiter.ts.
use mathlib.Core.Path.{subst}
use veritasor_backend.Prelude.{
  ℕ, suc, ◌+◌, ◌≤◌, ◌≡◌, ◌⊎◌, inl, inr, refl, sym, ◌∙◌, ap, arith, Bool, true, false, List, [], ◌∷◌,
  Option, none, some, ltb, if◌then◌else◌, Bool-cases, Option-cases,
}
use veritasor_backend.Prelude.Text.{Text, text_eq, text_eq→≡}
use veritasor_backend.Prelude.Maps.{get, get-put_same, get-put_other}
use veritasor_backend.Signup.{
  SignupRateRecord, SignupRateLimitConfig, SignupRateLimitStore, Records, check_limit,
  record_attempt, record_failure, record_success, cleanup, drop_expired, get_or_create_record,
  change_record, fresh_record, attempted, count_failure, forget_failures, or_default, blocked_until,
  block_ip, unblocked, unblock_ip, block_email, unblock_email,
}
use veritasor_backend.Signup.Limits.{full_refused}

pub data Event : Type 0 where
  attempts checks : ℕ → Text → Text → Event
  fails : ℕ → Text → Text → Bool → Event
  succeeds : Text → Text → Event
  cleans : ℕ → Event
  blocks_ip blocks_email : ℕ → Text → Text → Option ℕ → Event
  unblocks_ip unblocks_email : Text → Event

entry_is : (x r : SignupRateRecord) → some x ≡ some r → x ≡ r
entry_is x r h = cc

not_expired : (now : ℕ) (r : SignupRateRecord) → now ≤ r.expires_at → ltb r.expires_at now ≡ false
not_expired now r h = ground arith

module _ (config : SignupRateLimitConfig) (normalize_ip : Text → Text) where
  unfoldable pub apply : Event → SignupRateLimitStore → SignupRateLimitStore
  apply (attempts now ip email) s = record_attempt config normalize_ip now ip email s
  apply (checks now ip email) s = (check_limit config normalize_ip now ip email s).1
  apply (fails now ip email block) s = record_failure config normalize_ip now ip email block s
  apply (succeeds ip email) s = record_success config normalize_ip ip email s
  apply (cleans now) s = cleanup config now s
  apply (blocks_ip now ip reason duration) s = block_ip config normalize_ip now ip reason duration s
  apply (blocks_email now email reason duration) s =
      block_email config normalize_ip now email reason duration s
  apply (unblocks_email email) s = unblock_email config normalize_ip email s
  apply (unblocks_ip ip) s = unblock_ip config normalize_ip ip s

  unfoldable pub run : List Event → SignupRateLimitStore → SignupRateLimitStore
  run [] s = s
  run (e ∷ es) s = run es (apply e s)

  -- The attempts recorded from an address, in its normal form.
  abbrev pub attempts_from : Text → List Event → ℕ
  attempts_from key [] = 0
  attempts_from key (attempts now ip email ∷ es) =
      (if text_eq (normalize_ip ip) key then 1 else 0) + attempts_from key es
  attempts_from key (checks now ip email ∷ es) = attempts_from key es
  attempts_from key (fails now ip email block ∷ es) = attempts_from key es
  attempts_from key (succeeds ip email ∷ es) = attempts_from key es
  attempts_from key (cleans now ∷ es) = attempts_from key es
  attempts_from key (blocks_ip now ip reason duration ∷ es) = attempts_from key es
  attempts_from key (blocks_email now email reason duration ∷ es) = attempts_from key es
  attempts_from key (unblocks_email email ∷ es) = attempts_from key es
  attempts_from key (unblocks_ip ip ∷ es) = attempts_from key es

  -- An event comes by the deadline, and its window, or the length of the block of an address, reaches it.
  abbrev pub IsInTime : ℕ → Event → Type 0
  IsInTime deadline (attempts now ip email) = (now ≤ deadline) × (deadline ≤ now + config.window_ms)
  IsInTime deadline (checks now ip email) = (now ≤ deadline) × (deadline ≤ now + config.window_ms)
  IsInTime deadline (fails now ip email block) =
      (now ≤ deadline) × (deadline ≤ now + config.window_ms)
  IsInTime deadline (succeeds ip email) = Unit {0}
  IsInTime deadline (cleans now) = now ≤ deadline
  IsInTime deadline (blocks_ip now ip reason duration) =
      (now ≤ deadline)
      × (deadline ≤ now + or_default config normalize_ip duration config.block_duration_ms)
  IsInTime deadline (blocks_email now email reason duration) = Unit {0}
  IsInTime deadline (unblocks_email email) = Unit {0}
  IsInTime deadline (unblocks_ip ip) = Unit {0}

  abbrev pub AllInTime : ℕ → List Event → Type 0
  AllInTime deadline [] = Unit {0}
  AllInTime deadline (e ∷ es) = IsInTime deadline e × AllInTime deadline es

  module _ (key : Text) (deadline : ℕ) where
    -- The address has a record of so many attempts at least, which lasts until the deadline.
    Counted : ℕ → Records → Type 0
    Counted n m =
        (n ≡ 0)
        ⊎ ((r : SignupRateRecord) × (get m key ≡ some r)
            × (n ≤ r.attempt_count)
            × (deadline ≤ r.expires_at))

    -- A change of a record that takes no attempts and does not end it before the deadline.
    Keeping : (SignupRateRecord → SignupRateRecord) → Type 0
    Keeping f =
        (r : SignupRateRecord)
        → (r.attempt_count ≤ (f r).attempt_count)
          × (deadline ≤ r.expires_at → deadline ≤ (f r).expires_at)

    live :
        (now : ℕ) (m : Records) (r : SignupRateRecord)
        → now ≤ deadline
        → get m key ≡ some r
        → deadline ≤ r.expires_at
        → get_or_create_record config now m key ≡ r
    unfolding get_or_create_record
    live now m r h e d = rw e (alive (ltb r.expires_at now) (ground arith))
      where
        alive : (b : Bool) → b ≡ false → (if b then fresh_record config now else r) ≡ r
        alive true h = ground arith
        alive false h = refl

    Counted-change :
        (n now : ℕ) (m : Records) (k : Text) (f : SignupRateRecord → SignupRateRecord)
        → now ≤ deadline
        → Keeping f
        → Counted n m
        → Counted n (change_record config now m k f)
    unfolding Counted change_record get_or_create_record Keeping
    Counted-change n now m k f h keeps (inl zero_n) = inl zero_n
    Counted-change n now m k f h keeps (inr (r, e, count, lasts)) =
        elim (Bool-cases (text_eq k key)) [
          | inr other ↦ inr (r, get-put_other m k key _ other ∙ e, count, lasts)
          | inl same ↦
              subst (λ k'. Counted n (change_record config now m k' f)) (sym (text_eq→≡ k key same))
                (inr (
                  f r,
                  get-put_same m key _ ∙ ap (λ x. some (f x)) (live now m r h e lasts),
                  omega (arith, (keeps r).0),
                  (keeps r).1 lasts,
                ))
        ]

    -- An attempt of the address itself.
    Counted-attempt :
        (n now : ℕ) (m : Records)
        → now ≤ deadline
        → deadline ≤ now + config.window_ms
        → Counted n m
        → Counted (suc n) (change_record config now m key (attempted config normalize_ip now))
    unfolding Counted change_record get_or_create_record
    Counted-attempt n now m h reach (inl zero_n) =
        inr (_, get-put_same m key _, omega (arith, zero_n), reach)
    Counted-attempt n now m h reach (inr (r, e, count, lasts)) = inr (
      attempted config normalize_ip now r,
      get-put_same m key _
          ∙ ap (λ x. some (attempted config normalize_ip now x)) (live now m r h e lasts),
      omega (arith, count),
      reach,
    )

    Counted-less : (n : ℕ) (m : Records) → Counted (suc n) m → Counted n m
    unfolding Counted
    Counted-less n m (inl none_left) = absurd (ground arith)
    Counted-less n m (inr (r, e, count, lasts)) = inr (r, e, omega (arith, count), lasts)

    Counted-forget_failures :
        (n : ℕ) (m : Records) (k : Text)
        → Counted n m
        → Counted n (forget_failures config normalize_ip m k (get m k))
    unfolding Counted
    Counted-forget_failures n m k (inl zero_n) = inl zero_n
    Counted-forget_failures n m k (inr (r, e, count, lasts)) = elim (Bool-cases (text_eq k key)) [
      | inr other ↦ elim (Option-cases (get m k)) [
        | inl missing ↦ rw missing (inr (r, e, count, lasts))
        | inr (x, found) ↦ rw found (inr (r, get-put_other m k key _ other ∙ e, count, lasts))
      ]
      | inl same ↦
          subst (λ k'. Counted n (forget_failures config normalize_ip m k' (get m k')))
            (sym (text_eq→≡ k key same))
            (rw e (inr (record r { failed_attempts = 0 }, get-put_same m key _, count, lasts)))
    ]

    Counted-unblocked :
        (n : ℕ) (m : Records) (k : Text)
        → Counted n m
        → Counted n (unblocked config normalize_ip m k (get m k))
    unfolding Counted
    Counted-unblocked n m k (inl zero_n) = inl zero_n
    Counted-unblocked n m k (inr (r, e, count, lasts)) = elim (Bool-cases (text_eq k key)) [
      | inr other ↦ elim (Option-cases (get m k)) [
        | inl missing ↦ rw missing (inr (r, e, count, lasts))
        | inr (x, found) ↦ rw found (inr (r, get-put_other m k key _ other ∙ e, count, lasts))
      ]
      | inl same ↦
          subst (λ k'. Counted n (unblocked config normalize_ip m k' (get m k')))
            (sym (text_eq→≡ k key same))
            (rw e (
              inr (
                record r { is_blocked = false; block_reason = none },
                get-put_same m key _,
                count,
                lasts,
              )))
    ]

    kept_entry :
        (now : ℕ) (m : Records) (r : SignupRateRecord)
        → now ≤ deadline
        → get m key ≡ some r
        → deadline ≤ r.expires_at
        → get (drop_expired config now m) key ≡ some r
    unfolding get drop_expired
    kept_entry now [] r h e lasts = cc
    kept_entry now ((k, x) ∷ m) r h e lasts = elim (Bool-cases (text_eq k key)) [
      | inl same ↦
          let x_is_r : x ≡ r = entry_is x r (rw (get, same) at e) in
          rw (not_expired now x (subst (λ y. now ≤ y.expires_at) (sym x_is_r) (omega arith)), same)
            (ap some x_is_r)
      | inr other ↦ elim (Bool-cases (ltb x.expires_at now)) [
        | inl old ↦ rw old (kept_entry now m r h (rw (get, other) at e) lasts)
        | inr young ↦ rw (young, other) (kept_entry now m r h (rw (get, other) at e) lasts)
      ]
    ]

    Counted-drop :
        (n now : ℕ) (m : Records)
        → now ≤ deadline
        → Counted n m
        → Counted n (drop_expired config now m)
    unfolding Counted
    Counted-drop n now m h (inl zero_n) = inl zero_n
    Counted-drop n now m h (inr (r, e, count, lasts)) =
        inr (r, kept_entry now m r h e lasts, count, lasts)

    count_failure-Keeping :
        (now : ℕ) (block : Bool) (limit : ℕ)
        → deadline ≤ now + config.block_duration_ms
        → Keeping (count_failure config normalize_ip now block limit)
    unfolding Keeping
    count_failure-Keeping now block limit h r = ground arith

    same-Keeping : Keeping (λ r. r)
    unfolding Keeping
    same-Keeping r = (omega arith, λ d. d)

    attempted-Keeping :
        (now : ℕ) → deadline ≤ now + config.window_ms → Keeping (attempted config normalize_ip now)
    unfolding Keeping
    attempted-Keeping now h r = (omega arith, λ d. h)

    blocked_until-Keeping :
        (end : ℕ) (reason : Text)
        → deadline ≤ end
        → Keeping (blocked_until config normalize_ip end reason)
    unfolding Keeping
    blocked_until-Keeping end reason h r = (omega arith, λ d. h)

    -- What an event adds to the count.
    abbrev own : Event → ℕ
    own e = attempts_from key (e ∷ [])

    recount : (k n : ℕ) (m : Records) → n ≡ k → Counted n m → Counted k m
    recount k n m e c = subst (λ i. Counted i m) e c

    Counted-apply :
        (e : Event) (n k : ℕ) (s : SignupRateLimitStore)
        → config.window_ms ≤ config.block_duration_ms
        → IsInTime deadline e
        → own e + n ≡ k
        → Counted n s.ip_store
        → Counted k (apply e s).ip_store
    unfolding apply record_attempt check_limit record_failure record_success cleanup block_ip
        block_email unblock_ip unblock_email
    Counted-apply (attempts now ip email) n k s long t sum c =
        elim (Bool-cases (text_eq (normalize_ip ip) key)) [
          | inl same ↦
              let total : suc n ≡ k = omega (arith, rw same at sum) in
              subst
                (λ k'.
                  Counted k
                    (change_record config now s.ip_store k' (attempted config normalize_ip now)))
                (sym (text_eq→≡ (normalize_ip ip) key same))
                (recount k (suc n) _ total (Counted-attempt n now s.ip_store t.0 t.1 c))
          | inr other ↦
              let total : n ≡ k = omega (arith, rw other at sum) in
              recount k n _ total (
                Counted-change n now s.ip_store (normalize_ip ip)
                  (attempted config normalize_ip now) t.0 (attempted-Keeping now t.1) c)
        ]
    Counted-apply (checks now ip email) n k s long t sum c =
        recount k n _ (omega arith)
          (Counted-change n now s.ip_store (normalize_ip ip) (λ r. r) t.0 same-Keeping c)
    Counted-apply (fails now ip email block) n k s long t sum c = recount k n _ (omega arith) (
        Counted-change n now s.ip_store (normalize_ip ip)
          (count_failure config normalize_ip now block config.max_attempts_per_ip) t.0
          (count_failure-Keeping now block config.max_attempts_per_ip (omega arith)) c)
    Counted-apply (succeeds ip email) n k s long t sum c =
        recount k n _ (omega arith) (Counted-forget_failures n s.ip_store (normalize_ip ip) c)
    Counted-apply (cleans now) n k s long t sum c =
        recount k n _ (omega arith) (Counted-drop n now s.ip_store t c)
    Counted-apply (blocks_ip now ip reason duration) n k s long t sum c =
        recount k n _ (omega arith) (
          Counted-change n now s.ip_store (normalize_ip ip)
            (blocked_until config normalize_ip
              (now + or_default config normalize_ip duration config.block_duration_ms) reason)
            t.0 (blocked_until-Keeping _ reason t.1) c)
    Counted-apply (blocks_email now email reason duration) n k s long t sum c =
        recount k n _ (omega arith) c
    Counted-apply (unblocks_email email) n k s long t sum c = recount k n _ (omega arith) c
    Counted-apply (unblocks_ip ip) n k s long t sum c =
        recount k n _ (omega arith) (Counted-unblocked n s.ip_store (normalize_ip ip) c)

    more : (e : Event) (es : List Event) → attempts_from key (e ∷ es) ≡ own e + attempts_from key es
    more (attempts now ip email) es = omega arith
    more (checks now ip email) es = omega arith
    more (fails now ip email block) es = omega arith
    more (succeeds ip email) es = omega arith
    more (cleans now) es = omega arith
    more (blocks_ip now ip reason duration) es = omega arith
    more (blocks_email now email reason duration) es = omega arith
    more (unblocks_email email) es = omega arith
    more (unblocks_ip ip) es = omega arith

    Counted-run :
        (es : List Event) (n k : ℕ) (s : SignupRateLimitStore)
        → config.window_ms ≤ config.block_duration_ms
        → AllInTime deadline es
        → attempts_from key es + n ≡ k
        → Counted n s.ip_store
        → Counted k (run es s).ip_store
    unfolding run
    Counted-run [] n k s long t sum c = recount k n _ (omega arith) c
    Counted-run (e ∷ es) n k s long t sum c =
        Counted-run es (own e + n) k (apply e s) long t.1 (omega (arith, sum, more e es))
          (Counted-apply e n (own e + n) s long t.0 refl c)

    Counted-full :
        (now k : ℕ) (m : Records)
        → now ≤ deadline
        → config.max_attempts_per_ip ≤ k
        → Counted k m
        → config.max_attempts_per_ip ≤ (get_or_create_record config now m key).attempt_count
    unfolding Counted
    Counted-full now k m h limit (inl zero_k) = omega arith
    Counted-full now k m h limit (inr (r, e, count, lasts)) =
        rw (live now m r h e lasts) (omega arith)

  none-Counted : (key : Text) (deadline : ℕ) (m : Records) → Counted key deadline 0 m
  unfolding Counted
  none-Counted key deadline m = inl refl

  -- An address from which the most attempts have been recorded, in whatever order with the other calls
  -- of the store, blocks and their ends included, is refused until the deadline, if the window of each
  -- attempt, check and failure and the length of each block of an address reach it, and the block by
  -- default is no shorter than a window.
  pub full_address_refused :
      (es : List Event) (s : SignupRateLimitStore) (now deadline : ℕ) (ip email : Text)
      → config.window_ms ≤ config.block_duration_ms
      → AllInTime deadline es
      → config.max_attempts_per_ip ≤ attempts_from (normalize_ip ip) es
      → now ≤ deadline
      → (check_limit config normalize_ip now ip email (run es s)).0.allowed ≡ false
  unfolding check_limit
  full_address_refused es s now deadline ip email long t many h =
      full_refused config normalize_ip _ _ _ (
        Counted-full (normalize_ip ip) deadline now (attempts_from (normalize_ip ip) es) _ h many (
          Counted-run (normalize_ip ip) deadline es 0 _ s long t (omega arith)
            (none-Counted (normalize_ip ip) deadline s.ip_store)))
