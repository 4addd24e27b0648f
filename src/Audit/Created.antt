-- ===== src/Audit/Created.antt =====
-- Chains that `createAuditLog` of src/repositories/auditLogRepository.ts builds.
use veritasor_backend.Prelude.{
  ℕ, suc, ◌+◌, ◌≡◌, refl, ap, true, List, [], ◌∷◌, ◌++◌, Option, none, some, leb, ◌==◌, length,
  take, take-append-drop, drop, arith,
}
use veritasor_backend.Prelude.Text.{Text, text_eq_refl}
use veritasor_backend.Audit.{
  AuditLog, AuditLogInput, Platform, ChainVerificationResult, create_audit_log, compute_chain_hash,
  canonicalise_entry, check_from, intact, verify_chain, sort_by_seq, insert_by_seq, last_chain_hash,
  prev_or_genesis, genesis_sentinel, timing_safe_equal, hex_bytes, get_current_chain_root,
}

timing_safe_equal_refl : (bs : List ℕ) → timing_safe_equal bs bs ≡ some true
unfolding timing_safe_equal
timing_safe_equal_refl bs =
    let same : (length bs == length bs) ≡ true = ground arith in rw (same, text_eq_refl bs) refl

-- The arguments of a call of `createAuditLog`, with the id and the time it draws.
pub record Creation : Type 0 where
  pub id : Text
  pub now : ℕ
  pub log : AuditLogInput
  pub content : Option Text

-- Entries that carry the hash over the one before.
abbrev pub Linked : Platform → Text → List AuditLog → Type 0
Linked p prev [] = Unit {0}
Linked p prev (e ∷ es) = (compute_chain_hash p e prev ≡ e.chain_hash) × Linked p e.chain_hash es

-- Numbered from `n` on.
abbrev pub Numbered : ℕ → List AuditLog → Type 0
Numbered n [] = Unit {0}
Numbered n (e ∷ es) = (e.seq ≡ n) × Numbered (suc n) es

Linked-check :
    (p : Platform) (i : ℕ) (prev : Text) (es : List AuditLog)
    → Linked p prev es
    → check_from p i prev es ≡ intact
unfolding check_from
Linked-check p i prev [] h = refl
Linked-check p i prev (e ∷ es) h =
    rw (check_from, h.0, timing_safe_equal_refl (hex_bytes e.chain_hash))
      (Linked-check p (suc i) e.chain_hash es h.1)

Numbered-sort : (n : ℕ) (es : List AuditLog) → Numbered n es → sort_by_seq es ≡ es
unfolding sort_by_seq insert_by_seq
Numbered-sort n [] h = refl
Numbered-sort n (e ∷ []) h = refl
Numbered-sort n (e ∷ f ∷ es) h =
    let first : leb e.seq f.seq ≡ true = ground (arith, h.0, h.1.0) in
    rw (Numbered-sort (suc n) (f ∷ es) h.1, first) refl

-- The hash that the next entry links to.
abbrev last_or : Text → List AuditLog → Text
last_or prev [] = prev
last_or prev (e ∷ es) = last_or e.chain_hash es

last_or_lem :
    (e : AuditLog) (es : List AuditLog) (prev : Text)
    → last_chain_hash (e ∷ es) ≡ some (last_or prev (e ∷ es))
last_or_lem e [] prev = refl
last_or_lem e (f ∷ es) prev = last_or_lem f es e.chain_hash

last_or_genesis :
    (es : List AuditLog) → prev_or_genesis (last_chain_hash es) ≡ last_or genesis_sentinel es
last_or_genesis [] = refl
last_or_genesis (e ∷ es) = ap prev_or_genesis (last_or_lem e es genesis_sentinel)

Linked-snoc :
    (p : Platform) (prev : Text) (es : List AuditLog) (e : AuditLog)
    → Linked p prev es
    → compute_chain_hash p e (last_or prev es) ≡ e.chain_hash
    → Linked p prev (es ++ e ∷ [])
Linked-snoc p prev [] e h link = (link, tt)
Linked-snoc p prev (f ∷ es) e h link = (h.0, Linked-snoc p f.chain_hash es e h.1 link)

Numbered-snoc :
    (n : ℕ) (es : List AuditLog) (e : AuditLog)
    → Numbered n es
    → e.seq ≡ n + length es
    → Numbered n (es ++ e ∷ [])
Numbered-snoc n [] e h s = (omega arith, tt)
Numbered-snoc n (f ∷ es) e h s = (h.0, Numbered-snoc (suc n) es e h.1 (omega arith))

Linked-append_left :
    (p : Platform) (prev : Text) (es fs : List AuditLog)
    → Linked p prev (es ++ fs)
    → Linked p prev es
Linked-append_left p prev [] fs h = tt
Linked-append_left p prev (e ∷ es) fs h = (h.0, Linked-append_left p e.chain_hash es fs h.1)

Numbered-append_left : (n : ℕ) (es fs : List AuditLog) → Numbered n (es ++ fs) → Numbered n es
Numbered-append_left n [] fs h = tt
Numbered-append_left n (e ∷ es) fs h = (h.0, Numbered-append_left (suc n) es fs h.1)

-- The log after the calls, in order.
abbrev pub created : Platform → List Creation → List AuditLog → List AuditLog
created p [] logs = logs
created p (c ∷ cs) logs = created p cs (create_audit_log p c.id c.now c.log c.content logs)

created-Linked :
    (p : Platform) (cs : List Creation) (logs : List AuditLog)
    → Linked p genesis_sentinel logs × Numbered 0 logs
    → Linked p genesis_sentinel (created p cs logs) × Numbered 0 (created p cs logs)
unfolding create_audit_log compute_chain_hash canonicalise_entry
created-Linked p [] logs h = h
created-Linked p (c ∷ cs) logs h = created-Linked p cs _ (
  Linked-snoc p genesis_sentinel logs _ h.0 (rw (last_or_genesis logs) refl),
  Numbered-snoc 0 logs _ h.1 (omega arith),
)

abbrev pub intact_result : List AuditLog → ChainVerificationResult
intact_result logs = record {
  valid = true;
  checked_count = length logs;
  broken_at_index = none;
  broken_at_id = none;
  chain_root = get_current_chain_root logs;
}

Linked-verify :
    (p : Platform) (es : List AuditLog)
    → Linked p genesis_sentinel es
    → Numbered 0 es
    → verify_chain p es ≡ some (intact_result es)
unfolding verify_chain
Linked-verify p es linked numbered =
    rw (Numbered-sort 0 es numbered, Linked-check p 0 genesis_sentinel es linked) refl

-- A log that calls of createAuditLog have built verifies, with every entry checked and the current
-- root reported.
pub verify_chain-created :
    (p : Platform) (cs : List Creation)
    → verify_chain p (created p cs []) ≡ some (intact_result (created p cs []))
verify_chain-created p cs =
    let h = created-Linked p cs [] (tt, tt) in Linked-verify p (created p cs []) h.0 h.1

-- If such a log loses entries at its end, what is left verifies as well: only the root tells.
pub verify_chain-take :
    (p : Platform) (cs : List Creation) (n : ℕ)
    → verify_chain p (take n (created p cs [])) ≡ some (intact_result (take n (created p cs [])))
verify_chain-take p cs n =
    let logs = created p cs [] in
    let h = created-Linked p cs [] (tt, tt) in
    Linked-verify p (take n logs)
      (Linked-append_left p genesis_sentinel (take n logs) (drop n logs)
        (rw (take-append-drop n logs) h.0))
      (Numbered-append_left 0 (take n logs) (drop n logs) (rw (take-append-drop n logs) h.1))
