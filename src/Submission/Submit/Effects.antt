-- ===== src/Submission/Submit/Effects.antt =====
-- How the stages of `submitAttestation` in src/services/soroban/submitAttestation.ts compose.
use veritasor_backend.Prelude.{
  ℕ, ◌+◌, ◌≤◌, ◌≡◌, ◌⊎◌, inl, inr, refl, sym, ◌∙◌, ap, arith, Bool, true, false, Option, none, some,
}
use veritasor_backend.Submission.{Outcome, ok, throws, Thrown, Code}
use veritasor_backend.Submission.Submit.{M, after, ◌>>=◌, ◌>>◌, require, required, lift}

module _ {W A : Type 0} where
  pub throws_not_ok :
      (e : Thrown) (w w' : W) (b : A) → ◌≡◌ {A = Outcome A × W} (throws e, w) (ok b, w') → ⊥
  throws_not_ok e w w' b h = absurd (apart (ap (λ r. r.0) h))
    where
      apart : throws e ≡ ok b → ⊥
      apart h = cc

  pub lift_ok : (o : Outcome A) (w w' : W) (a : A) → lift o w ≡ (ok a, w') → (o ≡ ok a) × (w ≡ w')
  lift_ok o w w' a h = (ap (λ r. r.0) h, ap (λ r. r.1) h)

module _ {W A B : Type 0} where
  after_cases :
      (r : Outcome A × W) (f : A → M W B)
      → ((a : A) × (w : W) × (r ≡ (ok a, w)) × (after r f ≡ f a w))
        ⊎ ((e : Thrown) × (w : W) × (r ≡ (throws e, w)) × (after r f ≡ (throws e, w)))
  after_cases (ok a, w) f = inl (a, w, refl, refl)
  after_cases (throws e, w) f = inr (e, w, refl, refl)

  -- A stage goes on to the next one, or its error ends both.
  pub bind_cases :
      (m : M W A) (f : A → M W B) (w : W)
      → ((a : A) × (w1 : W) × (m w ≡ (ok a, w1)) × ((m >>= f) w ≡ f a w1))
        ⊎ ((e : Thrown) × (w1 : W) × (m w ≡ (throws e, w1)) × ((m >>= f) w ≡ (throws e, w1)))
  unfolding ◌>>=◌
  bind_cases m f w = after_cases (m w) f

  -- What a result of two stages comes from.
  pub bind_ok :
      (m : M W A) (f : A → M W B) (w w' : W) (b : B)
      → (m >>= f) w ≡ (ok b, w')
      → (a : A) × (w1 : W) × (m w ≡ (ok a, w1)) × (f a w1 ≡ (ok b, w'))
  bind_ok m f w w' b h = elim (bind_cases m f w) [
    | inl (a, w1, first, e) ↦ (a, w1, first, sym e ∙ h)
    | inr (x, w1, first, e) ↦ absurd (throws_not_ok x w1 w' b (sym e ∙ h))
  ]

-- To go on with what a result of two stages comes from.
module _ {W B P : Type 0} where
  pub from_bind :
      {A : Type 0} (m : M W A) (f : A → M W B) (w w' : W) (b : B)
      → (m >>= f) w ≡ (ok b, w')
      → ((a : A) (w1 : W) → m w ≡ (ok a, w1) → f a w1 ≡ (ok b, w') → P)
      → P
  from_bind m f w w' b h go = let (a, w1, first, next) = bind_ok m f w w' b h in go a w1 first next

  pub from_then :
      (m : M W (Unit {0})) (next : M W B) (w w' : W) (b : B)
      → (m >> next) w ≡ (ok b, w')
      → ((u : Unit {0}) (w1 : W) → m w ≡ (ok u, w1) → next w1 ≡ (ok b, w') → P)
      → P
  unfolding ◌>>◌
  from_then m next w w' b h go = from_bind m (λ u. next) w w' b h go

-- What a stage leaves alone.
pub record Keeps {W V C : Type 0} (view : W → V) (m : M W C) : Type 0 where
  pub kept : (w : W) → view (m w).1 ≡ view w

-- What a stage adds at most.
pub record Grows {W C : Type 0} (view : W → ℕ) (k : ℕ) (m : M W C) : Type 0 where
  pub grown : (w : W) → view (m w).1 ≤ view w + k

module _ {W A B : Type 0} (m : M W A) (f : A → M W B) where
  pub Keeps-bind :
      {V : Type 0} (view : W → V)
      → Keeps view m
      → ((a : A) → Keeps view (f a))
      → Keeps view (m >>= f)
  Keeps-bind view first next = record {
    kept = λ w. elim (bind_cases m f w) [
      | inl (a, w1, e, step) ↦
          ap (λ r. view r.1) step ∙ (next a).kept w1 ∙ ap (λ r. view r.1) (sym e) ∙ first.kept w
      | inr (x, w1, e, step) ↦ ap (λ r. view r.1) step ∙ ap (λ r. view r.1) (sym e) ∙ first.kept w
    ];
  }

  pub Grows-bind :
      (view : W → ℕ) (k l n : ℕ)
      → k + l ≡ n
      → Grows view k m
      → ((a : A) → Grows view l (f a))
      → Grows view n (m >>= f)
  Grows-bind view k l n sum first next = record {
    grown = λ w. elim (bind_cases m f w) [
      | inl (a, w1, e, step) ↦ omega (
        arith,
        sum,
        ap (λ r. view r.1) step,
        (next a).grown w1,
        ap (λ r. view r.1) e,
        first.grown w,
      )
      | inr (x, w1, e, step) ↦
          omega (arith, sum, ap (λ r. view r.1) step, ap (λ r. view r.1) e, first.grown w)
    ];
  }

module _ {W B : Type 0} (m : M W (Unit {0})) (next : M W B) where
  pub Keeps-then :
      {V : Type 0} (view : W → V) → Keeps view m → Keeps view next → Keeps view (m >> next)
  unfolding ◌>>◌
  Keeps-then view first rest = Keeps-bind m (λ u. next) view first (λ u. rest)

  pub Grows-then :
      (view : W → ℕ) (k : ℕ) → Grows view 0 m → Grows view k next → Grows view k (m >> next)
  unfolding ◌>>◌
  Grows-then view k first rest = Grows-bind m (λ u. next) view 0 k k (omega arith) first (λ u. rest)

module _ {W A : Type 0} where
  pub Keeps-lift : {V : Type 0} (view : W → V) (o : Outcome A) → Keeps view (lift o)
  Keeps-lift view o = record { kept = λ w. refl }

  pub Keeps-required :
      {V : Type 0} (view : W → V) (code : Code) (o : Option A) → Keeps view (required code o)
  unfolding required
  Keeps-required view code none = record { kept = λ w. refl }
  Keeps-required view code (some a) = record { kept = λ w. refl }

  pub Keeps→Grows : (view : W → ℕ) (m : M W A) → Keeps view m → Grows view 0 m
  Keeps→Grows view m k = record { grown = λ w. omega (arith, k.kept w) }

pub Keeps-require :
    {W V : Type 0} (view : W → V) (code : Code) (b : Bool) → Keeps view (require code b)
unfolding require
Keeps-require view code true = record { kept = λ w. refl }
Keeps-require view code false = record { kept = λ w. refl }

-- A test that lets the code go on holds, and changes nothing.
pub require_ok :
    {W : Type 0} (code : Code) (b : Bool) (w w' : W) (u : Unit {0})
    → require code b w ≡ (ok u, w')
    → (b ≡ true) × (w ≡ w')
unfolding require
require_ok code true w w' u h = (refl, ap (λ r. r.1) h)
require_ok code false w w' u h = absurd (throws_not_ok _ w w' u h)
