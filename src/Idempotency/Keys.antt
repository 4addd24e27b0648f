-- ===== src/Idempotency/Keys.antt =====
-- The keys of the store of src/middleware/idempotency.ts.
use mathlib.Core.List.{append_assoc}
use veritasor_backend.Prelude.{◌≡◌, refl, ap, true, false, [], ◌∷◌, ◌++◌, arith}
use veritasor_backend.Prelude.Text.{Text, codes}
use veritasor_backend.Idempotency.{
  is_tenant, all_tenant_chars, tenant_tag, generate_store_key, colon,
}

append_cancel : (p a b : Text) → p ++ a ≡ p ++ b → a ≡ b
append_cancel [] a b h = h
append_cancel (c ∷ p) a b h = ground (arith, append_cancel p a b, h)

-- A closing brace ends a tenant's name.
brace_split :
    (u v k l : Text)
    → all_tenant_chars u ≡ true
    → all_tenant_chars v ≡ true
    → (u ++ b'}' ∷ []) ++ colon ++ k ≡ (v ++ b'}' ∷ []) ++ colon ++ l
    → (u ≡ v) × (k ≡ l)
unfolding all_tenant_chars
brace_split [] [] k l hu hv h = ground arith
brace_split [] (c ∷ v) k l hu hv h = ground arith
brace_split (c ∷ u) [] k l hu hv h = ground arith
brace_split (c ∷ u) (d ∷ v) k l hu hv h = ground (arith, brace_split u v k l)

is_tenant-all : (u : Text) → is_tenant u ≡ true → all_tenant_chars u ≡ true
unfolding is_tenant
is_tenant-all u h = ground arith

tagged : (u : Text) → is_tenant u ≡ true → tenant_tag u ≡ b'{' ∷ u ++ b'}' ∷ []
unfolding tenant_tag
tagged u h = rw h refl

untagged : (u : Text) → is_tenant u ≡ false → tenant_tag u ≡ u
unfolding tenant_tag
untagged u h = rw h refl

-- Two users with names like a tenant's, or one with two keys, never share a key of the store.
pub generate_store_key_injective :
    (scope u v k l : Text)
    → is_tenant u ≡ true
    → is_tenant v ≡ true
    → generate_store_key scope u k ≡ generate_store_key scope v l
    → (u ≡ v) × (k ≡ l)
unfolding generate_store_key
generate_store_key_injective scope u v k l hu hv h =
    let tags =
      rw (tagged u hu, tagged v hv) at
        (append_cancel (codes "idempotency:" ++ scope ++ colon) (tenant_tag u ++ colon ++ k)
          (tenant_tag v ++ colon ++ l) h) in
    brace_split u v k l (is_tenant-all u hu) (is_tenant-all v hv)
      (append_cancel (b'{' ∷ []) _ _ tags)

colon_not_tenant : (a b : Text) → all_tenant_chars (a ++ colon ++ b) ≡ false
unfolding all_tenant_chars
colon_not_tenant [] b = refl
colon_not_tenant (c ∷ a) b = ground (arith, colon_not_tenant a b)

regroup : (a b k q : Text) → (a ++ q ++ b) ++ q ++ k ≡ a ++ q ++ (b ++ q ++ k)
regroup a b k q = simp append_assoc refl

colon_untagged : (a b : Text) → is_tenant (a ++ colon ++ b) ≡ false
unfolding is_tenant
colon_untagged a b = ground (arith, colon_not_tenant a b)

-- A user's name that is not like a tenant's is not delimited: a user whose name goes on after a
-- colon shares keys with the user whose name ends before it.
pub generate_store_key_shift :
    (scope a b k : Text)
    → is_tenant a ≡ false
    → generate_store_key scope (a ++ colon ++ b) k ≡ generate_store_key scope a (b ++ colon ++ k)
unfolding generate_store_key
generate_store_key_shift scope a b k ha =
    rw (untagged (a ++ colon ++ b) (colon_untagged a b), untagged a ha)
      (ap (λ r. (codes "idempotency:" ++ scope ++ colon) ++ r) (regroup a b k colon))
