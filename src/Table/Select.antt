-- ===== src/Table/Select.antt =====
-- The part of a map whose keys pass a test, such as the entries of one tenant.
use cricket_drs_system.Prelude.{
  ◌≡◌, ◌≢◌, refl, Bool, true, false, inl, inr, some, none, [], ◌∷◌, arith, Comparable, ◌==◌,
  if◌then◌else◌, All, Bool-cases,
}
use mathlib.Core.Path.{subst}
use cricket_drs_system.Table.{Table, lookup, put, delete, lookup-put}

module _ {ℓ κ} {K : Type ℓ} {V : Type κ} where
  unfoldable pub select : (K → Bool) → Table K V → Table K V
  select f [] = []
  select f ((k, v) ∷ m) = let rest = select f m in if f k then (k, v) ∷ rest else rest

module _ {ℓ κ} {K : Type ℓ} {V : Type κ} ⦃e : Comparable K⦄ (f : K → Bool) where
  pub lookup-select : (k : K) (m : Table K V) → f k ≡ true → lookup k (select f m) ≡ lookup k m
  unfolding lookup select
  lookup-select k [] h = refl
  lookup-select k ((j, v) ∷ m) h = ground (arith, e.equal_iff j k, lookup-select k m h)

  -- An entry that passes the test is written in the part as in the whole.
  pub select-put_in :
      (k : K) (v : V) (m : Table K V) → f k ≡ true → select f (put k v m) ≡ put k v (select f m)
  unfolding put select
  select-put_in k v [] h = ground arith
  select-put_in k v ((j, w) ∷ m) h = ground (arith, e.equal_iff j k, select-put_in k v m h)

  -- Any other entry is not seen.
  pub select-put_out :
      (k : K) (v : V) (m : Table K V) → f k ≡ false → select f (put k v m) ≡ select f m
  unfolding put select
  select-put_out k v [] h = ground arith
  select-put_out k v ((j, w) ∷ m) h = ground (arith, e.equal_iff j k, select-put_out k v m h)

  pub select-select : (m : Table K V) → select f (select f m) ≡ select f m
  unfolding select
  select-select [] = refl
  select-select ((k, v) ∷ m) = ground (arith, select-select m)

module _ {ℓ κ λ'} {K : Type ℓ} {V : Type κ} ⦃e : Comparable K⦄ (P : K × V → Type λ') where
  -- A property of all entries is kept by a write of an entry that has it.
  pub All-put : (k : K) (v : V) (m : Table K V) → All P m → P (k, v) → All P (put k v m)
  unfolding put
  All-put k v [] h p = (p, tt)
  All-put k v ((j, w) ∷ m) h p = ground (arith, All-put k v m h.1 p)

  -- What is found has the property.
  pub All-lookup : (k : K) (v : V) (m : Table K V) → All P m → lookup k m ≡ some v → P (k, v)
  unfolding lookup
  All-lookup k v [] h p = cc
  All-lookup k v ((j, w) ∷ m) h p = elim (Bool-cases (j == k)) [
    | inl same ↦
        let q : ◌≡◌ {A = K × V} (j, w) (k, v) = ground (arith, e.equal_iff j k) in subst P q h.0
    | inr other ↦ All-lookup k v m h.1 (ground arith)
  ]

  -- So has every entry that a deletion leaves.
  pub All-delete : (k : K) (m : Table K V) → All P m → All P (delete k m)
  unfolding delete
  All-delete k [] h = h
  All-delete k ((j, w) ∷ m) h = ground (arith, All-delete k m h.1)

-- A write never removes a key.
pub put_keeps {ℓ κ} :
    {K : Type ℓ} {V : Type κ} ⦃e : Comparable K⦄ (k j : K) (v : V) (m : Table K V)
    → lookup j m ≢ none
    → lookup j (put k v m) ≢ none
put_keeps k j v m h = ground (arith, lookup-put k j v m)
