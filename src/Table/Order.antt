-- ===== src/Table/Order.antt =====
-- The order in which a Go map is walked: a map has each key once, and two association lists that
-- find the same under every key are the same map in another order.
use cricket_drs_system.Prelude.{
  ◌≡◌, refl, Bool, true, false, none, some, List, [], ◌∷◌, arith, Comparable, ◌==◌, if◌then◌else◌,
  inl, inr, Bool-cases,
}
use mathlib.Core.List.{Perm}
use mathlib.Core.List.Perm
use cricket_drs_system.Table.{Table, lookup, put, delete, lookup-put, lookup-delete}

module _ {ℓ} {V : Type ℓ} where
  abbrev put_if : Bool → V → List V → List V
  put_if b v vs = if b then v ∷ vs else vs

  put_if-Perm :
      (b : Bool) (v : V) {vs ws : List V} → Perm vs ws → Perm (put_if b v vs) (put_if b v ws)
  put_if-Perm true v p = Perm.cons v p
  put_if-Perm false v p = p

  put_if_comm :
      (a b : Bool) (v w : V) (vs : List V)
      → Perm (put_if a v (put_if b w vs)) (put_if b w (put_if a v vs))
  put_if_comm true true v w vs = Perm.swap w v vs
  put_if_comm true false v w vs = Perm.refl _
  put_if_comm false b v w vs = Perm.refl _

module _ {ℓ κ} {K : Type ℓ} {V : Type κ} ⦃e : Comparable K⦄ where
  -- Each key stands once.
  abbrev pub Distinct : Table K V → Type κ
  Distinct [] = Unit
  Distinct ((k, v) ∷ m) = (lookup k m ≡ none) × Distinct m

  abbrev pub SameMap : Table K V → Table K V → Type (ℓ ⊔ κ)
  SameMap m n = (k : K) → lookup k m ≡ lookup k n

  pub put-Distinct : (k : K) (v : V) (m : Table K V) → Distinct m → Distinct (put k v m)
  unfolding put lookup
  put-Distinct k v [] h = (refl, tt)
  put-Distinct k v ((j, w) ∷ m) h =
      ground (arith, e.equal_iff j k, e.equal_iff k j, put-Distinct k v m h.1, lookup-put k j v m)

  pub delete-Distinct : (k : K) (m : Table K V) → Distinct m → Distinct (delete k m)
  unfolding delete
  delete-Distinct k [] h = tt
  delete-Distinct k ((j, w) ∷ m) h = ground (arith, delete-Distinct k m h.1, lookup-delete k j m)

  pub put-SameMap :
      (k : K) (v : V) (m n : Table K V) → SameMap m n → SameMap (put k v m) (put k v n)
  put-SameMap k v m n h j = rw (lookup-put k j v m, lookup-put k j v n, h j) refl

  pub delete-SameMap : (k : K) (m n : Table K V) → SameMap m n → SameMap (delete k m) (delete k n)
  delete-SameMap k m n h j = rw (lookup-delete k j m, lookup-delete k j n, h j) refl

  -- The values under the keys that pass a test, in the order of the list.
  unfoldable pub picked : (K → Bool) → Table K V → List V
  picked f [] = []
  picked f ((k, v) ∷ m) = let rest = picked f m in if f k then v ∷ rest else rest

  delete_absent : (k : K) (m : Table K V) → lookup k m ≡ none → delete k m ≡ m
  unfolding delete lookup
  delete_absent k [] h = refl
  delete_absent k ((j, w) ∷ m) h = ground (arith, delete_absent k m)

  -- An entry may be taken out and put in front.
  picked-delete :
      (f : K → Bool) (k : K) (v : V) (m : Table K V)
      → Distinct m
      → lookup k m ≡ some v
      → Perm (picked f m) (put_if (f k) v (picked f (delete k m)))
  unfolding picked delete lookup
  picked-delete f k v [] h found = cc
  picked-delete f k v ((j, w) ∷ m) h found = elim (Bool-cases (j == k)) [
    | inl same ↦
        let key : j ≡ k = (e.equal_iff j k).0 same in
        let value : w ≡ v = ground (arith, same) in
        let gone : delete k m ≡ m = delete_absent k m (rw (← key) h.0) in
        rw (same, gone, ← key, value) (Perm.refl _)
    | inr other ↦
        let rest = picked-delete f k v m h.1 (ground (arith, other)) in
        rw other (
          Perm.trans (put_if-Perm (f j) w rest)
            (put_if_comm (f j) (f k) w v (picked f (delete k m))))
  ]

  SameMap-rest :
      (k : K) (v : V) (m n : Table K V)
      → Distinct ((k, v) ∷ m)
      → SameMap ((k, v) ∷ m) n
      → SameMap m (delete k n)
  unfolding lookup
  SameMap-rest k v m n h same j = ground (arith, lookup-delete k j n, same j, h.0, e.equal_iff k j)

  -- What is picked of one map is a permutation of what is picked of the same map in another order.
  pub picked-Perm :
      (f : K → Bool) (m n : Table K V)
      → Distinct m
      → Distinct n
      → SameMap m n
      → Perm (picked f m) (picked f n)
  unfolding lookup picked
  picked-Perm f [] [] h g same = Perm.refl _
  picked-Perm f [] ((k, v) ∷ n) h g same = absurd (ground (arith, same k, e.equal_iff k k))
  picked-Perm f ((k, v) ∷ m) n h g same =
      let here : lookup k n ≡ some v = ground (arith, same k, e.equal_iff k k) in
      let rest =
        picked-Perm f m (delete k n) h.1 (delete-Distinct k n g) (SameMap-rest k v m n h same) in
      Perm.trans (put_if-Perm (f k) v rest) (Perm.symm (picked-delete f k v n g here))
