-- ===== src/EdgeAgent/Buffer/Window.antt =====
-- The buffer holds the items of the window, whatever was added before.
use cricket_drs_system.Prelude.{
  List, [], ◌∷◌, ◌++◌, All, All-append, All-imp, ◌≡◌, refl, ap, sym, ◌∙◌, arith, if◌then◌else◌,
  Bool-cases, inl, inr,
}
use cricket_drs_system.Prelude.Int.{ℤ, Time, ◌-ℤ◌, ◌≤ℤ◌, ltb_ℤ, -ℤ_parts}
use cricket_drs_system.EdgeAgent.Buffer.{RingBuffer, new_ring_buffer, prune, add, snapshot}
use mathlib.Core.List.{append_assoc}
use mathlib.Core.Path.{subst}

All-append-left :
    {A : Type 0} (P : A → Type 0) (xs ys : List A) → All P (xs ++ ys) → All P xs × All P ys
All-append-left P [] ys h = (tt, h)
All-append-left P (x ∷ xs) ys h = let (a, b) = All-append-left P xs ys h.1 in ((h.0, a), b)

shift_le : (a b w : ℤ) → a ≤ℤ b → a -ℤ w ≤ℤ b -ℤ w
shift_le a b w h = omega (arith, -ℤ_parts a w, -ℤ_parts b w)

module _ {A : Type 0} (captured_at : A → Time) where
  -- The items that were not captured before a cutoff.
  unfoldable pub since : Time → List A → List A
  since cutoff [] = []
  since cutoff (x ∷ xs) =
      let rest = since cutoff xs in if ltb_ℤ (captured_at x) cutoff then rest else x ∷ rest

  -- Later items were not captured earlier.
  abbrev pub NonDecreasing : List A → Type 0
  NonDecreasing [] = Unit
  NonDecreasing (x ∷ xs) = All (λ y. captured_at x ≤ℤ captured_at y) xs × NonDecreasing xs

  -- A buffer after a list of additions.
  unfoldable pub adds : List A → RingBuffer A → RingBuffer A
  adds [] b = b
  adds (x ∷ xs) b = adds xs (add captured_at x b)

  since_all :
      (cutoff : Time) (xs : List A) → All (λ y. cutoff ≤ℤ captured_at y) xs → since cutoff xs ≡ xs
  unfolding since
  since_all cutoff [] h = refl
  since_all cutoff (x ∷ xs) h = ground (arith, since_all cutoff xs h.1)

  prune-since :
      (cutoff : Time) (xs : List A)
      → NonDecreasing xs
      → prune captured_at cutoff xs ≡ since cutoff xs
  unfolding since prune
  prune-since cutoff [] h = refl
  prune-since cutoff (x ∷ xs) h = elim (Bool-cases (ltb_ℤ (captured_at x) cutoff)) [
    | inl before ↦ ground (arith, prune-since cutoff xs h.1)
    | inr kept ↦
        let later : All (λ y. cutoff ≤ℤ captured_at y) xs =
          All-imp (λ y. captured_at x ≤ℤ captured_at y) (λ y. cutoff ≤ℤ captured_at y) xs
            (λ y p. ground arith) h.0 in
        ground (arith, since_all cutoff xs later)
  ]

  pub since-append : (c : Time) (xs ys : List A) → since c (xs ++ ys) ≡ since c xs ++ since c ys
  unfolding since
  since-append c [] ys = refl
  since-append c (x ∷ xs) ys = ground (arith, since-append c xs ys)

  -- A later cutoff after an earlier one is the later one.
  since-since : (c d : Time) (xs : List A) → c ≤ℤ d → since d (since c xs) ≡ since d xs
  unfolding since
  since-since c d [] h = refl
  since-since c d (x ∷ xs) h = ground (arith, since-since c d xs h)

  pub All-since : (P : A → Type 0) (c : Time) (xs : List A) → All P xs → All P (since c xs)
  unfolding since
  All-since P c [] h = tt
  All-since P c (x ∷ xs) h = ground (arith, All-since P c xs h.1)

  NonDecreasing-since : (c : Time) (xs : List A) → NonDecreasing xs → NonDecreasing (since c xs)
  unfolding since
  NonDecreasing-since c [] h = tt
  NonDecreasing-since c (x ∷ xs) h = ground (
    arith,
    NonDecreasing-since c xs h.1,
    All-since (λ y. captured_at x ≤ℤ captured_at y) c xs h.0,
  )

  NonDecreasing-append :
      (xs : List A) (y : A)
      → NonDecreasing xs
      → All (λ x. captured_at x ≤ℤ captured_at y) xs
      → NonDecreasing (xs ++ (y ∷ []))
  NonDecreasing-append [] y h l = (tt, tt)
  NonDecreasing-append (x ∷ xs) y h l = (
    All-append (λ z. captured_at x ≤ℤ captured_at z) xs (y ∷ []) h.0 (l.0, tt),
    NonDecreasing-append xs y h.1 l.1,
  )

  -- The parts of a sequence in order are in order, and those before precede those after.
  pub NonDecreasing-split :
      (xs : List A) (y : A) (ys : List A)
      → NonDecreasing (xs ++ (y ∷ ys))
      → NonDecreasing xs
        × All (λ x. captured_at x ≤ℤ captured_at y) xs
        × All (λ z. captured_at y ≤ℤ captured_at z) ys
  NonDecreasing-split [] y ys h = (tt, tt, h.0)
  NonDecreasing-split (x ∷ xs) y ys h =
      let (a, b, c) = NonDecreasing-split xs y ys h.1 in
      let first = All-append-left (λ z. captured_at x ≤ℤ captured_at z) xs (y ∷ ys) h.0 in
      ((first.0, a), (first.1.0, b), c)

  -- One more item of a sequence in order leaves the items of the window that it ends.
  add-since :
      (w : ℤ) (c : Time) (before : List A) (x : A) (b : RingBuffer A)
      → b.window ≡ w
      → b.items ≡ since c before
      → c ≤ℤ captured_at x -ℤ w
      → NonDecreasing before
      → All (λ y. captured_at y ≤ℤ captured_at x) before
      → ((add captured_at x b).window ≡ w)
        × ((add captured_at x b).items ≡ since (captured_at x -ℤ w) (before ++ (x ∷ [])))
  unfolding add
  add-since w c before x b same held earlier h l = (
    same,
    rw (same, held)
        (prune-since (captured_at x -ℤ w) (since c before ++ (x ∷ [])) (
            NonDecreasing-append (since c before) x (NonDecreasing-since c before h)
              (All-since (λ y. captured_at y ≤ℤ captured_at x) c before l))
          ∙ since-append (captured_at x -ℤ w) (since c before) (x ∷ [])
          ∙ ap (λ p. p ++ since (captured_at x -ℤ w) (x ∷ []))
              (since-since c (captured_at x -ℤ w) before earlier)
          ∙ sym (since-append (captured_at x -ℤ w) before (x ∷ []))),
  )

  adds-since :
      (w : ℤ) (c : Time) (before xs : List A) (x : A) (b : RingBuffer A)
      → b.window ≡ w
      → b.items ≡ since c before
      → All (λ y. c ≤ℤ captured_at y -ℤ w) (xs ++ (x ∷ []))
      → NonDecreasing (before ++ (xs ++ (x ∷ [])))
      → (adds (xs ++ (x ∷ [])) b).items ≡ since (captured_at x -ℤ w) (before ++ (xs ++ (x ∷ [])))
  unfolding adds
  adds-since w c before [] x b same held later h =
      let (a, l, r) = NonDecreasing-split before x [] h in
      (add-since w c before x b same held later.0 a l).1
  adds-since w c before (z ∷ zs) x b same held later h =
      let (a, l, r) = NonDecreasing-split before z (zs ++ (x ∷ [])) h in
      let (same', held') = add-since w c before z b same held later.0 a l in
      let assoc = append_assoc before (z ∷ []) (zs ++ (x ∷ [])) in
      adds-since w (captured_at z -ℤ w) (before ++ (z ∷ [])) zs x (add captured_at z b) same' held'
        (All-imp (λ y. captured_at z ≤ℤ captured_at y)
          (λ y. captured_at z -ℤ w ≤ℤ captured_at y -ℤ w) (zs ++ (x ∷ []))
          (λ y p. shift_le (captured_at z) (captured_at y) w p) r)
        (subst NonDecreasing (sym assoc) h)
      ∙ ap (since (captured_at x -ℤ w)) assoc

  -- After items that were captured in order, a new buffer holds exactly those that were captured
  -- no earlier than the window before the last of them, oldest first.
  pub snapshot-adds :
      (window : ℤ) (xs : List A) (x : A)
      → NonDecreasing (xs ++ (x ∷ []))
      → snapshot (adds (xs ++ (x ∷ [])) (new_ring_buffer window))
        ≡ since (captured_at x -ℤ window) (xs ++ (x ∷ []))
  unfolding snapshot new_ring_buffer since
  snapshot-adds window [] x h =
      adds-since window (captured_at x -ℤ window) [] [] x (new_ring_buffer window) refl refl
        (ground arith, tt) h
  snapshot-adds window (z ∷ zs) x h =
      adds-since window (captured_at z -ℤ window) [] (z ∷ zs) x (new_ring_buffer window) refl refl
        (
          ground arith,
          All-imp (λ y. captured_at z ≤ℤ captured_at y)
              (λ y. captured_at z -ℤ window ≤ℤ captured_at y -ℤ window) (zs ++ (x ∷ []))
              (λ y p. shift_le (captured_at z) (captured_at y) window p) h.0,
        )
        h
