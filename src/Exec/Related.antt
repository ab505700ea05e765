-- ===== src/Exec/Related.antt =====
-- A method run from two related states gives the same result, and leaves related states.
use cricket_drs_system.Prelude.{◌≡◌, refl, Bool}
use cricket_drs_system.Exec.{Result, ok, err, Exec, pure, lift, continue, ◌>>=◌, raise_if, reads}

abbrev pub Relation : Type 0 → Type 1
Relation S = S → S → Type 0

-- From states that `R` relates to states that `Q` relates.
pub record Related {E S A : Type 0} (R Q : Relation S) (m : Exec E S A) : Type 0 where
  pub agrees : (s t : S) → R s t → ((m s).0 ≡ (m t).0) × Q (m s).1 (m t).1

module _ {E S : Type 0} {R : Relation S} where
  pub pure-Related :
      {A : Type 0} {Q : Relation S} (a : A)
      → ((s t : S) → R s t → Q s t)
      → Related R Q (pure {E = E} a)
  pure-Related a keeps = record { agrees = λ s t r. (refl, keeps s t r) }

  pub lift-Related : {A : Type 0} (r : Result E A) → Related R R (lift r)
  lift-Related x = record { agrees = λ s t r. (refl, r) }

  pub raise_if-Related : (c : Bool) (e : E) → Related R R (raise_if c e)
  raise_if-Related c e = record { agrees = λ s t r. (refl, r) }

  pub reads-Related :
      {A : Type 0} (f : S → Result E A) → ((s t : S) → R s t → f s ≡ f t) → Related R R (reads f)
  reads-Related f same = record { agrees = λ s t r. (same s t r, r) }

module _ {E S A B : Type 0} {Q T : Relation S} where
  continue-Related :
      (r : Result E A) (f : A → Exec E S B) (s t : S)
      → Q s t
      → ((s t : S) → Q s t → T s t)
      → ((a : A) → Related Q T (f a))
      → ((continue r f s).0 ≡ (continue r f t).0) × T (continue r f s).1 (continue r f t).1
  continue-Related (ok a) f s t q keeps h = (h a).agrees s t q
  continue-Related (err e) f s t q keeps h = (refl, keeps s t q)

  pub bind-Related :
      {R : Relation S} {m : Exec E S A} {f : A → Exec E S B}
      → ((s t : S) → Q s t → T s t)
      → Related R Q m
      → ((a : A) → Related Q T (f a))
      → Related R T (m >>= f)
  bind-Related {m} {f} keeps first next = record {
    agrees = λ s t r.
        let (same, q) = first.agrees s t r in
        rw same (continue-Related (m t).0 f (m s).1 (m t).1 q keeps next);
  }
