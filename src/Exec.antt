-- ===== src/Exec.antt =====
-- Methods that change a shared object and may return an error. Go keeps what was written before an
-- error is returned, so the state comes back beside the error too.
pub mod Related
use cricket_drs_system.Prelude.{◌≡◌, refl, ◌⊎◌, inl, inr, Bool, if◌then◌else◌}

pub data Result {ℓ} (E A : Type ℓ) : Type ℓ where
  ok : A → Result E A
  err : E → Result E A

pub Result-cases {ℓ} :
    {E A : Type ℓ} (r : Result E A) → ((a : A) × (r ≡ ok a)) ⊎ ((e : E) × (r ≡ err e))
Result-cases (ok a) = inl (a, refl)
Result-cases (err e) = inr (e, refl)

abbrev pub Exec {ℓ} : Type ℓ → Type ℓ → Type ℓ → Type ℓ
Exec E S A = S → Result E A × S

module _ {ℓ} {E S A : Type ℓ} where
  abbrev pub pure : A → Exec E S A
  pure a s = (ok a, s)

  abbrev pub raise : E → Exec E S A
  raise e s = (err e, s)

  abbrev pub lift : Result E A → Exec E S A
  lift r s = (r, s)

abbrev pub continue {ℓ} : {E S A B : Type ℓ} → Result E A → (A → Exec E S B) → Exec E S B
continue (ok a) f s = f a s
continue (err e) f s = (err e, s)

infixl 5 ◌>>=◌ ◌>>◌
abbrev pub ◌>>=◌ {ℓ} : {E S A B : Type ℓ} → Exec E S A → (A → Exec E S B) → Exec E S B
◌>>=◌ m f s = let (r, s') = m s in continue r f s'

abbrev pub ◌>>◌ {ℓ} : {E S A B : Type ℓ} → Exec E S A → Exec E S B → Exec E S B
m >> k = m >>= λ _. k

-- `if c { return err }`
abbrev pub raise_if : {E S : Type 0} → Bool → E → Exec E S (Unit {0})
raise_if c e s = (if c then err e else ok tt, s)

-- An action on one component of the state, read by `get` and written back by `put`.
abbrev pub zoom {ℓ} : {E S T A : Type ℓ} → (S → T) → (T → S → S) → Exec E T A → Exec E S A
zoom get put m s = let (r, t) = m (get s) in (r, put t s)

-- The same for a method that only reads.
abbrev pub reads {ℓ} : {E S A : Type ℓ} → (S → Result E A) → Exec E S A
reads f s = (f s, s)
