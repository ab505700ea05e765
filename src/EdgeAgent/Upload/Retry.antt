-- ===== src/EdgeAgent/Upload/Retry.antt =====
-- How often the retry loop tries, and when it stops.
use cricket_drs_system.Prelude.{
  ℕ, zero, suc, ◌<◌, String, ◌≡◌, refl, ◌⊎◌, inl, inr, List, arith, Bool, true, false, Bool-cases,
  ap, sym,
}
use mathlib.Core.Path.{subst}
use cricket_drs_system.Exec.{Result, ok, err}
use cricket_drs_system.EdgeAgent.Upload.{
  UploadError, rejected, failed, Uploader, settled, attempts, upload_with_retry,
}

-- An error that another attempt may mend.
abbrev pub transient : Result UploadError String → Bool
transient (ok id) = false
transient (err (rejected status message)) = false
transient (err (failed what)) = true

module _ {World : Type 0} (w : World) (x : Result UploadError String × World) where
  settled_stop : (r : Result UploadError String) → transient r ≡ false → settled r w x ≡ (r, w)
  settled_stop (ok id) h = refl
  settled_stop (err (rejected status message)) h = refl
  settled_stop (err (failed what)) h = cc

  settled_go : (r : Result UploadError String) → transient r ≡ true → settled r w x ≡ x
  settled_go (ok id) h = cc
  settled_go (err (rejected status message)) h = cc
  settled_go (err (failed what)) h = refl

module _ {World : Type 0} (try : World → Result UploadError String × World) where
  -- The world after so many attempts.
  unfoldable pub after : ℕ → World → World
  after zero w = w
  after (suc n) w = after n (try w).1

  -- The first of so many attempts failed in a way that may pass.
  abbrev pub AllFailed : ℕ → World → Type 0
  AllFailed zero w = Unit
  AllFailed (suc n) w = (transient (try w).0 ≡ true) × AllFailed n (try w).1

  -- What so many attempts come to: `earlier` of them failed, and the next one decided, or was the
  -- last.
  pub record Decided (left : ℕ) (w : World) (outcome : Result UploadError String × World)
      : Type 0 where
    pub earlier : ℕ
    pub bound : earlier < left
    pub failures : AllFailed earlier w
    pub result : outcome.0 ≡ (try (after earlier w)).0
    pub world : outcome.1 ≡ (try (after earlier w)).1
    pub final : (transient outcome.0 ≡ false) ⊎ (suc earlier ≡ left)

  -- An attempt that decides.
  first_attempt_last :
      (left : ℕ) (w : World) (outcome : Result UploadError String × World)
      → outcome ≡ ((try w).0, (try w).1)
      → (transient (try w).0 ≡ false) ⊎ (1 ≡ left)
      → 0 < left
      → Decided left w outcome
  unfolding after
  first_attempt_last left w outcome same why some_left = record {
    earlier = 0;
    bound = some_left;
    failures = tt;
    result = ap (λ o. o.0) same;
    world = ap (λ o. o.1) same;
    final = elim why [ inl stop ↦ inl (rw same stop) | inr last ↦ inr last ];
  }

  -- One that failed before those that decide.
  attempts_go_on :
      (left : ℕ) (w : World) (outcome : Result UploadError String × World)
      → transient (try w).0 ≡ true
      → Decided left (try w).1 outcome
      → Decided (suc left) w outcome
  unfolding after
  attempts_go_on left w outcome failed_now d = record {
    earlier = suc d.earlier;
    bound = omega (arith, d.bound);
    failures = (failed_now, d.failures);
    result = d.result;
    world = d.world;
    final = elim d.final [ inl stop ↦ inl stop | inr last ↦ inr (ap suc last) ];
  }

  attempts-Decided :
      (left : ℕ) (last : Result UploadError String) (w : World)
      → Decided (suc left) w (attempts try (suc left) last w)
  unfolding attempts
  attempts-Decided zero last w = elim (Bool-cases (transient (try w).0)) [
    | inr stop ↦
        first_attempt_last 1 w _ (settled_stop (try w).1 _ (try w).0 stop) (inr refl) (omega arith)
    | inl go ↦
        first_attempt_last 1 w _ (settled_go (try w).1 _ (try w).0 go) (inr refl) (omega arith)
  ]
  attempts-Decided (suc left) last w = elim (Bool-cases (transient (try w).0)) [
    | inr stop ↦
        first_attempt_last (suc (suc left)) w _ (settled_stop (try w).1 _ (try w).0 stop) (inl stop)
          (omega arith)
    | inl go ↦
        subst (Decided (suc (suc left)) w) (sym (settled_go (try w).1 _ (try w).0 go))
          (attempts_go_on (suc left) w _ go (attempts-Decided left (try w).0 (try w).1))
  ]

-- An upload makes one to three attempts, all with the same token, names and bytes, each on the world
-- that the one before left. It stops at the first that succeeds or is rejected, and otherwise after
-- the third; its result is that of the last attempt that it made.
pub upload_with_retry-Decided :
    {World : Type 0} (u : Uploader World) (token org_id match_id camera_id : String)
    (bytes : List ℕ) (w : World)
    → Decided
        (u token org_id match_id camera_id bytes)
        3
        w
        (upload_with_retry u token org_id match_id camera_id bytes w)
unfolding upload_with_retry
upload_with_retry-Decided u token org_id match_id camera_id bytes w =
    attempts-Decided (u token org_id match_id camera_id bytes) 2 (err (failed "")) w
