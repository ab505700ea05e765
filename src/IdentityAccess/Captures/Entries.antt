-- ===== src/IdentityAccess/Captures/Entries.antt =====
-- What two captures at the same time can make of the entries on file, however their steps
-- interleave.
use cricket_drs_system.Prelude.{
  ◌≡◌, ◌≢◌, refl, ap, ◌∙◌, sym, ◌⊎◌, inl, inr, Bool, true, false, Option, some, none, List, [], ◌∷◌,
  All, arith, ◌==◌, string_eq, eq_iff, Bool-cases, if◌then◌else◌, ◌&&◌,
}
use cricket_drs_system.Prelude.Int.{Time}
use cricket_drs_system.Exec.{Result, ok, err}
use cricket_drs_system.IdentityAccess.Domain.{
  OrganizationId, UserId, ConsentType, ConsentRecord, Error, cross_tenant_access, permission_denied,
  consent_not_found, granted, new_consent_record, grant_consent, revoke_consent,
}
use cricket_drs_system.IdentityAccess.Store
use cricket_drs_system.IdentityAccess.Service.{State, on_file_or_new}
use cricket_drs_system.IdentityAccess.Invariant.{ConsentEntry, get_consent-ConsentEntry}
use cricket_drs_system.IdentityAccess.Invariant.Operations.{upsert_consent-ConsentEntry}
use cricket_drs_system.IdentityAccess.Consent.{
  on_file, on_file-upsert, changed_record, base_on_file,
}
use cricket_drs_system.IdentityAccess.Captures.{
  Capture, Stage, asks_record, upserts, returned, authorized, capture_begins, start_from,
  changed_by, after_record, capture_advance, Both, run_captures, both_begin,
}

abbrev pub Allowed : Capture → Type 0
Allowed c = (c.caller.organization_id ≡ c.org_id) × (authorized c ≡ true)

-- The capture sets just this entry, and its caller may.
abbrev pub Sets : Capture → OrganizationId → UserId → ConsentType → Bool → Type 0
Sets c o u t b =
    Allowed c × ((c.org_id ≡ o) × (c.user_id ≡ u) × (c.consent_type ≡ t) × (c.grant ≡ b))

capture_begins-cases :
    (c : Capture)
    → (Allowed c × (capture_begins c ≡ asks_record c))
      ⊎ ((e : Result Error ConsentRecord) × (capture_begins c ≡ returned e))
unfolding capture_begins
capture_begins-cases c = elim (Bool-cases (c.caller.organization_id == c.org_id)) [
  | inr other ↦ inr (err cross_tenant_access, ground arith)
  | inl own ↦ elim (Bool-cases (authorized c)) [
    | inr refused ↦ inr (err permission_denied, ground arith)
    | inl allowed ↦ inl (((eq_iff c.caller.organization_id c.org_id).0 own, allowed), ground arith)
  ]
]

new_consent_record-guarded :
    (u : UserId) (o : OrganizationId) (minor : Bool) (g : Option UserId) (by : UserId) (now : Time)
    (rec : ConsentRecord)
    → new_consent_record u o minor g by now ≡ ok rec
    → rec.is_minor ≡ true
    → rec.guardian_user_id ≢ none
unfolding new_consent_record
new_consent_record-guarded u o true none by now rec made is_minor = absurd (ground arith)
new_consent_record-guarded u o true (some g) by now rec made is_minor = λ e. ground arith
new_consent_record-guarded u o false g by now rec made is_minor = absurd (ground arith)

start_from_new :
    (c : Capture) (x : Error) (base : ConsentRecord)
    → start_from c (err x) ≡ ok base
    → new_consent_record c.user_id c.org_id c.is_minor c.guardian c.caller.user_id c.created
      ≡ ok base
unfolding start_from on_file_or_new
start_from_new c consent_not_found base found = found
start_from_new c x base found = absurd (ground arith)

start_from_guarded :
    (c : Capture) (s : State) (base : ConsentRecord) (r : Result Error ConsentRecord)
    → All ConsentEntry s.consents
    → Store.get_consent c.org_id c.user_id s.consents ≡ r
    → start_from c r ≡ ok base
    → base.is_minor ≡ true
    → base.guardian_user_id ≢ none
start_from_guarded c s base (ok old) h e found =
    unfold start_from on_file_or_new in
    ground (arith, get_consent-ConsentEntry c.org_id c.user_id s.consents old h e)
start_from_guarded c s base (err x) h e found =
    new_consent_record-guarded c.user_id c.org_id c.is_minor c.guardian c.caller.user_id c.created
      base (start_from_new c x base found)

pub base_of :
    (c : Capture) (s : State) (base : ConsentRecord) (t : ConsentType)
    → All ConsentEntry s.consents
    → start_from c (Store.get_consent c.org_id c.user_id s.consents) ≡ ok base
    → (granted base t ≡ on_file s c.org_id c.user_id t)
      × (base.organization_id ≡ c.org_id)
      × (base.user_id ≡ c.user_id)
unfolding start_from
base_of c s base t h found =
    base_on_file c.org_id c.user_id c.is_minor c.guardian c.caller.user_id c.created s base t h
      found

pub changed_by_lem :
    (c : Capture) (base : ConsentRecord) (t : ConsentType)
    → (granted (changed_by c base) t ≡ (if c.consent_type == t then c.grant else granted base t))
      × ((changed_by c base).organization_id ≡ base.organization_id)
      × ((changed_by c base).user_id ≡ base.user_id)
unfolding changed_by
changed_by_lem c base t =
    changed_record c.grant c.consent_type t c.caller.user_id c.now base (changed_by c base) refl

changed_by-guarded :
    (c : Capture) (base : ConsentRecord)
    → ((changed_by c base).is_minor ≡ base.is_minor)
      × ((changed_by c base).guardian_user_id ≡ base.guardian_user_id)
unfolding changed_by grant_consent revoke_consent
changed_by-guarded c base = (ground arith, ground arith)

module _ (i j : Capture) (s0 : State) where
  -- Where an entry comes from: it was on file at the beginning, or one of the two set it.
  abbrev pub Explained : OrganizationId → UserId → ConsentType → Bool → Type 0
  Explained o u t b = (on_file s0 o u t ≡ b) ⊎ (Sets i o u t b ⊎ Sets j o u t b)

  abbrev AllExplained : State → Type 0
  AllExplained s =
      (o : OrganizationId) (u : UserId) (t : ConsentType) → Explained o u t (on_file s o u t)

  abbrev StageKept : Capture → Stage → Type 0
  StageKept own (asks_record c) = (c ≡ own) × Allowed own
  StageKept own (upserts rec) =
      (rec.is_minor ≡ true → rec.guardian_user_id ≢ none)
      × ((t : ConsentType) → Explained rec.organization_id rec.user_id t (granted rec t))
  StageKept own (returned r) = Unit

  abbrev Covers : Capture → Type 0
  Covers own =
      (o : OrganizationId) (u : UserId) (t : ConsentType) (b : Bool)
      → Sets own o u t b
      → Explained o u t b

  module _ (own : Capture) (own_sets : Covers own) (s : State) (entries : AllExplained s) where
    set_or_old :
        (o : OrganizationId) (u : UserId) (t : ConsentType) (b : Bool)
        → Allowed own
        → o ≡ own.org_id
        → u ≡ own.user_id
        → b ≡ (if own.consent_type == t then own.grant else on_file s own.org_id own.user_id t)
        → Explained o u t b
    set_or_old o u t b allowed same_org same_user value =
        elim (Bool-cases (own.consent_type == t)) [
          | inl here ↦ own_sets o u t b (
            allowed,
            (sym same_org, sym same_user, (eq_iff own.consent_type t).0 here, ground arith),
          )
          | inr there ↦
              let old : b ≡ on_file s own.org_id own.user_id t = ground arith in
              rw (same_org, same_user, old) (entries own.org_id own.user_id t)
        ]

    changed_by-Explained :
        (base : ConsentRecord) (t : ConsentType)
        → Allowed own
        → All ConsentEntry s.consents
        → start_from own (Store.get_consent own.org_id own.user_id s.consents) ≡ ok base
        → let rec = changed_by own base in
          Explained rec.organization_id rec.user_id t (granted rec t)
    changed_by-Explained base t allowed h found =
        let (same, org, user) = base_of own s base t h found in
        let (value, org', user') = changed_by_lem own base t in
        set_or_old _ _ t _ allowed (org' ∙ org) (user' ∙ user)
          (value ∙ ap (λ b. if own.consent_type == t then own.grant else b) same)

    after_record-StageKept :
        (r : Result Error ConsentRecord)
        → Allowed own
        → All ConsentEntry s.consents
        → start_from own (Store.get_consent own.org_id own.user_id s.consents) ≡ r
        → StageKept own (after_record own r)
    unfolding after_record
    after_record-StageKept (ok base) allowed h found = (
      (let (minor, guardian) = changed_by-guarded own base in
          λ is_minor none_named.
            start_from_guarded own s base (Store.get_consent own.org_id own.user_id s.consents) h
              refl found (sym minor ∙ is_minor) (sym guardian ∙ none_named)),
      (λ t. changed_by-Explained base t allowed h found),
    )
    after_record-StageKept (err e) allowed h found = tt

    on_file_after-Explained :
        (rec : ConsentRecord) (o : OrganizationId) (u : UserId) (t : ConsentType)
        → Explained rec.organization_id rec.user_id t (granted rec t)
        → Explained o u t
            (on_file (record s { consents = (Store.upsert_consent rec s.consents).1 }) o u t)
    on_file_after-Explained rec o u t explained =
        rw (on_file-upsert rec s o u t)
          (elim (Bool-cases (rec.organization_id == o && rec.user_id == u)) [
            | inl here ↦
                let org : rec.organization_id ≡ o = ground (arith, eq_iff rec.organization_id o) in
                let user : rec.user_id ≡ u = ground (arith, eq_iff rec.user_id u) in
                rw (here, ← org, ← user) explained
            | inr elsewhere ↦ rw elsewhere (entries o u t)
          ])

    -- One step of the capture keeps what is known of the stores and of where it stands.
    capture_advance-Kept :
        (t : Stage)
        → All ConsentEntry s.consents
        → StageKept own t
        → let (t', s') = capture_advance t s in
          All ConsentEntry s'.consents × (AllExplained s' × StageKept own t')
    unfolding capture_advance
    capture_advance-Kept (asks_record c) h (same, allowed) =
        (h, (entries, rw same (after_record-StageKept _ allowed h refl)))
    capture_advance-Kept (upserts rec) h (guarded, explained) = (
      upsert_consent-ConsentEntry rec s.consents h guarded,
      (λ o u t. on_file_after-Explained rec o u t (explained t), tt),
    )
    capture_advance-Kept (returned r) h stage = (h, (entries, tt))

  begins-StageKept : (c : Capture) → StageKept c (capture_begins c)
  begins-StageKept c = elim (capture_begins-cases c) [
    | inl (allowed, asks) ↦ rw asks (refl, allowed)
    | inr (e, refused) ↦ rw refused tt
  ]

  record Kept (b : Both) : Type 0 where
    consents : All ConsentEntry b.state.consents
    entries : AllExplained b.state
    left : StageKept i b.left
    right : StageKept j b.right

  run_captures-Kept : (turns : List Bool) (b : Both) → Kept b → Kept (run_captures turns b)
  unfolding run_captures
  run_captures-Kept [] b k = k
  run_captures-Kept (true ∷ turns) b k =
      let (consents, (entries, left)) =
        capture_advance-Kept i (λ o u t v x. inr (inl x)) b.state k.entries b.left k.consents
          k.left in
      run_captures-Kept turns _
        (record { consents = consents; entries = entries; left = left; right = k.right })
  run_captures-Kept (false ∷ turns) b k =
      let (consents, (entries, right)) =
        capture_advance-Kept j (λ o u t v x. inr (inr x)) b.state k.entries b.right k.consents
          k.right in
      run_captures-Kept turns _
        (record { consents = consents; entries = entries; left = k.left; right = right })

-- However the steps of two captures interleave, and wherever they stop: what is on file of any
-- consent of any player is what was on file at the beginning, or what one of the two captures sets
-- for that player and that type, its caller being of the tenant and allowed to. This is for stores
-- that were valid before.
pub run_captures-Explained :
    (turns : List Bool) (i j : Capture) (s : State) (o : OrganizationId) (u : UserId)
    (t : ConsentType)
    → All ConsentEntry s.consents
    → Explained i j s o u t (on_file (run_captures turns (both_begin i j s)).state o u t)
run_captures-Explained turns i j s o u t h =
    (run_captures-Kept i j s turns (both_begin i j s) (record {
      consents = h;
      entries = λ o u t. inl refl;
      left = begins-StageKept i j s i;
      right = begins-StageKept i j s j;
    })).entries
      o u t
