-- ===== src/IdentityAccess/Captures/Lost.antt =====
-- Two captures for one player at the same time, each of which reads the record before the other has
-- written it.
use cricket_drs_system.Prelude.{
  ◌≡◌, ◌≢◌, refl, ap, ◌∙◌, Bool, true, false, List, [], ◌∷◌, All, arith, ◌==◌, string_eq, eq_refl,
  eq_iff, if◌then◌else◌,
}
use cricket_drs_system.Exec.{ok}
use cricket_drs_system.IdentityAccess.Domain.{
  OrganizationId, UserId, ConsentRecord, ConsentType, granted,
}
use cricket_drs_system.IdentityAccess.Store
use cricket_drs_system.IdentityAccess.Service.{State}
use cricket_drs_system.IdentityAccess.Invariant.{ConsentEntry}
use cricket_drs_system.IdentityAccess.Consent.{on_file, on_file-upsert}
use cricket_drs_system.IdentityAccess.Captures.{
  Capture, asks_record, upserts, returned, capture_begins, start_from, changed_by, after_record,
  capture_advance, run_captures, both_begin,
}
use cricket_drs_system.IdentityAccess.Captures.Entries.{Allowed, base_of, changed_by_lem}

-- Both read the record before either writes it; the left one writes first.
abbrev pub both_read_first : List Bool
both_read_first = true ∷ false ∷ true ∷ false ∷ []

-- A capture that would succeed alone.
pub record Possible (c : Capture) (s : State) : Type 0 where
  pub allowed : Allowed c
  pub base : ConsentRecord
  pub starts : start_from c (Store.get_consent c.org_id c.user_id s.consents) ≡ ok base

Allowed-begins : (c : Capture) → Allowed c → capture_begins c ≡ asks_record c
unfolding capture_begins
Allowed-begins c (own, allowed) = ground (arith, eq_iff c.caller.organization_id c.org_id)

reads_record :
    (c : Capture) (s : State) (p : Possible c s)
    → capture_advance (capture_begins c) s ≡ (upserts (changed_by c p.base), s)
unfolding capture_advance after_record
reads_record c s p = rw (Allowed-begins c p.allowed, p.starts) refl

written_here :
    (rec : ConsentRecord) (s : State) (o : OrganizationId) (u : UserId) (t : ConsentType)
    → rec.organization_id ≡ o
    → rec.user_id ≡ u
    → on_file (record s { consents = (Store.upsert_consent rec s.consents).1 }) o u t
      ≡ granted rec t
written_here rec s o u t org user =
    ground (arith, on_file-upsert rec s o u t, eq_iff rec.organization_id o, eq_iff rec.user_id u)

-- The entry that a capture sets, in the record that it returns.
granted-changed_by :
    (c : Capture) (base : ConsentRecord) → granted (changed_by c base) c.consent_type ≡ c.grant
granted-changed_by c base =
    (changed_by_lem c base c.consent_type).0 ∙ ground (arith, eq_refl c.consent_type)

-- What is on file after a record of the capture's own player was written.
on_file_written :
    (c : Capture) (s s' : State) (p : Possible c s) (t : ConsentType)
    → All ConsentEntry s.consents
    → on_file
        (record s' { consents = (Store.upsert_consent (changed_by c p.base) s'.consents).1 })
        c.org_id
        c.user_id
        t
      ≡ (if c.consent_type == t then c.grant else on_file s c.org_id c.user_id t)
on_file_written c s s' p t h =
    let (same, org, user) = base_of c s p.base t h p.starts in
    let (value, org', user') = changed_by_lem c p.base t in
    written_here (changed_by c p.base) s' c.org_id c.user_id t (org' ∙ org) (user' ∙ user)
    ∙ value
    ∙ ap (λ b. if c.consent_type == t then c.grant else b) same

on_file_written_at :
    (c : Capture) (s s' : State) (p : Possible c s) (o : OrganizationId) (u : UserId)
    (t : ConsentType)
    → All ConsentEntry s.consents
    → o ≡ c.org_id
    → u ≡ c.user_id
    → on_file
        (record s' { consents = (Store.upsert_consent (changed_by c p.base) s'.consents).1 })
        o
        u
        t
      ≡ (if c.consent_type == t then c.grant else on_file s o u t)
on_file_written_at c s s' p o u t h org user = rw (org, user) (on_file_written c s s' p t h)

-- Two captures for one player, of different types, each of which would succeed alone, both succeed
-- when each reads the record before the other writes it. What the first to write has set is lost:
-- its type is on file as it was before, so that consent that was withdrawn is still on file, and so
-- is every other type but the one that the second sets. This is for stores that are valid.
pub capture-Lost :
    (i j : Capture) (s : State)
    → All ConsentEntry s.consents
    → Possible i s
    → Possible j s
    → i.org_id ≡ j.org_id
    → i.user_id ≡ j.user_id
    → i.consent_type ≢ j.consent_type
    → let b = run_captures both_read_first (both_begin i j s) in
      ((rec : ConsentRecord) × ((b.left ≡ returned (ok rec))
          × (granted rec i.consent_type ≡ i.grant)))
      × ((rec : ConsentRecord) × ((b.right ≡ returned (ok rec))
            × (granted rec j.consent_type ≡ j.grant)))
      × ((t : ConsentType)
          → on_file b.state i.org_id i.user_id t
            ≡ (if j.consent_type == t then j.grant else on_file s i.org_id i.user_id t))
      × (on_file b.state i.org_id i.user_id i.consent_type
          ≡ on_file s i.org_id i.user_id i.consent_type)
unfolding run_captures
capture-Lost i j s h p q same_org same_user different =
    let ri = changed_by i p.base in
    let rj = changed_by j q.base in
    let with_i : State = record s { consents = (Store.upsert_consent ri s.consents).1 } in
    let with_both : State = record s { consents = (Store.upsert_consent rj with_i.consents).1 } in
    let reached : run_captures both_read_first (both_begin i j s)
        ≡ record { left = returned (ok ri); right = returned (ok rj); state = with_both } =
      rw (reads_record i s p, reads_record j s q) (unfold capture_advance in refl) in
    let entry : (t : ConsentType)
        → on_file with_both i.org_id i.user_id t
          ≡ (if j.consent_type == t then j.grant else on_file s i.org_id i.user_id t) =
      λ t. on_file_written_at j s with_i q i.org_id i.user_id t h same_org same_user in
    let lost : on_file with_both i.org_id i.user_id i.consent_type
        ≡ on_file s i.org_id i.user_id i.consent_type =
      ground (arith, entry i.consent_type, eq_iff j.consent_type i.consent_type, different) in
    (
      (ri, (ap (λ b. b.left) reached, granted-changed_by i p.base)),
      (rj, (ap (λ b. b.right) reached, granted-changed_by j q.base)),
      (λ t. ap (λ b. on_file b.state i.org_id i.user_id t) reached ∙ entry t),
      ap (λ b. on_file b.state i.org_id i.user_id i.consent_type) reached ∙ lost,
    )
