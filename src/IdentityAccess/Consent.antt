-- ===== src/IdentityAccess/Consent.antt =====
-- What capturing consent does to a record, who may do it, and what makes a player eligible.
use cricket_drs_system.Prelude.{
  ◌≡◌, refl, ◌⊎◌, inl, inr, Bool, true, false, ◌&&◌, Option, some, none, All, arith, eq_iff,
  eq_refl, ◌==◌, string_eq, pair_eq, if◌then◌else◌,
}
use cricket_drs_system.Prelude.Int.{Time}
use cricket_drs_system.Exec.{ok, err, Result-cases}
use cricket_drs_system.Table.{lookup, lookup-put}
use cricket_drs_system.Platformauth.{organizer_admin}
use cricket_drs_system.IdentityAccess.Domain.{
  OrganizationId, UserId, ConsentType, ConsentRecord, entries, granted, new_consent_record,
  grant_consent, revoke_consent,
}
use cricket_drs_system.IdentityAccess.Store
use cricket_drs_system.IdentityAccess.Service.{
  State, Caller, capture_consent, is_user, on_file_or_new,
}
use cricket_drs_system.IdentityAccess.Invariant.{IsValid, ConsentEntry, get_consent-ConsentEntry}

-- What is on file of a player's consent: false for a type of which there is no record.
unfoldable pub on_file : State → OrganizationId → UserId → ConsentType → Bool
on_file s o u t = elim (Store.get_consent o u s.consents) [ ok rec ↦ granted rec t | err _ ↦ false ]

granted-grant :
    (t t' : ConsentType) (by : UserId) (now : Time) (c : ConsentRecord)
    → granted (grant_consent t by now c) t' ≡ (if t == t' then true else granted c t')
unfolding granted grant_consent
granted-grant t t' by now c = ground (arith, lookup-put t t' true (entries c.grants))

granted-revoke :
    (t t' : ConsentType) (by : UserId) (now : Time) (c : ConsentRecord)
    → granted (revoke_consent t by now c) t' ≡ (if t == t' then false else granted c t')
unfolding granted revoke_consent
granted-revoke t t' by now c = ground (arith, lookup-put t t' false (entries c.grants))

granted-clone :
    (t : ConsentType) (c : ConsentRecord) → granted (Store.clone_consent_record c) t ≡ granted c t
unfolding granted Store.clone_consent_record
granted-clone t c = refl

granted-new :
    (u : UserId) (o : OrganizationId) (minor : Bool) (g : Option UserId) (by : UserId) (now : Time)
    (c : ConsentRecord) (t : ConsentType)
    → new_consent_record u o minor g by now ≡ ok c
    → (granted c t ≡ false) × (c.organization_id ≡ o) × (c.user_id ≡ u)
unfolding new_consent_record granted lookup
granted-new u o minor g by now c t made = ground arith

get_consent-upsert :
    (o : OrganizationId) (u : UserId) (c : ConsentRecord) (s : Store.ConsentStore)
    → Store.get_consent o u (Store.upsert_consent c s).1 ≡ (
        if c.organization_id == o && c.user_id == u
        then ok (Store.clone_consent_record c)
        else Store.get_consent o u s)
unfolding Store.get_consent Store.upsert_consent
get_consent-upsert o u c s =
    ground
      (arith, lookup-put (c.organization_id, c.user_id) (o, u) (Store.clone_consent_record c) s)

pub on_file-upsert :
    (c : ConsentRecord) (s : State) (o : OrganizationId) (u : UserId) (t : ConsentType)
    → on_file (record s { consents = (Store.upsert_consent c s.consents).1 }) o u t
      ≡ (if c.organization_id == o && c.user_id == u then granted c t else on_file s o u t)
unfolding on_file
on_file-upsert c s o u t = ground (arith, get_consent-upsert o u c s.consents, granted-clone t c)

-- The one entry that a capture changes, in the record that it changes.
pub changed_record :
    (grant : Bool) (t t' : ConsentType) (by : UserId) (now : Time) (base rec : ConsentRecord)
    → rec ≡ (if grant then grant_consent t by now base else revoke_consent t by now base)
    → (granted rec t' ≡ (if t == t' then grant else granted base t'))
      × (rec.organization_id ≡ base.organization_id)
      × (rec.user_id ≡ base.user_id)
unfolding grant_consent revoke_consent
changed_record true t t' by now base rec e =
    (rw e (unfold grant_consent in granted-grant t t' by now base), ground arith, ground arith)
changed_record false t t' by now base rec e =
    (rw e (unfold revoke_consent in granted-revoke t t' by now base), ground arith, ground arith)

-- What a capture that succeeds has done: it changed the record on file, or a new one, and wrote it.
capture_consent_ok :
    (caller : Caller) (org : OrganizationId) (u : UserId) (minor : Bool) (guardian : Option UserId)
    (t : ConsentType) (grant : Bool) (created now : Time) (s : State) (rec : ConsentRecord)
    → (capture_consent caller org u minor guardian t grant created now s).0 ≡ ok rec
    → (base : ConsentRecord) × (on_file_or_new
          (Store.get_consent org u s.consents)
          (new_consent_record u org minor guardian caller.user_id created)
        ≡ ok base)
      × (rec ≡ (
          if grant
          then grant_consent t caller.user_id now base
          else revoke_consent t caller.user_id now base))
      × ((capture_consent caller org u minor guardian t grant created now s).1
          ≡ record s { consents = (Store.upsert_consent rec s.consents).1 })
unfolding capture_consent
capture_consent_ok caller org u minor guardian t grant created now s rec done =
    elim (Result-cases (
      on_file_or_new (Store.get_consent org u s.consents)
        (new_consent_record u org minor guardian caller.user_id created))) [
          | inl (base, found) ↦ (base, found, ground arith, ground arith)
          | inr (e, failed) ↦ absurd (ground arith)
        ]

-- The record that a capture starts from stands for what is on file.
pub base_on_file :
    (org : OrganizationId) (u : UserId) (minor : Bool) (guardian : Option UserId) (by : UserId)
    (created : Time) (s : State) (base : ConsentRecord) (t : ConsentType)
    → All ConsentEntry s.consents
    → on_file_or_new
        (Store.get_consent org u s.consents)
        (new_consent_record u org minor guardian by created)
      ≡ ok base
    → (granted base t ≡ on_file s org u t) × (base.organization_id ≡ org) × (base.user_id ≡ u)
unfolding on_file on_file_or_new
base_on_file org u minor guardian by created s base t h found =
    elim (Result-cases (Store.get_consent org u s.consents)) [
      | inl (old, e) ↦ ground (arith, get_consent-ConsentEntry org u s.consents old h e)
      | inr (x, e) ↦ ground (arith, granted-new u org minor guardian by created base t)
    ]

-- In valid stores, a capture that succeeds sets the one type that it names, for the one player of the caller's
-- tenant; every other entry of every player reads as before.
pub capture_consent-on_file :
    (caller : Caller) (org : OrganizationId) (u : UserId) (minor : Bool) (guardian : Option UserId)
    (t : ConsentType) (grant : Bool) (created now : Time) (s : State) (rec : ConsentRecord)
    (o' : OrganizationId) (u' : UserId) (t' : ConsentType)
    → IsValid s
    → (capture_consent caller org u minor guardian t grant created now s).0 ≡ ok rec
    → on_file (capture_consent caller org u minor guardian t grant created now s).1 o' u' t' ≡ (
        if org == o' && u == u'
        then (if t == t' then grant else on_file s o' u' t')
        else on_file s o' u' t')
capture_consent-on_file caller org u minor guardian t grant created now s rec o' u' t' h done =
    let (base, found, changed, after) =
      capture_consent_ok caller org u minor guardian t grant created now s rec done in
    let start =
      base_on_file org u minor guardian caller.user_id created s base t' h.consents found in
    let edit = changed_record grant t t' caller.user_id now base rec changed in
    rw after (ground (arith, on_file-upsert rec s o' u' t', eq_iff org o', eq_iff u u'))

-- Whoever captures consent is of the player's tenant, and is the player, an organizer admin, or
-- named as the guardian by the request.
pub capture_consent_caller :
    (caller : Caller) (org : OrganizationId) (u : UserId) (minor : Bool) (guardian : Option UserId)
    (t : ConsentType) (grant : Bool) (created now : Time) (s : State) (rec : ConsentRecord)
    → (capture_consent caller org u minor guardian t grant created now s).0 ≡ ok rec
    → (caller.organization_id ≡ org)
      × ((caller.user_id ≡ u)
          ⊎ ((caller.role ≡ organizer_admin) ⊎ (guardian ≡ some caller.user_id)))
unfolding capture_consent
capture_consent_caller caller org u minor none t grant created now s rec done = ground (
  arith,
  eq_iff caller.organization_id org,
  eq_iff caller.user_id u,
  eq_iff caller.role organizer_admin,
)
capture_consent_caller caller org u minor (some g) t grant created now s rec done = ground (
  arith,
  eq_iff caller.organization_id org,
  eq_iff caller.user_id u,
  eq_iff caller.role organizer_admin,
  eq_iff caller.user_id g,
)

-- Past the guards, a capture changes the record on file.
capture_consent-changed :
    (caller : Caller) (u : UserId) (minor : Bool) (guardian : Option UserId) (t : ConsentType)
    (grant : Bool) (created now : Time) (s : State) (old : ConsentRecord)
    → Store.get_consent caller.organization_id u s.consents ≡ ok old
    → is_user caller.user_id guardian ≡ true
    → (capture_consent caller caller.organization_id u minor guardian t grant created now s).0
      ≡ ok (
          if grant
          then grant_consent t caller.user_id now old
          else revoke_consent t caller.user_id now old)
unfolding capture_consent on_file_or_new Store.upsert_consent
capture_consent-changed caller u minor guardian t true created now s old found named =
    ground (arith, eq_refl caller.organization_id)
capture_consent-changed caller u minor guardian t false created now s old found named =
    ground (arith, eq_refl caller.organization_id)

-- In valid stores, any member of the tenant who names themself as the guardian in the request sets
-- any consent of any player of the tenant with a record, whoever the guardian on file is and stays.
pub capture_consent-claimed_guardian :
    (caller : Caller) (u : UserId) (minor : Bool) (t : ConsentType) (grant : Bool)
    (created now : Time) (s : State) (old : ConsentRecord)
    → IsValid s
    → Store.get_consent caller.organization_id u s.consents ≡ ok old
    → let (r, s') =
        capture_consent caller caller.organization_id u minor
          (some caller.user_id)
          t
          grant
          created
          now
          s in
      ((rec : ConsentRecord) × (r ≡ ok rec) × (rec.guardian_user_id ≡ old.guardian_user_id))
      × (on_file s' caller.organization_id u t ≡ grant)
unfolding grant_consent revoke_consent
capture_consent-claimed_guardian caller u minor t grant created now s old h found =
    let rec =
      if grant
      then grant_consent t caller.user_id now old
      else revoke_consent t caller.user_id now old in
    let done =
      capture_consent-changed caller u minor (some caller.user_id) t grant created now s old found
        (eq_refl caller.user_id) in
    (
      (rec, done, ground arith),
      ground (
        arith,
        eq_refl caller.organization_id,
        eq_refl u,
        eq_refl t,
        capture_consent-on_file caller caller.organization_id u minor (some caller.user_id) t grant
            created now s rec caller.organization_id u t h done,
      ),
    )
