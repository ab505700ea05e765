-- ===== src/IdentityAccess/Captures.antt =====
-- Two captures of consent at the same time: `CaptureConsent` of
-- services/identity-access/internal/service/consent.go, cut at its two calls of the repository.
-- Each call is one step under the store's lock; the record that the first returns is a copy.
pub mod Entries
pub mod Lost
use cricket_drs_system.Prelude.{
  ◌≡◌, refl, Bool, true, false, not, ◌||◌, Option, List, [], ◌∷◌, arith, ◌==◌, string_eq,
  if◌then◌else◌, inl, inr,
}
use cricket_drs_system.Prelude.Int.{Time}
use cricket_drs_system.Exec.{Result, ok, err, Result-cases}
use cricket_drs_system.Platformauth.{organizer_admin}
use cricket_drs_system.IdentityAccess.Domain.{
  OrganizationId, UserId, ConsentType, ConsentRecord, Error, cross_tenant_access, permission_denied,
  new_consent_record, grant_consent, revoke_consent,
}
use cricket_drs_system.IdentityAccess.Store
use cricket_drs_system.IdentityAccess.Service.{
  State, Caller, is_user, on_file_or_new, capture_consent,
}

-- The arguments of one capture, with what the clock reads for a new record and for the change.
pub record Capture : Type 0 where
  pub caller : Caller
  pub org_id : OrganizationId
  pub user_id : UserId
  pub is_minor : Bool
  pub guardian : Option UserId
  pub consent_type : ConsentType
  pub grant : Bool
  pub created : Time
  pub now : Time

-- Where a capture stands: before one of its two calls, or at its end.
pub data Stage : Type 0 where
  asks_record : Capture → Stage
  upserts : ConsentRecord → Stage
  returned : Result Error ConsentRecord → Stage

-- Who may capture.
unfoldable pub authorized : Capture → Bool
authorized c =
    c.caller.user_id == c.user_id
    || c.caller.role == organizer_admin
    || is_user c.caller.user_id c.guardian

-- The checks before the first call
unfoldable pub capture_begins : Capture → Stage
unfolding authorized
capture_begins c =
    if not (c.caller.organization_id == c.org_id)
    then returned (err cross_tenant_access)
    else if not (authorized c)
    then returned (err permission_denied)
    else asks_record c

-- The record that the capture starts from, of what `Get` answers.
unfoldable pub start_from : Capture → Result Error ConsentRecord → Result Error ConsentRecord
start_from c r =
    on_file_or_new r
      (new_consent_record c.user_id c.org_id c.is_minor c.guardian c.caller.user_id c.created)

unfoldable pub changed_by : Capture → ConsentRecord → ConsentRecord
changed_by c rec =
    if c.grant
    then grant_consent c.consent_type c.caller.user_id c.now rec
    else revoke_consent c.consent_type c.caller.user_id c.now rec

unfoldable pub after_record : Capture → Result Error ConsentRecord → Stage
unfolding changed_by
after_record c (ok rec) = upserts (changed_by c rec)
after_record c (err e) = returned (err e)

-- One call of the repository, with what follows it.
unfoldable pub capture_advance : Stage → State → Stage × State
unfolding after_record start_from
capture_advance (asks_record c) s =
    (after_record c (start_from c (Store.get_consent c.org_id c.user_id s.consents)), s)
capture_advance (upserts rec) s =
    (returned (ok rec), record s { consents = (Store.upsert_consent rec s.consents).1 })
capture_advance (returned r) s = (returned r, s)

-- A capture that nothing comes in between does just what `CaptureConsent` does.
pub capture_advance-capture_consent :
    (c : Capture) (s : State)
    → let r =
        capture_consent c.caller c.org_id c.user_id c.is_minor c.guardian c.consent_type c.grant
          c.created c.now s in
      let (t, s') = capture_advance (capture_begins c) s in
      capture_advance t s' ≡ (returned r.0, r.1)
unfolding capture_advance capture_begins capture_consent start_from Store.upsert_consent
capture_advance-capture_consent c s =
    elim (Result-cases (start_from c (Store.get_consent c.org_id c.user_id s.consents))) [
      | inl (rec, found) ↦ ground arith
      | inr (e, failed) ↦ ground arith
    ]

-- Two captures and the stores that they share.
pub record Both : Type 0 where
  pub left : Stage
  pub right : Stage
  pub state : State

-- A schedule says at each step whether it is the left capture that goes on.
unfoldable pub run_captures : List Bool → Both → Both
run_captures [] b = b
run_captures (true ∷ turns) b =
    let (t, s) = capture_advance b.left b.state in
    run_captures turns (record { left = t; right = b.right; state = s })
run_captures (false ∷ turns) b =
    let (t, s) = capture_advance b.right b.state in
    run_captures turns (record { left = b.left; right = t; state = s })

abbrev pub both_begin : Capture → Capture → State → Both
both_begin i j s = record { left = capture_begins i; right = capture_begins j; state = s }
