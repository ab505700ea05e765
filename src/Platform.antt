-- ===== src/Platform.antt =====
-- How match-tournament's consent gate stands on identity-access: the HTTP client of the one
-- (services/match-tournament/internal/identityaccess) against the handlers of the other
-- (services/identity-access/internal/httpapi), with the caller's own token.
pub mod Channel
pub mod Cameras
pub mod Identity
pub mod Deployment
pub mod Listings
pub mod Clips
pub mod Url
mod Tests
use Prim.Native.String.{◌++◌ as text_append}
use cricket_drs_system.Prelude.{
  String, ◌≡◌, refl, ◌⊎◌, inl, inr, Bool, true, false, ◌&&◌, ◌||◌, Option, some, none, [], ◌∷◌,
  List, arith, ◌==◌, string_eq, pair_eq, eq_refl, nat_eq, sym, Option-cases,
}
use cricket_drs_system.Exec.{Result, ok, err, Result-cases}
use cricket_drs_system.Table.{Table, lookup}
use cricket_drs_system.Bearer.{bearer_header, after_bearer-bearer_header}
use cricket_drs_system.Platformauth.{organizer_admin}
use cricket_drs_system.Platformauth.Tokens.{Claims}
use cricket_drs_system.IdentityAccess.Domain.{
  UserId, OrganizationId, ConsentRecord, granted, consent_not_found, entries,
}
use cricket_drs_system.IdentityAccess.Store
use cricket_drs_system.IdentityAccess.Service
use cricket_drs_system.IdentityAccess.Service.{Ports}
use cricket_drs_system.IdentityAccess.Http
use cricket_drs_system.IdentityAccess.Http.{
  Inputs, Response, Body, UserResponse, ConsentResponse, error, text, token, user, organization,
  consent,
}
use cricket_drs_system.IdentityAccess.Consent.{on_file}
use cricket_drs_system.MatchTournament.Domain
use cricket_drs_system.MatchTournament.Domain.{RosterEntry}
use cricket_drs_system.MatchTournament.Store.{RosterKey}
use cricket_drs_system.MatchTournament.Service as Matches
use cricket_drs_system.MatchTournament.Http as MatchesHttp
use cricket_drs_system.MatchTournament.Client.{Get, Reply, is_eligible_for_drs, reads_grant}
use cricket_drs_system.MatchTournament.Roster.Gate.{Admitted, serve-Admitted}
use cricket_drs_system.Platform.Url.{Plain}

-- What a client reads of the grants in a body: an object without that member has none.
abbrev pub grants_of : Body → Option (Table String Bool)
grants_of (consent c) = some c.grants
grants_of (text t) = none
grants_of (error e) = some []
grants_of (token t) = some []
grants_of (user u) = some []
grants_of (organization o u) = some []

abbrev pub reply_of : Response → Reply
reply_of r = record { status = r.status; grants = grants_of r.body }

-- A GET with the token at the path "/v1/users/<u>/consent" of identity-access is answered by the
-- handler that its router has for it, in this state, for each identifier that is one segment.
abbrev pub Reaches : Get → String → Ports → Inputs → Service.State → String → Type 0
Reaches get base_url ports inputs s t =
    (u : UserId)
    → Plain u
    → get (text_append base_url (text_append "/v1/users/" (text_append u "/consent")))
        (bearer_header t)
      ≡ some (
          reply_of
            (Http.serve ports inputs
              (Http.Request.behind_auth (bearer_header t) (Http.Route.get_consent u)) s).0)

module _ (get : Get) (base_url : String) (ports : Ports) (inputs : Inputs) (s : Service.State)
    (t : String) (reaches : Reaches get base_url ports inputs s t) where
  -- What identity-access answers an organizer admin who asks about a consent.
  answer_found :
      (u : UserId) (c : Claims) (rec : ConsentRecord)
      → ports.verify t ≡ some c
      → c.role ≡ organizer_admin
      → lookup (c.organization_id, u) s.consents ≡ some rec
      → (Http.serve ports inputs (Http.behind_auth (bearer_header t) (Http.get_consent u)) s).0
        ≡ record {
          status = 200;
          body = consent (Http.to_consent_response (Store.clone_consent_record rec));
        }
  unfolding Http.serve Service.authenticate Service.get_consent Store.get_consent
  answer_found u c rec verified admin found =
      ground (arith, after_bearer-bearer_header t, eq_refl c.organization_id, eq_refl c.role)

  answer_missing :
      (u : UserId) (c : Claims)
      → ports.verify t ≡ some c
      → c.role ≡ organizer_admin
      → lookup (c.organization_id, u) s.consents ≡ none
      → (Http.serve ports inputs (Http.behind_auth (bearer_header t) (Http.get_consent u)) s).0
        ≡ record { status = 404; body = error "consent record not found" }
  unfolding Http.serve Service.authenticate Service.get_consent Store.get_consent
      Http.write_service_error
  answer_missing u c verified admin missing =
      ground (arith, after_bearer-bearer_header t, eq_refl c.organization_id, eq_refl c.role)

  on_file_found :
      (o : OrganizationId) (u : UserId) (rec : ConsentRecord) (type : String)
      → lookup (o, u) s.consents ≡ some rec
      → on_file s o u type
        ≡ reads_grant type (Http.to_consent_response (Store.clone_consent_record rec)).grants
  unfolding on_file Store.get_consent granted reads_grant Http.to_consent_response
      Store.clone_consent_record
  on_file_found o u rec type found = ground arith

  on_file_missing :
      (o : OrganizationId) (u : UserId) (type : String)
      → lookup (o, u) s.consents ≡ none
      → on_file s o u type ≡ false
  unfolding on_file Store.get_consent
  on_file_missing o u type missing = ground arith

  -- Where requests for consents reach identity-access, the client's answer about a player whose
  -- identifier is not empty and of ASCII letters and digits, "-" and "_" alone, for the token of an
  -- organizer admin, is what identity-access has on file in that admin's tenant: consent to video
  -- capture and to AI analysis, both.
  pub is_eligible_for_drs-on_file :
      (u : UserId) (c : Claims)
      → Plain u
      → ports.verify t ≡ some c
      → c.role ≡ organizer_admin
      → is_eligible_for_drs get base_url t u
        ≡ ok (
            on_file s c.organization_id u "video_capture"
            && on_file s c.organization_id u "ai_analysis")
  unfolding is_eligible_for_drs
  is_eligible_for_drs-on_file u c plain verified admin =
      let o = c.organization_id in
      elim (Option-cases (lookup (o, u) s.consents)) [
        | inl missing ↦
            rw
              (
                reaches u plain,
                answer_missing u c verified admin missing,
                on_file_missing o u "video_capture" missing,
              )
              refl
        | inr (rec, found) ↦
            rw
              (
                reaches u plain,
                answer_found u c rec verified admin found,
                on_file_found o u rec "video_capture" found,
                on_file_found o u rec "ai_analysis" found,
              )
              refl
      ]

  -- Where both services verify tokens alike, the gate asks through the client, and requests for
  -- consents reach identity-access: whatever a request to match-tournament is, an entry that it
  -- puts on a roster, of a player whose identifier is plain, is of a player who has, on file at identity-access at that moment, granted
  -- video capture and AI analysis in the entry's tenant.
  pub serve-on_file :
      (env : MatchesHttp.Environment) (header : String) (route : MatchesHttp.Route)
      (m : Matches.State) (k : RosterKey) (e : RosterEntry)
      → t ≡ MatchesHttp.bearer_token header
      → Plain e.user_id
      → env.verify ≡ ports.verify
      → env.check ≡ is_eligible_for_drs get base_url
      → lookup k (MatchesHttp.serve env header route m).1.rosters ≡ some e
      → (lookup k m.rosters ≡ some e)
        ⊎ ((on_file s e.organization_id e.user_id "video_capture" ≡ true)
            × (on_file s e.organization_id e.user_id "ai_analysis" ≡ true))
  serve-on_file env header route m k e own plain same asks found =
      elim (serve-Admitted env header route m k e found) [
        | inl old ↦ inl old
        | inr a ↦
            let verified : ports.verify t ≡ some a.claims = rw (sym same, own) a.verified in
            let answer = is_eligible_for_drs-on_file e.user_id a.claims plain verified a.manager in
            let consenting : is_eligible_for_drs get base_url t e.user_id ≡ ok true =
              rw (sym asks, own) a.consenting in
            inr (ground (arith, a.own_tenant))
      ]
