-- ===== src/MatchTournament/Client.antt =====
-- services/match-tournament/internal/identityaccess/client.go: the consent checker, over HTTP.
-- The HTTP library is a parameter: what a GET of a URL with an `Authorization` header gives.
use Prim.Native.String.{◌++◌ as text_append}
use cricket_drs_system.Prelude.{
  ℕ, String, Bool, false, ◌&&◌, Option, none, some, string_eq, nat_eq, if◌then◌else◌,
}
use cricket_drs_system.Exec.{Result, ok, err}
use cricket_drs_system.Bearer.{bearer_header}
use cricket_drs_system.Table.{Table, lookup}
use cricket_drs_system.MatchTournament.Domain.{UserId, Error, dependency}

-- A response: its status, and the grants if the body decodes as `consentResponse`.
pub record Reply : Type 0 where
  pub status : ℕ
  pub grants : Option (Table String Bool)

-- `httpClient.Do` of a GET; `none` where the request fails.
abbrev pub Get : Type 0
Get = String → String → Option Reply

-- `fmt.Sprintf("%s/v1/users/%s/consent", c.baseURL, userID)`
unfoldable pub consent_url : String → UserId → String
consent_url base_url user_id =
    text_append base_url (text_append "/v1/users/" (text_append user_id "/consent"))

-- `body.Grants[t]`
unfoldable pub reads_grant : String → Table String Bool → Bool
reads_grant t g = elim (lookup t g) [ none ↦ false | some b ↦ b ]

-- The test on the two types that make a player eligible.
unfoldable pub decide : Option (Table String Bool) → Result Error Bool
unfolding reads_grant
decide none = err (dependency "identityaccess: decode consent response")
decide (some g) = ok (reads_grant "video_capture" g && reads_grant "ai_analysis" g)

unfoldable pub classify : Option Reply → Result Error Bool
unfolding decide
classify none = err (dependency "identityaccess: consent check request failed")
classify (some r) =
    if nat_eq r.status 200
    then decide r.grants
    else if nat_eq r.status 404
    then ok false
    else err (dependency "identityaccess: unexpected status checking consent")

-- `Client.IsEligibleForDRS`
unfoldable pub is_eligible_for_drs : Get → String → String → UserId → Result Error Bool
unfolding classify consent_url
is_eligible_for_drs get base_url token user_id =
    classify (get (consent_url base_url user_id) (bearer_header token))
