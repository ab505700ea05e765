-- ===== src/Platform/Tests.antt =====
-- The consent gate over a client whose requests reach identity-access: a router knows the one
-- pattern "/v1/users/{userID}/consent", and answers any other path with 404.
mod Identity
mod Cameras
mod Clips
mod Channel
mod Deployment
mod Listings
use Prim.Native.String.{◌++◌ as text_append}
use Prim.Native.String.append
use cricket_drs_system.Prelude.{
  String, ◌≡◌, refl, ◌⊎◌, true, false, [], ◌∷◌, ◌&&◌, Option, some, none, string_eq, pair_eq, ◌==◌,
  eq_refl, if◌then◌else◌,
}
use cricket_drs_system.Prelude.Int.{pos}
use cricket_drs_system.Exec.{ok}
use cricket_drs_system.Table.{lookup, put}
use cricket_drs_system.Bearer.{after, after-append, after_bearer}
use cricket_drs_system.Platformauth.{organizer_admin}
use cricket_drs_system.IdentityAccess.Domain.{UserId}
use cricket_drs_system.IdentityAccess.Store
use cricket_drs_system.IdentityAccess.Service
use cricket_drs_system.IdentityAccess.Service.{Ports}
use cricket_drs_system.IdentityAccess.Http
use cricket_drs_system.IdentityAccess.Http.{Inputs}
use cricket_drs_system.IdentityAccess.Consent.{on_file}
use cricket_drs_system.MatchTournament.Client.{Get, Reply, consent_url, is_eligible_for_drs}
use cricket_drs_system.MatchTournament.Domain.{new_roster_entry, can_manage_matches}
use cricket_drs_system.MatchTournament.Store as MatchesStore
use cricket_drs_system.MatchTournament.Service as Matches
use cricket_drs_system.MatchTournament.Http as MatchesHttp
use cricket_drs_system.MatchTournament.Tests.{club, addition, added}
use cricket_drs_system.Platform.Url.{is_plain, Plain, but_eight, but_eight-append}
use cricket_drs_system.Platform.{Reaches, reply_of, serve-on_file, is_eligible_for_drs-on_file}

-- What stands before "/consent", if that is one segment.
abbrev segment_of : Option String → Option UserId
segment_of none = none
segment_of (some rest) =
    let u = but_eight rest in
    if is_plain u && text_append u "/consent" == rest then some u else none

-- The player of a path that the pattern matches.
unfoldable pub player_of : String → Option UserId
player_of path = segment_of (after "/v1/users/" path)

pub player_of_path :
    (u : UserId)
    → Plain u
    → player_of (text_append "/v1/users/" (text_append u "/consent")) ≡ some u
unfolding player_of
player_of_path u plain =
    rw
      (
        after-append "/v1/users/" (text_append u "/consent"),
        but_eight-append u,
        plain,
        eq_refl (text_append u "/consent"),
      )
      refl

abbrev ports : Ports
ports = record {
  hash = λ p. none;
  compare = λ h p. false;
  issue = λ u o r. none;
  verify =
      λ t. some (record { user_id = "user_0"; organization_id = "club"; role = organizer_admin });
}

abbrev pub inputs : Inputs
inputs = record { fresh_org = "1"; fresh_user = "1"; created = pos 1; now = pos 2 }

-- Of the one player on file.
abbrev pub consents : Service.State
consents = record {
  orgs = [];
  users = [];
  consents =
      (
        ("club", "p"),
        record {
          user_id = "p";
          organization_id = "club";
          grants = some (("video_capture", true) ∷ ("ai_analysis", true) ∷ []);
          is_minor = false;
          guardian_user_id = none;
          updated_at = pos 0;
          updated_by = "p";
        },
      )
      ∷ [];
}

-- The router's answer to a path.
abbrev pub routed : (UserId → Reply) → Option UserId → Option Reply
routed serve_player none = some (record { status = 404; grants = none })
routed serve_player (some u) = some (serve_player u)

get : Get
get url header =
    routed
      (λ u.
        reply_of
          (Http.serve ports inputs (Http.Request.behind_auth header (Http.Route.get_consent u))
            consents).0)
      (player_of url)

get-Reaches : (t : String) → Reaches get "" ports inputs consents t
unfolding get
get-Reaches t u plain = rw (append.nil, player_of_path u plain) refl

is_eligible_for_drs-on_file_example :
    is_eligible_for_drs get "" "t" "p"
    ≡ ok (on_file consents "club" "p" "video_capture" && on_file consents "club" "p" "ai_analysis")
is_eligible_for_drs-on_file_example =
    is_eligible_for_drs-on_file get "" ports inputs consents "t" (get-Reaches "t") "p"
      (record { user_id = "user_0"; organization_id = "club"; role = organizer_admin })
      (unfold is_plain in refl) refl refl

abbrev env : MatchesHttp.Environment
env = record { fresh = "1"; now = pos 5; verify = ports.verify; check = is_eligible_for_drs get "" }

added_now :
    lookup ("club", ("final", "p")) (MatchesHttp.serve env "Bearer t" addition club).1.rosters
    ≡ some added
unfolding get is_eligible_for_drs consent_url player_of is_plain but_eight after MatchesHttp.serve
    MatchesHttp.handle MatchesHttp.bearer_token after_bearer Matches.add_player_to_roster
    new_roster_entry can_manage_matches MatchesStore.get_match MatchesStore.get_team
    MatchesStore.add_entry lookup put Matches.authenticate Http.serve Service.authenticate
    Service.get_consent Store.get_consent Http.to_consent_response
added_now = refl
