-- ===== src/Platform/Deployment.antt =====
-- The services as their `main` functions start them, each from its own environment: which keys they
-- share, and what a whole history of requests to match-tournament leaves on its rosters.
use cricket_drs_system.Prelude.{
  ℕ, String, ◌≡◌, ◌≢◌, refl, ap, ◌⊎◌, inl, inr, Bool, true, false, some, List, [], ◌∷◌, ◌++◌, All,
  arith, string_eq, pair_eq,
}
use cricket_drs_system.Prelude.Int.{Time}
use cricket_drs_system.Table.{lookup}
use cricket_drs_system.Startup.{Environment, serves}
use cricket_drs_system.Platformauth.Tokens.{Jwt}
use cricket_drs_system.IdentityAccess.Service as Accounts
use cricket_drs_system.IdentityAccess.Http.{Inputs}
use cricket_drs_system.IdentityAccess.Main as AccountsMain
use cricket_drs_system.IdentityAccess.Consent.{on_file}
use cricket_drs_system.IdentityAccess.Security.{Bcrypt, ports_at, verify_token}
use cricket_drs_system.MatchTournament.Domain.{RosterEntry}
use cricket_drs_system.MatchTournament.Store.{RosterKey, RosterStore}
use cricket_drs_system.MatchTournament.Service as Matches
use cricket_drs_system.MatchTournament.Http as MatchesHttp
use cricket_drs_system.MatchTournament.Client.{Get, is_eligible_for_drs}
use cricket_drs_system.MatchTournament.Security as MatchesSecurity
use cricket_drs_system.MatchTournament.Main as MatchesMain
use cricket_drs_system.Platform.{Reaches, serve-on_file}
use cricket_drs_system.Platform.Url.{Plain}

-- A request to match-tournament, with what it meets: the random text and the clocks, the network,
-- and identity-access at that moment.
pub record Moment : Type 0 where
  pub header : String
  pub route : MatchesHttp.Route
  pub fresh : String
  pub now : Time
  pub seconds : ℕ
  pub get : Get
  pub inputs : Inputs
  pub accounts : Accounts.State

module _ (jwt : Jwt String) (bcrypt : Bcrypt) (a : AccountsMain.Program)
    (m : MatchesMain.Program) where
  -- What the handlers of match-tournament are given, as `main` puts it together.
  abbrev pub environment_at : Moment → MatchesHttp.Environment
  environment_at x = record {
    fresh = x.fresh;
    now = x.now;
    verify = MatchesSecurity.verify_token jwt m.signing_key x.seconds;
    check = is_eligible_for_drs x.get m.identity_access_url;
  }

  -- Requests for consents with the request's token reach identity-access, as its `main` puts it
  -- together.
  abbrev pub Connected : Moment → Type 0
  Connected x =
      Reaches x.get m.identity_access_url (ports_at jwt a.signing_key bcrypt x.seconds) x.inputs
        x.accounts (MatchesHttp.bearer_token x.header)

  -- The stores of match-tournament after a history of requests.
  unfoldable pub serve_all : List Moment → Matches.State → Matches.State
  serve_all [] s = s
  serve_all (x ∷ xs) s = serve_all xs (MatchesHttp.serve (environment_at x) x.header x.route s).1

  -- At some moment of the history the player of the entry had both consents on file.
  pub record Consented (history : List Moment) (e : RosterEntry) : Type 0 where
    pub before : List Moment
    pub moment : Moment
    pub later : List Moment
    pub parts : history ≡ before ++ (moment ∷ later)
    pub captured : on_file moment.accounts e.organization_id e.user_id "video_capture" ≡ true
    pub analysed : on_file moment.accounts e.organization_id e.user_id "ai_analysis" ≡ true

  verify_alike :
      (seconds : ℕ)
      → m.signing_key ≡ a.signing_key
      → MatchesSecurity.verify_token jwt m.signing_key seconds
        ≡ (ports_at jwt a.signing_key bcrypt seconds).verify
  unfolding MatchesSecurity.verify_token ports_at verify_token
  verify_alike seconds same = rw same refl

  serve_all-Consented :
      (history : List Moment) (s : Matches.State) (k : RosterKey) (e : RosterEntry)
      → m.signing_key ≡ a.signing_key
      → All Connected history
      → Plain e.user_id
      → lookup k (serve_all history s).rosters ≡ some e
      → (lookup k s.rosters ≡ some e) ⊎ Consented history e
  unfolding serve_all
  serve_all-Consented [] s k e same reaches plain found = inl found
  serve_all-Consented (x ∷ xs) s k e same reaches plain found =
      elim (serve_all-Consented xs _ k e same reaches.1 plain found) [
        | inr c ↦ inr (record {
          before = x ∷ c.before;
          moment = c.moment;
          later = c.later;
          parts = ap (λ ys. x ∷ ys) c.parts;
          captured = c.captured;
          analysed = c.analysed;
        })
        | inl after ↦
            elim (serve-on_file x.get m.identity_access_url
              (ports_at jwt a.signing_key bcrypt x.seconds) x.inputs x.accounts
              (MatchesHttp.bearer_token x.header) reaches.0 (environment_at x) x.header x.route s k
              e refl plain (verify_alike x.seconds same) refl after) [
                | inl old ↦ inl old
                | inr (captured, analysed) ↦ inr (record {
                  before = [];
                  moment = x;
                  later = xs;
                  parts = refl;
                  captured = captured;
                  analysed = analysed;
                })
              ]
      ]

-- Two services whose environments agree on the key, or both do not set it, start with one key.
same_key :
    (env_a env_m : Environment) (obs_a obs_m : Bool) (a : AccountsMain.Program)
    (m : MatchesMain.Program)
    → AccountsMain.main env_a obs_a ≡ serves a
    → MatchesMain.main env_m obs_m ≡ serves m
    → env_a "JWT_SIGNING_KEY" ≡ env_m "JWT_SIGNING_KEY"
    → (m.signing_key ≡ a.signing_key) × (m.state.rosters ≡ [])
unfolding AccountsMain.main MatchesMain.main
same_key env_a env_m true true a m started_a started_m same = (ground arith, ground arith)
same_key env_a env_m false obs_m a m started_a started_m same = absurd (ground arith)
same_key env_a env_m true false a m started_a started_m same = absurd (ground arith)

none_on_empty : (k : RosterKey) (e : RosterEntry) (s : RosterStore) → s ≡ [] → lookup k s ≢ some e
unfolding lookup
none_on_empty k e s empty found = ground arith

-- Where match-tournament and identity-access are started with the same JWT_SIGNING_KEY, or both
-- without one, and requests for consents reach identity-access: after any history of requests to
-- match-tournament, whatever became of identity-access between them, the player of every entry on a
-- roster whose identifier is not empty and of ASCII letters and digits, "-" and "_" alone had, on
-- file at the moment of one of the requests, granted video capture and AI analysis in the entry's
-- tenant.
pub rosters-Consented :
    (jwt : Jwt String) (bcrypt : Bcrypt) (env_a env_m : Environment) (obs_a obs_m : Bool)
    (a : AccountsMain.Program) (m : MatchesMain.Program) (history : List Moment) (k : RosterKey)
    (e : RosterEntry)
    → AccountsMain.main env_a obs_a ≡ serves a
    → MatchesMain.main env_m obs_m ≡ serves m
    → env_a "JWT_SIGNING_KEY" ≡ env_m "JWT_SIGNING_KEY"
    → All (Connected jwt bcrypt a m) history
    → Plain e.user_id
    → lookup k (serve_all jwt bcrypt a m history m.state).rosters ≡ some e
    → Consented jwt bcrypt a m history e
rosters-Consented jwt bcrypt env_a env_m obs_a obs_m a m history k e started_a started_m same
      reaches plain found =
    let (key, empty) = same_key env_a env_m obs_a obs_m a m started_a started_m same in
    elim (serve_all-Consented jwt bcrypt a m history m.state k e key reaches plain found) [
      | inl old ↦ absurd (none_on_empty k e m.state.rosters empty old)
      | inr consented ↦ consented
    ]
