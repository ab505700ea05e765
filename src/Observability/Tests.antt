-- ===== src/Observability/Tests.antt =====
-- The middleware around identity-access, over a history with a preflight and a panic.
use cricket_drs_system.Prelude.{
  nat_eq, ℕ, String, ◌+◌, ◌≡◌, refl, true, none, some, List, [], ◌∷◌, ◌++◌, map, ◌==◌, string_eq,
  if◌then◌else◌,
}
use cricket_drs_system.Prelude.Int.{pos}
use cricket_drs_system.IdentityAccess.Service as Accounts
use cricket_drs_system.IdentityAccess.Http as AccountsHttp
use cricket_drs_system.Observability.{
  Request, status_only, Outcome, answered, panicked, Labels, World, counter, spanned, labels, reply,
  Libraries, run_chain,
}
use cricket_drs_system.Observability.Fates.{visible, fates, entries, tally}
use cricket_drs_system.Observability.Transparent.{run_chain-fates}

abbrev S : Type 0
S = Accounts.State

abbrev R : Type 0
R = AccountsHttp.Response

abbrev ports : Accounts.Ports
ports = record {
  hash = λ p. some p;
  compare = λ h p. h == p;
  issue = λ u o r. none;
  verify = λ t. none;
}

abbrev inputs : AccountsHttp.Inputs
inputs = record { fresh_org = "1"; fresh_user = "1"; created = pos 1; now = pos 2 }

-- One path panics; the others are the health check and a request without a token.
abbrev inner : Request → S → Outcome R × S
inner r s =
    if r.path == "/boom"
    then (panicked [], s)
    else (let (x, s') =
          AccountsHttp.serve ports inputs
            (if r.path == "/healthz"
              then AccountsHttp.Request.healthz
              else AccountsHttp.Request.behind_auth "" (AccountsHttp.Route.get_consent "kid"))
            s in
        (answered (record { headers = []; reply = reply x }), s'))

abbrev recovered : Outcome R × World S → Outcome R × World S
recovered (answered a, w) = (answered a, w)
recovered (panicked hs, w) = (answered (record { headers = hs; reply = status_only 500 }), w)

abbrev lib : Libraries S R
lib = record {
  tracing = λ next r w. next (spanned "trace" r) w;
  trace_id = λ r. "trace";
  tracing_calls = λ next r w. refl;
  recoverer = λ next r w. recovered (next r w);
  recoverer_passes = λ next r w w' a h. rw h refl;
  recoverer_recovers = λ next r w w' hs h. rw h refl;
}

abbrev code : R → ℕ
code x = x.status

abbrev itoa : ℕ → String
itoa n = if nat_eq n 200 then "200" else "other"

abbrev asked : String → String → Request
asked method path = record {
  method = method;
  path = path;
  pattern = path;
  span = none;
  metrics_elapsed = 3000000;
  logging_elapsed = 2000000;
}

abbrev history : List Request
history =
    asked "GET" "/healthz"
    ∷ asked "OPTIONS" "/healthz"
    ∷ asked "GET" "/boom"
    ∷ asked "GET" "/v1/users/kid/consent"
    ∷ asked "GET" "/healthz"
    ∷ []

abbrev idle : World S
idle = record {
  service = record { orgs = []; users = []; consents = [] };
  registry = record { requests_total = []; request_duration = [] };
  log = [];
}

run_chain-fates_example :
    let (seen, w') = run_chain lib code itoa true inner history idle in
    let (fs, s) = fates lib inner true history idle.service in
    (seen ≡ map (visible true) fs)
    × (w'.service ≡ s)
    × (w'.log ≡ idle.log ++ entries code itoa fs)
    × ((l : Labels)
        → counter l w'.registry.requests_total
          ≡ counter l idle.registry.requests_total + tally code itoa l fs)
run_chain-fates_example = run_chain-fates lib code itoa inner true history idle

-- Of the five requests, the health check is counted twice.
counted_twice :
    tally code itoa ("GET", ("/healthz", "200")) (fates lib inner true history idle.service).0 ≡ 2
unfolding tally fates labels AccountsHttp.serve
counted_twice = refl
