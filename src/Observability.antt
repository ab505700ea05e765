-- ===== src/Observability.antt =====
-- services/observability (logging.go, metrics.go, and tracing.go's middleware), the CORS middleware
-- of identity-access and camera-calibration (internal/httpapi/cors.go), and the order in which the
-- routers mount them (internal/httpapi/router.go). chi's Recoverer and otelhttp are parameters with
-- the laws that the code relies on; rendering the registry is Prometheus's.
mod Fates
mod Tests
pub mod Transparent
use cricket_drs_system.Prelude.{
  ℕ, suc, String, ◌≡◌, Bool, true, false, Option, none, some, List, [], ◌∷◌, ◌++◌, ◌/◌, ◌==◌,
  string_eq, pair_eq, if◌then◌else◌,
}
use cricket_drs_system.Table.{Table, lookup, put}

-- What the middleware reads of a request: the pattern that the router finds for it (empty where it
-- finds none), the trace identifier of the span in its context, and what the clocks of the two
-- middlewares measure around it, in nanoseconds.
pub record Request : Type 0 where
  pub method : String
  pub path : String
  pub pattern : String
  pub span : Option String
  pub metrics_elapsed : ℕ
  pub logging_elapsed : ℕ

abbrev pub Header : Type 0
Header = String × String

-- A service's response, or a bare status
pub data Reply (R : Type 0) : Type 0 where
  reply : R → Reply R
  status_only : ℕ → Reply R

pub record Answer (R : Type 0) : Type 0 where
  pub headers : List Header
  pub reply : Reply R

-- A handler answers, or panics with some headers set.
pub data Outcome (R : Type 0) : Type 0 where
  answered : Answer R → Outcome R
  panicked : List Header → Outcome R

-- The labels method, route and status
abbrev pub Labels : Type 0
Labels = String × (String × String)

-- `requestsTotal` and `requestDuration`: of each labels the count, and what was observed.
pub record Registry : Type 0 where
  pub requests_total : Table Labels ℕ
  pub request_duration : Table Labels (List ℕ)

-- A line of the log
pub record Entry : Type 0 where
  pub method : String
  pub path : String
  pub status : ℕ
  pub duration_ms : ℕ
  pub trace_id : Option String

pub record World (S : Type 0) : Type 0 where
  pub service : S
  pub registry : Registry
  pub log : List Entry

abbrev pub Handler : Type 0 → Type 0 → Type 0
Handler S R = Request → World S → Outcome R × World S

-- What a counter shows: 0 before its first increment.
unfoldable pub counter : Labels → Table Labels ℕ → ℕ
counter l m = elim (lookup l m) [ none ↦ 0 | some n ↦ n ]

observed_at : Labels → Table Labels (List ℕ) → List ℕ
observed_at l m = elim (lookup l m) [ none ↦ [] | some ds ↦ ds ]

-- `Inc` and `Observe`
unfoldable pub observe : Labels → ℕ → Registry → Registry
unfolding counter observed_at
observe l elapsed reg = record {
  requests_total = put l (suc (counter l reg.requests_total)) reg.requests_total;
  request_duration = put l (elapsed ∷ observed_at l reg.request_duration) reg.request_duration;
}

unfoldable pub route_label : Request → String
route_label r = if r.pattern == "" then "unmatched" else r.pattern

-- The headers that `corsMiddleware` sets
abbrev pub cors_headers : List Header
cors_headers =
    ("Access-Control-Allow-Origin", "*")
    ∷ ("Access-Control-Allow-Methods", "GET, POST, PUT, DELETE, OPTIONS")
    ∷ ("Access-Control-Allow-Headers", "Authorization, Content-Type")
    ∷ []

unfoldable pub with_headers : {R : Type 0} → List Header → Outcome R → Outcome R
with_headers hs (answered a) = answered (record { headers = hs ++ a.headers; reply = a.reply })
with_headers hs (panicked more) = panicked (hs ++ more)

abbrev pub spanned : String → Request → Request
spanned id r = record r { span = some id }

module _ {S R : Type 0} where
  -- `corsMiddleware`
  unfoldable pub cors : Handler S R → Handler S R
  unfolding with_headers
  cors next r w =
      if r.method == "OPTIONS"
      then (answered (record { headers = cors_headers; reply = status_only 204 }), w)
      else (with_headers cors_headers (next r w).0, (next r w).1)

  -- The handlers behind the middleware, on the state of the service
  unfoldable pub routed : (Request → S → Outcome R × S) → Handler S R
  routed inner r w = let (o, s) = inner r w.service in (o, record w { service = s })

-- `code` is the status that a response was written with, `itoa` is `strconv.Itoa`.
module _ {R : Type 0} (code : R → ℕ) (itoa : ℕ → String) where
  -- `ww.Status()`
  unfoldable pub status : Reply R → ℕ
  status (reply x) = code x
  status (status_only n) = n

  unfoldable pub labels : Request → Answer R → Labels
  unfolding route_label status
  labels r a = (r.method, (route_label r, itoa (status a.reply)))

  unfoldable pub entry : Request → Answer R → Entry
  unfolding status
  entry r a = record {
    method = r.method;
    path = r.path;
    status = status a.reply;
    duration_ms = r.logging_elapsed / 1000000;
    trace_id = r.span;
  }

  module _ {S : Type 0} where
    unfoldable pub count_request : Request → Outcome R × World S → Outcome R × World S
    unfolding observe labels
    count_request r (answered a, w) =
        (answered a, record w { registry = observe (labels r a) r.metrics_elapsed w.registry })
    count_request r (panicked hs, w) = (panicked hs, w)

    -- `MetricsMiddleware`: what comes after `next.ServeHTTP` does not run when that panics.
    unfoldable pub metrics : Handler S R → Handler S R
    unfolding count_request
    metrics next r w = count_request r (next r w)

    unfoldable pub log_request : Request → Outcome R × World S → Outcome R × World S
    unfolding entry
    log_request r (answered a, w) = (answered a, record w { log = w.log ++ (entry r a ∷ []) })
    log_request r (panicked hs, w) = (panicked hs, w)

    -- `LoggingMiddleware`
    unfoldable pub logging : Handler S R → Handler S R
    unfolding log_request
    logging next r w = log_request r (next r w)

-- otelhttp calls the handler with a span in the request's context; chi's Recoverer passes an answer
-- on, and answers a panic (other than http.ErrAbortHandler, and not of an upgrade) with 500.
pub record Libraries (S R : Type 0) : Type 0 where
  pub tracing : Handler S R → Handler S R
  pub trace_id : Request → String
  pub tracing_calls :
      (next : Handler S R) (r : Request) (w : World S)
      → tracing next r w ≡ next (spanned (trace_id r) r) w
  pub recoverer : Handler S R → Handler S R
  pub recoverer_passes :
      (next : Handler S R) (r : Request) (w w' : World S) (a : Answer R)
      → next r w ≡ (answered a, w')
      → recoverer next r w ≡ (answered a, w')
  pub recoverer_recovers :
      (next : Handler S R) (r : Request) (w w' : World S) (hs : List Header)
      → next r w ≡ (panicked hs, w')
      → recoverer next r w ≡ (answered (record { headers = hs; reply = status_only 500 }), w')

module _ {S R : Type 0} (lib : Libraries S R) (code : R → ℕ) (itoa : ℕ → String) where
  -- `Router`: the order of the middleware, with CORS for identity-access and camera-calibration, and
  -- without for match-tournament and media-ingest-gateway.
  unfoldable pub chain : Bool → (Request → S → Outcome R × S) → Handler S R
  unfolding cors metrics logging routed
  chain true inner =
      lib.recoverer (cors (lib.tracing (metrics code itoa (logging code itoa (routed inner)))))
  chain false inner =
      lib.recoverer (lib.tracing (metrics code itoa (logging code itoa (routed inner))))

  -- A history of requests: the outcomes, and the world after it.
  unfoldable pub run_chain :
      Bool → (Request → S → Outcome R × S) → List Request → World S → List (Outcome R) × World S
  unfolding chain
  run_chain browser inner [] w = ([], w)
  run_chain browser inner (r ∷ rs) w =
      let (o, w') = chain browser inner r w in
      let (os, w2) = run_chain browser inner rs w' in (o ∷ os, w2)
