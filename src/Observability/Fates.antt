-- ===== src/Observability/Fates.antt =====
-- What a history of requests shows to the clients, and leaves in the service, the log and the
-- counters.
use cricket_drs_system.Prelude.{
  ℕ, suc, String, Bool, ◌&&◌, List, [], ◌∷◌, ◌++◌, ◌==◌, string_eq, pair_eq, if◌then◌else◌,
}
use cricket_drs_system.Observability.{
  Request, Header, status_only, Outcome, answered, panicked, Labels, Entry, cors_headers, spanned,
  labels, entry, Libraries,
}

-- What becomes of a request: CORS answers it, or it reaches the service's handler.
pub data Fate (R : Type 0) : Type 0 where
  preflighted : Fate R
  handled : Request → Outcome R → Fate R

abbrev pub preflight : Bool → Request → Bool
preflight browser r = browser && r.method == "OPTIONS"

abbrev headers_of : Bool → List Header
headers_of browser = if browser then cors_headers else []

-- What the client sees.
unfoldable pub visible : {R : Type 0} → Bool → Fate R → Outcome R
visible browser preflighted = answered (record { headers = cors_headers; reply = status_only 204 })
visible browser (handled r (answered a)) =
    answered (record { headers = headers_of browser ++ a.headers; reply = a.reply })
visible browser (handled r (panicked hs)) =
    answered (record { headers = headers_of browser ++ hs; reply = status_only 500 })

module _ {S R : Type 0} (lib : Libraries S R) (inner : Request → S → Outcome R × S) where
  -- The service alone, on the requests that reach it.
  unfoldable pub fate : Bool → Request → S → Fate R × S
  fate browser r s =
      let (o, s') = inner (spanned (lib.trace_id r) r) s in
      if preflight browser r then (preflighted, s) else (handled (spanned (lib.trace_id r) r) o, s')

  unfoldable pub fates : Bool → List Request → S → List (Fate R) × S
  unfolding fate
  fates browser [] s = ([], s)
  fates browser (r ∷ rs) s =
      let (f, s') = fate browser r s in let (fs, s2) = fates browser rs s' in (f ∷ fs, s2)

module _ {R : Type 0} (code : R → ℕ) (itoa : ℕ → String) where
  -- The lines of the log: one for each request that the handler answered.
  unfoldable pub entries : List (Fate R) → List Entry
  entries [] = []
  entries (handled r (answered a) ∷ fs) = entry code itoa r a ∷ entries fs
  entries (f ∷ fs) = entries fs

  -- How many requests of these labels the handler answered.
  unfoldable pub tally : Labels → List (Fate R) → ℕ
  tally l [] = 0
  tally l (handled r (answered a) ∷ fs) =
      let rest = tally l fs in if labels code itoa r a == l then suc rest else rest
  tally l (f ∷ fs) = tally l fs
