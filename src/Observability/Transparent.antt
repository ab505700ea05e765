-- ===== src/Observability/Transparent.antt =====
-- The middleware against the service alone, request by request and over a history.
use cricket_drs_system.Prelude.{
  ℕ, suc, ◌+◌, String, ◌≡◌, refl, ap, ◌∙◌, sym, inl, inr, Bool, true, false, List, [], ◌∷◌, ◌++◌,
  map, append_assoc, append-nil, arith, ◌==◌, string_eq, pair_eq, pair_beq_iff, ◌↔◌, Bool-cases,
  if◌then◌else◌,
}
use cricket_drs_system.Table.{lookup-put}
use cricket_drs_system.Observability.{
  Request, status_only, Outcome, answered, panicked, Labels, Registry, World, Handler, counter,
  observe, cors_headers, with_headers, spanned, cors, routed, labels, count_request, metrics, entry,
  log_request, logging, Libraries, chain, run_chain,
}
use cricket_drs_system.Observability.Fates.{
  Fate, preflighted, handled, preflight, visible, fate, fates, entries, tally,
}

labels_iff : (k l : Labels) → (k == l ≡ true) ↔ (k ≡ l)
labels_iff k l = pair_beq_iff string_eq pair_eq k l

counter-observe :
    (l k : Labels) (n : ℕ) (reg : Registry)
    → counter l (observe k n reg).requests_total
      ≡ (if k == l then suc (counter l reg.requests_total) else counter l reg.requests_total)
unfolding counter observe
counter-observe l k n reg =
    ground (
      arith,
      lookup-put k l (suc (counter k reg.requests_total)) reg.requests_total,
      labels_iff k l,
    )

module _ {S R : Type 0} (lib : Libraries S R) (code : R → ℕ) (itoa : ℕ → String) where
  -- The world after a request.
  unfoldable after : Fate R → World S → S → World S
  after preflighted w s = w
  after (handled r (answered a)) w s = record {
    service = s;
    registry = observe (labels code itoa r a) r.metrics_elapsed w.registry;
    log = w.log ++ (entry code itoa r a ∷ []);
  }
  after (handled r (panicked hs)) w s = record w { service = s }

  -- What the Recoverer makes of an outcome.
  unfoldable settled : Outcome R → Outcome R
  settled (answered a) = answered a
  settled (panicked hs) = answered (record { headers = hs; reply = status_only 500 })

  recoverer_lem :
      (next : Handler S R) (r : Request) (w w' : World S) (o : Outcome R)
      → next r w ≡ (o, w')
      → lib.recoverer next r w ≡ (settled o, w')
  unfolding settled
  recoverer_lem next r w w' (answered a) h = lib.recoverer_passes next r w w' a h
  recoverer_lem next r w w' (panicked hs) h = lib.recoverer_recovers next r w w' hs h

  module _ (inner : Request → S → Outcome R × S) where
    abbrev inside : Handler S R
    inside = metrics code itoa (logging code itoa (routed inner))

    inside_lem :
        (r : Request) (w : World S) (o : Outcome R) (s : S)
        → inner r w.service ≡ (o, s)
        → inside r w ≡ (o, after (handled r o) w s)
    unfolding metrics logging routed count_request log_request after
    inside_lem r w (answered a) s h = rw h refl
    inside_lem r w (panicked hs) s h = rw h refl

    settled-with_headers :
        (r : Request) (o : Outcome R)
        → (settled (with_headers cors_headers o) ≡ visible true (handled r o))
          × (settled o ≡ visible false (handled r o))
    unfolding settled with_headers visible
    settled-with_headers r (answered a) = (refl, refl)
    settled-with_headers r (panicked hs) = (refl, refl)

    traced :
        (r : Request) (w : World S) (o : Outcome R) (s : S)
        → inner (spanned (lib.trace_id r) r) w.service ≡ (o, s)
        → lib.tracing inside r w ≡ (o, after (handled (spanned (lib.trace_id r) r) o) w s)
    traced r w o s h =
        lib.tracing_calls inside r w ∙ inside_lem (spanned (lib.trace_id r) r) w o s h

    cors_passes :
        (r : Request) (w w' : World S) (o : Outcome R)
        → preflight true r ≡ false
        → lib.tracing inside r w ≡ (o, w')
        → cors (lib.tracing inside) r w ≡ (with_headers cors_headers o, w')
    unfolding cors
    cors_passes r w w' o passes h = rw (passes, h) refl

    chain_handled :
        (browser : Bool) (r : Request) (w : World S) (o : Outcome R) (s : S)
        → preflight browser r ≡ false
        → inner (spanned (lib.trace_id r) r) w.service ≡ (o, s)
        → let f = handled (spanned (lib.trace_id r) r) o in
          chain lib code itoa browser inner r w ≡ (visible browser f, after f w s)
    unfolding chain
    chain_handled true r w o s passes h =
        recoverer_lem _ r w _ (with_headers cors_headers o)
          (cors_passes r w _ o passes (traced r w o s h))
        ∙ ap (λ x. (x, after (handled (spanned (lib.trace_id r) r) o) w s))
            (settled-with_headers (spanned (lib.trace_id r) r) o).0
    chain_handled false r w o s passes h =
        recoverer_lem _ r w _ o (traced r w o s h)
        ∙ ap (λ x. (x, after (handled (spanned (lib.trace_id r) r) o) w s))
            (settled-with_headers (spanned (lib.trace_id r) r) o).1

    chain-preflight :
        (browser : Bool) (r : Request) (w : World S)
        → preflight browser r ≡ true
        → chain lib code itoa browser inner r w ≡ (visible browser preflighted, w)
    unfolding chain cors visible
    chain-preflight true r w is = lib.recoverer_passes _ r w w _ (rw is refl)
    chain-preflight false r w is = absurd (ground (arith, is))

    -- One request.
    chain-fate :
        (browser : Bool) (r : Request) (w : World S)
        → let (f, s) = fate lib inner browser r w.service in
          chain lib code itoa browser inner r w ≡ (visible browser f, after f w s)
    unfolding fate after
    chain-fate browser r w = elim (Bool-cases (preflight browser r)) [
      | inl is ↦ rw is (chain-preflight browser r w is)
      | inr passes ↦ rw passes (chain_handled browser r w _ _ passes refl)
    ]

    after-log :
        (f : Fate R) (fs : List (Fate R)) (w : World S) (s : S)
        → (after f w s).log ++ entries code itoa fs ≡ w.log ++ entries code itoa (f ∷ fs)
    unfolding after entries
    after-log preflighted fs w s = refl
    after-log (handled r (answered a)) fs w s = append_assoc w.log (entry code itoa r a ∷ []) _
    after-log (handled r (panicked hs)) fs w s = refl

    after-counter :
        (l : Labels) (f : Fate R) (fs : List (Fate R)) (w : World S) (s : S)
        → counter l (after f w s).registry.requests_total + tally code itoa l fs
          ≡ counter l w.registry.requests_total + tally code itoa l (f ∷ fs)
    unfolding after tally
    after-counter l preflighted fs w s = refl
    after-counter l (handled r (answered a)) fs w s =
        ground (arith, counter-observe l (labels code itoa r a) r.metrics_elapsed w.registry)
    after-counter l (handled r (panicked hs)) fs w s = refl

    handled_service :
        (r : Request) (o : Outcome R) (w : World S) (s : S) → (after (handled r o) w s).service ≡ s
    unfolding after
    handled_service r (answered a) w s = refl
    handled_service r (panicked hs) w s = refl

    after-service :
        (browser : Bool) (r : Request) (w : World S)
        → let (f, s) = fate lib inner browser r w.service in (after f w s).service ≡ s
    unfolding fate
    after-service browser r w = elim (Bool-cases (preflight browser r)) [
      | inl is ↦ unfold after in rw is refl
      | inr passes ↦ rw passes (handled_service _ _ w _)
    ]

    abbrev Accounts : Bool → List Request → World S → S → Type 0
    Accounts browser rs w s0 =
        let (seen, w') = run_chain lib code itoa browser inner rs w in
        let (fs, s) = fates lib inner browser rs s0 in
        (seen ≡ map (visible browser) fs)
        × (w'.service ≡ s)
        × (w'.log ≡ w.log ++ entries code itoa fs)
        × ((l : Labels)
            → counter l w'.registry.requests_total
              ≡ counter l w.registry.requests_total + tally code itoa l fs)

    run_chain-Accounts :
        (browser : Bool) (rs : List Request) (w : World S) (s : S)
        → w.service ≡ s
        → Accounts browser rs w s
    unfolding run_chain fates
    run_chain-Accounts browser [] w s h =
        unfold entries tally in (refl, h, sym (append-nil w.log), λ l. ground arith)
    run_chain-Accounts browser (r ∷ rs) w s h =
        let (f, s') = fate lib inner browser r w.service in
        let (seen, service, log, counts) =
          run_chain-Accounts browser rs (after f w s') s' (after-service browser r w) in
        rw (← h, chain-fate browser r w)
          (
            ap (λ os. visible browser f ∷ os) seen,
            service,
            log ∙ after-log f (fates lib inner browser rs s').0 w s',
            λ l. counts l ∙ after-counter l f (fates lib inner browser rs s').0 w s',
          )

    -- Whatever history of requests a service meets through its middleware, from any state: a client
    -- sees what the service's handler alone answers in its place, under the headers of CORS where the
    -- service uses it, with 500 for a panic and 204 for a preflight, which the handler never sees;
    -- the service is left as the handler alone leaves it. The log gains one line, with the trace, for
    -- each request that the handler answered, in order, and each counter the number of those with its
    -- labels; a preflight and a request whose handler panics leave no line and are not counted.
    pub run_chain-fates :
        (browser : Bool) (rs : List Request) (w : World S)
        → let (seen, w') = run_chain lib code itoa browser inner rs w in
          let (fs, s) = fates lib inner browser rs w.service in
          (seen ≡ map (visible browser) fs)
          × (w'.service ≡ s)
          × (w'.log ≡ w.log ++ entries code itoa fs)
          × ((l : Labels)
              → counter l w'.registry.requests_total
                ≡ counter l w.registry.requests_total + tally code itoa l fs)
    run_chain-fates browser rs w = run_chain-Accounts browser rs w w.service refl
