-- ===== src/EdgeAgent/Config/Overflow.antt =====
-- What a configuration that loads satisfies, and where its window overflows.
use cricket_drs_system.Prelude.{
  ℕ, ◌≤◌, ◌<◌, ◌*◌, ◌%◌, ◌^◌, ◌-◌, String, ◌≡◌, ◌≢◌, refl, ◌⊎◌, inl, inr, Option, none, List, [],
  ◌∷◌, ◌++◌, All, All-append, arith, ◌==◌, string_eq, eq_iff, texts_differ, Bool-cases,
  Option-cases, true, false, some, zero, suc, if◌then◌else◌, ◌∙◌,
}
use cricket_drs_system.Prelude.Int.{ℤ, pos, negsuc, Time, ◌-ℤ◌, ◌≤ℤ◌, ltb_ℤ, -ℤ_parts}
use cricket_drs_system.Exec.{ok, Result-cases}
use cricket_drs_system.EdgeAgent.Bytes.{of_word64}
use cricket_drs_system.EdgeAgent.Buffer.{new_ring_buffer, snapshot}
use cricket_drs_system.EdgeAgent.Buffer.Window.{
  since, NonDecreasing, NonDecreasing-split, adds, snapshot-adds,
}
use cricket_drs_system.EdgeAgent.Config.{
  Config, seconds, first_missing, buffer_seconds, upload_transport, load, default_port,
}

port_set : (raw : String) → (if raw == "" then default_port else raw) ≢ ""
port_set raw = elim (Bool-cases (raw == "")) [
  | inl empty ↦ ground (arith, texts_differ "9090" "" refl)
  | inr given ↦ ground (arith, eq_iff raw "")
]

module _ (getenv : String → String) (atoi : String → Option ℤ) where
  first_missing-none :
      (names : List String)
      → first_missing getenv atoi names ≡ none
      → All (λ name. getenv name ≢ "") names
  unfolding first_missing
  first_missing-none [] h = tt
  first_missing-none (name ∷ names) h =
      (ground (arith, eq_iff (getenv name) ""), first_missing-none names (ground arith))

  -- What was checked of the configuration.
  pub record Loaded (order : List String) (c : Config) : Type 0 where
    pub set : All (λ name. getenv name ≢ "") order
    pub seconds_given : ℕ
    pub some_seconds : 0 < seconds_given
    pub window : c.buffer_window ≡ seconds seconds_given
    pub transport : (c.upload_transport ≡ "http") ⊎ (c.upload_transport ≡ "webrtc")
    pub has_port : c.port ≢ ""

  buffer_seconds_ok : (n : ℕ) → buffer_seconds getenv atoi ≡ ok n → 0 < n
  unfolding buffer_seconds
  buffer_seconds_ok n h = ground arith

  upload_transport_ok :
      (t : String) → upload_transport getenv atoi ≡ ok t → (t ≡ "http") ⊎ (t ≡ "webrtc")
  unfolding upload_transport
  upload_transport_ok t h = ground (
    arith,
    eq_iff (getenv "UPLOAD_TRANSPORT") "http",
    eq_iff (getenv "UPLOAD_TRANSPORT") "webrtc",
  )

  -- A configuration that loads has every variable that was looked for, in whatever order, a window
  -- made of a positive number of seconds, one of the two transports, and a port.
  pub load-Loaded :
      (order : List String) (c : Config) → load getenv atoi order ≡ ok c → Loaded order c
  unfolding load
  load-Loaded order c loaded = elim (Option-cases (first_missing getenv atoi order)) [
    | inr (name, missing) ↦ absurd (ground arith)
    | inl set ↦ elim (Result-cases (buffer_seconds getenv atoi)) [
      | inr (e, refused) ↦ absurd (ground arith)
      | inl (n, read) ↦ elim (Result-cases (upload_transport getenv atoi)) [
        | inr (e, refused) ↦ absurd (ground arith)
        | inl (t, chosen) ↦ record {
          set = first_missing-none order set;
          seconds_given = n;
          some_seconds = buffer_seconds_ok n read;
          window = ground arith;
          transport = ground (arith, upload_transport_ok t chosen);
          has_port = ground (arith, port_set (getenv "PORT"));
        }
      ]
    ]
  ]

-- Up to the largest number of seconds that an `int64` of nanoseconds holds, the window is exact.
seconds-exact : (n : ℕ) → n ≤ 9223372036 → seconds n ≡ pos (n * 1000000000)
unfolding seconds of_word64
seconds-exact n h = ground arith

seconds-negative : (n : ℕ) → 9223372036 < n → n ≤ 18446744073 → (m : ℕ) × (seconds n ≡ negsuc m)
unfolding seconds of_word64
seconds-negative n lo hi = (2 ^ 64 - 1 - n * 1000000000 % 2 ^ 64, ground arith)

module _ (getenv : String → String) (atoi : String → Option ℤ) where
  abbrev loaded_with : ℕ → String → Config
  loaded_with n transport = record {
    gateway_url = getenv "GATEWAY_URL";
    bearer_token = getenv "BEARER_TOKEN";
    org_id = getenv "ORG_ID";
    match_id = getenv "MATCH_ID";
    camera_id = getenv "CAMERA_ID";
    camera_device_label = getenv "CAMERA_DEVICE_LABEL";
    buffer_window = seconds n;
    port = if getenv "PORT" == "" then default_port else getenv "PORT";
    upload_transport = transport;
  }

  -- Seconds above zero pass the checks.
  load-given :
      (order : List String) (n : ℕ) (t : String)
      → first_missing getenv atoi order ≡ none
      → upload_transport getenv atoi ≡ ok t
      → getenv "BUFFER_SECONDS" ≢ ""
      → atoi (getenv "BUFFER_SECONDS") ≡ some (pos n)
      → 0 < n
      → (c : Config) × (load getenv atoi order ≡ ok c) × (c.buffer_window ≡ seconds n)
  unfolding load buffer_seconds
  load-given order zero t set transport given number h = absurd (omega arith)
  load-given order (suc n) t set transport given number h =
      let unset : (getenv "BUFFER_SECONDS" == "") ≡ false =
        ground (arith, eq_iff (getenv "BUFFER_SECONDS") "") in
      (loaded_with (suc n) t, ground (arith, unset), refl)

module _ {A : Type 0} (captured_at : A → Time) where
  since_none :
      (c : Time) (t : Time) (xs : List A)
      → ltb_ℤ t c ≡ true
      → All (λ x. captured_at x ≤ℤ t) xs
      → since captured_at c xs ≡ []
  unfolding since
  since_none c t [] late h = refl
  since_none c t (x ∷ xs) late h = ground (arith, since_none c t xs late h.1)

  no_window :
      (m : ℕ) (xs : List A) (x : A)
      → NonDecreasing captured_at (xs ++ (x ∷ []))
      → snapshot (adds captured_at (xs ++ (x ∷ [])) (new_ring_buffer (negsuc m))) ≡ []
  no_window m xs x h =
      let (a, l, r) = NonDecreasing-split captured_at xs x [] h in
      snapshot-adds captured_at (negsuc m) xs x h
      ∙ since_none (captured_at x -ℤ negsuc m) (captured_at x) (xs ++ (x ∷ []))
          (ground (arith, -ℤ_parts (captured_at x) (negsuc m)))
          (All-append (λ y. captured_at y ≤ℤ captured_at x) xs (x ∷ []) l (ground arith, tt))

  -- Where BUFFER_SECONDS is a number from 9223372037 to 18446744073, and the other variables are as
  -- they should be, the configuration loads, with a window that is negative; and with that window
  -- the buffer is empty after every addition, when items are captured in order.
  pub snapshot-overflow :
      (getenv : String → String) (atoi : String → Option ℤ) (order : List String) (n : ℕ)
      (t : String) (xs : List A) (x : A)
      → first_missing getenv atoi order ≡ none
      → upload_transport getenv atoi ≡ ok t
      → getenv "BUFFER_SECONDS" ≢ ""
      → atoi (getenv "BUFFER_SECONDS") ≡ some (pos n)
      → 9223372036 < n
      → n ≤ 18446744073
      → NonDecreasing captured_at (xs ++ (x ∷ []))
      → (c : Config) × (m : ℕ) × (load getenv atoi order ≡ ok c)
        × (c.buffer_window ≡ negsuc m)
        × (snapshot (adds captured_at (xs ++ (x ∷ [])) (new_ring_buffer c.buffer_window)) ≡ [])
  snapshot-overflow getenv atoi order n t xs x set transport given number lo hi h =
      let (c, loaded, window) =
        load-given getenv atoi order n t set transport given number (omega arith) in
      let (m, negative) = seconds-negative n lo hi in
      let at_once : c.buffer_window ≡ negsuc m = window ∙ negative in
      (c, m, loaded, at_once, rw at_once (no_window m xs x h))
