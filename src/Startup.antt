-- ===== src/Startup.antt =====
-- What the four `main` functions of services/*/cmd/main.go share: the environment, and how a program
-- ends its start-up. `os.Getenv` gives the empty text for a variable that is not set.
use cricket_drs_system.Prelude.{ℕ, String, ◌==◌, string_eq, if◌then◌else◌}

abbrev pub Environment : Type 0
Environment = String → String

-- `os.Exit`, or `http.ListenAndServe` of what was put together
pub data Outcome (Program : Type 0) : Type 0 where
  exits : ℕ → Outcome Program
  serves : Program → Outcome Program

-- `x := os.Getenv(name); if x == "" { x = fallback }`
unfoldable pub getenv_or : Environment → String → String → String
getenv_or env name fallback = if env name == "" then fallback else env name
