-- ===== src/Platformauth.antt =====
-- services/platformauth/role.go: the persona vocabulary that every service aliases; devkey.go.
-- A role is a text, as in Go; the texts that come out of a token or a request need not be valid.
pub mod Tokens
mod Tests
use cricket_drs_system.Prelude.{String, Bool, ◌||◌, ◌==◌, string_eq}

abbrev pub Role : Type 0
Role = String

abbrev pub player : Role
player = "player"

abbrev pub coach : Role
coach = "coach"

abbrev pub umpire : Role
umpire = "umpire"

abbrev pub organizer_admin : Role
organizer_admin = "organizer_admin"

abbrev pub board_admin : Role
board_admin = "board_admin"

abbrev pub fan : Role
fan = "fan"

-- `Role.Valid`
unfoldable pub valid : Role → Bool
valid r =
    r == player || r == coach || r == umpire || r == organizer_admin || r == board_admin || r == fan

-- `InsecureDevSigningKey`, of services/platformauth/devkey.go
abbrev pub insecure_dev_signing_key : String
insecure_dev_signing_key = "INSECURE-DEV-ONLY-SHARED-SIGNING-KEY-DO-NOT-USE-BEYOND-LOCAL-PREVIEW"
