-- ===== src/Bearer.antt =====
-- The `Authorization` header of every service: `strings.HasPrefix` and `strings.TrimPrefix` on
-- "Bearer ", and the header that the clients send.
use Prim.Native.String.{◌++◌ as text_append, [], ◌∷◌}
use Prim.Native.String.append
use Prim.Native.Char.{code}
use cricket_drs_system.Prelude.{String, ◌≡◌, refl, Option, none, some, nat_eq, if◌then◌else◌, arith}

-- The rest of a text after a prefix, if it starts with that.
unfoldable pub after : String → String → Option String
after [] s = some s
after (◌∷◌ c p) [] = none
after (◌∷◌ c p) (◌∷◌ d s) = let rest = after p s in if nat_eq (code c) (code d) then rest else none

abbrev pub bearer : String
bearer = "Bearer "

unfoldable pub after_bearer : String → Option String
unfolding after
after_bearer header = after bearer header

-- The header that a client sets for its token.
abbrev pub bearer_header : String → String
bearer_header token = text_append bearer token

pub after-append : (p s : String) → after p (text_append p s) ≡ some s
unfolding after
after-append [] s = rw append.nil refl
after-append (◌∷◌ c p) s = rw append.cons (ground (arith, after-append p s))

-- The token that a client sends is the one that a service reads.
pub after_bearer-bearer_header : (t : String) → after_bearer (bearer_header t) ≡ some t
unfolding after_bearer
after_bearer-bearer_header t = after-append bearer t
