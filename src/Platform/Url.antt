-- ===== src/Platform/Url.antt =====
-- Texts in a client's URL: which stand in its path as one segment, and what a router reads of it.
use Prim.Native.String.{◌++◌ as text_append, [], ◌∷◌}
use Prim.Native.String.append
use text.Mathlib.TextLemmas.{append-nil}
use Prim.Native.Char.{Char, code}
use cricket_drs_system.Prelude.{
  ℕ, ◌+◌, String, ◌≡◌, ◌≢◌, refl, ap, sym, ◌∙◌, arith, leb, if◌then◌else◌, Bool, true, not, ◌&&◌,
  ◌||◌, ◌==◌, nat_eq, string_eq,
}

-- An ASCII letter or digit, "-" or "_".
is_plain_char : Char → Bool
is_plain_char ch =
    let c = code ch in
    (leb b'a' c && leb c b'z')
    || (leb b'A' c && leb c b'Z')
    || (leb b'0' c && leb c b'9')
    || nat_eq c b'-'
    || nat_eq c b'_'

all_plain : String → Bool
all_plain [] = true
all_plain (◌∷◌ c s) = is_plain_char c && all_plain s

-- A text that is one segment of a path with no escaping, as every identifier is that the services
-- make: not empty, and of ASCII letters and digits, "-" and "_" alone.
unfoldable pub is_plain : String → Bool
unfolding all_plain is_plain_char
is_plain s = not (s == "") && all_plain s

abbrev pub Plain : String → Type 0
Plain s = is_plain s ≡ true

unfoldable size : String → ℕ
size [] = 0
size (◌∷◌ c s) = 1 + size s

size-append : (s t : String) → size (text_append s t) ≡ size s + size t
unfolding size
size-append [] t = rw append.nil (ground arith)
size-append (◌∷◌ c s) t = rw append.cons (ground (arith, size-append s t))

-- A text without its last eight characters.
unfoldable pub but_eight : String → String
unfolding size
but_eight [] = ""
but_eight (◌∷◌ c s) = let rest = but_eight s in if leb (size s) 7 then "" else ◌∷◌ c rest

pub but_eight-append : (s : String) → but_eight (text_append s "/consent") ≡ s
unfolding but_eight size
but_eight-append [] = refl
but_eight-append (◌∷◌ c s) =
    rw append.cons (ground (arith, but_eight-append s, size-append s "/consent"))

pub separated-not_empty : (s t : String) → text_append s (text_append "_" t) ≢ ""
unfolding size
separated-not_empty s t h =
    let sizes = ap size h in ground (arith, size-append s (text_append "_" t), size-append "_" t)

-- A text up to its first "/", and what is left.
unfoldable pub segment : String → String × String
segment [] = ("", "")
segment (◌∷◌ c s) =
    let rest = segment s in if nat_eq (code c) b'/' then ("", ◌∷◌ c s) else (◌∷◌ c rest.0, rest.1)

-- Nothing, or a text that starts with "/".
unfoldable pub at_end : String → Bool
at_end [] = true
at_end (◌∷◌ c s) = nat_eq (code c) b'/'

segment_end : (rest : String) → at_end rest ≡ true → segment rest ≡ ("", rest)
unfolding segment at_end
segment_end [] h = refl
segment_end (◌∷◌ c s) h = rw h refl

segment-all_plain :
    (u rest : String)
    → all_plain u ≡ true
    → at_end rest ≡ true
    → segment (text_append u rest) ≡ (u, rest)
unfolding segment all_plain is_plain_char
segment-all_plain [] rest plain h = rw append.nil (segment_end rest h)
segment-all_plain (◌∷◌ c u) rest plain h =
    rw append.cons (ground (arith, segment-all_plain u rest (ground arith) h))

-- A plain text is read back as a segment.
pub segment-append :
    (u rest : String) → Plain u → at_end rest ≡ true → segment (text_append u rest) ≡ (u, rest)
unfolding is_plain
segment-append u rest plain h = segment-all_plain u rest (ground arith) h

pub segment_whole : (u : String) → Plain u → segment u ≡ (u, "")
unfolding at_end
segment_whole u plain = sym (ap segment (append-nil u)) ∙ segment-append u "" plain refl
