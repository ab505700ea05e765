-- ===== src/Platform/Tests/Identity.antt =====
-- A login at one service, used at the others: with a library that signs one identity.
use cricket_drs_system.Prelude.{
  ℕ, ◌<◌, String, ◌≡◌, refl, Bool, true, ◌&&◌, Option, some, none, [], ◌∷◌, arith, eq_iff, ◌==◌,
  string_eq, nat_eq, ltb, if◌then◌else◌,
}
use cricket_drs_system.Exec.{ok}
use cricket_drs_system.Platformauth.{organizer_admin}
use cricket_drs_system.Platformauth.Tokens
use cricket_drs_system.Platformauth.Tokens.{TokenClaims, Unexpired, Method, hmac, other, hs256, Jwt}
use cricket_drs_system.IdentityAccess.Store
use cricket_drs_system.IdentityAccess.Service as Accounts
use cricket_drs_system.IdentityAccess.Security.{Bcrypt, ports_at, issue_token}
use cricket_drs_system.Platform.Identity.{LoggedIn, login-everywhere}

abbrev claims : TokenClaims
claims = record {
  organization_id = "club";
  role = organizer_admin;
  subject = "user_0";
  issued_at = 1000;
  expires_at = some 1900;
}

abbrev is_hs256 : Method → Bool
is_hs256 (hmac alg) = alg == "HS256"
is_hs256 (other alg) = ltb 1 0

abbrev expires_at_1900 : Option ℕ → Bool
expires_at_1900 none = ltb 1 0
expires_at_1900 (some e) = nat_eq e 1900

expires_at_1900_ok : (e : Option ℕ) → expires_at_1900 e ≡ true → e ≡ some 1900
expires_at_1900_ok none h = absurd (ground arith)
expires_at_1900_ok (some e) h = ground arith

abbrev is_signed : Method → String → TokenClaims → Bool
is_signed m key c =
    is_hs256 m
    && key == "k"
    && c.organization_id == "club"
    && c.role == organizer_admin
    && c.subject == "user_0"
    && nat_eq c.issued_at 1000
    && expires_at_1900 c.expires_at

is_hs256_ok : (m : Method) → is_hs256 m ≡ true → m ≡ hs256
is_hs256_ok (hmac alg) h = ground (arith, eq_iff alg "HS256")
is_hs256_ok (other alg) h = absurd (ground arith)

is_signed_ok :
    (m : Method) (key : String) (c : TokenClaims)
    → is_signed m key c ≡ true
    → (m ≡ hs256) × (key ≡ "k") × (c ≡ claims)
is_signed_ok m key c h = (
  is_hs256_ok m (ground arith),
  ground (arith, eq_iff key "k"),
  ground (
    arith,
    eq_iff c.organization_id "club",
    eq_iff c.role organizer_admin,
    eq_iff c.subject "user_0",
    expires_at_1900_ok c.expires_at,
  ),
)

abbrev read_with : ℕ → String → Option String → Option (TokenClaims × Bool)
read_with now t none = none
read_with now t (some key) =
    if t == "t" && key == "k" && ltb now 1900 then some (claims, true) else none

pub read_with_ok :
    (now : ℕ) (t : String) (k : Option String) (r : TokenClaims × Bool)
    → read_with now t k ≡ some r
    → (t ≡ "t") × (k ≡ some "k") × Unexpired now r.0.expires_at
read_with_ok now t none r h = absurd (ground arith)
read_with_ok now t (some key) r h =
    (ground (arith, eq_iff t "t"), ground (arith, eq_iff key "k"), ground arith)

pub reads_signed :
    (m : Method) (key : String) (c : TokenClaims) (t : String) (now : ℕ)
    (key_of : Method → Option String)
    → (if is_signed m key c then some "t" else none) ≡ some t
    → key_of m ≡ some key
    → Unexpired now c.expires_at
    → read_with now t (key_of hs256) ≡ some (c, true)
reads_signed m key c t now key_of signed given early =
    let (method, same_key, same) = is_signed_ok m key c (ground arith) in
    let k : key_of hs256 ≡ some "k" = ground (arith, method, same_key, given) in
    let in_time : now < 1900 = ground (arith, same, early) in
    let named : t ≡ "t" = ground (arith, signed) in rw (k, named, same) (ground (arith, in_time))

abbrev pub one_identity : Jwt String
one_identity = record {
  sign = λ m key c. if is_signed m key c then some "t" else none;
  parse = λ now t key_of. read_with now t (key_of hs256);
  signed_by = λ m key t. is_hs256 m && key == "k" && t == "t";
  parse-sign = reads_signed;
  parse_signed = λ t now key_of r read.
      let (same, key, early) = read_with_ok now t (key_of hs256) r read in
      (hs256, "k", key, ground (arith, same));
  parse_fresh = λ t now key_of r read. (read_with_ok now t (key_of hs256) r read).2;
}

pub compares :
    (password hash : String)
    → ◌≡◌ {A = Option String} (some password) (some hash)
    → (hash == password) ≡ true
compares password hash h = ground (arith, eq_iff hash password)

abbrev pub bcrypt : Bcrypt
bcrypt = record {
  default_cost = 10;
  generate_from_password = λ password cost. some password;
  compare_hash_and_password = λ hash password. hash == password;
  compare-generate = λ password hash cost generated. compares password hash generated;
}

abbrev club : Accounts.State
club = record {
  orgs = [];
  users =
      (
        ("club", "user_0"),
        record {
          id = "user_0";
          organization_id = "club";
          email = "a@club";
          password_hash = "pw";
          role = organizer_admin;
        },
      )
      ∷ [];
  consents = [];
}

logged_in :
    (Accounts.login (ports_at one_identity "k" bcrypt 1000) "club" "a@club" "pw" club).0 ≡ ok "t"
unfolding Accounts.login ports_at issue_token Tokens.issue Store.get_by_email Store.find_email
logged_in = refl

login-everywhere_example : LoggedIn one_identity "k" bcrypt 1000 1899 "club" "a@club" "pw" "t" club
login-everywhere_example =
    login-everywhere one_identity "k" bcrypt 1000 1899 "club" "a@club" "pw" "t" club logged_in
      (omega arith)
