-- ===== src/Platformauth/Tests.antt =====
-- The token theorems with a library whose tokens are the signed claims themselves.
use mathlib.Core.Path.{subst}
use mathlib.Core.Option.{some-injective}
use cricket_drs_system.Prelude.{
  ℕ, ◌↔◌, sym, String, ◌≡◌, refl, Bool, true, false, ◌&&◌, Option, some, none, arith, eq_iff,
  eq_refl, ◌==◌, string_eq, if◌then◌else◌, ltb,
}
use cricket_drs_system.Platformauth.{organizer_admin}
use cricket_drs_system.Platformauth.Tokens.{
  TokenClaims, Unexpired, Method, hmac, other, Jwt, key_for, verify, verify_signed,
}

abbrev Signed : Type 0
Signed = Method × String × TokenClaims

abbrev same_method : Method → Method → Bool
same_method (hmac a) (hmac b) = a == b
same_method (other a) (other b) = a == b
same_method _ _ = false

same_method_refl : (m : Method) → same_method m m ≡ true
same_method_refl (hmac a) = eq_refl a
same_method_refl (other a) = eq_refl a

-- `now.Before(exp)`, where there is an expiry
abbrev unexpired : ℕ → Option ℕ → Bool
unexpired now none = true
unexpired now (some e) = ltb now e

unexpired_iff : (now : ℕ) (e : Option ℕ) → (unexpired now e ≡ true) ↔ Unexpired now e
unexpired_iff now none = (λ h. tt, λ h. refl)
unexpired_iff now (some e) = (λ h. ground arith, λ h. ground arith)

-- Reads a token with the key that the key function gives, if that is the one it was signed with.
abbrev open_with : ℕ → Signed → Option String → Option (TokenClaims × Bool)
open_with now t none = none
open_with now t (some key) =
    if key == t.1 && unexpired now t.2.expires_at then some (t.2, true) else none

open_with_signed :
    (now : ℕ) (t : Signed) (key : String) (k : Option String)
    → k ≡ some key
    → t.1 ≡ key
    → Unexpired now t.2.expires_at
    → open_with now t k ≡ some (t.2, true)
open_with_signed now t key none e s h = cc
open_with_signed now t key (some k) e s h =
    ground (arith, eq_iff k t.1, (unexpired_iff now t.2.expires_at).1 h)

read_back :
    (now : ℕ) (t : Signed) (k : String) (r : TokenClaims × Bool)
    → open_with now t (some k) ≡ some r
    → (t.2 ≡ r.0) × (unexpired now t.2.expires_at ≡ true)
read_back now t k r e = (ground arith, ground arith)

opened :
    (now : ℕ) (t : Signed) (k : Option String) (r : TokenClaims × Bool)
    → open_with now t k ≡ some r
    → (k ≡ some t.1) × Unexpired now r.0.expires_at
opened now t none r e = cc
opened now t (some k) r e =
    let (same, early) = read_back now t k r e in
    (ground (arith, eq_iff k t.1), rw (sym same) ((unexpired_iff now t.2.expires_at).0 early))

signed_by_own_key : (t : Signed) → (same_method t.0 t.0 && t.1 == t.1) ≡ true
signed_by_own_key t = ground (arith, same_method_refl t.0, eq_refl t.1)

abbrev plain : Jwt Signed
plain = record {
  sign = λ m key c. some (m, key, c);
  parse = λ now t key_of. open_with now t (key_of t.0);
  signed_by = λ m key t. same_method m t.0 && key == t.1;
  parse-sign = λ m key c t now key_of signed given early.
      subst (λ x. open_with now x (key_of x.0) ≡ some (c, true)) (some-injective _ _ signed)
        (open_with_signed now (m, key, c) key (key_of m) given refl early);
  parse_signed =
      λ t now key_of r read. (t.0, t.1, (opened now t (key_of t.0) r read).0, signed_by_own_key t);
  parse_fresh = λ t now key_of r read. (opened now t (key_of t.0) r read).1;
}

abbrev claims : TokenClaims
claims = record {
  organization_id = "club";
  role = organizer_admin;
  subject = "user_0";
  issued_at = 1000;
  expires_at = some 1900;
}

abbrev token : Signed
token = (hmac "HS256", "secret", claims)

verify_signed_example :
    ((alg : String) × (plain.signed_by (hmac alg) "secret" token ≡ true))
    × ((tc : TokenClaims) × (plain.parse 1500 token (key_for "secret") ≡ some (tc, true))
        × Unexpired 1500 tc.expires_at
        × (tc.subject ≡ "user_0")
        × (tc.organization_id ≡ "club")
        × (tc.role ≡ organizer_admin))
verify_signed_example =
    verify_signed plain "secret" token 1500
      (record { user_id = "user_0"; organization_id = "club"; role = organizer_admin })
      (unfold verify key_for in refl)
