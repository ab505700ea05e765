-- ===== src/Platformauth/Tokens.antt =====
-- services/platformauth/verifier.go and issuer.go. The JWT library is a parameter: what it does is
-- the record `Jwt`, over an opaque type of tokens, with times in whole seconds as it keeps them.
use cricket_drs_system.Prelude.{
  ℕ, ◌+◌, ◌<◌, String, ◌≡◌, refl, ap, Bool, true, false, Option, none, some, if◌then◌else◌, arith,
}
use cricket_drs_system.Platformauth.{Role}

pub record Claims : Type 0 where
  pub user_id : String
  pub organization_id : String
  pub role : Role

-- `tokenClaims`, with the fields of `jwt.RegisteredClaims` that are set
pub record TokenClaims : Type 0 where
  pub organization_id : String
  pub role : Role
  pub subject : String
  pub issued_at : ℕ
  -- golang-jwt does not require it
  pub expires_at : Option ℕ

-- An expiry, if there is one, has not come.
abbrev pub Unexpired : ℕ → Option ℕ → Type 0
Unexpired now none = Unit {0}
Unexpired now (some e) = now < e

-- A signing method: one of the HMAC family, or any other, by its `alg` name.
pub data Method : Type 0 where
  hmac other : String → Method

abbrev pub hs256 : Method
hs256 = hmac "HS256"

-- `Sign` is `NewWithClaims` with `SignedString`. `parse` is `ParseWithClaims` at a time, with the
-- caller's key function; it gives the claims and `token.Valid`, or an error.
pub record Jwt (Token : Type 0) : Type 0 where
  pub sign : Method → String → TokenClaims → Option Token
  pub parse : ℕ → Token → (Method → Option String) → Option (TokenClaims × Bool)
  -- whether a token says that it has this method, and its signature is that of this key
  pub signed_by : Method → String → Token → Bool
  -- what was signed is read back before its expiry, if it has one, by a reader whose key function has the key
  pub parse-sign :
      (m : Method) (key : String) (c : TokenClaims) (t : Token) (now : ℕ)
      (key_of : Method → Option String)
      → sign m key c ≡ some t
      → key_of m ≡ some key
      → Unexpired now c.expires_at
      → parse now t key_of ≡ some (c, true)
  -- nothing is read whose signature does not fit a key that the key function gave
  pub parse_signed :
      (t : Token) (now : ℕ) (key_of : Method → Option String) (r : TokenClaims × Bool)
      → parse now t key_of ≡ some r
      → (m : Method) × (key : String) × (key_of m ≡ some key) × (signed_by m key t ≡ true)
  -- nor anything that has expired
  pub parse_fresh :
      (t : Token) (now : ℕ) (key_of : Method → Option String) (r : TokenClaims × Bool)
      → parse now t key_of ≡ some r
      → Unexpired now r.0.expires_at

-- The key function that `Verify` passes: only the HMAC family gets the key.
unfoldable pub key_for : String → Method → Option String
key_for signing_key (hmac alg) = some signing_key
key_for signing_key (other alg) = none

checked : Option (TokenClaims × Bool) → Option Claims
checked none = none
checked (some (c, is_valid)) =
    if is_valid
    then some (record { user_id = c.subject; organization_id = c.organization_id; role = c.role })
    else none

-- The identity that claims prove.
abbrev claimed : TokenClaims → Claims
claimed c = record { user_id = c.subject; organization_id = c.organization_id; role = c.role }

checked-eq-some :
    (o : Option (TokenClaims × Bool)) (c : Claims)
    → checked o ≡ some c
    → (tc : TokenClaims) × (o ≡ some (tc, true)) × (claimed tc ≡ c)
unfolding checked
checked-eq-some none c h = cc
checked-eq-some (some (tc, true)) c h = (tc, refl, ground arith)
checked-eq-some (some (tc, false)) c h = absurd (ground arith)

module _ {Token : Type 0} (jwt : Jwt Token) (signing_key : String) where
  -- `Verifier.Verify`, and `Issuer.Verify`, which delegates to it
  unfoldable pub verify : ℕ → Token → Option Claims
  unfolding checked
  verify now token = checked (jwt.parse now token (key_for signing_key))

  -- `Issuer.Issue`
  unfoldable pub issue : String → String → Role → ℕ → ℕ → Option Token
  issue user_id org_id role ttl now = jwt.sign hs256 signing_key (record {
    organization_id = org_id;
    role = role;
    subject = user_id;
    issued_at = now;
    expires_at = some (now + ttl);
  })

  -- A token that was issued proves to every verifier with the same key, until its time is over,
  -- exactly the identity that it was issued for.
  pub verify-issue :
      (user_id org_id : String) (role : Role) (ttl now later : ℕ) (t : Token)
      → issue user_id org_id role ttl now ≡ some t
      → later < now + ttl
      → verify later t ≡ some (record { user_id = user_id; organization_id = org_id; role = role })
  unfolding verify issue key_for
  verify-issue user_id org_id role ttl now later t issued in_time =
      rw (jwt.parse-sign hs256 signing_key _ t later (key_for signing_key) issued refl in_time) refl

  key_for_hmac :
      {t : Token} (m : Method) (key : String)
      → key_for signing_key m ≡ some key
      → jwt.signed_by m key t ≡ true
      → (alg : String) × (jwt.signed_by (hmac alg) signing_key t ≡ true)
  unfolding key_for
  key_for_hmac (hmac alg) key given signed = (alg, cc)
  key_for_hmac (other alg) key given signed = cc

  -- A token that is accepted carries a signature of the HMAC family by the verifier's own key; it
  -- was read, at that time and with the verifier's key function, as valid; and the claims that were
  -- read hold the identity that it proves, and no expiry that has passed, if they hold one at all.
  pub verify_signed :
      (t : Token) (now : ℕ) (c : Claims)
      → verify now t ≡ some c
      → ((alg : String) × (jwt.signed_by (hmac alg) signing_key t ≡ true))
        × ((tc : TokenClaims) × (jwt.parse now t (key_for signing_key) ≡ some (tc, true))
            × Unexpired now tc.expires_at
            × (tc.subject ≡ c.user_id)
            × (tc.organization_id ≡ c.organization_id)
            × (tc.role ≡ c.role))
  unfolding verify key_for
  verify_signed t now c h =
      let (tc, parsed, same) = checked-eq-some (jwt.parse now t (key_for signing_key)) c h in
      let (m, key, given, signed) =
        jwt.parse_signed t now (key_for signing_key) (tc, true) parsed in
      (
        key_for_hmac m key given signed,
        (
          tc,
          parsed,
          jwt.parse_fresh t now (key_for signing_key) (tc, true) parsed,
          ap (λ x. x.user_id) same,
          ap (λ x. x.organization_id) same,
          ap (λ x. x.role) same,
        ),
      )
