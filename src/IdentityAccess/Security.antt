-- ===== src/IdentityAccess/Security.antt =====
-- services/identity-access/internal/security: the hasher over the bcrypt library, and the issuer
-- over platformauth, as the ports of the service.
use cricket_drs_system.Prelude.{
  ℕ, ◌+◌, ◌*◌, ◌<◌, String, ◌≡◌, Bool, true, Option, none, some, arith,
}
use cricket_drs_system.Platformauth.{Role}
use cricket_drs_system.Platformauth.Tokens.{Claims, Jwt, verify-issue}
use cricket_drs_system.Platformauth.Tokens
use cricket_drs_system.IdentityAccess.Domain.{UserId, OrganizationId}
use cricket_drs_system.IdentityAccess.Service.{Ports}
use cricket_drs_system.IdentityAccess.Accounts.{PortLaws}

-- golang.org/x/crypto/bcrypt: `GenerateFromPassword` gives nothing where it fails, and
-- `CompareHashAndPassword` is whether it gives no error. A hash compares with its password.
pub record Bcrypt : Type 0 where
  pub default_cost : ℕ
  pub generate_from_password : String → ℕ → Option String
  pub compare_hash_and_password : String → String → Bool
  pub compare-generate :
      (password hash : String) (cost : ℕ)
      → generate_from_password password cost ≡ some hash
      → compare_hash_and_password hash password ≡ true

pub record BcryptHasher : Type 0 where
  pub cost : ℕ

module _ (bcrypt : Bcrypt) where
  -- `NewBcryptHasher`
  unfoldable new_bcrypt_hasher : BcryptHasher
  new_bcrypt_hasher = record { cost = bcrypt.default_cost }

  -- `Hash`
  unfoldable hash_password : BcryptHasher → String → Option String
  hash_password b password = bcrypt.generate_from_password password b.cost

  -- `Compare`
  unfoldable compare_password : BcryptHasher → String → String → Bool
  compare_password b hash password = bcrypt.compare_hash_and_password hash password

-- `TokenTTL`, in the seconds of the JWT library
abbrev pub token_ttl : ℕ
token_ttl = 15 * 60

module _ (jwt : Jwt String) (signing_key : String) where
  -- `JWTIssuer.Issue`
  unfoldable pub issue_token : ℕ → UserId → OrganizationId → Role → Option String
  issue_token now user_id org_id role =
      Tokens.issue jwt signing_key user_id org_id role token_ttl now

  -- `JWTIssuer.Verify`
  unfoldable pub verify_token : ℕ → String → Option Claims
  verify_token now token = elim (Tokens.verify jwt signing_key now token) [
    | none ↦ none
    | some c ↦
        some (record { user_id = c.user_id; organization_id = c.organization_id; role = c.role })
  ]

  issued_verifies :
      (now later : ℕ) (u : UserId) (o : OrganizationId) (r : Role) (t : String)
      → issue_token now u o r ≡ some t
      → later < now + token_ttl
      → verify_token later t ≡ some (record { user_id = u; organization_id = o; role = r })
  unfolding issue_token verify_token
  issued_verifies now later u o r t issued in_time =
      let proves = verify-issue jwt signing_key u o r token_ttl now later t issued in_time in
      ground (arith, proves)

  -- The ports of the service at a time, as `main` puts them together.
  unfoldable pub ports_at : Bcrypt → ℕ → Ports
  unfolding new_bcrypt_hasher hash_password compare_password issue_token verify_token
  ports_at bcrypt now = record {
    hash = hash_password bcrypt (new_bcrypt_hasher bcrypt);
    compare = compare_password bcrypt (new_bcrypt_hasher bcrypt);
    issue = issue_token now;
    verify = verify_token now;
  }

  -- The hasher and the issuer satisfy the laws that the service relies on: a password compares with
  -- its hash, and a token that was just issued proves the identity that it was issued for.
  pub ports_at-PortLaws : (bcrypt : Bcrypt) (now : ℕ) → PortLaws (ports_at bcrypt now)
  unfolding ports_at hash_password compare_password issue_token verify_token
  ports_at-PortLaws bcrypt now = record {
    compare-hash =
        λ password h hashed. bcrypt.compare-generate password h bcrypt.default_cost hashed;
    verify-issue = λ u o r t issued. issued_verifies now now u o r t issued (omega arith);
  }
