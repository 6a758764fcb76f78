-- ===== src/Security/Jwt.antt =====
-- internal/security/jwt.go: the claims of an access token, and the token manager over the JWT
-- library (github.com/golang-jwt/jwt), which is a parameter.
use racetify_api.Base.{ℕ, ◌+◌, String, Bool, false, List, [], ◌==◌, if◌then◌else◌, any}
use racetify_api.Domain.{Result, ok, err, other, and_then}

-- The registered claims (issuer, subject, id, issued-at, not-before, expiry) and the token's own.
pub record Claims : Type 0 where
  pub issuer : String
  pub subject : String
  pub id : String
  pub issued_at : ℕ
  pub not_before : ℕ
  pub expires_at : ℕ
  pub token_type : String
  pub user_id : String
  pub is_super_admin : Bool
  pub client_id : String
  pub scopes : List String
  pub tenant_id : String

abbrev pub token_type_user_access : String
token_type_user_access = "user_access"

abbrev pub token_type_m2m_access : String
token_type_m2m_access = "m2m_access"

unfoldable pub has_scope : Claims → String → Bool
has_scope c scope = any (λ s. s == scope) c.scopes

-- What the token manager uses of the library: HS256 signing under a secret, parsing with the
-- checks that `Parse` asks for (issuer, expiry) at an instant, and parsing with the signature alone.
pub record JwtLibrary : Type 0 where
  pub signed_string : String → Claims → Result String
  pub parse_with_claims : String → String → ℕ → String → Result Claims
  pub parse_without_validation : String → String → Result Claims

pub record TokenManager : Type 0 where
  pub library : JwtLibrary
  pub secret : String
  pub issuer : String

-- The signed token, its id and its expiry.
abbrev pub Issued : Type 0
Issued = String × String × ℕ

sign : TokenManager → Claims → Result String
sign tm claims = tm.library.signed_string tm.secret claims

abbrev pub user_claims : TokenManager → String → ℕ → String → Bool → String → ℕ → Claims
user_claims tm jti now user_id is_super_admin tenant_id ttl = record {
  issuer = tm.issuer;
  subject = user_id;
  id = jti;
  issued_at = now;
  not_before = now;
  expires_at = now + ttl;
  token_type = token_type_user_access;
  user_id = user_id;
  is_super_admin = is_super_admin;
  client_id = "";
  scopes = [];
  tenant_id = tenant_id;
}

-- `jti` is the outcome of GenerateOpaqueToken, and `now` the clock's reading.
unfoldable pub issue_user_access_token :
    TokenManager → Result String → ℕ → String → Bool → String → ℕ → Result Issued
unfolding sign
issue_user_access_token tm jti now user_id is_super_admin tenant_id ttl = and_then jti λ id.
    and_then (sign tm (user_claims tm id now user_id is_super_admin tenant_id ttl))
      λ signed. ok (signed, id, now + ttl)

unfoldable pub issue_m2m_access_token :
    TokenManager → Result String → ℕ → String → String → List String → ℕ → Result Issued
unfolding sign
issue_m2m_access_token tm jti now client_id tenant_id scopes ttl = and_then jti λ id.
    and_then
      (sign tm (record {
        issuer = tm.issuer;
        subject = client_id;
        id = id;
        issued_at = now;
        not_before = now;
        expires_at = now + ttl;
        token_type = token_type_m2m_access;
        user_id = "";
        is_super_admin = false;
        client_id = client_id;
        scopes = scopes;
        tenant_id = tenant_id;
      }))
      λ signed. ok (signed, id, now + ttl)

unfoldable pub parse : TokenManager → ℕ → String → Result Claims
parse tm now token = tm.library.parse_with_claims tm.secret tm.issuer now token

unfoldable pub parse_ignoring_expiry : TokenManager → String → Result Claims
parse_ignoring_expiry tm token =
    and_then (tm.library.parse_without_validation tm.secret token) λ claims.
      if claims.issuer == tm.issuer then ok claims else err (other "security: unexpected issuer")
