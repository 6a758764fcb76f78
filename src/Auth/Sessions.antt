-- ===== src/Auth/Sessions.antt =====
-- internal/auth/service.go: login, refresh-token rotation, tenant selection and logout.
--
-- What the code draws from outside is an argument: the clock's readings, the outcomes of the random
-- generators, the SHA-256 of a token (`hash_token`), the password check, and the membership lookup.
use racetify_api.Base.{
  ℕ, ◌+◌, ltb, String, Bool, false, not, Option, none, some, ◌==◌, if◌then◌else◌,
}
use racetify_api.Text.{Unicode, trim_space, map_text}
use racetify_api.Domain.{
  Result, ok, err, other, invalid_credentials, account_suspended, forbidden, and_then,
}
use racetify_api.Database.{Tx, with_tx}
use racetify_api.Security.Jwt.{TokenManager, issue_user_access_token}
use racetify_api.Auth.{
  User, RefreshToken, Store, user_status_active, get_user_by_email, create_refresh_token,
  record_audit,
}

-- The session part of config.AuthConfig.
pub record Config : Type 0 where
  pub access_token_ttl : ℕ
  pub refresh_token_ttl : ℕ
  pub refresh_absolute_ttl : ℕ
  pub refresh_grace_window : ℕ

pub record ClientInfo : Type 0 where
  pub user_agent : String
  pub ip : String
  pub origin_host : String

pub record SessionTokens : Type 0 where
  pub access_token : String
  pub access_token_expires_at : ℕ
  pub refresh_token : String
  pub refresh_token_expires_at : ℕ
  pub tenant_id : String

-- What newRefreshTokenRecord draws: a random token, a new row id and the clock.
pub record Fresh : Type 0 where
  pub raw : Result String
  pub id : String
  pub now : ℕ

-- What IssueUserAccessToken draws.
pub record Mint : Type 0 where
  pub jti : Result String
  pub now : ℕ

-- What the service calls: the token manager, the hash and the password check of the security
-- package, and membershipChecker.
pub record Env : Type 0 where
  pub cfg : Config
  pub tokens : TokenManager
  pub hash_token : String → String
  pub verify_password : String → String → Result Bool
  pub active_role : String → String → Result (String × Bool)

unfoldable pub ptr_or_nil : String → Option String
ptr_or_nil s = if s == "" then none else some s

unfoldable pub normalize_email : Unicode → String → String
normalize_email u email = map_text u.to_lower (trim_space email)

module _ (env : Env) where
  unfoldable pub verify_tenant_membership : String → String → Result (Unit {0})
  verify_tenant_membership tenant_id user_id =
      if tenant_id == ""
      then err (other "database: WithTenantTx called with empty tenantID")
      else and_then (env.active_role tenant_id user_id)
          λ found. if found.1 then ok tt else err forbidden

  unfoldable pub new_refresh_token_record :
      Fresh → String → String → ℕ → ClientInfo → Result (String × RefreshToken)
  unfolding ptr_or_nil
  new_refresh_token_record fresh user_id family_id absolute_expires_at client =
      and_then fresh.raw λ raw.
        let idle = fresh.now + env.cfg.refresh_token_ttl in
        ok (
          raw,
          record {
            id = fresh.id;
            user_id = user_id;
            token_hash = env.hash_token raw;
            replaced_by_hash = none;
            user_agent = ptr_or_nil client.user_agent;
            ip_address = ptr_or_nil client.ip;
            family_id = family_id;
            expires_at = if ltb absolute_expires_at idle then absolute_expires_at else idle;
            absolute_expires_at = absolute_expires_at;
            origin_host = ptr_or_nil client.origin_host;
            revoked_at = none;
            created_at = fresh.now;
          },
        )

  -- The result of issueSession, and the refresh token's row in the table.
  unfoldable pub issue_session :
      Mint → Fresh → String → ℕ → User → ClientInfo → Tx Store SessionTokens
  issue_session mint fresh family_id now user client s =
      and_then
        (issue_user_access_token env.tokens mint.jti mint.now user.id user.is_super_admin ""
          env.cfg.access_token_ttl)
        λ access.
          and_then
            (new_refresh_token_record fresh user.id family_id (now + env.cfg.refresh_absolute_ttl)
              client)
            λ made. and_then (create_refresh_token made.1 s) λ done. ok (
              record {
                access_token = access.0;
                access_token_expires_at = access.2;
                refresh_token = made.0;
                refresh_token_expires_at = made.1.expires_at;
                tenant_id = "";
              },
              done.1,
            )

  -- `ok && err == nil`
  abbrev pub password_matches : String → Option String → Bool
  password_matches password none = false
  password_matches password (some hash) = elim (env.verify_password password hash) [
    | ok b ↦ b
    | err e ↦ false
  ]

  -- The transaction of Login.
  unfoldable pub authenticate : Unicode → String → String → Tx Store User
  authenticate u email password s = elim (get_user_by_email u email s) [
    | none ↦ err invalid_credentials
    | some user ↦
        if not (password_matches password user.password_hash)
        then err invalid_credentials
        else if not (user.status == user_status_active)
        then err account_suspended
        else ok (user, record_audit "user.logged_in" s)
  ]

  -- The session of the user, whose row is in a transaction of its own.
  unfoldable pub open_session :
      Mint
      → Fresh
      → String
      → ℕ
      → ClientInfo
      → Result User
      → Store
      → Result (User × SessionTokens) × Store
  unfolding issue_session
  open_session mint fresh family_id now client (err e) s = (err e, s)
  open_session mint fresh family_id now client (ok user) s =
      let (r, s') = with_tx (issue_session mint fresh family_id now user client) s in
      (and_then r λ tokens. ok (user, tokens), s')

  unfoldable pub login :
      Unicode
      → Mint
      → Fresh
      → String
      → ℕ
      → String
      → String
      → ClientInfo
      → Store
      → Result (User × SessionTokens) × Store
  unfolding authenticate open_session
  login u mint fresh family_id now email password client s =
      let (r, s') = with_tx (authenticate u (normalize_email u email) password) s in
      open_session mint fresh family_id now client r s'
