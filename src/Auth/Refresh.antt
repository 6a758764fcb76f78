-- ===== src/Auth/Refresh.antt =====
-- internal/auth/service.go: RefreshAccessToken, SelectTenant and Logout.
pub mod Rows
pub mod Caps
pub mod Family
pub mod Ended
pub mod Success
use Prim.Native.String
use racetify_api.Base.{
  ℕ, ◌-◌, ltb, leb, String, Bool, true, false, not, Option, none, some, ◌==◌, ◌||◌, ◌&&◌,
  if◌then◌else◌,
}
use racetify_api.Domain.{
  Result, ok, err, invalid_state, token_expired, not_found, invalid_credentials, account_suspended,
  and_then,
}
use racetify_api.Database.{Tx, with_tx}
use racetify_api.Security.Jwt.{
  Claims, token_type_user_access, issue_user_access_token, parse_ignoring_expiry,
}
use racetify_api.Auth.{
  User, RefreshToken, Store, user_status_active, is_nil, get_user_by_id,
  get_refresh_token_by_token_hash, create_refresh_token, rotate_refresh_token,
  revoke_refresh_token_family, record_audit,
}
use racetify_api.Auth.Sessions.{
  Env, Mint, Fresh, ClientInfo, SessionTokens, new_refresh_token_record, verify_tenant_membership,
}

-- What the rotation transaction leaves in RefreshAccessToken's variables: `reuseDetected`, or the
-- user, the new raw token and its expiry.
pub data Rotation : Type 0 where
  reuse_detected : Rotation
  rotated : User → String → ℕ → Rotation

abbrev pub blacklist_key : String → String
blacklist_key jti = String.◌++◌ "auth:blacklist:" jti

-- The key and the time to live of the SET, if there is one.
unfoldable pub blacklist_entry : ℕ → String → ℕ → Option (String × ℕ)
blacklist_entry now jti expires_at =
    if jti == "" || leb expires_at now then none else some (blacklist_key jti, expires_at - now)

module _ (env : Env) where
  -- The new row, and the revocation of the old one unless it was revoked already.
  unfoldable pub replace : Fresh → ℕ → ClientInfo → RefreshToken → Bool → User → Tx Store Rotation
  replace fresh now client existing within_grace user s =
      elim (new_refresh_token_record env fresh user.id existing.family_id
        existing.absolute_expires_at client) [
          | err e ↦ err e
          | ok (new_raw, rec) ↦ elim (create_refresh_token rec s) [
            | err e ↦ err e
            | ok (_, s') ↦ ok (
              rotated user new_raw rec.expires_at,
              if within_grace then s' else rotate_refresh_token existing.id rec.token_hash now s',
            )
          ]
        ]

  -- From the expiry checks on.
  unfoldable pub rotate : Fresh → ℕ → ClientInfo → RefreshToken → Bool → Tx Store Rotation
  unfolding replace
  rotate fresh now client existing within_grace s =
      if ltb existing.expires_at now || ltb existing.absolute_expires_at now
      then err token_expired
      else elim (get_user_by_id existing.user_id s) [
        | none ↦ err not_found
        | some user ↦
            if not (user.status == user_status_active)
            then err account_suspended
            else replace fresh now client existing within_grace user s
      ]

  -- A rotated token is honoured for the grace window.
  unfoldable pub within_grace : ℕ → RefreshToken → ℕ → Bool
  within_grace now existing revoked_at =
      not (is_nil existing.replaced_by_hash) && leb (now - revoked_at) env.cfg.refresh_grace_window

  -- The transaction of RefreshAccessToken.
  unfoldable pub refresh_tx : Fresh → ℕ → ClientInfo → String → Tx Store Rotation
  refresh_tx fresh now client raw s =
      elim (get_refresh_token_by_token_hash (env.hash_token raw) s) [
        | none ↦ err invalid_credentials
        | some existing ↦ elim existing.revoked_at [
          | none ↦ rotate fresh now client existing false s
          | some revoked_at ↦
              if within_grace now existing revoked_at
              then rotate fresh now client existing true s
              else ok (reuse_detected, revoke_refresh_token_family existing.family_id now s)
        ]
      ]

  -- The tenant named by the previous access token, "" if it names none.
  unfoldable pub tenant_hint : String → String
  tenant_hint previous =
      if previous == "" then "" else elim (parse_ignoring_expiry env.tokens previous) [
        | err e ↦ ""
        | ok claims ↦ if claims.token_type == token_type_user_access then claims.tenant_id else ""
      ]

  -- The hint is kept only for a tenant that the user is a member of now.
  unfoldable pub carried_tenant : String → String → String
  unfolding tenant_hint
  carried_tenant previous user_id =
      let hint = tenant_hint previous in
      if hint == ""
      then ""
      else elim (verify_tenant_membership env hint user_id) [ ok _ ↦ hint | err e ↦ "" ]

  -- What follows the transaction: the reuse error, or the access token.
  unfoldable pub respond : Mint → String → Result Rotation → Result (User × SessionTokens)
  unfolding carried_tenant
  respond mint previous (err e) = err e
  respond mint previous (ok reuse_detected) = err invalid_credentials
  respond mint previous (ok (rotated user new_raw expires_at)) =
      let tenant_id = carried_tenant previous user.id in
      and_then
        (issue_user_access_token env.tokens mint.jti mint.now user.id user.is_super_admin tenant_id
          env.cfg.access_token_ttl)
        λ access. ok (
          user,
          record {
            access_token = access.0;
            access_token_expires_at = access.2;
            refresh_token = new_raw;
            refresh_token_expires_at = expires_at;
            tenant_id = tenant_id;
          },
        )

  unfoldable pub refresh_access_token :
      Mint
      → Fresh
      → ℕ
      → ClientInfo
      → String
      → String
      → Store
      → Result (User × SessionTokens) × Store
  unfolding respond
  refresh_access_token mint fresh now client raw previous s =
      let (r, s') = with_tx (refresh_tx fresh now client raw) s in (respond mint previous r, s')

  unfoldable pub select_tenant :
      Mint → String → Bool → String → Store → Result SessionTokens × Store
  select_tenant mint user_id is_super_admin tenant_id s =
      if tenant_id == ""
      then (err invalid_state, s)
      else elim (verify_tenant_membership env tenant_id user_id) [
        | err e ↦ (err e, s)
        | ok _ ↦
            elim (issue_user_access_token env.tokens mint.jti mint.now user_id is_super_admin
              tenant_id env.cfg.access_token_ttl) [
                | err e ↦ (err e, s)
                | ok access ↦ (
                  ok (record {
                    access_token = access.0;
                    access_token_expires_at = access.2;
                    refresh_token = "";
                    refresh_token_expires_at = 0;
                    tenant_id = tenant_id;
                  }),
                  record_audit "user.switched_tenant" s,
                )
              ]
      ]

  -- The session of the presented token ends, if it is the user's.
  unfoldable pub end_session : ℕ → String → String → Store → Store
  end_session now raw user_id s =
      if raw == "" then s else elim (get_refresh_token_by_token_hash (env.hash_token raw) s) [
        | none ↦ s
        | some existing ↦
            if existing.user_id == user_id
            then revoke_refresh_token_family existing.family_id now s
            else s
      ]

  -- The tables after Logout, and the entry that it puts on the Redis blacklist.
  unfoldable pub logout : ℕ → String → String → ℕ → String → Store → Store × Option (String × ℕ)
  unfolding end_session blacklist_entry
  logout now raw access_jti access_expires_at user_id s = (
    record_audit "user.logged_out" (end_session now raw user_id s),
    blacklist_entry now access_jti access_expires_at,
  )

-- IsAccessTokenRevoked, from the answer of Redis EXISTS at the blacklist key: it fails closed.
unfoldable pub is_access_token_revoked : (String → Result Bool) → String → Bool
is_access_token_revoked exists jti = elim (exists (blacklist_key jti)) [ ok b ↦ b | err e ↦ true ]
