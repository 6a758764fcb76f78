-- ===== src/Auth/Refresh/Family.antt =====
-- internal/auth/service.go: the end of a session (a family of refresh tokens), by reuse and by logout.
use racetify_api.Base.{
  ℕ, ◌≤◌, String, ◌≡◌, refl, ◌∙◌, ◌≢◌, true, false, not, List, [], ◌∷◌, ◌++◌, some, ◌==◌, eq_iff,
  eq_refl, arith, any, keep, find-modify, any-modify, keep-modify, any_of_append, any-update_off,
}
use racetify_api.Domain.{ok, err, invalid_credentials}
use racetify_api.Auth.{
  User, RefreshToken, Store, user_status_active, get_user_by_id, get_refresh_token_by_token_hash,
  clashes, create_refresh_token, is_live_in, mark_revoked, revoke_refresh_token_family,
  record_audit,
}
use racetify_api.Auth.Sessions.{Env, Mint, Fresh, ClientInfo, new_refresh_token_record}
use racetify_api.Auth.Refresh.{
  rotated, within_grace, replace, rotate, refresh_tx, refresh_access_token, logout,
}

-- The tokens of every other session.
abbrev pub others : String → List RefreshToken → List RefreshToken
others family_id = keep (λ t. not (t.family_id == family_id))

revoke-is_live_in :
    (family_id : String) (at : ℕ) (t : RefreshToken)
    → is_live_in family_id (mark_revoked at t) ≡ false
revoke-is_live_in family_id at t = ground arith

-- Revoking a family leaves no live token in it.
pub revoke_family_ends :
    (family_id : String) (at : ℕ) (s : Store)
    → any (is_live_in family_id) (revoke_refresh_token_family family_id at s).tokens ≡ false
unfolding revoke_refresh_token_family
revoke_family_ends family_id at s =
    any-update_off (is_live_in family_id) (mark_revoked at)
      (λ t _. revoke-is_live_in family_id at t) s.tokens

-- It touches no other session.
pub revoke_family_others :
    (family_id : String) (at : ℕ) (s : Store)
    → others family_id (revoke_refresh_token_family family_id at s).tokens
      ≡ others family_id s.tokens
unfolding revoke_refresh_token_family
revoke_family_others family_id at s =
    keep-modify (λ t. not (t.family_id == family_id)) (is_live_in family_id) (mark_revoked at)
      (λ t. refl) (λ t h. ground arith) s.tokens

-- The whole answer to a dead token.
pub dead_token :
    (env : Env) (mint : Mint) (fresh : Fresh) (now : ℕ) (client : ClientInfo)
    (raw previous : String) (s : Store) (existing : RefreshToken) (at : ℕ)
    → get_refresh_token_by_token_hash (env.hash_token raw) s ≡ some existing
    → existing.revoked_at ≡ some at
    → within_grace env now existing at ≡ false
    → refresh_access_token env mint fresh now client raw previous s
      ≡ (err invalid_credentials, revoke_refresh_token_family existing.family_id now s)
unfolding refresh_access_token refresh_tx
dead_token env mint fresh now client raw previous s existing at stored dead late = ground arith

-- Presenting a refresh token that is revoked and was not rotated within the grace window is
-- answered with invalid_credentials, leaves no live token in the token's session, and changes no
-- other session.
pub refresh_access_token-reuse :
    (env : Env) (mint : Mint) (fresh : Fresh) (now : ℕ) (client : ClientInfo)
    (raw previous : String) (s : Store) (existing : RefreshToken) (at : ℕ)
    → get_refresh_token_by_token_hash (env.hash_token raw) s ≡ some existing
    → existing.revoked_at ≡ some at
    → within_grace env now existing at ≡ false
    → let (r, s') = refresh_access_token env mint fresh now client raw previous s in
      (r ≡ err invalid_credentials)
      × (any (is_live_in existing.family_id) s'.tokens ≡ false)
      × (others existing.family_id s'.tokens ≡ others existing.family_id s.tokens)
refresh_access_token-reuse env mint fresh now client raw previous s existing at stored dead late =
    rw (dead_token env mint fresh now client raw previous s existing at stored dead late) (
      refl,
      revoke_family_ends existing.family_id now s,
      revoke_family_others existing.family_id now s,
    )

-- Logging out with a refresh token of the user is the revocation of the token's family.
pub logout_lem :
    (env : Env) (now : ℕ) (raw access_jti : String) (access_expires_at : ℕ) (user_id : String)
    (s : Store) (existing : RefreshToken)
    → raw ≢ ""
    → get_refresh_token_by_token_hash (env.hash_token raw) s ≡ some existing
    → existing.user_id ≡ user_id
    → (logout env now raw access_jti access_expires_at user_id s).0
      ≡ record_audit "user.logged_out" (revoke_refresh_token_family existing.family_id now s)
unfolding logout
logout_lem env now raw access_jti access_expires_at user_id s existing given stored own =
    ground (arith, eq_iff raw "", eq_iff existing.user_id user_id)

-- Logging out with a refresh token of the user leaves no live token in the token's session, and
-- changes no other session.
pub logout_ends :
    (env : Env) (now : ℕ) (raw access_jti : String) (access_expires_at : ℕ) (user_id : String)
    (s : Store) (existing : RefreshToken)
    → raw ≢ ""
    → get_refresh_token_by_token_hash (env.hash_token raw) s ≡ some existing
    → existing.user_id ≡ user_id
    → let s' = (logout env now raw access_jti access_expires_at user_id s).0 in
      (any (is_live_in existing.family_id) s'.tokens ≡ false)
      × (others existing.family_id s'.tokens ≡ others existing.family_id s.tokens)
logout_ends env now raw access_jti access_expires_at user_id s existing given stored own =
    rw (logout_lem env now raw access_jti access_expires_at user_id s existing given stored own) (
      unfold record_audit in
      (revoke_family_ends existing.family_id now s, revoke_family_others existing.family_id now s))

-- A token that was revoked already is not touched by the revocation of its family.
revoke_family_found :
    (family_id hash : String) (now : ℕ) (s : Store) (t : RefreshToken) (at : ℕ)
    → get_refresh_token_by_token_hash hash s ≡ some t
    → t.revoked_at ≡ some at
    → get_refresh_token_by_token_hash hash (revoke_refresh_token_family family_id now s) ≡ some t
unfolding revoke_refresh_token_family get_refresh_token_by_token_hash
revoke_family_found family_id hash now s t at found revoked =
    find-modify (λ u. u.token_hash == hash) (is_live_in family_id) (mark_revoked now) (λ u. refl)
      s.tokens t found
    ∙ ground arith

revoke_family_clashes :
    (family_id : String) (now : ℕ) (s : Store) (rec : RefreshToken)
    → any (clashes rec) (revoke_refresh_token_family family_id now s).tokens
      ≡ any (clashes rec) s.tokens
unfolding revoke_refresh_token_family
revoke_family_clashes family_id now s rec =
    any-modify (clashes rec) (is_live_in family_id) (mark_revoked now) (λ u. refl) s.tokens

-- A rotation inside the grace window adds the new row and nothing else.
rotate_in_grace :
    (env : Env) (fresh : Fresh) (later : ℕ) (client : ClientInfo) (raw new_raw : String) (s : Store)
    (t rec : RefreshToken) (at : ℕ) (user : User)
    → get_refresh_token_by_token_hash (env.hash_token raw) s ≡ some t
    → t.revoked_at ≡ some at
    → within_grace env later t at ≡ true
    → later ≤ t.expires_at
    → later ≤ t.absolute_expires_at
    → get_user_by_id t.user_id s ≡ some user
    → user.status ≡ user_status_active
    → new_refresh_token_record env fresh user.id t.family_id t.absolute_expires_at client
      ≡ ok (new_raw, rec)
    → any (clashes rec) s.tokens ≡ false
    → refresh_tx env fresh later client raw s
      ≡ ok (rotated user new_raw rec.expires_at, record s { tokens = s.tokens ++ (rec ∷ []) })
unfolding refresh_tx rotate replace create_refresh_token
rotate_in_grace env fresh later client raw new_raw s t rec at user stored revoked soon idle cap
      found active made free =
    ground (arith, eq_iff user.status user_status_active)

new_record_live :
    (env : Env) (fresh : Fresh) (user_id family_id : String) (cap : ℕ) (client : ClientInfo)
    (raw : String) (rec : RefreshToken)
    → new_refresh_token_record env fresh user_id family_id cap client ≡ ok (raw, rec)
    → is_live_in family_id rec ≡ true
unfolding new_refresh_token_record
new_record_live env fresh user_id family_id cap client raw rec made =
    ground (arith, eq_refl family_id)

-- A logout does not end the session of a client that holds a token rotated a moment ago: within the
-- grace window after that rotation, the rotated token is still honoured after the logout, and the
-- session has a live token again.
pub logout-refresh_in_grace :
    (env : Env) (now : ℕ) (raw access_jti : String) (access_expires_at : ℕ) (s : Store)
    (existing : RefreshToken) (fresh : Fresh) (later : ℕ) (client : ClientInfo)
    (old_raw new_raw : String) (old rec : RefreshToken) (at : ℕ) (user : User)
    → raw ≢ ""
    → get_refresh_token_by_token_hash (env.hash_token raw) s ≡ some existing
    → get_refresh_token_by_token_hash (env.hash_token old_raw) s ≡ some old
    → old.family_id ≡ existing.family_id
    → old.revoked_at ≡ some at
    → within_grace env later old at ≡ true
    → later ≤ old.expires_at
    → later ≤ old.absolute_expires_at
    → get_user_by_id old.user_id s ≡ some user
    → user.status ≡ user_status_active
    → new_refresh_token_record env fresh user.id old.family_id old.absolute_expires_at client
      ≡ ok (new_raw, rec)
    → any (clashes rec) s.tokens ≡ false
    → let s' = (logout env now raw access_jti access_expires_at existing.user_id s).0 in
      (s'' : Store) × (refresh_tx env fresh later client old_raw s'
        ≡ ok (rotated user new_raw rec.expires_at, s''))
      × (any (is_live_in existing.family_id) s''.tokens ≡ true)
logout-refresh_in_grace env now raw access_jti access_expires_at s existing fresh later client
      old_raw new_raw old rec at user given stored found same revoked soon idle cap owner active
      made free =
    let ended =
      record_audit "user.logged_out" (revoke_refresh_token_family existing.family_id now s) in
    let out =
      logout_lem env now raw access_jti access_expires_at existing.user_id s existing given stored
        refl in
    let found' : get_refresh_token_by_token_hash (env.hash_token old_raw) ended ≡ some old =
      unfold record_audit get_refresh_token_by_token_hash in
      revoke_family_found existing.family_id (env.hash_token old_raw) now s old at found revoked in
    let owner' : get_user_by_id old.user_id ended ≡ some user =
      unfold record_audit revoke_refresh_token_family get_user_by_id in owner in
    let free' : any (clashes rec) ended.tokens ≡ false =
      unfold record_audit in revoke_family_clashes existing.family_id now s rec ∙ free in
    (
      record ended { tokens = ended.tokens ++ (rec ∷ []) },
      rw out (
          rotate_in_grace env fresh later client old_raw new_raw ended old rec at user found'
            revoked soon idle cap owner' active made free'),
      any_of_append (is_live_in existing.family_id) ended.tokens (rec ∷ []) (
          rw (← same) (
            let live =
              new_record_live env fresh user.id old.family_id old.absolute_expires_at client new_raw
                rec made in
            ground arith)),
    )
