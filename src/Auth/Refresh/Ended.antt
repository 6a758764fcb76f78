-- ===== src/Auth/Refresh/Ended.antt =====
-- internal/auth/service.go: a session that was logged out is over once the grace window has passed.
use racetify_api.Base.{
  ℕ, ◌+◌, ◌≤◌, ◌<◌, String, ◌≡◌, refl, sym, ap, ◌∙◌, ◌≢◌, subst, false, List, [], ◌∷◌, Option, none,
  some, ◌==◌, eq_iff, arith, keep, find, All, All-keep, All-modify, any-All-false, Bool-cases,
  Option-cases, inl, inr,
}
use racetify_api.Domain.{err, invalid_credentials}
use racetify_api.Auth.{
  RefreshToken, Store, get_refresh_token_by_token_hash, is_live_in, mark_revoked,
  revoke_refresh_token_family, record_audit,
}
use racetify_api.Auth.Sessions.{Env, Mint, Fresh, ClientInfo}
use racetify_api.Auth.Refresh.{within_grace, refresh_access_token, logout}
use racetify_api.Auth.Refresh.Family.{revoke_family_ends, dead_token, logout_lem}

-- Every revocation in the table lies in the past.
abbrev pub IsRevokedBy : ℕ → Option ℕ → Type 0
IsRevokedBy now none = Unit
IsRevokedBy now (some at) = at ≤ now

-- A token of a family that was revoked by `now` is dead once the window has passed.
late_enough :
    (env : Env) (now later : ℕ) (family_id : String) (t : RefreshToken)
    → is_live_in family_id t ≡ false
    → t.family_id ≡ family_id
    → IsRevokedBy now t.revoked_at
    → now + env.cfg.refresh_grace_window < later
    → (at : ℕ) × (t.revoked_at ≡ some at) × (within_grace env later t at ≡ false)
unfolding within_grace
late_enough env now later family_id t dead same past after = elim (Option-cases t.revoked_at) [
  | inl live ↦ absurd (ground (arith, eq_iff t.family_id family_id))
  | inr (at, revoked) ↦ let before : at ≤ now = rw revoked at past in (at, revoked, ground arith)
]

revoke_family-IsRevokedBy :
    (family_id : String) (now : ℕ) (s : Store)
    → All (λ t. IsRevokedBy now t.revoked_at) s.tokens
    → All (λ t. IsRevokedBy now t.revoked_at) (revoke_refresh_token_family family_id now s).tokens
unfolding revoke_refresh_token_family
revoke_family-IsRevokedBy family_id now s =
    All-modify (λ t. IsRevokedBy now t.revoked_at) (is_live_in family_id) (mark_revoked now)
      (λ t _ _. omega arith) s.tokens

-- The tokens of a session.
abbrev pub session : String → List RefreshToken → List RefreshToken
session family_id = keep (λ t. t.family_id == family_id)

-- What holds of every token of a session holds of one that is found.
session-All :
    (P : RefreshToken → Type 0) (family_id hash : String) (s : Store) (t : RefreshToken)
    → All P (session family_id s.tokens)
    → get_refresh_token_by_token_hash hash s ≡ some t
    → t.family_id ≡ family_id
    → P t
unfolding get_refresh_token_by_token_hash
session-All P family_id hash s t = go s.tokens
  where
    go :
        (ts : List RefreshToken)
        → All P (session family_id ts)
        → find (λ u. u.token_hash == hash) ts ≡ some t
        → t.family_id ≡ family_id
        → P t
    go [] held found same = absurd cc
    go (x ∷ xs) held found same = elim (Bool-cases (x.family_id == family_id)) [
      | inl mine ↦
          let (p, rest) : P x × All P (session family_id xs) = rw mine at held in
          elim (Bool-cases (x.token_hash == hash)) [
            | inl hit ↦ let it : x ≡ t = ground arith in subst P it p
            | inr miss ↦ go xs rest (ground arith) same
          ]
      | inr foreign ↦
          let rest : All P (session family_id xs) = rw foreign at held in
          elim (Bool-cases (x.token_hash == hash)) [
            | inl hit ↦
                let it : x ≡ t = ground arith in
                let own = (eq_iff x.family_id family_id).1 (ap (λ u. u.family_id) it ∙ same) in
                absurd cc
            | inr miss ↦ go xs rest (ground arith) same
          ]
    ]

-- Whatever has happened to other sessions since a logout, and once the grace window has passed, no
-- refresh token of the session that was logged out is honoured while that session's tokens are as the
-- logout left them: presenting one is answered with invalid_credentials, if no revocation in the table
-- was dated after the logout.
pub logout-refresh_access_token :
    (env : Env) (now : ℕ) (raw access_jti : String) (access_expires_at : ℕ) (user_id : String)
    (s s1 : Store) (existing : RefreshToken) (mint : Mint) (fresh : Fresh) (later : ℕ)
    (client : ClientInfo) (raw' previous : String) (presented : RefreshToken)
    → raw ≢ ""
    → get_refresh_token_by_token_hash (env.hash_token raw) s ≡ some existing
    → existing.user_id ≡ user_id
    → All (λ t. IsRevokedBy now t.revoked_at) s.tokens
    → now + env.cfg.refresh_grace_window < later
    → session existing.family_id s1.tokens
      ≡ session existing.family_id
          (logout env now raw access_jti access_expires_at user_id s).0.tokens
    → get_refresh_token_by_token_hash (env.hash_token raw') s1 ≡ some presented
    → presented.family_id ≡ existing.family_id
    → (refresh_access_token env mint fresh later client raw' previous s1).0
      ≡ err invalid_credentials
logout-refresh_access_token env now raw access_jti access_expires_at user_id s s1 existing mint
      fresh later client raw' previous presented given stored own past after alike found same =
    let family = existing.family_id in
    let ended = revoke_refresh_token_family family now s in
    let out =
      logout_lem env now raw access_jti access_expires_at user_id s existing given stored own in
    let rows : session family s1.tokens ≡ session family ended.tokens =
      alike
      ∙ ap (λ t. session family t.tokens) out
      ∙ (unfold record_audit in refl {a = session family ended.tokens}) in
    let dead =
      session-All (λ t. is_live_in family t ≡ false) family (env.hash_token raw') s1 presented
        (subst (All (λ t. is_live_in family t ≡ false)) (sym rows) (
          All-keep _ _ ended.tokens
            (any-All-false (is_live_in family) _ (revoke_family_ends family now s))))
        found same in
    let revoked =
      session-All (λ t. IsRevokedBy now t.revoked_at) family (env.hash_token raw') s1 presented
        (subst (All (λ t. IsRevokedBy now t.revoked_at)) (sym rows)
          (All-keep _ _ ended.tokens (revoke_family-IsRevokedBy family now s past)))
        found same in
    let (at, marked, late) = late_enough env now later family presented dead same revoked after in
    rw (dead_token env mint fresh later client raw' previous s1 presented at found marked late) refl
