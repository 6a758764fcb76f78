-- ===== src/Auth/Refresh/Caps.antt =====
-- internal/auth/service.go: what every refresh token owes to the session it descends from.
use racetify_api.Base.{
  ℕ, ◌≤◌, String, ◌≡◌, ◌∙◌, Bool, [], ◌∷◌, ◌++◌, arith, All, All-append, All-modify, Bool-cases,
  inl, inr,
}
use racetify_api.Domain.{ok, Result-cases}
use racetify_api.Database.{with_tx}
use racetify_api.Auth.{
  User, RefreshToken, Store, create_refresh_token, is_row, mark_replaced, rotate_refresh_token,
  is_live_in, mark_revoked, revoke_refresh_token_family,
}
use racetify_api.Auth.Sessions.{Env, Mint, Fresh, ClientInfo, new_refresh_token_record}
use racetify_api.Auth.Refresh.Rows.{
  create_refresh_token-eq-ok, replace-eq-ok, rotate-eq-ok, refresh_tx-eq-ok, get_user_by_id-id,
  get_refresh_token-All,
}
use racetify_api.Auth.Refresh.{Rotation, replace, rotate, refresh_tx, refresh_access_token}

-- A session: its user, and its hard cap.
abbrev pub Sessions : Type 0
Sessions = String → String × ℕ

-- The token belongs to its session's user, carries its cap, and does not outlive it.
pub record IsGoverned (g : Sessions) (t : RefreshToken) : Type 0 where
  pub owner : t.user_id ≡ (g t.family_id).0
  pub cap : t.absolute_expires_at ≡ (g t.family_id).1
  pub idle : t.expires_at ≤ t.absolute_expires_at

module _ (env : Env) (g : Sessions) where
  new_refresh_token_record-IsGoverned :
      (fresh : Fresh) (user_id family_id : String) (cap : ℕ) (client : ClientInfo) (raw : String)
      (rec : RefreshToken)
      → user_id ≡ (g family_id).0
      → cap ≡ (g family_id).1
      → new_refresh_token_record env fresh user_id family_id cap client ≡ ok (raw, rec)
      → IsGoverned g rec
  unfolding new_refresh_token_record
  new_refresh_token_record-IsGoverned fresh user_id family_id cap client raw rec hu hc e =
      ground arith

  create_refresh_token-All :
      (rec : RefreshToken) (s s' : Store)
      → IsGoverned g rec
      → All (IsGoverned g) s.tokens
      → create_refresh_token rec s ≡ ok (tt, s')
      → All (IsGoverned g) s'.tokens
  create_refresh_token-All rec s s' q h e =
      rw (create_refresh_token-eq-ok rec s s' e).1
        (All-append (IsGoverned g) s.tokens (rec ∷ []) h (q, tt))

  rotate_refresh_token-All :
      (id hash : String) (at : ℕ) (s : Store)
      → All (IsGoverned g) s.tokens
      → All (IsGoverned g) (rotate_refresh_token id hash at s).tokens
  unfolding rotate_refresh_token
  rotate_refresh_token-All id hash at s =
      All-modify (IsGoverned g) (is_row id) (mark_replaced hash at)
        (λ t _ q. record { owner = q.owner; cap = q.cap; idle = q.idle }) s.tokens

  pub revoke_refresh_token_family-All :
      (family : String) (at : ℕ) (s : Store)
      → All (IsGoverned g) s.tokens
      → All (IsGoverned g) (revoke_refresh_token_family family at s).tokens
  unfolding revoke_refresh_token_family
  revoke_refresh_token_family-All family at s =
      All-modify (IsGoverned g) (is_live_in family) (mark_revoked at)
        (λ t _ q. record { owner = q.owner; cap = q.cap; idle = q.idle }) s.tokens

  replace-All :
      (fresh : Fresh) (now : ℕ) (client : ClientInfo) (existing : RefreshToken) (grace : Bool)
      (user : User) (s s' : Store) (r : Rotation)
      → IsGoverned g existing
      → user.id ≡ existing.user_id
      → All (IsGoverned g) s.tokens
      → replace env fresh now client existing grace user s ≡ ok (r, s')
      → All (IsGoverned g) s'.tokens
  replace-All fresh now client existing grace user s s' r q hu h e =
      let done = replace-eq-ok env fresh now client existing grace user s r s' e in
      let good =
        new_refresh_token_record-IsGoverned fresh user.id existing.family_id
          existing.absolute_expires_at client done.raw done.rec (hu ∙ q.owner) q.cap done.made in
      let grown = All-append (IsGoverned g) s.tokens (done.rec ∷ []) h (good, tt) in
      rw done.tables (elim (Bool-cases grace) [
        | inl t ↦ rw t grown
        | inr f ↦ rw f (
            rotate_refresh_token-All existing.id done.rec.token_hash now
              (record s { tokens = s.tokens ++ (done.rec ∷ []) }) grown)
      ])

  rotate-All :
      (fresh : Fresh) (now : ℕ) (client : ClientInfo) (existing : RefreshToken) (grace : Bool)
      (s s' : Store) (r : Rotation)
      → IsGoverned g existing
      → All (IsGoverned g) s.tokens
      → rotate env fresh now client existing grace s ≡ ok (r, s')
      → All (IsGoverned g) s'.tokens
  rotate-All fresh now client existing grace s s' r q h e =
      let done = rotate-eq-ok env fresh now client existing grace s r s' e in
      replace-All fresh now client existing grace done.user s s' r q
        (get_user_by_id-id existing.user_id s done.user done.found) h done.replaced

  refresh_tx-All :
      (fresh : Fresh) (now : ℕ) (client : ClientInfo) (raw : String) (s s' : Store) (r : Rotation)
      → All (IsGoverned g) s.tokens
      → refresh_tx env fresh now client raw s ≡ ok (r, s')
      → All (IsGoverned g) s'.tokens
  refresh_tx-All fresh now client raw s s' r h e =
      elim (refresh_tx-eq-ok env fresh now client raw s r s' e) [
        | inl done ↦
            rotate-All fresh now client done.existing done.grace s s' r
              (get_refresh_token-All (IsGoverned g) (env.hash_token raw) s done.existing h
                done.stored)
              h done.rotated
        | inr dead ↦
            rw dead.tables (revoke_refresh_token_family-All dead.existing.family_id now s h)
      ]

-- Rotating never moves a session to another user and never extends it: whatever refresh token is
-- presented, and whatever the outcome, every refresh token of the table still belongs to the user
-- of its session, carries the hard cap that was fixed for its session, and expires by that cap, if
-- that held of every token before.
pub refresh_access_token-IsGoverned :
    (env : Env) (g : Sessions) (mint : Mint) (fresh : Fresh) (now : ℕ) (client : ClientInfo)
    (raw previous : String) (s : Store)
    → All (IsGoverned g) s.tokens
    → All (IsGoverned g) (refresh_access_token env mint fresh now client raw previous s).1.tokens
unfolding refresh_access_token
refresh_access_token-IsGoverned env g mint fresh now client raw previous s h =
    elim (Result-cases (refresh_tx env fresh now client raw s)) [
      | inl ((r, s'), e) ↦ rw (e, with_tx) (refresh_tx-All env g fresh now client raw s s' r h e)
      | inr (x, e) ↦ rw (e, with_tx) h
    ]
