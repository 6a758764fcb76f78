-- ===== src/Auth/Refresh/Rows.antt =====
-- internal/auth: what a successful rotation has written.
use racetify_api.Base.{
  ℕ, ◌≤◌, String, ◌≡◌, refl, Bool, true, false, [], ◌∷◌, ◌++◌, none, some, ◌==◌, eq_iff, arith, any,
  if◌then◌else◌, Bool-cases, Option-cases, inl, inr, ◌⊎◌, All, find_sound, find-All,
}
use racetify_api.Domain.{ok, Result-cases}
use racetify_api.Auth.{
  User, RefreshToken, Store, user_status_active, get_user_by_id, clashes, create_refresh_token,
  get_refresh_token_by_token_hash, revoke_refresh_token_family, rotate_refresh_token,
}
use racetify_api.Auth.Sessions.{Env, Fresh, ClientInfo, new_refresh_token_record}
use racetify_api.Auth.Refresh.{
  Rotation, reuse_detected, rotated, replace, rotate, within_grace, refresh_tx,
}

pub create_refresh_token-eq-ok :
    (rec : RefreshToken) (s s' : Store)
    → create_refresh_token rec s ≡ ok (tt, s')
    → (any (clashes rec) s.tokens ≡ false) × (s' ≡ record s { tokens = s.tokens ++ (rec ∷ []) })
unfolding create_refresh_token
create_refresh_token-eq-ok rec s s' e = ground arith

-- The row that was made, and the tables that hold it.
pub record IsReplaced (env : Env) (fresh : Fresh) (now : ℕ) (client : ClientInfo)
    (existing : RefreshToken) (grace : Bool) (user : User) (s : Store) (r : Rotation) (s' : Store)
    : Type 0 where
  pub raw : String
  pub rec : RefreshToken
  pub made :
      new_refresh_token_record env fresh user.id existing.family_id existing.absolute_expires_at
        client
      ≡ ok (raw, rec)
  pub unclashed : any (clashes rec) s.tokens ≡ false
  pub result : r ≡ rotated user raw rec.expires_at
  pub tables : s' ≡ (
      let grown = record s { tokens = s.tokens ++ (rec ∷ []) } in
      if grace then grown else rotate_refresh_token existing.id rec.token_hash now grown)

pub replace-eq-ok :
    (env : Env) (fresh : Fresh) (now : ℕ) (client : ClientInfo) (existing : RefreshToken)
    (grace : Bool) (user : User) (s : Store) (r : Rotation) (s' : Store)
    → replace env fresh now client existing grace user s ≡ ok (r, s')
    → IsReplaced env fresh now client existing grace user s r s'
unfolding replace
replace-eq-ok env fresh now client existing grace user s r s' e =
    elim (Result-cases (
      new_refresh_token_record env fresh user.id existing.family_id existing.absolute_expires_at
        client)) [
          | inr (x, bad) ↦ absurd (ground arith)
          | inl ((raw, rec), made) ↦ elim (Result-cases (create_refresh_token rec s)) [
            | inr (x, bad) ↦ absurd (ground arith)
            | inl ((u, grown), done) ↦
                let (free, same) = create_refresh_token-eq-ok rec s grown done in
                record {
                  raw = raw;
                  rec = rec;
                  made = made;
                  unclashed = free;
                  result = ground arith;
                  tables = ground arith;
                }
          ]
        ]

pub get_user_by_id-id :
    (id : String) (s : Store) (user : User) → get_user_by_id id s ≡ some user → user.id ≡ id
unfolding get_user_by_id
get_user_by_id-id id s user e = (eq_iff user.id id).0 (find_sound (λ u. u.id == id) s.users user e)

module _ {ℓ} (P : RefreshToken → Type ℓ) where
  pub get_refresh_token-All :
      (hash : String) (s : Store) (t : RefreshToken)
      → All P s.tokens
      → get_refresh_token_by_token_hash hash s ≡ some t
      → P t
  unfolding get_refresh_token_by_token_hash
  get_refresh_token-All hash s t h e = find-All (λ u. u.token_hash == hash) P s.tokens t h e

-- The checks that a rotation has passed.
pub record IsRotated (env : Env) (fresh : Fresh) (now : ℕ) (client : ClientInfo)
    (existing : RefreshToken) (grace : Bool) (s : Store) (r : Rotation) (s' : Store) : Type 0 where
  pub user : User
  pub found : get_user_by_id existing.user_id s ≡ some user
  pub unexpired : now ≤ existing.expires_at
  pub uncapped : now ≤ existing.absolute_expires_at
  pub active : user.status ≡ user_status_active
  pub replaced : replace env fresh now client existing grace user s ≡ ok (r, s')

pub rotate-eq-ok :
    (env : Env) (fresh : Fresh) (now : ℕ) (client : ClientInfo) (existing : RefreshToken)
    (grace : Bool) (s : Store) (r : Rotation) (s' : Store)
    → rotate env fresh now client existing grace s ≡ ok (r, s')
    → IsRotated env fresh now client existing grace s r s'
unfolding rotate
rotate-eq-ok env fresh now client existing grace s r s' e =
    elim (Option-cases (get_user_by_id existing.user_id s)) [
      | inl missing ↦ absurd (ground arith)
      | inr (user, found) ↦ record {
        user = user;
        found = found;
        unexpired = ground arith;
        uncapped = ground arith;
        active = ground (arith, eq_iff user.status user_status_active);
        replaced = ground arith;
      }
    ]

-- The presented token is in the table, and is live or was rotated within the grace window.
pub record IsHonoured (env : Env) (fresh : Fresh) (now : ℕ) (client : ClientInfo) (raw : String)
    (s : Store) (r : Rotation) (s' : Store) : Type 0 where
  pub existing : RefreshToken
  pub grace : Bool
  pub stored : get_refresh_token_by_token_hash (env.hash_token raw) s ≡ some existing
  pub honoured :
      ((existing.revoked_at ≡ none) × (grace ≡ false))
      ⊎ ((at : ℕ) × (existing.revoked_at ≡ some at)
          × (grace ≡ true)
          × (within_grace env now existing at ≡ true))
  pub rotated : rotate env fresh now client existing grace s ≡ ok (r, s')

-- The presented token is in the table, and is dead.
pub record IsReused (env : Env) (now : ℕ) (raw : String) (s : Store) (r : Rotation) (s' : Store)
    : Type 0 where
  pub existing : RefreshToken
  pub at : ℕ
  pub stored : get_refresh_token_by_token_hash (env.hash_token raw) s ≡ some existing
  pub revoked : existing.revoked_at ≡ some at
  pub late : within_grace env now existing at ≡ false
  pub result : r ≡ reuse_detected
  pub tables : s' ≡ revoke_refresh_token_family existing.family_id now s

pub refresh_tx-eq-ok :
    (env : Env) (fresh : Fresh) (now : ℕ) (client : ClientInfo) (raw : String) (s : Store)
    (r : Rotation) (s' : Store)
    → refresh_tx env fresh now client raw s ≡ ok (r, s')
    → IsHonoured env fresh now client raw s r s' ⊎ IsReused env now raw s r s'
refresh_tx-eq-ok env fresh now client raw s r s' e =
    elim (Option-cases (get_refresh_token_by_token_hash (env.hash_token raw) s)) [
      | inl missing ↦ absurd (unfold refresh_tx in ground arith)
      | inr (existing, stored) ↦ elim (Option-cases existing.revoked_at) [
        | inl live ↦ inl (record {
          existing = existing;
          grace = false;
          stored = stored;
          honoured = inl (live, refl);
          rotated = unfold refresh_tx in ground arith;
        })
        | inr (at, revoked) ↦ elim (Bool-cases (within_grace env now existing at)) [
          | inl soon ↦ inl (record {
            existing = existing;
            grace = true;
            stored = stored;
            honoured = inr (at, revoked, refl, soon);
            rotated = unfold refresh_tx in ground arith;
          })
          | inr late ↦ inr (record {
            existing = existing;
            at = at;
            stored = stored;
            revoked = revoked;
            late = late;
            result = unfold refresh_tx in ground arith;
            tables = unfold refresh_tx in ground arith;
          })
        ]
      ]
    ]
