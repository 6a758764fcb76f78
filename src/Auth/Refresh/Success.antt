-- ===== src/Auth/Refresh/Success.antt =====
-- internal/auth/service.go: what a refresh that is answered with tokens has checked and done.
use racetify_api.Base.{
  ℕ, ◌≤◌, String, ◌≡◌, refl, subst, ◌∙◌, ◌⊎◌, inl, inr, Bool, true, false, [], ◌∷◌, ◌++◌, none,
  some, ◌==◌, eq_iff, eq_refl, arith, any, if◌then◌else◌, Bool-cases, find-append, find-append_some,
  find-modify, any-weaken, any-All-false,
}
use racetify_api.Domain.{Result, ok, err, Result-cases}
use racetify_api.Security.Jwt.{issue_user_access_token}
use racetify_api.Auth.{
  User, RefreshToken, Store, user_status_active, is_nil, get_user_by_id,
  get_refresh_token_by_token_hash, clashes, is_row, mark_replaced, rotate_refresh_token,
}
use racetify_api.Auth.Sessions.{
  Env, Mint, Fresh, ClientInfo, SessionTokens, new_refresh_token_record, verify_tenant_membership,
}
use racetify_api.Auth.Refresh.Rows.{
  IsReplaced, IsRotated, rotate-eq-ok, replace-eq-ok, refresh_tx-eq-ok, get_refresh_token-All,
}
use racetify_api.Auth.Refresh.{
  Rotation, reuse_detected, rotated, within_grace, refresh_tx, tenant_hint, carried_tenant, respond,
  refresh_access_token,
}

-- The token is live, or was rotated within the grace window.
abbrev pub IsUsable : Env → ℕ → RefreshToken → Type 0
IsUsable env now t =
    (t.revoked_at ≡ none)
    ⊎ ((at : ℕ) × (t.revoked_at ≡ some at) × (within_grace env now t at ≡ true))

-- `s'` holds the successor of `existing`, live in its session, and `existing` itself is revoked.
pub record IsSucceeded (env : Env) (existing : RefreshToken) (raw new_raw : String) (s' : Store)
    : Type 0 where
  pub successor : RefreshToken
  pub kept : get_refresh_token_by_token_hash (env.hash_token new_raw) s' ≡ some successor
  pub family : successor.family_id ≡ existing.family_id
  pub cap : successor.absolute_expires_at ≡ existing.absolute_expires_at
  pub live : successor.revoked_at ≡ none
  pub old : RefreshToken
  pub spent : get_refresh_token_by_token_hash (env.hash_token raw) s' ≡ some old
  pub same : old.id ≡ existing.id
  pub dead : is_nil old.revoked_at ≡ false

pub record_fields :
    (env : Env) (fresh : Fresh) (user_id family_id : String) (cap : ℕ) (client : ClientInfo)
    (raw : String) (rec : RefreshToken)
    → new_refresh_token_record env fresh user_id family_id cap client ≡ ok (raw, rec)
    → (rec.token_hash ≡ env.hash_token raw)
      × (rec.family_id ≡ family_id)
      × (rec.absolute_expires_at ≡ cap)
      × (rec.revoked_at ≡ none)
      × (rec.user_id ≡ user_id)
unfolding new_refresh_token_record
record_fields env fresh user_id family_id cap client raw rec made = ground arith

-- The row that was inserted is what its hash finds.
pub find_inserted :
    (rec : RefreshToken) (s : Store)
    → any (clashes rec) s.tokens ≡ false
    → get_refresh_token_by_token_hash rec.token_hash (record s { tokens = s.tokens ++ (rec ∷ []) })
      ≡ some rec
unfolding get_refresh_token_by_token_hash
find_inserted rec s free =
    find-append (λ t. t.token_hash == rec.token_hash) s.tokens (rec ∷ [])
      (any-weaken (λ t. t.token_hash == rec.token_hash) (clashes rec) (λ t h. ground arith) s.tokens
        free)
    ∙ ground (arith, eq_refl rec.token_hash)

find_old :
    (hash : String) (rec t : RefreshToken) (s : Store)
    → get_refresh_token_by_token_hash hash s ≡ some t
    → get_refresh_token_by_token_hash hash (record s { tokens = s.tokens ++ (rec ∷ []) }) ≡ some t
unfolding get_refresh_token_by_token_hash
find_old hash rec t s found =
    find-append_some (λ u. u.token_hash == hash) s.tokens (rec ∷ []) t found

find_rotated :
    (hash id new_hash : String) (now : ℕ) (t : RefreshToken) (s : Store)
    → get_refresh_token_by_token_hash hash s ≡ some t
    → get_refresh_token_by_token_hash hash (rotate_refresh_token id new_hash now s)
      ≡ some (if is_row id t then mark_replaced new_hash now t else t)
unfolding get_refresh_token_by_token_hash rotate_refresh_token
find_rotated hash id new_hash now t s found =
    find-modify (λ u. u.token_hash == hash) (is_row id) (mark_replaced new_hash now) (λ u. refl)
      s.tokens t found

-- The insertion leaves the successor in the table, and the presented token where it was.
module _ (env : Env) (fresh : Fresh) (now : ℕ) (client : ClientInfo) (existing : RefreshToken)
    (user : User) (raw : String) (s : Store) (r : Rotation) (s' : Store)
    (stored : get_refresh_token_by_token_hash (env.hash_token raw) s ≡ some existing) where
  IsSucceeded-in_grace :
      (done : IsReplaced env fresh now client existing true user s r s')
      → is_nil existing.revoked_at ≡ false
      → IsSucceeded env existing raw done.raw s'
  IsSucceeded-in_grace done dead =
      let grown = record s { tokens = s.tokens ++ (done.rec ∷ []) } in
      let (hash, family, cap, live, owner) =
        record_fields env fresh user.id existing.family_id existing.absolute_expires_at client
          done.raw done.rec done.made in
      record {
        successor = done.rec;
        kept = rw (done.tables, ← hash) (find_inserted done.rec s done.unclashed);
        family = family;
        cap = cap;
        live = live;
        old = existing;
        spent = rw done.tables (find_old (env.hash_token raw) done.rec existing s stored);
        same = refl;
        dead = dead;
      }

  -- The new row is another row than the presented one.
  other_row :
      (rec : RefreshToken) → any (clashes rec) s.tokens ≡ false → is_row existing.id rec ≡ false
  other_row rec free =
      let apart =
        get_refresh_token-All (λ t. clashes rec t ≡ false) (env.hash_token raw) s existing
          (any-All-false (clashes rec) s.tokens free) stored in
      ground (arith, eq_iff existing.id rec.id, eq_iff rec.id existing.id)

  IsSucceeded-live :
      (done : IsReplaced env fresh now client existing false user s r s')
      → IsSucceeded env existing raw done.raw s'
  IsSucceeded-live done =
      let grown = record s { tokens = s.tokens ++ (done.rec ∷ []) } in
      let (hash, family, cap, live, owner) =
        record_fields env fresh user.id existing.family_id existing.absolute_expires_at client
          done.raw done.rec done.made in
      record {
        successor = done.rec;
        kept =
            rw (done.tables, ← hash)
              (find_rotated done.rec.token_hash existing.id done.rec.token_hash now done.rec grown
                  (find_inserted done.rec s done.unclashed)
                ∙ rw (other_row done.rec done.unclashed));
        family = family;
        cap = cap;
        live = live;
        old = mark_replaced done.rec.token_hash now existing;
        spent = rw done.tables (
            find_rotated (env.hash_token raw) existing.id done.rec.token_hash now existing grown
              (find_old (env.hash_token raw) done.rec existing s stored)
            ∙ rw (eq_refl existing.id));
        same = refl;
        dead = refl;
      }

  succeeded :
      (grace : Bool) (done : IsReplaced env fresh now client existing grace user s r s')
      → (grace ≡ false) ⊎ (is_nil existing.revoked_at ≡ false)
      → IsSucceeded env existing raw done.raw s'
  succeeded false done marked = IsSucceeded-live done
  succeeded true done (inl off) = absurd (ground arith)
  succeeded true done (inr marked) = IsSucceeded-in_grace done marked

-- Everything that an answer with tokens implies.
pub record IsRefresh (env : Env) (mint : Mint) (now : ℕ) (raw : String) (s : Store) (user : User)
    (st : SessionTokens) (s' : Store) : Type 0 where
  pub existing : RefreshToken
  pub stored : get_refresh_token_by_token_hash (env.hash_token raw) s ≡ some existing
  pub usable : IsUsable env now existing
  pub unexpired : now ≤ existing.expires_at
  pub uncapped : now ≤ existing.absolute_expires_at
  pub owner : get_user_by_id existing.user_id s ≡ some user
  pub active : user.status ≡ user_status_active
  pub succeeded : IsSucceeded env existing raw st.refresh_token s'
  pub tenant : (st.tenant_id ≡ "") ⊎ (verify_tenant_membership env st.tenant_id user.id ≡ ok tt)
  pub jti : String
  pub minted :
      issue_user_access_token env.tokens mint.jti mint.now user.id user.is_super_admin st.tenant_id
        env.cfg.access_token_ttl
      ≡ ok (st.access_token, jti, st.access_token_expires_at)

-- The access token of the answer is issued for the user and the tenant that the answer names.
abbrev IsMinted : Env → Mint → User → SessionTokens → Type 0
IsMinted env mint user st =
    (jti : String) × (issue_user_access_token env.tokens mint.jti mint.now user.id
        user.is_super_admin st.tenant_id env.cfg.access_token_ttl
      ≡ ok (st.access_token, jti, st.access_token_expires_at))

carried_tenant_lem :
    (env : Env) (previous user_id : String)
    → (carried_tenant env previous user_id ≡ "")
      ⊎ (verify_tenant_membership env (carried_tenant env previous user_id) user_id ≡ ok tt)
unfolding carried_tenant
carried_tenant_lem env previous user_id = elim (Bool-cases (tenant_hint env previous == "")) [
  | inl t ↦ inl (ground arith)
  | inr f ↦ elim (Result-cases (verify_tenant_membership env (tenant_hint env previous) user_id)) [
    | inl (tt, v) ↦ inr (rw (f, v) v)
    | inr (x, v) ↦ inl (ground arith)
  ]
]

-- An answer with tokens comes from a rotation, and carries its user and its new token.
respond-eq-ok :
    (env : Env) (mint : Mint) (previous : String) (r : Result Rotation) (user : User)
    (st : SessionTokens)
    → respond env mint previous r ≡ ok (user, st)
    → (r ≡ ok (rotated user st.refresh_token st.refresh_token_expires_at))
      × (st.tenant_id ≡ carried_tenant env previous user.id)
      × IsMinted env mint user st
unfolding respond
respond-eq-ok env mint previous (err e) user st h = absurd (ground arith)
respond-eq-ok env mint previous (ok reuse_detected) user st h = absurd (ground arith)
respond-eq-ok env mint previous (ok (rotated u raw at)) user st h =
    elim (Result-cases (
      issue_user_access_token env.tokens mint.jti mint.now u.id u.is_super_admin
        (carried_tenant env previous u.id) env.cfg.access_token_ttl)) [
          | inl (access, e) ↦
              let (same, answered, tenant, token, until) : (u ≡ user)
                  × (ok (rotated u raw at)
                      ≡ ok (rotated user st.refresh_token st.refresh_token_expires_at))
                  × (carried_tenant env previous u.id ≡ st.tenant_id)
                  × (access.0 ≡ st.access_token)
                  × (access.2 ≡ st.access_token_expires_at) =
                ground arith in
              (answered, ground arith, (access.1, ground arith))
          | inr (x, e) ↦ absurd (ground arith)
        ]

-- The transaction under an answer with tokens.
refresh_access_token-tx :
    (env : Env) (mint : Mint) (fresh : Fresh) (now : ℕ) (client : ClientInfo)
    (raw previous : String) (s s' : Store) (user : User) (st : SessionTokens)
    → refresh_access_token env mint fresh now client raw previous s ≡ (ok (user, st), s')
    → (refresh_tx env fresh now client raw s
        ≡ ok (rotated user st.refresh_token st.refresh_token_expires_at, s'))
      × (st.tenant_id ≡ carried_tenant env previous user.id)
      × IsMinted env mint user st
unfolding refresh_access_token
refresh_access_token-tx env mint fresh now client raw previous s s' user st h =
    elim (Result-cases (refresh_tx env fresh now client raw s)) [
      | inl ((r, s1), e) ↦
          let answer : respond env mint previous (ok r) ≡ ok (user, st) = ground arith in
          let (same, hint, minted) = respond-eq-ok env mint previous (ok r) user st answer in
          (ground arith, hint, minted)
      | inr (x, e) ↦
          let answer : respond env mint previous (err x) ≡ ok (user, st) = ground arith in
          let (same, hint, _) = respond-eq-ok env mint previous (err x) user st answer in
          absurd (ground arith)
    ]

-- The rotation's own part.
rotation-IsSucceeded :
    (env : Env) (fresh : Fresh) (now : ℕ) (client : ClientInfo) (raw new_raw : String) (at : ℕ)
    (s s' : Store) (user : User) (existing : RefreshToken) (grace : Bool)
    → get_refresh_token_by_token_hash (env.hash_token raw) s ≡ some existing
    → (grace ≡ false) ⊎ (is_nil existing.revoked_at ≡ false)
    → (done : IsRotated env fresh now client existing grace s (rotated user new_raw at) s')
    → (done.user ≡ user) × IsSucceeded env existing raw new_raw s'
rotation-IsSucceeded env fresh now client raw new_raw at s s' user existing grace stored marked
      done =
    let made =
      replace-eq-ok env fresh now client existing grace done.user s (rotated user new_raw at) s'
        done.replaced in
    let good =
      succeeded env fresh now client existing done.user raw s (rotated user new_raw at) s' stored
        grace made marked in
    let result = made.result in
    let same : made.raw ≡ new_raw = cc in
    (cc, subst (λ x. IsSucceeded env existing raw x s') same good)

usable :
    (env : Env) (now : ℕ) (t : RefreshToken) (grace : Bool)
    → ((t.revoked_at ≡ none) × (grace ≡ false))
      ⊎ ((at : ℕ) × (t.revoked_at ≡ some at) × (grace ≡ true) × (within_grace env now t at ≡ true))
    → IsUsable env now t × ((grace ≡ false) ⊎ (is_nil t.revoked_at ≡ false))
usable env now t grace (inl (live, off)) = (inl live, inl off)
usable env now t grace (inr (at, revoked, on, soon)) =
    (inr (at, revoked, soon), inr (rw revoked refl))

-- A refresh is answered with tokens only for a token of the table that is live or was rotated
-- within the grace window, that has not passed its own expiry or its session's cap, and whose user
-- is active; the answer's refresh token is then in the table, live, in the same session and under
-- the same cap, the presented token is revoked, and the access token of the answer is the one that is
-- issued for the user and a tenant that is either none or one whose membership was verified.
pub refresh_access_token-IsRefresh :
    (env : Env) (mint : Mint) (fresh : Fresh) (now : ℕ) (client : ClientInfo)
    (raw previous : String) (s s' : Store) (user : User) (st : SessionTokens)
    → refresh_access_token env mint fresh now client raw previous s ≡ (ok (user, st), s')
    → IsRefresh env mint now raw s user st s'
refresh_access_token-IsRefresh env mint fresh now client raw previous s s' user st h =
    let (tx, hint, (jti, minted)) =
      refresh_access_token-tx env mint fresh now client raw previous s s' user st h in
    elim (refresh_tx-eq-ok env fresh now client raw s _ s' tx) [
      | inr reused ↦ let result = reused.result in absurd (ground arith)
      | inl done ↦
          let (fits, marked) = usable env now done.existing done.grace done.honoured in
          let passed =
            rotate-eq-ok env fresh now client done.existing done.grace s
              (rotated user st.refresh_token st.refresh_token_expires_at) s' done.rotated in
          let (same, good) =
            rotation-IsSucceeded env fresh now client raw st.refresh_token
              st.refresh_token_expires_at s s' user done.existing done.grace done.stored marked
              passed in
          record {
            existing = done.existing;
            stored = done.stored;
            usable = fits;
            unexpired = passed.unexpired;
            uncapped = passed.uncapped;
            owner = subst (λ u. get_user_by_id done.existing.user_id s ≡ some u) same passed.found;
            active = subst (λ u. u.status ≡ user_status_active) same passed.active;
            succeeded = good;
            tenant = rw hint (carried_tenant_lem env previous user.id);
            jti = jti;
            minted = minted;
          }
    ]
