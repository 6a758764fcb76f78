-- ===== src/Auth/Login.antt =====
-- internal/auth/service.go: what a login that succeeds was given, and what it leaves (Login).
use racetify_api.Base.{
  ℕ, ◌+◌, String, ◌≡◌, refl, sym, ap, ◌∙◌, true, [], ◌∷◌, ◌++◌, none, some, inl, inr, ◌==◌, arith,
  eq_iff, Bool-cases, Option-cases, any, subst,
}
use racetify_api.Text.{Unicode}
use racetify_api.Domain.{Result, ok, err, Result-cases, and_then, and_then-eq-ok, ok-injective}
use racetify_api.Database.{Tx, with_tx}
use racetify_api.Security.Jwt.{issue_user_access_token}
use racetify_api.Auth.{
  User, RefreshToken, Store, user_status_active, get_user_by_email, get_refresh_token_by_token_hash,
  clashes, create_refresh_token, record_audit,
}
use racetify_api.Auth.Sessions.{
  Env, Mint, Fresh, ClientInfo, SessionTokens, new_refresh_token_record, issue_session,
  password_matches, normalize_email, authenticate, open_session, login,
}
use racetify_api.Auth.Refresh.Success.{record_fields, find_inserted}

with_tx-eq-ok :
    {S A : Type 0} (m : Tx S A) (s s' : S) (a : A) → with_tx m s ≡ (ok a, s') → m s ≡ ok (a, s')
with_tx-eq-ok m s s' a h = elim (Result-cases (m s)) [
  | inl ((b, s''), e) ↦ let out : (ok b, s'') ≡ (ok a, s') = rw (e, with_tx) at h in e ∙ cc (out)
  | inr (x, e) ↦ let out : (err x, s) ≡ (ok a, s') = rw (e, with_tx) at h in cc (out)
]

-- What a login asks of the account.
pub record IsAuthentic (env : Env) (u : Unicode) (email password : String) (s : Store) (user : User)
    : Type 0 where
  pub known : get_user_by_email u (normalize_email u email) s ≡ some user
  pub password_ok : password_matches env password user.password_hash ≡ true
  pub is_active : user.status ≡ user_status_active

-- The session that a login opens.
pub record IsOpened (env : Env) (mint : Mint) (family_id : String) (now : ℕ) (user : User)
    (s s' : Store) (tokens : SessionTokens) : Type 0 where
  pub row : RefreshToken
  pub added : s'.tokens ≡ s.tokens ++ (row ∷ [])
  pub stored : get_refresh_token_by_token_hash (env.hash_token tokens.refresh_token) s' ≡ some row
  pub owner : row.user_id ≡ user.id
  pub session : row.family_id ≡ family_id
  pub cap : row.absolute_expires_at ≡ now + env.cfg.refresh_absolute_ttl
  pub live : row.revoked_at ≡ none
  pub no_tenant : tokens.tenant_id ≡ ""
  pub jti : String
  pub minted :
      issue_user_access_token env.tokens mint.jti mint.now user.id user.is_super_admin ""
        env.cfg.access_token_ttl
      ≡ ok (tokens.access_token, jti, tokens.access_token_expires_at)

authentic :
    (env : Env) (u : Unicode) (email password : String) (s s' : Store) (found user : User)
    → get_user_by_email u (normalize_email u email) s ≡ some found
    → password_matches env password found.password_hash ≡ true
    → found.status ≡ user_status_active
    → ◌≡◌ {A = Result (User × Store)} (ok (found, record_audit "user.logged_in" s)) (ok (user, s'))
    → IsAuthentic env u email password s user × (s'.tokens ≡ s.tokens)
unfolding record_audit
authentic env u email password s s' found user known fits active out =
    let user_eq : found ≡ user = ground arith in
    let s'_eq : record s { audit = "user.logged_in" ∷ s.audit } ≡ s' = ground arith in
    (
      subst (IsAuthentic env u email password s) user_eq
          (record { known = known; password_ok = fits; is_active = active }),
      ap (λ (x : Store). x.tokens) (sym s'_eq),
    )

authenticate-IsAuthentic :
    (env : Env) (u : Unicode) (email password : String) (s s' : Store) (user : User)
    → authenticate env u (normalize_email u email) password s ≡ ok (user, s')
    → IsAuthentic env u email password s user × (s'.tokens ≡ s.tokens)
unfolding authenticate
authenticate-IsAuthentic env u email password s s' user h =
    elim (Option-cases (get_user_by_email u (normalize_email u email) s)) [
      | inl n ↦ let out = rw (n, authenticate) at h in cc (out)
      | inr (found, n) ↦ elim (Bool-cases (password_matches env password found.password_hash)) [
        | inr b ↦ let out = rw b at (rw (n, authenticate) at h) in cc (out)
        | inl b ↦ elim (Bool-cases (found.status == user_status_active)) [
          | inr c ↦ let out = rw c at (rw b at (rw (n, authenticate) at h)) in cc (out)
          | inl c ↦
              let out : ◌≡◌ {A = Result (User × Store)}
                  (ok (found, record_audit "user.logged_in" s)) (ok (user, s')) =
                rw c at (rw b at (rw (n, authenticate) at h)) in
              authentic env u email password s s' found user n b
                ((eq_iff found.status user_status_active).0 c) out
        ]
      ]
    ]

-- From the new row on.
opened :
    (env : Env) (mint : Mint) (fresh : Fresh) (family_id : String) (now : ℕ) (user : User)
    (client : ClientInfo) (s s' : Store) (raw : String) (rec : RefreshToken)
    (answer tokens : SessionTokens) (jti : String)
    → answer.refresh_token ≡ raw
    → answer.tenant_id ≡ ""
    → issue_user_access_token env.tokens mint.jti mint.now user.id user.is_super_admin ""
        env.cfg.access_token_ttl
      ≡ ok (answer.access_token, jti, answer.access_token_expires_at)
    → new_refresh_token_record env fresh user.id family_id
        (now + env.cfg.refresh_absolute_ttl)
        client
      ≡ ok (raw, rec)
    → and_then {B = SessionTokens × Store}
        (create_refresh_token rec s)
        (λ done. ok (answer, done.1))
      ≡ ok (tokens, s')
    → IsOpened env mint family_id now user s s' tokens
unfolding create_refresh_token
opened env mint fresh family_id now user client s s' raw rec answer tokens jti is_raw none_named
      issued made h =
    let (hash, session, capped, live, owner) =
      record_fields env fresh user.id family_id (now + env.cfg.refresh_absolute_ttl) client raw rec
        made in
    elim (Bool-cases (any (clashes rec) s.tokens)) [
      | inl b ↦ let out = rw b at h in cc (out)
      | inr b ↦
          let after : Store = record s { tokens = s.tokens ++ (rec ∷ []) } in
          let out : ◌≡◌ {A = Result (SessionTokens × Store)} (ok (answer, after))
              (ok (tokens, s')) =
            rw b at h in
          let tokens_eq : answer ≡ tokens = ground arith in
          let s'_eq : after ≡ s' = ground arith in
          let stored : get_refresh_token_by_token_hash (env.hash_token answer.refresh_token) after
              ≡ some rec =
            rw (is_raw, sym hash) (find_inserted rec s b) in
          subst (λ x. IsOpened env mint family_id now user s x tokens) s'_eq
            (subst (IsOpened env mint family_id now user s after) tokens_eq (record {
              row = rec;
              added = refl;
              stored = stored;
              session = session;
              cap = capped;
              live = live;
              no_tenant = none_named;
              owner = owner;
              jti = jti;
              minted = issued;
            }))
    ]

issue_session-IsOpened :
    (env : Env) (mint : Mint) (fresh : Fresh) (family_id : String) (now : ℕ) (user : User)
    (client : ClientInfo) (s s' : Store) (tokens : SessionTokens)
    → issue_session env mint fresh family_id now user client s ≡ ok (tokens, s')
    → IsOpened env mint family_id now user s s' tokens
unfolding issue_session
issue_session-IsOpened env mint fresh family_id now user client s s' tokens h =
    let cap = now + env.cfg.refresh_absolute_ttl in
    let (access, issued, e1) =
      and_then-eq-ok
        (issue_user_access_token env.tokens mint.jti mint.now user.id user.is_super_admin ""
          env.cfg.access_token_ttl)
        _ h in
    let (made, drawn, e2) =
      and_then-eq-ok (new_refresh_token_record env fresh user.id family_id cap client) _ e1 in
    opened env mint fresh family_id now user client s s' made.0 made.1 _ tokens access.1 refl refl
      issued drawn e2

open_session-IsOpened :
    (env : Env) (mint : Mint) (fresh : Fresh) (family_id : String) (now : ℕ) (client : ClientInfo)
    (r : Result User) (s s' : Store) (user : User) (tokens : SessionTokens)
    → open_session env mint fresh family_id now client r s ≡ (ok (user, tokens), s')
    → (r ≡ ok user) × IsOpened env mint family_id now user s s' tokens
unfolding open_session
open_session-IsOpened env mint fresh family_id now client (err e) s s' user tokens h = cc
open_session-IsOpened env mint fresh family_id now client (ok found) s s' user tokens h =
    elim (Result-cases (issue_session env mint fresh family_id now found client s)) [
      | inl ((answer, after), e) ↦
          let out : ◌≡◌ {A = Result (User × SessionTokens) × Store} (ok (found, answer), after)
              (ok (user, tokens), s') =
            rw (e, with_tx) at h in
          let user_eq : ok found ≡ ok user = ground arith in
          let tokens_eq : answer ≡ tokens = ground arith in
          let s'_eq : after ≡ s' = ground arith in
          let same : found ≡ user = ok-injective found user user_eq in
          (
            user_eq,
            subst (λ x. IsOpened env mint family_id now user s x tokens) s'_eq
                (subst (IsOpened env mint family_id now user s after) tokens_eq (
                  subst (λ a. IsOpened env mint family_id now a s after answer) same
                    (issue_session-IsOpened env mint fresh family_id now found client s after answer
                      e))),
          )
      | inr (x, e) ↦ let out = rw (e, with_tx) at h in cc (out)
    ]

-- A login is answered with tokens only for an active account that has the given address (up to case
-- and outer spaces) and the given password; one refresh token is then added to the table: the one
-- in the answer, live, for that account, in a new session that is capped from now on, and the access
-- token of the answer is the one that is issued for that account and no tenant.
pub login_lem :
    (env : Env) (u : Unicode) (mint : Mint) (fresh : Fresh) (family_id : String) (now : ℕ)
    (email password : String) (client : ClientInfo) (s s' : Store) (user : User)
    (tokens : SessionTokens)
    → login env u mint fresh family_id now email password client s ≡ (ok (user, tokens), s')
    → IsAuthentic env u email password s user × IsOpened env mint family_id now user s s' tokens
unfolding login
login_lem env u mint fresh family_id now email password client s s' user tokens h =
    let checked = with_tx (authenticate env u (normalize_email u email) password) s in
    let (allowed, opened) =
      open_session-IsOpened env mint fresh family_id now client checked.0 checked.1 s' user tokens
        h in
    let (account, same) = authenticate-IsAuthentic env u email password s checked.1 user (
      with_tx-eq-ok (authenticate env u (normalize_email u email) password) s checked.1 user
        (ap (λ (r : Result User). (r, checked.1)) allowed)) in
    (
      account,
      record {
        row = opened.row;
        added = opened.added ∙ ap (λ ts. ts ++ (opened.row ∷ [])) same;
        stored = opened.stored;
        session = opened.session;
        cap = opened.cap;
        live = opened.live;
        no_tenant = opened.no_tenant;
        owner = opened.owner;
        jti = opened.jti;
        minted = opened.minted;
      },
    )
