-- ===== src/Auth.antt =====
-- internal/auth: users, refresh tokens, and the tables that the session code reads and writes.
--
-- user.go, refreshtoken.go and the refresh_tokens part of repository.go. A table is the list of its
-- rows, oldest first; each repository method is its SQL statement. Times and durations are numbers.
pub mod Sessions
pub mod Login
pub mod Refresh
mod Tests
use racetify_api.Base.{
  ℕ, ◌<◌, ltb, String, Bool, true, false, List, [], ◌∷◌, ◌++◌, Option, none, some, ◌==◌, ◌||◌, ◌&&◌,
  if◌then◌else◌, find, any, modify,
}
use racetify_api.Text.{Unicode, map_text}
use racetify_api.Domain.{Error, Result, ok, err, not_found, already_exists}
use racetify_api.Database.{Tx}

abbrev pub user_status_active : String
user_status_active = "active"

pub record User : Type 0 where
  pub id : String
  pub email : String
  pub password_hash : Option String
  pub first_name : String
  pub last_name : String
  pub phone : Option String
  pub is_email_verified : Bool
  pub is_super_admin : Bool
  pub status : String
  pub terms_accepted_at : Option ℕ
  pub created_at : ℕ
  pub updated_at : ℕ

pub record RefreshToken : Type 0 where
  pub id : String
  pub user_id : String
  pub token_hash : String
  pub replaced_by_hash : Option String
  pub user_agent : Option String
  pub ip_address : Option String
  pub family_id : String
  pub expires_at : ℕ
  pub absolute_expires_at : ℕ
  pub origin_host : Option String
  pub revoked_at : Option ℕ
  pub created_at : ℕ

abbrev pub is_nil {ℓ} : {A : Type ℓ} → Option A → Bool
is_nil none = true
is_nil (some a) = false

unfoldable pub is_active : RefreshToken → ℕ → Bool
is_active t now = is_nil t.revoked_at && ltb now t.expires_at

-- The tables. `audit` holds the actions that were recorded, newest first.
pub record Store : Type 0 where
  pub users : List User
  pub tokens : List RefreshToken
  pub audit : List String

-- Equality of CITEXT, the type of users.email: up to case.
abbrev pub same_citext : Unicode → String → String → Bool
same_citext u a b = map_text u.to_lower a == map_text u.to_lower b

unfoldable pub get_user_by_email : Unicode → String → Store → Option User
get_user_by_email u email s = find (λ x. same_citext u x.email email) s.users

unfoldable pub get_user_by_id : String → Store → Option User
get_user_by_id id s = find (λ u. u.id == id) s.users

unfoldable pub get_refresh_token_by_token_hash : String → Store → Option RefreshToken
get_refresh_token_by_token_hash hash s = find (λ t. t.token_hash == hash) s.tokens

-- `id` is the primary key and `token_hash` is unique.
abbrev pub clashes : RefreshToken → RefreshToken → Bool
clashes t u = u.id == t.id || u.token_hash == t.token_hash

unfoldable pub create_refresh_token : RefreshToken → Tx Store (Unit {0})
create_refresh_token t s =
    if any (clashes t) s.tokens
    then err already_exists
    else ok (tt, record s { tokens = s.tokens ++ (t ∷ []) })

abbrev pub is_row : String → RefreshToken → Bool
is_row id t = t.id == id

abbrev pub mark_replaced : String → ℕ → RefreshToken → RefreshToken
mark_replaced new_hash at t = record t { revoked_at = some at; replaced_by_hash = some new_hash }

unfoldable pub rotate_refresh_token : String → String → ℕ → Store → Store
rotate_refresh_token old_id new_hash revoked_at s = record s {
  tokens = modify (is_row old_id) (mark_replaced new_hash revoked_at) s.tokens;
}

-- The WHERE clause: the family's tokens that are not revoked yet.
abbrev pub is_live_in : String → RefreshToken → Bool
is_live_in family_id t = t.family_id == family_id && is_nil t.revoked_at

abbrev pub mark_revoked : ℕ → RefreshToken → RefreshToken
mark_revoked at t = record t { revoked_at = some at }

unfoldable pub revoke_refresh_token_family : String → ℕ → Store → Store
revoke_refresh_token_family family_id revoked_at s = record s {
  tokens = modify (is_live_in family_id) (mark_revoked revoked_at) s.tokens;
}

unfoldable pub record_audit : String → Store → Store
record_audit action s = record s { audit = action ∷ s.audit }
