-- ===== src/Auth/Tests.antt =====
-- Runs of the session code, and its theorems at concrete inputs.
use Prim.Native.String
use racetify_api.Base.{
  String, ◌≡◌, refl, ◌≢◌, true, false, [], ◌∷◌, ◌++◌, some, none, eq_iff, arith, any, All,
}
use racetify_api.Text.{Unicode, map_text, trim_space, trim_left, trim_right, is_space}
use racetify_api.Auth.{record_audit, get_user_by_email}
use racetify_api.Auth.Login.{IsAuthentic, IsOpened, login_lem}
use racetify_api.Auth.Sessions.{
  login, authenticate, open_session, issue_session, normalize_email, ptr_or_nil,
}
use racetify_api.Domain.{ok, err, other, invalid_credentials}
use racetify_api.Security.Jwt.{JwtLibrary, issue_user_access_token}
use racetify_api.Auth.{
  User, RefreshToken, Store, get_user_by_id, get_refresh_token_by_token_hash, create_refresh_token,
  rotate_refresh_token, is_live_in, record_audit, revoke_refresh_token_family,
}
use racetify_api.Auth.Sessions.{
  Env, Mint, Fresh, ClientInfo, SessionTokens, new_refresh_token_record,
}
use racetify_api.Auth.Refresh.{
  rotated, rotate, within_grace, refresh_tx, refresh_access_token, logout,
}
use racetify_api.Auth.Refresh.Caps.{Sessions, IsGoverned, refresh_access_token-IsGoverned}
use racetify_api.Auth.Refresh.Ended.{logout-refresh_access_token}
use racetify_api.Auth.Refresh.Family.{
  others, refresh_access_token-reuse, logout_ends, logout-refresh_in_grace,
}
use racetify_api.Auth.Refresh.Success.{IsRefresh, refresh_access_token-IsRefresh}

abbrev library : JwtLibrary
library = record {
  signed_string = λ secret c. ok c.subject;
  parse_with_claims = λ secret issuer now token. err (other "expired");
  parse_without_validation = λ secret token. err (other "malformed");
}

abbrev env : Env
env = record {
  cfg = record {
    access_token_ttl = 15;
    refresh_token_ttl = 100;
    refresh_absolute_ttl = 1000;
    refresh_grace_window = 20;
  };
  tokens = record { library = library; secret = "s"; issuer = "racetify" };
  hash_token = λ raw. String.◌++◌ "h:" raw;
  verify_password = λ password hash. ok true;
  active_role = λ tenant user. ok ("staff", true);
}

abbrev runner : User
runner = record {
  id = "u1";
  email = "runner@example.com";
  password_hash = none;
  first_name = "Ana";
  last_name = "";
  phone = none;
  is_email_verified = true;
  is_super_admin = false;
  status = "active";
  terms_accepted_at = none;
  created_at = 1;
  updated_at = 1;
}

-- The session "f": the token "old" was rotated at 90, and "new" took its place.
abbrev old_token : RefreshToken
old_token = record {
  id = "t1";
  user_id = "u1";
  token_hash = "h:old";
  replaced_by_hash = some "h:new";
  user_agent = none;
  ip_address = none;
  family_id = "f";
  expires_at = 150;
  absolute_expires_at = 1000;
  origin_host = none;
  revoked_at = some 90;
  created_at = 50;
}

abbrev new_token : RefreshToken
new_token = record {
  id = "t2";
  user_id = "u1";
  token_hash = "h:new";
  replaced_by_hash = none;
  user_agent = none;
  ip_address = none;
  family_id = "f";
  expires_at = 190;
  absolute_expires_at = 1000;
  origin_host = none;
  revoked_at = none;
  created_at = 90;
}

abbrev tables : Store
tables = record { users = runner ∷ []; tokens = old_token ∷ new_token ∷ []; audit = [] }

abbrev draw : Fresh
draw = record { raw = ok "next"; id = "t3"; now = 100 }

abbrev mint : Mint
mint = record { jti = ok "j"; now = 100 }

abbrev browser : ClientInfo
browser = record { user_agent = "ua"; ip = "10.0.0.1"; origin_host = "" }

abbrev one_session : Sessions
one_session family = ("u1", 1000)

refresh_access_token-IsGoverned_example :
    All
      (IsGoverned one_session)
      (refresh_access_token env mint draw 100 browser "new" "" tables).1.tokens
refresh_access_token-IsGoverned_example =
    refresh_access_token-IsGoverned env one_session mint draw 100 browser "new" "" tables (
      record { owner = refl; cap = refl; idle = omega arith },
      (record { owner = refl; cap = refl; idle = omega arith }, tt),
    )

-- "old" is presented at 200, long after its rotation.
refresh_access_token-reuse_example :
    let (r, s') = refresh_access_token env mint draw 200 browser "old" "" tables in
    (r ≡ err invalid_credentials)
    × (any (is_live_in "f") s'.tokens ≡ false)
    × (others "f" s'.tokens ≡ [])
unfolding get_refresh_token_by_token_hash within_grace
refresh_access_token-reuse_example =
    refresh_access_token-reuse env mint draw 200 browser "old" "" tables old_token 90 refl refl refl

not_empty : ◌≢◌ {A = String} "new" ""
not_empty = ground (arith, eq_iff "new" "")

logout_ends_example :
    let s' = (logout env 100 "new" "j" 110 "u1" tables).0 in
    (any (is_live_in "f") s'.tokens ≡ false) × (others "f" s'.tokens ≡ [])
unfolding get_refresh_token_by_token_hash
logout_ends_example = logout_ends env 100 "new" "j" 110 "u1" tables new_token not_empty refl refl

abbrev next_token : RefreshToken
next_token = record {
  id = "t3";
  user_id = "u1";
  token_hash = "h:next";
  replaced_by_hash = none;
  user_agent = some "ua";
  ip_address = some "10.0.0.1";
  family_id = "f";
  expires_at = 200;
  absolute_expires_at = 1000;
  origin_host = none;
  revoked_at = none;
  created_at = 100;
}

-- The tables after a logout at 100 and a login into another session.
abbrev gone_on : Store
gone_on =
    let s' = (logout env 100 "new" "j" 110 "u1" tables).0 in
    record s' { tokens = s'.tokens ++ (record next_token { family_id = "g" } ∷ []) }

logout-refresh_access_token_example :
    (refresh_access_token env mint draw 121 browser "old" "" gone_on).0 ≡ err invalid_credentials
unfolding get_refresh_token_by_token_hash logout revoke_refresh_token_family record_audit
logout-refresh_access_token_example =
    logout-refresh_access_token env 100 "new" "j" 110 "u1" tables gone_on new_token mint draw 121
      browser "old" "" old_token not_empty refl refl (omega arith, (tt, tt)) (omega arith) refl refl
      refl

logout-refresh_in_grace_example :
    let s' = (logout env 100 "new" "j" 110 "u1" tables).0 in
    (s'' : Store) × (refresh_tx env draw 105 browser "old" s' ≡ ok (rotated runner "next" 200, s''))
    × (any (is_live_in "f") s''.tokens ≡ true)
unfolding get_refresh_token_by_token_hash get_user_by_id within_grace new_refresh_token_record
logout-refresh_in_grace_example =
    logout-refresh_in_grace env 100 "new" "j" 110 tables new_token draw 105 browser "old" "next"
      old_token next_token 90 runner not_empty refl refl refl refl refl (omega arith) (omega arith)
      refl refl refl refl

abbrev answer : SessionTokens
answer = record {
  access_token = "u1";
  access_token_expires_at = 115;
  refresh_token = "next";
  refresh_token_expires_at = 200;
  tenant_id = "";
}

refresh_access_token-IsRefresh_example :
    IsRefresh env mint 100 "new" tables runner answer
      (refresh_access_token env mint draw 100 browser "new" "" tables).1
unfolding refresh_access_token refresh_tx rotate get_refresh_token_by_token_hash get_user_by_id
    new_refresh_token_record create_refresh_token rotate_refresh_token issue_user_access_token
refresh_access_token-IsRefresh_example =
    refresh_access_token-IsRefresh env mint draw 100 browser "new" "" tables _ runner answer refl

abbrev plain : Unicode
plain = record { to_upper = λ c. c; to_lower = λ c. c }

abbrev secured : User
secured = record runner { password_hash = some "pbkdf2" }

abbrev one_user : Store
one_user = record { users = secured ∷ []; tokens = []; audit = [] }

abbrev first_token : RefreshToken
first_token = record {
  id = "t3";
  user_id = "u1";
  token_hash = "h:next";
  replaced_by_hash = none;
  user_agent = some "ua";
  ip_address = some "10.0.0.1";
  family_id = "g";
  expires_at = 200;
  absolute_expires_at = 1100;
  origin_host = none;
  revoked_at = none;
  created_at = 100;
}

abbrev logged_in : Store
logged_in = record {
  users = secured ∷ [];
  tokens = first_token ∷ [];
  audit = "user.logged_in" ∷ [];
}

login_lem_example :
    IsAuthentic env plain "runner@example.com " "secret" one_user secured
    × IsOpened env mint "g" 100 secured one_user logged_in answer
unfolding login authenticate open_session issue_session issue_user_access_token
    new_refresh_token_record create_refresh_token record_audit get_user_by_email normalize_email
    ptr_or_nil map_text trim_space trim_left trim_right is_space
login_lem_example =
    login_lem env plain mint draw "g" 100 "runner@example.com " "secret" browser one_user logged_in
      secured answer refl
