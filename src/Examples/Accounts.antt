-- ===== src/Examples/Accounts.antt =====
-- Examples for accounts, sessions, program tokens and the middlewares.
use tvpn.Access.{
  Request, authenticate_request, bearer_token, cookie_name, or_problem, request_cookie,
  require_admin, require_browser_session, require_csrf, require_scope, two_words,
}
use tvpn.Access.Gates.{
  HasCsrf, IsFrom, admit_admin, admit_admin-IsFrom, admit_contexts, admit_contexts-IsFrom,
  admit_tokens, admit_tokens-IsFrom,
}
use tvpn.Access.Handlers.{AuthState, login, login-authenticate_request, record_event}
use tvpn.Auth.{
  AuthDb, AuthError, Session, SessionRow, TokenRow, User, by_session, by_token, create_session,
  in_scopes, ldap_user, local_user, scope_admin, scope_proxy, session_by_program_token,
  session_by_token,
}
use tvpn.Auth.Ldap.{LdapIdentity}
use tvpn.Auth.Sessions.{no_failure}
use tvpn.Auth.Tokens.{IsTokenSession, session_by_program_token-IsTokenSession}
use tvpn.Base.{
  All, Result, [], ap, arith, false, length, list_beq, list_eq, nat_eq, ok, refl, some, suc, true,
  zero, ℕ, ◌++◌, ◌+◌, ◌-◌, ◌==◌, ◌↔◌, ◌∷◌, ◌≡◌,
}
use tvpn.Cookies.{
  clean_part, clean_parts, cons_opened, cookie_path, cookies, decrypt, default_cookie_path,
  domain_matches, open_rows, path_matches, rooted_dir,
}
use tvpn.Examples.{plain_hash}
use tvpn.Headers.{canonical_from, canonical_header_key, first_value, header_get}
use tvpn.Net.{
  addr_beq, atoi, atoi_from, hostname, hostname_of, is_digit, until_bracket, until_colon,
}
use tvpn.Password.{
  Argon, cut, decode_part, hash_password, hash_prefix, parse_uint32, read_cost, read_costs,
  set_cost, verify_costs, verify_key, verify_parts, verify_password,
}
use tvpn.Password.Trip.{IsArgon, verify_password-hash_password}
use tvpn.Text.{
  Text, equal_fold, fields, has_prefix, has_suffix, join, push_left, split, split_from, text,
  to_lower, trim_left, trim_right, trim_space, trim_suffix, words_from,
}

abbrev admin : User
admin = record {
  id = 9;
  username = text "root";
  normalized_username = text "root";
  display_name = [];
  email = [];
  auth_source = local_user;
  is_admin = true;
  password_hash = text "pw";
  is_enabled = true;
}

abbrev secret : Text
secret = text "tvpn_pat_1"

abbrev admin_token : TokenRow
admin_token = record {
  id = 4;
  token_hash = secret;
  token_prefix = secret;
  user_id = 9;
  name = text "ci";
  scopes = text "admin" ∷ [];
  expires_at = 100;
  is_revoked = false;
}

abbrev accounts : AuthDb
accounts = record {
  users = admin ∷ [];
  ldap_groups = [];
  user_groups = (8, 1) ∷ [];
  sessions = [];
  tokens = admin_token ∷ [];
}

abbrev token_session : Session
token_session = record {
  csrf_token = [];
  expires_at = 100;
  user = admin;
  method = by_token;
  scopes = text "admin" ∷ [];
}

session_by_program_token-IsTokenSession_example :
    IsTokenSession plain_hash no_failure accounts 50 secret token_session
unfolding addr_beq has_prefix list_beq session_by_program_token
session_by_program_token-IsTokenSession_example =
    session_by_program_token-IsTokenSession plain_hash no_failure accounts 50 secret token_session
      refl

abbrev no_accounts : AuthDb
no_accounts = record accounts { tokens = [] }

abbrev admin_row : SessionRow
admin_row = record { token_hash = text "s"; user_id = 9; csrf_token = text "x"; expires_at = 60 }

abbrev logged_in : AuthDb
logged_in = record accounts { sessions = admin_row ∷ [] }

abbrev browser_session : Session
browser_session = record {
  csrf_token = text "x";
  expires_at = 60;
  user = admin;
  method = by_session;
  scopes = [];
}

abbrev change : Request
change = record {
  method = text "POST";
  host = text "vpn.io";
  path = text "/api/v1/admin/users";
  escaped_path = [];
  raw_query = [];
  header = (text "X-Csrf-Token", text "x") ∷ [];
  cookies = (text "tvpn_session", text "s") ∷ [];
}

admit_admin-IsFrom_example :
    IsFrom plain_hash no_failure logged_in 50 false change browser_session
    × (true ≡ true)
    × (browser_session.method ≡ by_token → in_scopes scope_admin browser_session.scopes ≡ true)
    × HasCsrf plain_hash no_failure logged_in 50 false change browser_session
unfolding addr_beq admit_admin authenticate_request bearer_token canonical_from canonical_header_key
    clean_part clean_parts cons_opened cookie_name cookie_path cookies decrypt default_cookie_path
    domain_matches equal_fold fields first_value has_prefix has_suffix header_get hostname
    hostname_of join list_beq open_rows or_problem path_matches request_cookie require_admin
    require_csrf require_scope rooted_dir session_by_program_token session_by_token split split_from
    to_lower trim_suffix two_words until_bracket until_colon words_from
admit_admin-IsFrom_example =
    admit_admin-IsFrom plain_hash no_failure logged_in 50 false change browser_session refl

admit_contexts-IsFrom_example :
    IsFrom plain_hash no_failure logged_in 50 false change browser_session
    × (browser_session.method ≡ by_token → in_scopes scope_proxy browser_session.scopes ≡ true)
    × HasCsrf plain_hash no_failure logged_in 50 false change browser_session
unfolding addr_beq admit_contexts authenticate_request bearer_token canonical_from
    canonical_header_key clean_part clean_parts cons_opened cookie_name cookie_path cookies decrypt
    default_cookie_path domain_matches equal_fold fields first_value has_prefix has_suffix
    header_get hostname hostname_of join list_beq open_rows or_problem path_matches request_cookie
    require_csrf require_scope rooted_dir session_by_program_token session_by_token split split_from
    to_lower trim_suffix two_words until_bracket until_colon words_from
admit_contexts-IsFrom_example =
    admit_contexts-IsFrom plain_hash no_failure logged_in 50 false change browser_session refl

admit_tokens-IsFrom_example :
    IsFrom plain_hash no_failure logged_in 50 false change browser_session
    × (browser_session.method ≡ by_session)
    × HasCsrf plain_hash no_failure logged_in 50 false change browser_session
unfolding addr_beq admit_tokens authenticate_request bearer_token canonical_from
    canonical_header_key clean_part clean_parts cons_opened cookie_name cookie_path cookies decrypt
    default_cookie_path domain_matches equal_fold fields first_value has_prefix has_suffix
    header_get hostname hostname_of join list_beq open_rows or_problem path_matches request_cookie
    require_browser_session require_csrf rooted_dir session_by_program_token session_by_token split
    split_from to_lower trim_suffix two_words until_bracket until_colon words_from
admit_tokens-IsFrom_example =
    admit_tokens-IsFrom plain_hash no_failure logged_in 50 false change browser_session refl

-- An encoding that moves every byte past the dollar sign, and keys that repeat a password's length.
abbrev moved : Text → Text
moved [] = []
moved (c ∷ s) = (c + 37) ∷ moved s

abbrev moved_back : Text → Text
moved_back [] = []
moved_back (c ∷ s) = (c - 37) ∷ moved_back s

abbrev filled : ℕ → ℕ → Text
filled zero v = []
filled (suc n) v = v ∷ filled n v

moved_back-moved : (s : Text) → moved_back (moved s) ≡ s
moved_back-moved [] = refl
moved_back-moved (c ∷ s) = ground (arith, moved_back-moved s)

moved_plain : (s : Text) → All (λ c. c == b'$' ≡ false) (moved s)
moved_plain [] = tt
moved_plain (c ∷ s) = (ground arith, moved_plain s)

length-filled : (n v : ℕ) → length (filled n v) ≡ n
length-filled zero v = refl
length-filled (suc n) v = ground (arith, length-filled n v)

abbrev toy_argon : Argon
toy_argon = record {
  id_key = λ password salt t m p n. filled n (length password);
  encode = moved;
  decode = λ s. some (moved_back s);
}

toy_argon-IsArgon : IsArgon toy_argon
toy_argon-IsArgon = record {
  decode_encode = λ s. ap some (moved_back-moved s);
  encode_plain = moved_plain;
  key_length = λ password salt t m p n. length-filled n (length password);
}

abbrev toy_salt : Text
toy_salt = text "0123456789abcdef"

abbrev long_password : Text
long_password = text "correct horse"

abbrev toy_hash : Text
toy_hash = hash_prefix ++ (moved toy_salt ++ b'$' ∷ moved (filled 32 13))

abbrev no_fresh : ℕ → ℕ
no_fresh n = 0

abbrev root_entry : LdapIdentity
root_entry = record { username = text "Root"; display_name = []; email = []; groups = [] }

abbrev eve_entry : LdapIdentity
eve_entry = record {
  username = text "eve";
  display_name = [];
  email = [];
  groups = (text "cn=a", text "a") ∷ [];
}

abbrev eve : User
eve = record {
  id = 5;
  username = text "eve";
  normalized_username = text "eve";
  display_name = [];
  email = [];
  auth_source = ldap_user;
  is_admin = false;
  password_hash = [];
  is_enabled = true;
}

abbrev with_eve : AuthDb
with_eve = record accounts {
  users = eve ∷ admin ∷ [];
  user_groups = (5, 0) ∷ (8, 1) ∷ [];
  ldap_groups = record { id = 0; external_dn = text "cn=a"; name = text "a" } ∷ [];
}

verify_password-hash_password_example :
    (verify_password toy_argon (text "wrong") toy_hash ≡ true) ↔ (filled 32 5 ≡ filled 32 13)
unfolding addr_beq atoi atoi_from cut decode_part hash_password is_digit list_beq parse_uint32
    read_cost read_costs set_cost split split_from verify_costs verify_key verify_parts
    verify_password
verify_password-hash_password_example =
    verify_password-hash_password toy_argon toy_argon-IsArgon toy_salt long_password (text "wrong")
      toy_hash (omega arith) refl

abbrev quiet : AuthState
quiet = record { accounts = accounts; events = [] }

-- A check that lets the administrator in.
abbrev lets_in : AuthDb → Text → Text → Result AuthError (AuthDb × User)
lets_in db username password = ok (db, admin)

abbrev no_text_of : ℕ → Text
no_text_of id = []

login-authenticate_request_example :
    authenticate_request plain_hash no_failure
      (login plain_hash no_text_of
        (λ k. no_failure)
        lets_in
        50
        10
        (some (text "s"))
        (some (text "x"))
        quiet
        (some (text "root", text "pw"))).0.accounts
      55
      false
      change
    ≡ ok browser_session
unfolding addr_beq authenticate_request bearer_token canonical_from canonical_header_key clean_part
    clean_parts cons_opened cookie_name cookie_path cookies create_session decrypt
    default_cookie_path domain_matches equal_fold fields first_value has_prefix has_suffix
    header_get hostname hostname_of join list_beq login open_rows or_problem path_matches push_left
    record_event request_cookie rooted_dir session_by_program_token session_by_token split
    split_from to_lower trim_left trim_right trim_space trim_suffix two_words until_bracket
    until_colon words_from
login-authenticate_request_example =
    login-authenticate_request plain_hash no_text_of (λ k. no_failure) lets_in 50 55 10
      (some (text "s")) (some (text "x")) quiet (text "root") (text "pw") (text "s") browser_session
      false change accounts admin refl refl refl (omega arith) refl refl
