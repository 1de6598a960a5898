-- ===== src/Problems.antt =====
-- internal/httpapi/httpapi.go: the problems that handlers answer with, and the choice of a language.
-- The two messages of a code are left out; which of them is sent is kept.
use tvpn.Base.{
  Bool, List, Option, [], false, if◌then◌else◌, list_eq, nat_eq, none, some, true, ℕ, ◌==◌, ◌∷◌,
}
use tvpn.Text.{Text, has_prefix, split, text, to_lower, trim_space}

-- The codes are strings; the last constructor is any other string.
pub data ErrorCode : Type 0 where
  err_admin_required err_context_not_found err_csrf_failed : ErrorCode
  err_direct_access_denied err_internal err_invalid_assignment : ErrorCode
  err_invalid_cookie err_invalid_credentials err_invalid_id : ErrorCode
  err_invalid_ldap err_invalid_password err_invalid_policy : ErrorCode
  err_invalid_request err_invalid_scope err_invalid_target : ErrorCode
  err_invalid_ticket err_invalid_token err_invalid_upstream_proxy : ErrorCode
  err_invalid_user err_last_admin err_ldap_unavailable : ErrorCode
  err_method_not_allowed err_not_found err_proxy_authentication : ErrorCode
  err_proxy_session_invalid err_redirect_denied err_rewrite_failed : ErrorCode
  err_route_not_found err_scope_required err_target_denied : ErrorCode
  err_target_unavailable err_token_not_found err_unauthorized : ErrorCode
  err_upstream_error err_upstream_proxy_denied err_upstream_proxy_not_found : ErrorCode
  err_upstream_proxy_unavailable err_web_socket_upstream_failed err_web_unavailable : ErrorCode
  err_misdirected_request : ErrorCode
  other_code : Text → ErrorCode

pub record ErrorDefinition : Type 0 where
  pub status : ℕ
  pub message_id : Text

abbrev defined : ℕ → Text → Option ErrorDefinition
defined status message_id = some (record { status = status; message_id = message_id })

-- The map of codes to definitions.
unfoldable pub error_catalog : ErrorCode → Option ErrorDefinition
error_catalog err_admin_required = defined 403 (text "error.auth.admin_required")
error_catalog err_context_not_found = defined 404 (text "error.proxy.context_not_found")
error_catalog err_csrf_failed = defined 403 (text "error.auth.csrf_failed")
error_catalog err_direct_access_denied = defined 403 (text "error.proxy.direct_access_denied")
error_catalog err_internal = defined 500 (text "error.common.internal")
error_catalog err_invalid_assignment = defined 422 (text "error.admin.invalid_assignment")
error_catalog err_invalid_cookie = defined 422 (text "error.proxy.invalid_cookie")
error_catalog err_invalid_credentials = defined 401 (text "error.auth.invalid_credentials")
error_catalog err_invalid_id = defined 400 (text "error.common.invalid_id")
error_catalog err_invalid_ldap = defined 422 (text "error.admin.invalid_ldap")
error_catalog err_invalid_password = defined 422 (text "error.admin.invalid_password")
error_catalog err_invalid_policy = defined 422 (text "error.admin.invalid_policy")
error_catalog err_invalid_request = defined 400 (text "error.common.invalid_request")
error_catalog err_invalid_scope = defined 422 (text "error.auth.invalid_scope")
error_catalog err_invalid_target = defined 422 (text "error.proxy.invalid_target")
error_catalog err_invalid_ticket = defined 401 (text "error.proxy.invalid_ticket")
error_catalog err_invalid_token = defined 401 (text "error.auth.invalid_token")
error_catalog err_invalid_upstream_proxy = defined 422 (text "error.admin.invalid_upstream_proxy")
error_catalog err_invalid_user = defined 422 (text "error.admin.invalid_user")
error_catalog err_last_admin = defined 409 (text "error.admin.last_admin")
error_catalog err_ldap_unavailable = defined 502 (text "error.admin.ldap_unavailable")
error_catalog err_method_not_allowed = defined 405 (text "error.common.method_not_allowed")
error_catalog err_not_found = defined 404 (text "error.common.not_found")
error_catalog err_proxy_authentication = defined 407 (text "error.proxy.authentication_required")
error_catalog err_proxy_session_invalid = defined 401 (text "error.proxy.session_invalid")
error_catalog err_redirect_denied = defined 403 (text "error.proxy.redirect_denied")
error_catalog err_rewrite_failed = defined 502 (text "error.proxy.rewrite_failed")
error_catalog err_route_not_found = defined 404 (text "error.proxy.route_not_found")
error_catalog err_scope_required = defined 403 (text "error.auth.scope_required")
error_catalog err_target_denied = defined 403 (text "error.proxy.target_denied")
error_catalog err_target_unavailable = defined 502 (text "error.proxy.target_unavailable")
error_catalog err_token_not_found = defined 404 (text "error.auth.token_not_found")
error_catalog err_unauthorized = defined 401 (text "error.auth.unauthorized")
error_catalog err_upstream_error = defined 502 (text "error.proxy.upstream_error")
error_catalog err_upstream_proxy_denied = defined 403 (text "error.proxy.upstream_proxy_denied")
error_catalog err_upstream_proxy_not_found =
    defined 404 (text "error.admin.upstream_proxy_not_found")
error_catalog err_upstream_proxy_unavailable =
    defined 502 (text "error.proxy.upstream_proxy_unavailable")
error_catalog err_web_socket_upstream_failed =
    defined 502 (text "error.proxy.websocket_upstream_failed")
error_catalog err_web_unavailable = defined 503 (text "error.common.web_unavailable")
error_catalog err_misdirected_request = defined 421 (text "error.common.misdirected_request")
error_catalog (other_code name) = none

-- The test of one entry of Accept-Language: `none` goes on to the next.
unfoldable pub is_english : Text → Option Bool
is_english language =
    if has_prefix language (text "zh")
    then some false
    else if has_prefix language (text "en")
    then some true
    else none

-- strings.SplitN(entry, ";", 2)[0]
unfoldable pub before_weight : Text → Text
before_weight [] = []
before_weight (c ∷ s) = let rest = before_weight s in if c == 59 then [] else c ∷ rest

unfoldable pub first_english : List Text → Bool
unfolding is_english before_weight
first_english [] = false
first_english (entry ∷ entries) =
    let rest = first_english entries in
    elim (is_english (trim_space (before_weight entry))) [ none ↦ rest | some english ↦ english ]

-- prefersEnglish
unfoldable pub prefers_english : Text → Bool
unfolding first_english
prefers_english value = first_english (split (to_lower value) 44)

pub record ProblemBody : Type 0 where
  pub status : ℕ
  pub code : ErrorCode
  pub message_id : Text
  pub english : Bool

abbrev body_of : ErrorCode → Text → ErrorDefinition → ProblemBody
body_of code languages d = record {
  status = d.status;
  code = code;
  message_id = d.message_id;
  english = prefers_english languages;
}

-- What Problem writes; `languages` is the field Accept-Language. A code that the catalogue does not
-- hold is answered as an internal error.
unfoldable pub problem_body : ErrorCode → Text → ProblemBody
unfolding error_catalog
problem_body code languages = elim (error_catalog code) [
  | some d ↦ body_of code languages d
  | none ↦
      body_of err_internal languages
        (record { status = 500; message_id = text "error.common.internal" })
]
