-- ===== src/Lib.antt =====
-- Verification library for Tvpn, a web VPN: users browse through the server, which decides what each
-- may reach, keeps their cookies and forwards their requests.
--
-- The program's parts and the files that model them. Paths are from the repository's root.
-- - Policy, Policy/Rules, Policy/Effective: internal/policy/policy.go. Policies with their rules, the
--   decision Evaluate (evaluate), ValidateRule (validate_rule), IsNonPublic (is_non_public) and the query
--   Effective (effective). The tables are lists of rows.
-- - Guard: internal/proxy/security.go. NewGuard (new_guard) and Guard.Resolve (resolve), which turns the
--   text that a user asks for into a target with its addresses.
-- - Authorize: authorize in internal/proxy/http.go and authorizeWebSocket in internal/proxy/websocket.go.
-- - Store, Store/Labels: internal/proxy/store.go. Contexts, routes, tickets and proxy sessions (Db).
-- - Cookies: internal/proxy/cookies.go and crypto.go. The jar of a context, a list of rows with sealed
--   values; SaveCookies (save_cookies) and cookies.
-- - Auth, Auth/Ldap: internal/auth/store.go and tokens.go. Users, browser sessions, program tokens and
--   the groups of the directory (AuthDb).
-- - Password: internal/auth/password.go. HashPassword (hash_password) and VerifyPassword
--   (verify_password); Auth/Local: CreateLocalUser and EnsureBootstrapAdmin in internal/auth/store.go.
-- - Access, Access/Gates, Access/Login, Access/Handlers: internal/auth/http.go and token_http.go,
--   and the chains of middlewares that routes in internal/server/server.go builds.
-- - Headers: stripHopHeaders, copyResponseHeaders, translateCORS and addVary in internal/proxy/http.go.
-- - Upstream, Upstream/Access: internal/proxy/upstream.go and transport in internal/proxy/http.go. The
--   proxies that a connection may take, and who may take which.
-- - Problems: internal/httpapi/httpapi.go. The catalogue of problems and the choice of a language.
-- - Ldap: internal/ldapauth/service.go. The settings of the directory and its logins, over a record of the
--   operations of the protocol (LdapLib).
-- - Admin, Admin/Assignments, Admin/Policies, Admin/Outputs, Admin/Directory, Admin/Routes:
--   internal/admin/http.go. The handlers of the administration over one state (AdminDb) with the audit
--   log, and the request of each route (handle_admin). Admin/Race: two updateUser requests as steps.
-- - Gateway: ServeHTTP, compatibilityRequestAllowed, mapProxyURLForContext and normalizeClientURL in
--   internal/proxy/http.go. Gateway/Contexts and Gateway/Documents: its handlers of contexts, tickets,
--   URLs and cookies. Gateway/Forward: forward up to the request that leaves, and the redirect;
--   Gateway/Pages: the rest of forward.
-- - Gateway/Rewriting, Gateway/Pages: internal/proxy/rewrite.go. A page is a tree of nodes (Nodes), and the
--   routes that its URLs get are threaded through the walk (Rewriting).
-- - Mux: internal/proxy/mux.go. Frames, and the loop of serveMux over the open streams (Mux);
--   Mux/Execute: muxRoundTrip (mux_round_trip); Mux/Answers: executeMux (execute_mux).
-- - Config: internal/config/config.go. Load (load), over the environment and its files.
-- - Server: Handler of internal/server/server.go, which chooses the part by the host of a request.
-- - Upstream/Wire: the requests that leave and the answers that come, for Gateway and Mux.
-- - Base, Text, Net: shared lists, tests and results; Go's strings as lists of bytes; addresses, prefixes
--   and URLs.
-- - Examples: the theorems at concrete data.
--
-- How the parts interact: a request reaches Gateway, which finds the route by its label (Store) and the
-- session (Auth, Store); its target passes Guard and Policy by Authorize; Upstream chooses the
-- connection, Cookies adds what the jar holds, Headers cleans what goes on and comes back, and Mux
-- carries many requests over one connection.
--
-- Time, random values and new identifiers are arguments. A statement of the database that fails is a
-- test by its number; where a transaction of the administration fails, what it has written comes with the
-- error and is rolled back; other operations return no tables then. The body of an answer is finite.
-- Loops are by recursion on the list they run over, so there is no fuel; the loop of muxRoundTrip runs
-- over the eleven requests that it may send. Numbers are unbounded where the
-- program's stay small; a stream number is bounded by four bytes where a theorem needs it.
--
-- Parameters of the model, because their code is not in the repository: the parsers of URLs, addresses
-- and prefixes, IDNA, the DNS resolver, the AEAD cipher, the list of public suffixes, the hash of tokens,
-- Argon2, Base64, the decoding of JSON, the parser and the printer of HTML, the regular expression for
-- style sheets, the protocol of LDAP, the network and the choice of a handler by the path. Case and white
-- space are those of ASCII.
--
-- Not modelled: the relay of WebSocket messages, the database's opening, the web application and the other
-- clients. Times of last use, the description of a policy, the details of
-- events and the order of listings are left out of the tables. The audit log is kept where logins and
-- handlers of the administration and of contexts write it.
pub mod Base
pub mod Text
pub mod Problems
pub mod Net
pub mod Password
pub mod Policy
pub mod Guard
pub mod Authorize
pub mod Store
pub mod Auth
pub mod Headers
pub mod Access
pub mod Cookies
pub mod Ldap
pub mod Upstream
pub mod Admin
pub mod Gateway
pub mod Mux
pub mod Config
pub mod Server
pub mod Examples
