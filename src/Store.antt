-- ===== src/Store.antt =====
-- internal/proxy/store.go: contexts, routes, one-time tickets and proxy sessions. A table is the list
-- of its rows. An operation runs in one transaction or is one statement, so an error changes nothing:
-- it returns no tables. `fails n` says that the statement number n of the operation fails, for a
-- reason outside the tables; identifiers, tokens and the time come from outside too.
pub mod Tickets
pub mod Routes
pub mod Labels
pub mod Ownership
pub mod Closing
use tvpn.Base.{
  Bool, List, Option, Result, [], any, count_where, err, fail_if, false, find, if◌then◌else◌, leb,
  list_eq, ltb, nat_eq, none, not, ok, some, true, update_where, ℕ, ◌!=◌, ◌&&◌, ◌*◌, ◌+◌, ◌==◌,
  ◌>>=◌, ◌>>◌, ◌||◌, ◌∷◌,
}
use tvpn.Net.{Url, atoi, hostname, port}
use tvpn.Text.{Text, text}

pub record Context : Type 0 where
  pub id : ℕ
  pub user_id : ℕ
  pub current_url : Text
  pub upstream_proxy_id : Option ℕ
  pub compatibility_mode : Bool
  pub last_active_at : ℕ
  -- `closed_at IS NULL`
  pub is_open : Bool

pub record RouteRow : Type 0 where
  pub id : ℕ
  pub context_id : ℕ
  pub scheme : Text
  pub host : Text
  pub port : ℕ

-- A row of `proxy_routes` joined with its context.
pub record Route : Type 0 where
  pub id : ℕ
  pub context_id : ℕ
  pub user_id : ℕ
  pub scheme : Text
  pub host : Text
  pub port : ℕ
  pub current_url : Text
  pub upstream_proxy_id : Option ℕ
  pub compatibility_mode : Bool

pub record Ticket : Type 0 where
  pub token_hash : Text
  pub user_id : ℕ
  pub context_id : ℕ
  pub expires_at : ℕ
  pub used_at : Option ℕ

pub record ProxySession : Type 0 where
  pub token_hash : Text
  pub user_id : ℕ
  pub expires_at : ℕ

pub record Db : Type 0 where
  pub contexts : List Context
  pub routes : List RouteRow
  pub tickets : List Ticket
  pub sessions : List ProxySession

pub data StoreError : Type 0 where
  statement_failed no_rows context_not_found invalid_label no_random : StoreError

-- A statement that may fail.
abbrev pub exec {ℓ} : {A : Type ℓ} → Bool → A → Result StoreError A
exec true a = err statement_failed
exec false a = ok a

abbrev pub row {ℓ} : {A : Type ℓ} → Option A → Result StoreError A
row none = err no_rows
row (some a) = ok a

abbrev pub random {ℓ} : {A : Type ℓ} → Option A → Result StoreError A
random none = err no_random
random (some a) = ok a

-- now()+interval '2 minutes', in nanoseconds as `time.Duration` counts them.
abbrev pub ticket_ttl : ℕ
ticket_ttl = 2 * 60 * 1000000000

abbrev pub is_same_route : RouteRow → RouteRow → Bool
is_same_route a b =
    a.context_id == b.context_id && a.scheme == b.scheme && a.host == b.host && a.port == b.port

-- The port that createRoute stores; Atoi gives 0 for what is no number.
unfoldable pub route_port : Url → ℕ
route_port target =
    if port target == []
    then (if target.scheme == text "https" then 443 else 80)
    else elim (atoi (port target)) [ none ↦ 0 | some value ↦ value ]

abbrev pub new_route : ℕ → ℕ → Url → RouteRow
new_route id context target = record {
  id = id;
  context_id = context;
  scheme = target.scheme;
  host = hostname target;
  port = route_port target;
}

-- The CHECK constraints of the table.
abbrev pub is_valid_route : RouteRow → Bool
is_valid_route r =
    (r.scheme == text "http" || r.scheme == text "https") && leb 1 r.port && leb r.port 65535

-- INSERT … ON CONFLICT … DO UPDATE … RETURNING id
unfoldable pub upsert_route : List RouteRow → RouteRow → List RouteRow × ℕ
upsert_route routes r = elim (find (is_same_route r) routes) [
  | none ↦ (r ∷ routes, r.id)
  | some old ↦ (routes, old.id)
]

unfoldable pub as_route : RouteRow → ℕ → ℕ → Route
as_route r id user = record {
  id = id;
  context_id = r.context_id;
  user_id = user;
  scheme = r.scheme;
  host = r.host;
  port = r.port;
  current_url = [];
  upstream_proxy_id = none;
  compatibility_mode = false;
}

unfoldable pub create_route : Bool → Db → ℕ → ℕ → ℕ → Url → Result StoreError (Db × Route)
unfolding upsert_route as_route
create_route fails db id context user target = do
  let r = new_route id context target
  exec (fails || not (is_valid_route r)) tt
  let (routes, found) = upsert_route db.routes r
  ok (record db { routes = routes }, as_route r found user)

module _ (hash : Text → Text) (fails : ℕ → Bool) where
  unfoldable pub insert_ticket : ℕ → Db → ℕ → ℕ → ℕ → Text → Result StoreError Db
  insert_ticket n db now user context token =
      let taken = any (λ t. t.token_hash == hash token) db.tickets in
      exec (fails n || taken) (record db {
        tickets =
            record {
              token_hash = hash token;
              user_id = user;
              context_id = context;
              expires_at = now + ticket_ttl;
              used_at = none;
            }
            ∷ db.tickets;
      })

  -- Store.CreateContext: the context, its first route and its first ticket, in one transaction.
  unfoldable pub create_context :
      Db
      → ℕ
      → ℕ
      → ℕ
      → Option Text
      → ℕ
      → Url
      → Text
      → Option ℕ
      → Bool
      → Result StoreError (Db × Context × Route × Text)
  unfolding insert_ticket
  create_context db now id route_id fresh user target shown upstream compatibility = do
    exec (fails 0) tt
    let context : Context = record {
      id = id;
      user_id = user;
      current_url = shown;
      upstream_proxy_id = upstream;
      compatibility_mode = compatibility;
      last_active_at = now;
      is_open = true;
    }
    let taken = any (λ c. c.id == id) db.contexts
    db1 ← exec (fails 1 || taken) (record db { contexts = context ∷ db.contexts })
    (db2, route) ← create_route (fails 2) db1 route_id id user target
    token ← random fresh
    db3 ← insert_ticket 3 db2 now user id token
    exec (fails 4) tt
    ok (db3, context, route, token)

  abbrev pub is_open_context : ℕ → Context → Bool
  is_open_context id c = c.id == id && c.is_open

  -- The owner of an open context must be the user.
  unfoldable pub check_owner : Bool → Db → ℕ → ℕ → Result StoreError (Unit {0})
  check_owner failed db context user =
      if failed then err context_not_found else elim (find (is_open_context context) db.contexts) [
        | none ↦ err context_not_found
        | some c ↦ fail_if (c.user_id != user) context_not_found
      ]

  unfoldable pub create_ticket : Db → ℕ → Option Text → ℕ → ℕ → Result StoreError (Db × Text)
  unfolding insert_ticket check_owner
  create_ticket db now fresh user context = do
    check_owner (fails 0) db context user
    token ← random fresh
    db1 ← insert_ticket 1 db now user context token
    ok (db1, token)

  unfoldable pub resolve_route : Db → ℕ → ℕ → ℕ → Url → Result StoreError (Db × Route)
  unfolding check_owner
  resolve_route db id context user target = do
    exec (fails 0) tt
    check_owner (fails 1) db context user
    (db1, route) ← create_route (fails 2) db id context user target
    exec (fails 3) tt
    ok (db1, route)

  abbrev pub is_live_ticket : ℕ → Text → Ticket → Bool
  is_live_ticket now token t =
      t.token_hash == hash token
      && elim t.used_at [ none ↦ true | some _ ↦ false ]
      && ltb now t.expires_at

  abbrev mark_used : ℕ → Ticket → Ticket
  mark_used now t = record t { used_at = some now }

  -- Store.ConsumeTicket: the ticket is marked as used and a session is opened, or neither.
  unfoldable pub consume_ticket :
      Db → ℕ → Option Text → ℕ → Text → Result StoreError (Db × Text × ℕ × ℕ)
  consume_ticket db now fresh ttl token = do
    exec (fails 0) tt
    exec (fails 1) tt
    ticket ← row (find (is_live_ticket now token) db.tickets)
    session ← random fresh
    let taken = any (λ s. s.token_hash == hash session) db.sessions
    exec (fails 2 || taken) tt
    exec (fails 3) tt
    ok (
      record db {
        tickets = update_where (is_live_ticket now token) (mark_used now) db.tickets;
        sessions =
            record { token_hash = hash session; user_id = ticket.user_id; expires_at = now + ttl }
            ∷ db.sessions;
      },
      session,
      ticket.user_id,
      ticket.context_id,
    )

  unfoldable pub authenticate_proxy : Db → ℕ → Text → Result StoreError ℕ
  authenticate_proxy db now token = do
    exec (fails 0) tt
    s ← row (find (λ s. s.token_hash == hash token && ltb now s.expires_at) db.sessions)
    ok s.user_id

  -- Store.Context
  unfoldable pub context_of : Db → ℕ → ℕ → Result StoreError Context
  context_of db id user = do
    exec (fails 0) tt
    row (find (λ c. c.id == id && c.user_id == user && c.is_open) db.contexts)

  unfoldable pub close_context : Db → ℕ → ℕ → Result StoreError Db
  close_context db id user = do
    exec (fails 0) tt
    let hit = λ (c : Context). c.id == id && c.user_id == user && c.is_open
    fail_if (count_where hit db.contexts != 1) no_rows
    ok (record db { contexts = update_where hit (λ c. record c { is_open = false }) db.contexts })

  -- Store.UpdateCurrentURL: a failure is ignored.
  unfoldable pub update_current_url : Db → ℕ → ℕ → Text → Db
  update_current_url db now id value = if fails 0 then db else record db {
    contexts =
        update_where (λ c. c.id == id) (λ c. record c { current_url = value; last_active_at = now })
          db.contexts;
  }
