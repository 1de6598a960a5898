-- ===== src/Gateway/Opened.antt =====
-- A context that createContext answers with, and a navigation: what they rest on.
use tvpn.Base.{
  Bool, List, Option, Result, if◌then◌else◌, list_eq, nat_eq, none, ok, some, true, update_where, ℕ,
  ◌==◌, ◌≡◌,
}
use tvpn.Gateway.Contexts.{Moment, ProxyDb, ProxyEnv, authorize_for, may_go_direct}
use tvpn.Guard.{Target}
use tvpn.Net.{Url, hostname}
use tvpn.Policy.{Decision}
use tvpn.Store.{Context, Db, Route, StoreError, create_context, route_port}
use tvpn.Text.{Text}
use tvpn.Upstream.{Upstream}
use tvpn.Upstream.Access.{authorized}

module _ (env : ProxyEnv) (m : Moment) (db : ProxyDb) (user : ℕ) where
  -- The text was authorised for the user, as that target.
  abbrev pub IsAuthorizedUrl : Text → Target → Type 0
  IsAuthorizedUrl raw target =
      (d : Decision) × (authorize_for env m user raw ≡ ok (target, d)) × (d.allowed ≡ true)

  -- The user may connect as the new context does.
  abbrev pub MayUse : Option ℕ → Type 0
  MayUse none = may_go_direct env m db user ≡ ok true
  MayUse (some id) =
      (u : Upstream) × (authorized env.aead env.show_id env.show_addr (m.fails 0) db.outputs user id
        ≡ ok u)

  -- The route belongs to the context and the user, and leads to the origin of the target.
  abbrev pub LeadsTo : ℕ → Url → Route → Type 0
  LeadsTo context target route =
      (route.context_id ≡ context)
      × (route.user_id ≡ user)
      × (route.scheme ≡ target.scheme)
      × (route.host ≡ hostname target)
      × (route.port ≡ route_port target)

  abbrev stored_context :
      Text → Option ℕ → Bool → Target → Result StoreError (Db × Context × Route × Text)
  stored_context raw upstream compatibility target =
      create_context env.hash (m.fails 2) db.store m.now (m.ids 0) (m.ids 1) m.token user target.url
        (env.parsers.show_url target.url) upstream compatibility

  -- The contexts after UpdateCurrentURL, whose failure is ignored.
  abbrev pub moved_contexts : ℕ → Target → List Context
  moved_contexts id target =
      if m.fails 2 0
      then db.store.contexts
      else update_where (λ c. c.id == id)
          (λ c. record c { current_url = env.parsers.show_url target.url; last_active_at = m.now })
          db.store.contexts
