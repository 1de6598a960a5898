-- ===== src/Upstream/Access.antt =====
-- Who may use which proxy, and the connection that a request gets: Effective, DirectAllowed,
-- Authorized, Password and ProxyURL of internal/proxy/upstream.go, and `transport` of http.go.

use mathlib.Core.List.{Memᴰ}
use tvpn.Base.{
  >>=-eq-ok, Bool, Bool-cases, List, Option, Option-cases, Result, [], any, ap, arith, err, false,
  filter, find, find_sound, if◌then◌else◌, inl, inr, length, list_eq, nat_eq, none, not, ok,
  ok-injective, refl, some, sym, true, ℕ, ◌!=◌, ◌&&◌, ◌++◌, ◌==◌, ◌>>=◌, ◌>>◌, ◌||◌, ◌∙◌, ◌∷◌, ◌≡◌,
  ◌⊎◌,
}
use tvpn.Cookies.{Aead, decrypt}
use tvpn.Guard.{Target}
use tvpn.Net.{Addr, addr_eq, itoa, join_host_port}
use tvpn.Store.{Route}
use tvpn.Text.{Text, text}
use tvpn.Upstream.{
  Upstream, UpstreamDb, UpstreamError, UpstreamType, direct_denied, http_proxy, no_dialer,
  no_upstream, run_statement, socks5_proxy, undecryptable, unknown_type, unsupported_proxy_type,
}

-- The proxy is assigned to the user or to a group of the user.
abbrev pub is_proxy_assigned : UpstreamDb → ℕ → ℕ → Bool
is_proxy_assigned db user id =
    any (λ (p : ℕ × ℕ). p.0 == user && p.1 == id) db.user_proxies
    || any
        (λ (m : ℕ × ℕ).
          m.0 == user && any (λ (g : ℕ × ℕ). g.0 == m.1 && g.1 == id) db.group_proxies)
        db.memberships

-- The URL of a proxy: the scheme is its type's name.
pub record ProxyUrl : Type 0 where
  pub type : UpstreamType
  pub host : Text
  -- the user and the password
  pub userinfo : Option (Text × Text)

-- How the transport dials: straight to the address, or by a proxy, which is asked for the address.
pub data Dial : Type 0 where
  direct : Text → Dial
  by_http : ProxyUrl → Text → Dial
  by_socks5 : Text → Option (Text × Text) → Text → Dial

unfoldable pub first_address : List Addr → Option Addr
first_address [] = none
first_address (a ∷ l) = some a

module _ (aead : Aead) (show_id : ℕ → Text) (show_addr : Addr → Text) (fails : ℕ → Bool) where
  -- UpstreamStore.Effective, without its order
  unfoldable pub effective_proxies : UpstreamDb → ℕ → Result UpstreamError (List Upstream)
  effective_proxies db user = do
    run_statement (fails 0)
    ok (filter (λ u. u.enabled && is_proxy_assigned db user u.id) db.proxies)

  -- UpstreamStore.DirectAllowed
  unfoldable pub direct_allowed : UpstreamDb → ℕ → Result UpstreamError Bool
  direct_allowed db user = do
    run_statement (fails 0)
    ok (
        not db.restricted
        || any (λ u. u == user) db.direct_users
        || any (λ (m : ℕ × ℕ). m.0 == user && any (λ g. g == m.1) db.direct_groups) db.memberships)

  -- UpstreamStore.SetDirectRestricted
  unfoldable pub set_direct_restricted : UpstreamDb → Bool → Result UpstreamError UpstreamDb
  set_direct_restricted db restricted = do
    run_statement (fails 0)
    ok (record db { restricted = restricted })

  unfoldable pub found_proxy : Option Upstream → Result UpstreamError Upstream
  found_proxy none = err no_upstream
  found_proxy (some u) = ok u

  -- UpstreamStore.Authorized
  unfoldable pub authorized : UpstreamDb → ℕ → ℕ → Result UpstreamError Upstream
  unfolding found_proxy
  authorized db user id = do
    run_statement (fails 0)
    found_proxy (find (λ u. u.id == id && u.enabled && is_proxy_assigned db user u.id) db.proxies)

  -- UpstreamStore.Password
  unfoldable pub password_of : Upstream → Result UpstreamError Text
  password_of u = elim u.password_encrypted [
    | none ↦ ok []
    | some sealed ↦
        if length sealed == 0
        then ok []
        else elim (decrypt aead sealed (text "upstream-proxy:" ++ show_id u.id)) [
          | none ↦ err undecryptable
          | some plain ↦ ok plain
        ]
  ]

  -- UpstreamStore.ProxyURL
  unfoldable pub proxy_url : Upstream → Result UpstreamError ProxyUrl
  proxy_url u = do
    password ← password_of u
    ok (record {
      type = u.type;
      host = join_host_port u.host (itoa u.port);
      userinfo = if u.username != [] then some (u.username, password) else none;
    })

  -- The dialer of SOCKS5; building it fails only for what is no address: `no_socks`.
  unfoldable pub socks_dialer :
      ProxyUrl → Option (Text × Text) → Text → Bool → Result UpstreamError Dial
  socks_dialer url auth pinned no_socks =
      if no_socks then err no_dialer else ok (by_socks5 url.host auth pinned)

  -- The switch on the type.
  unfoldable pub dial_proxy :
      UpstreamType → Upstream → ProxyUrl → Text → Bool → Result UpstreamError Dial
  unfolding socks_dialer
  dial_proxy http_proxy u url pinned no_socks = ok (by_http url pinned)
  dial_proxy socks5_proxy u url pinned no_socks =
      if u.username == []
      then socks_dialer url none pinned no_socks
      else (password_of u >>= λ password.
          socks_dialer url (some (u.username, password)) pinned no_socks)
  dial_proxy (unknown_type _) u url pinned no_socks = err unsupported_proxy_type

  -- A target has an address: the guard refuses one without, and an index out of range would panic.
  unfoldable pub pinned_address : Target → Option Addr → Text
  pinned_address target none = []
  pinned_address target (some a) = join_host_port (show_addr a) (itoa target.port)

  -- Service.transport: the target is reached at its first address, which the guard has checked.
  unfoldable pub transport : UpstreamDb → Target → Route → Bool → Result UpstreamError Dial
  unfolding dial_proxy pinned_address first_address
  transport db target route no_socks =
      let pinned = pinned_address target (first_address target.addresses) in
      elim route.upstream_proxy_id [
        | none ↦
            (direct_allowed db route.user_id >>= λ allowed.
            if not allowed then err direct_denied else ok (direct pinned))
        | some id ↦
            (authorized db route.user_id id >>= λ u.
            proxy_url u >>= λ url. dial_proxy u.type u url pinned no_socks)
      ]

  -- The address that the connection is for in the end.
  abbrev pub dialled : Dial → Text
  dialled (direct a) = a
  dialled (by_http _ a) = a
  dialled (by_socks5 _ _ a) = a

  -- The user may connect directly.
  abbrev pub MayGoDirect : UpstreamDb → ℕ → Type 0
  MayGoDirect db user =
      (db.restricted ≡ false)
      ⊎ ((any (λ u. u == user) db.direct_users ≡ true)
          ⊎ (any (λ (m : ℕ × ℕ). m.0 == user && any (λ g. g == m.1) db.direct_groups) db.memberships
              ≡ true))

  direct_allowed-MayGoDirect :
      (db : UpstreamDb) (user : ℕ) → direct_allowed db user ≡ ok true → MayGoDirect db user
  unfolding direct_allowed
  direct_allowed-MayGoDirect db user h = ground arith

  -- A proxy that a user is authorised for, with its identifier.
  abbrev pub IsAuthorized : UpstreamDb → ℕ → Upstream → Type 0
  IsAuthorized db user u =
      Memᴰ u db.proxies × (u.enabled ≡ true) × (is_proxy_assigned db user u.id ≡ true)

  authorized-IsAuthorized :
      (db : UpstreamDb) (user id : ℕ) (u : Upstream)
      → authorized db user id ≡ ok u
      → (u.id ≡ id) × IsAuthorized db user u
  unfolding authorized found_proxy
  authorized-IsAuthorized db user id u h =
      let (mem, good) =
        find_sound (λ v. v.id == id && v.enabled && is_proxy_assigned db user v.id) db.proxies
          {x = u} (ground arith) in
      (ground arith, (mem, ground arith, ground arith))

  -- The connection is by the proxy of that row, as its type says, with its user and its password.
  pub data IsThrough (u : Upstream) : Dial → Type 0 where
    through_http :
        (url : ProxyUrl) (a : Text)
        → u.type ≡ http_proxy
        → proxy_url u ≡ ok url
        → IsThrough u (by_http url a)
    through_socks5 :
        (url : ProxyUrl) (a : Text)
        → u.type ≡ socks5_proxy
        → proxy_url u ≡ ok url
        → IsThrough u (by_socks5 url.host url.userinfo a)

  socks_dialer-dialled :
      (url : ProxyUrl) (auth : Option (Text × Text)) (pinned : Text) (no_socks : Bool) (d : Dial)
      → socks_dialer url auth pinned no_socks ≡ ok d
      → dialled d ≡ pinned
  unfolding socks_dialer
  socks_dialer-dialled url auth pinned no_socks d h =
      let shape : d ≡ by_socks5 url.host auth pinned = ground arith in ap dialled shape

  dial_proxy-dialled :
      (t : UpstreamType) (u : Upstream) (url : ProxyUrl) (pinned : Text) (no_socks : Bool)
      (d : Dial)
      → dial_proxy t u url pinned no_socks ≡ ok d
      → dialled d ≡ pinned
  unfolding dial_proxy
  dial_proxy-dialled http_proxy u url pinned no_socks d h = ap dialled (sym (ok-injective h))
  dial_proxy-dialled socks5_proxy u url pinned no_socks d h = elim (Bool-cases (u.username == [])) [
    | inl anonymous ↦ socks_dialer-dialled url none pinned no_socks d (ground arith)
    | inr named ↦
        let (password, e, h1) =
          >>=-eq-ok (password_of u)
            (λ password. socks_dialer url (some (u.username, password)) pinned no_socks) {b = d}
            (ground arith) in
        socks_dialer-dialled url (some (u.username, password)) pinned no_socks d h1
  ]
  dial_proxy-dialled (unknown_type _) u url pinned no_socks d h = cc

  proxy_url-userinfo :
      (u : Upstream) (url : ProxyUrl)
      → proxy_url u ≡ ok url
      → ((u.username == [] ≡ true) × (url.userinfo ≡ none))
        ⊎ ((password : Text) × (password_of u ≡ ok password)
            × (url.userinfo ≡ some (u.username, password))
            × (u.username == [] ≡ false))
  unfolding proxy_url
  proxy_url-userinfo u url h =
      let (password, e, h1) = >>=-eq-ok (password_of u) _ h in
      elim (Bool-cases (u.username == [])) [
        | inl anonymous ↦ inl (anonymous, ground arith)
        | inr named ↦ inr (password, e, ground arith, named)
      ]

  socks_dialer-IsThrough :
      (u : Upstream) (url : ProxyUrl) (auth : Option (Text × Text)) (pinned : Text)
      (no_socks : Bool) (d : Dial)
      → u.type ≡ socks5_proxy
      → proxy_url u ≡ ok url
      → url.userinfo ≡ auth
      → socks_dialer url auth pinned no_socks ≡ ok d
      → IsThrough u d
  unfolding socks_dialer
  socks_dialer-IsThrough u url auth pinned no_socks d type made same h =
      let shape : by_socks5 url.host url.userinfo pinned ≡ d = ground arith in
      rw (← shape) (through_socks5 url pinned type made)

  dial_proxy-IsThrough :
      (t : UpstreamType) (u : Upstream) (url : ProxyUrl) (pinned : Text) (no_socks : Bool)
      (d : Dial)
      → u.type ≡ t
      → proxy_url u ≡ ok url
      → dial_proxy t u url pinned no_socks ≡ ok d
      → IsThrough u d
  unfolding dial_proxy
  dial_proxy-IsThrough http_proxy u url pinned no_socks d type made h =
      rw (← ok-injective h) (through_http url pinned type made)
  dial_proxy-IsThrough socks5_proxy u url pinned no_socks d type made h =
      elim (proxy_url-userinfo u url made) [
        | inl (anonymous, without) ↦
            socks_dialer-IsThrough u url none pinned no_socks d type made without (ground arith)
        | inr (password, known, same, named) ↦
            socks_dialer-IsThrough u url (some (u.username, password)) pinned no_socks d type made
              same (ground arith)
      ]
  dial_proxy-IsThrough (unknown_type _) u url pinned no_socks d type made h = cc

  -- What `transport` connects to is the first address of the target and its port, whatever the proxy.
  -- It is direct only if the route has no proxy and the user may connect directly; otherwise it is by the
  -- route's proxy, as its type says, which is enabled and assigned to the user or to a group of the user.
  pub transport-IsPermitted :
      (db : UpstreamDb) (target : Target) (route : Route) (no_socks : Bool) (d : Dial) (a : Addr)
      (rest : List Addr)
      → target.addresses ≡ a ∷ rest
      → transport db target route no_socks ≡ ok d
      → (dialled d ≡ join_host_port (show_addr a) (itoa target.port))
        × ((route.upstream_proxy_id ≡ none
              × MayGoDirect db route.user_id
              × ((t : Text) × (d ≡ direct t)))
            ⊎ ((u : Upstream) × (route.upstream_proxy_id ≡ some u.id)
                × Memᴰ u db.proxies
                × (u.enabled ≡ true)
                × (is_proxy_assigned db route.user_id u.id ≡ true)
                × IsThrough u d))
  unfolding transport pinned_address first_address
  transport-IsPermitted db target route no_socks d a rest shape h =
      let pinned = join_host_port (show_addr a) (itoa target.port) in
      elim (Option-cases route.upstream_proxy_id) [
        | inl none_set ↦
            let (allowed, e, h1) =
              >>=-eq-ok (direct_allowed db route.user_id)
                (λ allowed. if not allowed then err direct_denied else ok (direct pinned)) {b = d}
                (ground arith) in
            let yes : allowed ≡ true = ground arith in
            let shape_d : d ≡ direct pinned = ground arith in
            (
              ap dialled shape_d,
              inl (
                none_set,
                direct_allowed-MayGoDirect db route.user_id (e ∙ ap ok yes),
                (pinned, shape_d),
              ),
            )
        | inr (id, set) ↦
            let (u, e, h1) =
              >>=-eq-ok (authorized db route.user_id id)
                (λ u. proxy_url u >>= λ url. dial_proxy u.type u url pinned no_socks) {b = d}
                (ground arith) in
            let (url, e2, h2) =
              >>=-eq-ok (proxy_url u) (λ url. dial_proxy u.type u url pinned no_socks) {b = d} h1 in
            let (same, (mem, enabled, assigned)) =
              authorized-IsAuthorized db route.user_id id u e in
            (
              dial_proxy-dialled u.type u url pinned no_socks d h2,
              inr (
                u,
                set ∙ ap some (sym same),
                mem,
                enabled,
                assigned,
                dial_proxy-IsThrough u.type u url pinned no_socks d refl e2 h2,
              ),
            )
      ]
