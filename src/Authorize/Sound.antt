-- ===== src/Authorize/Sound.antt =====
-- A request that is let through has passed the guard and every policy of its user.
use mathlib.Core.Path.{subst}
use tvpn.Authorize.{
  authorize, authorize_web_socket, decide, http_scheme, parse_web_socket, resolved,
}
use tvpn.Base.{
  >>=-eq-ok, All, Bool-cases, List, Option, Result, [], ap, arith, err, inl, inr, list_eq, nat_eq,
  none, ok, ok-injective, refl, some, sym, true, ◌==◌, ◌||◌, ◌≡◌, ◌≢◌,
}
use tvpn.Guard.{Guard, GuardError, Resolver, Target, resolve}
use tvpn.Guard.Safety.{IsSafe, resolve-IsSafe}
use tvpn.Net.{Parsers, Url}
use tvpn.Policy.{Decision, Policy, evaluate}
use tvpn.Policy.Decide.{Permits, evaluate_iff}
use tvpn.Text.{Text, text, trim_space}

-- The policies that the request rests on: some policy applies, and each of them permits the target.
pub record IsGranted (lib : Parsers) (policies : Option (List Policy)) (t : Target) : Type 0 where
  pub items : List Policy
  pub loaded : policies ≡ some items
  pub assigned : items ≢ []
  pub permitted : All (Permits lib t.url t.addresses) items

resolved-ok : (r : Result GuardError Target) (t : Target) → resolved r ≡ ok t → r ≡ ok t
unfolding resolved
resolved-ok (ok u) t h = ap ok (ok-injective h)
resolved-ok (err e) t h = cc

decide-ok :
    (lib : Parsers) (target t : Target) (d : Decision) (policies : Option (List Policy))
    → decide lib target policies ≡ ok (t, d)
    → d.allowed ≡ true
    → (target ≡ t) × IsGranted lib policies t
unfolding decide
decide-ok lib target t d none h allowed = cc
decide-ok lib target t d (some items) h allowed =
    let e = ok-injective h in
    let same : target ≡ t = ap (λ (p : Target × Decision). p.0) e in
    let same_d : evaluate lib items target.url target.addresses ≡ d =
      ap (λ (p : Target × Decision). p.1) e in
    let still : (evaluate lib items target.url target.addresses).allowed ≡ true =
      rw same_d allowed in
    let (assigned, permitted) = (evaluate_iff lib target.url target.addresses items).0 still in
    (
      same,
      record {
        items = items;
        loaded = refl;
        assigned = assigned;
        permitted =
            subst (λ (u : Target). All (Permits lib u.url u.addresses) items) same permitted;
      },
    )

module _ (g : Guard) (lib : Parsers) (lookup : Resolver) where
  -- What `authorize` allows is a safe target, and every policy of the user permits it.
  pub authorize-IsGranted :
      (policies : Option (List Policy)) (raw : Text) (t : Target) (d : Decision)
      → authorize g lib lookup policies raw ≡ ok (t, d)
      → d.allowed ≡ true
      → IsSafe g t × IsGranted lib policies t
  unfolding authorize
  authorize-IsGranted policies raw t d h allowed =
      let (target, found, h') = >>=-eq-ok (resolved (resolve g lib lookup raw)) _ h in
      let (same, granted) = decide-ok lib target t d policies h' allowed in
      (resolve-IsSafe g lib lookup raw t (rw (← same) (resolved-ok _ target found)), granted)

  abbrev pub as_socket : Url → Target → Target
  as_socket parsed target = record target { url = record target.url { scheme = parsed.scheme } }

  parse_web_socket-scheme :
      (o : Option Url) (parsed : Url)
      → parse_web_socket o ≡ ok parsed
      → (parsed.scheme == text "ws" || parsed.scheme == text "wss") ≡ true
  unfolding parse_web_socket
  parse_web_socket-scheme none parsed h = cc
  parse_web_socket-scheme (some u) parsed h =
      elim (Bool-cases (u.scheme == text "ws" || u.scheme == text "wss")) [
        | inl socket ↦ let e : parsed ≡ u = ground arith in rw e socket
        | inr plain ↦ cc (rw plain at h)
      ]

  -- What `authorizeWebSocket` allows is, but for its scheme, a target that the guard let through as
  -- HTTP; the scheme is ws or wss, and the policies permit the target under that scheme.
  pub authorize_web_socket-IsGranted :
      (policies : Option (List Policy)) (raw : Text) (t : Target) (d : Decision)
      → authorize_web_socket g lib lookup policies raw ≡ ok (t, d)
      → d.allowed ≡ true
      → ((parsed : Url) × (target : Target) × (t ≡ as_socket parsed target)
          × ((parsed.scheme == text "ws" || parsed.scheme == text "wss") ≡ true)
          × IsSafe g target)
        × IsGranted lib policies t
  unfolding authorize_web_socket
  authorize_web_socket-IsGranted policies raw t d h allowed =
      let (parsed, parsed_ok, h1) =
        >>=-eq-ok (parse_web_socket (lib.parse_url (trim_space raw))) _ h in
      let (target, found, h2) =
        >>=-eq-ok
          (resolved (
            resolve g lib lookup
              (lib.show_url (record parsed { scheme = http_scheme parsed.scheme }))))
          _ h1 in
      let (same, granted) = decide-ok lib (as_socket parsed target) t d policies h2 allowed in
      (
        (
          parsed,
          target,
          sym same,
          parse_web_socket-scheme _ parsed parsed_ok,
          resolve-IsSafe g lib lookup _ target (resolved-ok _ target found),
        ),
        granted,
      )
