-- ===== src/Store/Ownership.antt =====
-- A context serves its owner only, and only while it is open.
use mathlib.Core.List.{Memᴰ}
use tvpn.Base.{
  >>=-eq-ok, Bool, Option, Option-cases, arith, find, find_sound, inl, inr, ok, true, ℕ, ◌≡◌, ◌≢◌,
}
use tvpn.Net.{Url, hostname}
use tvpn.Store.{
  Context, Db, Route, check_owner, create_route, create_ticket, exec, insert_ticket,
  is_open_context, resolve_route, route_port,
}
use tvpn.Text.{Text}

-- An open context of the user.
abbrev pub Owns : Db → ℕ → ℕ → Type 0
Owns db context user =
    (c : Context) × Memᴰ c db.contexts × (c.id ≡ context) × (c.is_open ≡ true) × (c.user_id ≡ user)

module _ (hash : Text → Text) (fails : ℕ → Bool) where
  check_owner-Owns :
      (failed : Bool) (db : Db) (context user : ℕ)
      → check_owner hash fails failed db context user ≡ ok tt
      → Owns db context user
  unfolding check_owner
  check_owner-Owns failed db context user h =
      elim (Option-cases (find (is_open_context hash fails context) db.contexts)) [
        | inl missing ↦ absurd (ground arith)
        | inr (c, found) ↦
            let (m, test) = find_sound (is_open_context hash fails context) db.contexts found in
            (c, m, ground arith, ground arith, ground (arith, found))
      ]

  -- A ticket is issued only to the owner of an open context.
  pub create_ticket-Owns :
      (db : Db) (now : ℕ) (fresh : Option Text) (user context : ℕ) (out : Db × Text)
      → create_ticket hash fails db now fresh user context ≡ ok out
      → Owns db context user
  unfolding create_ticket
  create_ticket-Owns db now fresh user context out h =
      let (u, owner, h') = >>=-eq-ok (check_owner hash fails (fails 0) db context user) _ h in
      check_owner-Owns (fails 0) db context user owner

  -- A route is resolved only for the owner of an open context, and leads to the origin of the target in
  -- that context.
  pub resolve_route-Owns :
      (db : Db) (id context user : ℕ) (target : Url) (out : Db × Route)
      → resolve_route hash fails db id context user target ≡ ok out
      → Owns db context user
        × (out.1.context_id ≡ context)
        × (out.1.user_id ≡ user)
        × (out.1.scheme ≡ target.scheme)
        × (out.1.host ≡ hostname target)
        × (out.1.port ≡ route_port target)
  unfolding resolve_route create_route
  resolve_route-Owns db id context user target out h =
      let (u, begun, h1) = >>=-eq-ok (exec (fails 0) tt) _ h in
      let (v, owner, h2) = >>=-eq-ok (check_owner hash fails (fails 1) db context user) _ h1 in
      (
        check_owner-Owns (fails 1) db context user owner,
        ground arith,
        ground arith,
        ground arith,
        ground arith,
        ground arith,
      )

  -- Routes and tickets leave the contexts as they are.
  pub resolve_route-contexts :
      (db : Db) (id context user : ℕ) (target : Url) (out : Db × Route)
      → resolve_route hash fails db id context user target ≡ ok out
      → out.0.contexts ≡ db.contexts
  unfolding resolve_route create_route
  resolve_route-contexts db id context user target out h =
      let (u, begun, h1) = >>=-eq-ok (exec (fails 0) tt) _ h in
      let (v, owner, h2) = >>=-eq-ok (check_owner hash fails (fails 1) db context user) _ h1 in
      ground arith

  pub create_ticket-contexts :
      (db : Db) (now : ℕ) (fresh : Option Text) (user context : ℕ) (out : Db × Text)
      → create_ticket hash fails db now fresh user context ≡ ok out
      → out.0.contexts ≡ db.contexts
  unfolding create_ticket insert_ticket
  create_ticket-contexts db now fresh user context out h =
      let (u, owner, h1) = >>=-eq-ok (check_owner hash fails (fails 0) db context user) _ h in
      ground arith

  -- Whoever does not own an open context with the identifier gets neither a ticket nor a route for it.
  pub foreign_context :
      (db : Db) (now id context user : ℕ) (fresh : Option Text) (target : Url)
      → (¬ (Owns db context user))
      → ((out : Db × Text) → create_ticket hash fails db now fresh user context ≢ ok out)
        × ((out : Db × Route) → resolve_route hash fails db id context user target ≢ ok out)
  foreign_context db now id context user fresh target foreign = (
    λ out h. foreign (create_ticket-Owns db now fresh user context out h),
    λ out h. foreign (resolve_route-Owns db id context user target out h).0,
  )
