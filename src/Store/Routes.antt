-- ===== src/Store/Routes.antt =====
-- Routes: one for each origin of a context.
use tvpn.Base.{Bool, List, [], arith, false, find, none, ok, text_eq_self, ℕ, ◌∷◌, ◌≡◌}
use tvpn.Net.{Url, hostname}
use tvpn.Store.{Db, is_same_route, Route, RouteRow, create_route, new_route, upsert_route}

-- No two rows of the table have the same context, scheme, host and port.
abbrev pub HasUniqueRoutes : List RouteRow → Type 0
HasUniqueRoutes [] = Unit
HasUniqueRoutes (r ∷ l) = (find (is_same_route r) l ≡ none) × HasUniqueRoutes l

upsert_route-HasUniqueRoutes :
    (l : List RouteRow) (r : RouteRow) → HasUniqueRoutes l → HasUniqueRoutes (upsert_route l r).0
unfolding upsert_route
upsert_route-HasUniqueRoutes l r h = ground arith

-- Creating a route keeps the origins of a context apart.
pub create_route-HasUniqueRoutes :
    (fails : Bool) (db : Db) (id context user : ℕ) (target : Url) (out : Db × Route)
    → HasUniqueRoutes db.routes
    → create_route fails db id context user target ≡ ok out
    → HasUniqueRoutes out.0.routes
unfolding create_route
create_route-HasUniqueRoutes fails db id context user target out unique h =
    let kept = upsert_route-HasUniqueRoutes db.routes (new_route id context target) unique in
    let same : out.0.routes ≡ (upsert_route db.routes (new_route id context target)).0 =
      ground arith in
    rw same kept

-- A second request for the same origin gets the same route, whatever identifier it brings, and
-- changes nothing.
pub create_route-stable :
    (fails : Bool) (db : Db) (id id' context user : ℕ) (target : Url) (out : Db × Route)
    → create_route fails db id context user target ≡ ok out
    → create_route false out.0 id' context user target ≡ ok out
unfolding create_route
create_route-stable fails db id id' context user target out h =
    ground (arith, text_eq_self target.scheme, text_eq_self (hostname target))
