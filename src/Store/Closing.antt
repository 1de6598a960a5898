-- ===== src/Store/Closing.antt =====
-- What a closed context still serves: nothing.
use mathlib.Core.Path.{subst}
use tvpn.Base.{
  >>=-eq-ok, Bool, Bool-cases, List, Option, [], ap, arith, count_where, err, false, find, inl, inr,
  list_eq, nat_eq, none, ok, refl, update_where, ℕ, ◌&&◌, ◌==◌, ◌∷◌, ◌≡◌, ◌≢◌,
}
use tvpn.Store.{Context, Db, Route, close_context, exec, no_rows, row}
use tvpn.Store.Labels.{parse_label, route_by_label}
use tvpn.Text.{Text}

-- The identifier is the key of the table.
abbrev pub HasUniqueContexts : List Context → Type 0
HasUniqueContexts [] = Unit
HasUniqueContexts (c ∷ l) = (find (λ b. b.id == c.id) l ≡ none) × HasUniqueContexts l

module _ (id user : ℕ) where
  abbrev owned : Context → Bool
  owned c = c.id == id && c.user_id == user && c.is_open

  abbrev close_row : Context → Context
  close_row c = record c { is_open = false }

  abbrev is_open_row : Context → Bool
  is_open_row c = c.id == id && c.is_open

  absent-open : (l : List Context) → find (λ c. c.id == id) l ≡ none → find is_open_row l ≡ none
  absent-open [] h = refl
  absent-open (c ∷ l) h = ground (arith, absent-open l)

  absent-count : (l : List Context) → find (λ c. c.id == id) l ≡ none → count_where owned l ≡ 0
  absent-count [] h = refl
  absent-count (c ∷ l) h = ground (arith, absent-count l)

  absent-update :
      (l : List Context)
      → find (λ c. c.id == id) l ≡ none
      → find is_open_row (update_where owned close_row l) ≡ none
  absent-update [] h = refl
  absent-update (c ∷ l) h = ground (arith, absent-update l)

  closed-find :
      (l : List Context)
      → HasUniqueContexts l
      → count_where owned l ≡ 1
      → find is_open_row (update_where owned close_row l) ≡ none
  closed-find [] u h = refl
  closed-find (c ∷ l) u h = elim (Bool-cases (c.id == id)) [
    | inl same ↦
        let e : c.id ≡ id = ground arith in
        let gone : find (λ b. b.id == id) l ≡ none = rw e at u.0 in
        ground (arith, absent-count l gone, absent-update l gone)
    | inr differs ↦ ground (arith, closed-find l u.1)
  ]

module _ (hash : Text → Text) (parse : Text → Option ℕ) where
  close_context-find :
      (fails : ℕ → Bool) (db db' : Db) (id user : ℕ)
      → HasUniqueContexts db.contexts
      → close_context hash fails db id user ≡ ok db'
      → find (is_open_row id user) db'.contexts ≡ none
  unfolding close_context
  close_context-find fails db db' id user unique h =
      ground (arith, closed-find id user db.contexts unique)

  -- Once a context is closed, no label leads into it any more.
  pub close_context-unreachable :
      (fails fails' : ℕ → Bool) (db db' : Db) (id user : ℕ) (label : Text) (r : Route)
      → HasUniqueContexts db.contexts
      → close_context hash fails db id user ≡ ok db'
      → route_by_label parse fails' db' label ≡ ok r
      → r.context_id ≢ id
  unfolding route_by_label
  close_context-unreachable fails fails' db db' id user label r unique h found e =
      let (n, n_ok, h1) = >>=-eq-ok (parse_label parse label) _ found in
      let (u, begun, h2) = >>=-eq-ok (exec (fails' 0) tt) _ h1 in
      let (rr, rr_ok, h3) = >>=-eq-ok (row (find (λ r. r.id == n) db'.routes)) _ h2 in
      let (c, c_ok, h4) =
        >>=-eq-ok (row (find (λ c. c.id == rr.context_id && c.is_open) db'.contexts)) _ h3 in
      let context : rr.context_id ≡ id = ground arith in
      let gone = close_context-find fails db db' id user unique h in
      let open_rows = λ (k : ℕ). find (λ (c : Context). c.id == k && c.is_open) db'.contexts in
      let hit : row (open_rows id) ≡ ok c =
        subst (λ (k : ℕ). row (open_rows k) ≡ ok c) context c_ok in
      let miss : row (open_rows id) ≡ err no_rows = ap row gone in cc
