-- ===== src/Admin/Replaced.antt =====
-- What replacing assignments in internal/admin/http.go leaves in the tables.
use mathlib.Core.List.{append-nil, append_assoc}
use tvpn.Admin.{AdminDb, audit, no_content}
use tvpn.Admin.Assignments.{
  end_transaction, has_policy, has_proxy, has_user, insert_rows, pair_same, replace_assignments,
  replace_resource_assignments, replace_rows, set_upstream_assignments, set_upstream_proxy_users,
  set_user_policies, tx_exec,
}
use tvpn.Base.{
  >>=-eq-ok, Bool, List, Result-cases, [], any, ap, arith, false, filter, if◌then◌else◌, inl, inr,
  length, list_beq, list_eq, map, nat_eq, not, ok, ok-injective, refl, some, suc, sym, ℕ, ◌&&◌,
  ◌++◌, ◌+◌, ◌==◌, ◌||◌, ◌∙◌, ◌∷◌, ◌≡◌,
}
use tvpn.Policy.Effective.{has_pair}
use tvpn.Text.{Text, text}

module _ {Row : Type 0} (fails : ℕ → Bool) (same : Row → Row → Bool) (is_valid : Row → Bool) where
  insert_rows-append :
      (n : ℕ) (table rows after : List Row)
      → insert_rows fails same is_valid n table rows ≡ ok after
      → after ≡ table ++ rows
  unfolding insert_rows
  insert_rows-append n table [] after h = sym (ok-injective h) ∙ sym (append-nil table)
  insert_rows-append n table (entry ∷ rows) after h =
      let (u, e, h1) =
        >>=-eq-ok (tx_exec fails table (fails n || any (same entry) table || not (is_valid entry)))
          _ h in
      insert_rows-append (suc n) (table ++ (entry ∷ [])) rows after h1
      ∙ append_assoc table (entry ∷ []) rows

  -- The transaction takes exactly the old rows out and puts exactly the new ones in.
  pub replace_rows-exact :
      (is_old : Row → Bool) (table rows after : List Row)
      → replace_rows fails same is_valid is_old table rows ≡ ok after
      → after ≡ filter (λ r. not (is_old r)) table ++ rows
  unfolding replace_rows
  replace_rows-exact is_old table rows after h =
      let (u, e0, h0) = >>=-eq-ok (tx_exec fails table (fails 0)) _ h in
      let (v, e1, h1) = >>=-eq-ok (tx_exec fails table (fails 1)) _ h0 in
      let (replaced, e2, h2) =
        >>=-eq-ok (insert_rows fails same is_valid 2 (filter (λ r. not (is_old r)) table) rows) _
          h1 in
      let (w, e3, h3) = >>=-eq-ok (tx_exec fails replaced (fails (2 + length rows))) _ h2 in
      sym (ok-injective h3)
      ∙ insert_rows-append 2 (filter (λ r. not (is_old r)) table) rows replaced e2

any-append :
    {A : Type 0} (p : A → Bool) (xs ys : List A) → any p (xs ++ ys) ≡ (any p xs || any p ys)
any-append p [] ys = refl
any-append p (x ∷ xs) ys = ground (arith, any-append p xs ys)

-- The pairs of one left side, replaced: that side has exactly the new ones, the others keep theirs.
has_pair-kept :
    (user other item : ℕ) (table : List (ℕ × ℕ))
    → has_pair other item (filter (λ (r : ℕ × ℕ). not (r.0 == user)) table)
      ≡ (if other == user then false else has_pair other item table)
has_pair-kept user other item [] = ground arith
has_pair-kept user other item (r ∷ table) = ground (arith, has_pair-kept user other item table)

has_pair-new :
    (user other item : ℕ) (ids : List ℕ)
    → has_pair other item (map (λ id. (user, id)) ids)
      ≡ (other == user && any (λ id. id == item) ids)
has_pair-new user other item [] = ground arith
has_pair-new user other item (id ∷ ids) = ground (arith, has_pair-new user other item ids)

pub has_pair-replaced :
    (user other item : ℕ) (table : List (ℕ × ℕ)) (ids : List ℕ)
    → has_pair other item
        (filter (λ (r : ℕ × ℕ). not (r.0 == user)) table ++ map (λ id. (user, id)) ids)
      ≡ (if other == user then any (λ id. id == item) ids else has_pair other item table)
has_pair-replaced user other item table ids =
    any-append (λ (r : ℕ × ℕ). r.0 == other && r.1 == item)
      (filter (λ (r : ℕ × ℕ). not (r.0 == user)) table) (map (λ id. (user, id)) ids)
    ∙ ground (arith, has_pair-kept user other item table, has_pair-new user other item ids)

-- The pairs of one right side, replaced.
pair_right-kept :
    (item user other : ℕ) (table : List (ℕ × ℕ))
    → has_pair user other (filter (λ (r : ℕ × ℕ). not (r.1 == item)) table)
      ≡ (if other == item then false else has_pair user other table)
pair_right-kept item user other [] = ground arith
pair_right-kept item user other (r ∷ table) = ground (arith, pair_right-kept item user other table)

pair_right-new :
    (item user other : ℕ) (ids : List ℕ)
    → has_pair user other (map (λ id. (id, item)) ids)
      ≡ (other == item && any (λ id. id == user) ids)
pair_right-new item user other [] = ground arith
pair_right-new item user other (id ∷ ids) = ground (arith, pair_right-new item user other ids)

pair_right-replaced :
    (item user other : ℕ) (table : List (ℕ × ℕ)) (ids : List ℕ)
    → has_pair user other
        (filter (λ (r : ℕ × ℕ). not (r.1 == item)) table ++ map (λ id. (id, item)) ids)
      ≡ (if other == item then any (λ id. id == user) ids else has_pair user other table)
pair_right-replaced item user other table ids =
    any-append (λ (r : ℕ × ℕ). r.0 == user && r.1 == other)
      (filter (λ (r : ℕ × ℕ). not (r.1 == item)) table) (map (λ id. (id, item)) ids)
    ∙ ground (arith, pair_right-kept item user other table, pair_right-new item user other ids)

module _ (fails : ℕ → Bool) where
  user_policies-replaced :
      (db after : AdminDb) (id : ℕ) (ids : List ℕ)
      → replace_assignments fails db (text "user_policies") id ids ≡ ok after
      → after.access.user_policies
        ≡ filter (λ (r : ℕ × ℕ). not (r.0 == id)) db.access.user_policies ++ map (λ p. (id, p)) ids
  unfolding replace_assignments end_transaction list_beq
  user_policies-replaced db after id ids h =
      let is_valid = λ (r : ℕ × ℕ). has_user db r.0 && has_policy db r.1 in
      let rows : List (ℕ × ℕ) = map (λ p. (id, p)) ids in
      let is_old = λ (r : ℕ × ℕ). r.0 == id in
      elim (Result-cases
        (replace_rows fails pair_same is_valid is_old db.access.user_policies rows)) [
          | inr (written, failed) ↦ absurd (ground arith)
          | inl (bound, e) ↦
              let stored : after.access.user_policies ≡ bound = ground arith in
              stored
              ∙ replace_rows-exact fails pair_same is_valid is_old db.access.user_policies rows
                  bound e
        ]

  user_proxies-replaced :
      (db after : AdminDb) (proxy : ℕ) (ids : List ℕ)
      → replace_resource_assignments fails db
          (text "user_upstream_proxies")
          (text "user_id")
          proxy
          ids
        ≡ ok after
      → after.outputs.user_proxies
        ≡ filter (λ (r : ℕ × ℕ). not (r.1 == proxy)) db.outputs.user_proxies
          ++ map (λ id. (id, proxy)) ids
  unfolding replace_resource_assignments end_transaction list_beq
  user_proxies-replaced db after proxy ids h =
      let is_valid = λ (r : ℕ × ℕ). has_user db r.0 && has_proxy db r.1 in
      let rows : List (ℕ × ℕ) = map (λ id. (id, proxy)) ids in
      let is_old = λ (r : ℕ × ℕ). r.1 == proxy in
      elim (Result-cases
        (replace_rows fails pair_same is_valid is_old db.outputs.user_proxies rows)) [
          | inr (written, failed) ↦ absurd (ground arith)
          | inl (bound, e) ↦
              let stored : after.outputs.user_proxies ≡ bound = ground arith in
              stored
              ∙ replace_rows-exact fails pair_same is_valid is_old db.outputs.user_proxies rows
                  bound e
        ]

  module _ (actor : ℕ) (show_id : ℕ → Text) where
    -- Setting the policies of a user that succeeds gives the user exactly the listed policies and leaves
    -- the assignments of every other user.
    pub set_user_policies-exact :
        (db : AdminDb) (id : ℕ) (ids : List ℕ)
        → (set_user_policies fails actor show_id db (some id) (some ids)).1 ≡ no_content
        → (user policy : ℕ)
        → has_pair user policy
            (set_user_policies fails actor show_id db (some id) (some ids)).0.access.user_policies
          ≡ (if user == id
              then any (λ p. p == policy) ids
              else has_pair user policy db.access.user_policies)
    unfolding set_user_policies audit
    set_user_policies-exact db id ids h user policy =
        elim (Result-cases (replace_assignments fails db (text "user_policies") id ids)) [
          | inr (reason, failed) ↦ absurd (ground arith)
          | inl (after, e) ↦
              let stored : (set_user_policies fails actor show_id db (some id)
                    (some ids)).0.access.user_policies
                  ≡ after.access.user_policies =
                ground arith in
              ap (has_pair user policy) (stored ∙ user_policies-replaced db after id ids e)
              ∙ has_pair-replaced id user policy db.access.user_policies ids
        ]

    -- Setting the users of a proxy that succeeds assigns the proxy to exactly the listed users and leaves
    -- the users of every other proxy.
    pub set_upstream_proxy_users-exact :
        (db : AdminDb) (id : ℕ) (ids : List ℕ)
        → (set_upstream_proxy_users fails actor show_id db (some id) (some ids)).1 ≡ no_content
        → (user proxy : ℕ)
        → has_pair user proxy
            (set_upstream_proxy_users fails actor show_id db
              (some id)
              (some ids)).0.outputs.user_proxies
          ≡ (if proxy == id
              then any (λ u. u == user) ids
              else has_pair user proxy db.outputs.user_proxies)
    unfolding set_upstream_proxy_users set_upstream_assignments audit
    set_upstream_proxy_users-exact db id ids h user proxy =
        elim (Result-cases (
          replace_resource_assignments fails db (text "user_upstream_proxies") (text "user_id") id
            ids)) [
              | inr (reason, failed) ↦ absurd (ground arith)
              | inl (after, e) ↦
                  let stored : (set_upstream_proxy_users fails actor show_id db (some id)
                        (some ids)).0.outputs.user_proxies
                      ≡ after.outputs.user_proxies =
                    ground arith in
                  ap (has_pair user proxy) (stored ∙ user_proxies-replaced db after id ids e)
                  ∙ pair_right-replaced id user proxy db.outputs.user_proxies ids
            ]
