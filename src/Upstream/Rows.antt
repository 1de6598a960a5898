-- ===== src/Upstream/Rows.antt =====
-- The stored proxies: the password of an updated proxy, and what deleting one removes.
use tvpn.Base.{
  >>=-eq-ok, Bool, List, Option, [], any, ap, arith, count_where, fail_if, false, filter, find,
  if◌then◌else◌, list_eq, nat_eq, none, not, ok, ok-injective, refl, some, text_eq_self,
  update_where, ℕ, ◌!=◌, ◌&&◌, ◌==◌, ◌||◌, ◌∙◌, ◌∷◌, ◌≡◌,
}
use tvpn.Cookies.{Aead}
use tvpn.Text.{Text}
use tvpn.Upstream.{
  Upstream, UpstreamDb, UpstreamInput, delete_upstream, has_proxy_id, is_through, kept_password,
  no_upstream, normalize_upstream_input, run_statement, seal_password, update_upstream, updated,
  upstream_aad,
}
use tvpn.Upstream.Access.{is_proxy_assigned}

module _ (aead : Aead) (show_id : ℕ → Text) (is_ip : Text → Bool) (fails : ℕ → Bool) where
  find-updated :
      (id : ℕ) (i : UpstreamInput) (sealed : Option Text) (l : List Upstream) (u : Upstream)
      → find (has_proxy_id id) l ≡ some u
      → find
          (has_proxy_id id)
          (update_where (has_proxy_id id) (updated aead show_id is_ip fails i sealed) l)
        ≡ some (updated aead show_id is_ip fails i sealed u)
  unfolding updated
  find-updated id i sealed [] u h = cc
  find-updated id i sealed (v ∷ l) u h = ground (arith, find-updated id i sealed l u)

  normalized-password :
      (is_ip : Text → Bool) (raw i : UpstreamInput)
      → normalize_upstream_input is_ip raw ≡ ok i
      → (i.password ≡ raw.password) × (i.clear_password ≡ raw.clear_password)
  unfolding normalize_upstream_input
  normalized-password is_ip raw i h = (ground arith, ground arith)

  seal_password_empty :
      (salt : Option Text) (password aad : Text) (sealed : Option Text)
      → password ≡ []
      → seal_password aead salt password aad ≡ ok sealed
      → sealed ≡ none
  unfolding seal_password
  seal_password_empty salt [] aad sealed e h = ground (arith, text_eq_self [])
  seal_password_empty salt (c ∷ s) aad sealed e h = cc

  find-removed :
      (id : ℕ) (l : List Upstream)
      → find (has_proxy_id id) (filter (λ u. not (has_proxy_id id u)) l) ≡ none
  find-removed id [] = refl
  find-removed id (u ∷ l) = ground (arith, find-removed id l)

  any-removed :
      (id : ℕ) (l : List (Option ℕ))
      → any
          (is_through aead show_id is_ip fails id)
          (filter (λ c. not (is_through aead show_id is_ip fails id c)) l)
        ≡ false
  any-removed id [] = refl
  any-removed id (c ∷ l) = ground (arith, any-removed id l)

  no_pair-removed :
      (user id : ℕ) (l : List (ℕ × ℕ))
      → any (λ (p : ℕ × ℕ). p.0 == user && p.1 == id) (filter (λ (p : ℕ × ℕ). not (p.1 == id)) l)
        ≡ false
  no_pair-removed user id [] = refl
  no_pair-removed user id (p ∷ l) = ground (arith, no_pair-removed user id l)

  no_group-removed :
      (user id : ℕ) (l memberships : List (ℕ × ℕ))
      → any
          (λ (m : ℕ × ℕ).
            m.0 == user
            && any
                (λ (g : ℕ × ℕ). g.0 == m.1 && g.1 == id)
                (filter (λ (p : ℕ × ℕ). not (p.1 == id)) l))
          memberships
        ≡ false
  no_group-removed user id l [] = refl
  no_group-removed user id l (m ∷ memberships) =
      ground (arith, no_pair-removed m.1 id l, no_group-removed user id l memberships)

  -- An update without a password keeps the password, or clears it if the input says so; every other
  -- proxy stays as it is.
  pub update_upstream-password :
      (db db' : UpstreamDb) (id : ℕ) (salt : Option Text) (input : UpstreamInput) (u : Upstream)
      → update_upstream aead show_id is_ip fails db id salt input ≡ ok db'
      → input.password ≡ []
      → find (has_proxy_id id) db.proxies ≡ some u
      → (v : Upstream) × (find (has_proxy_id id) db'.proxies ≡ some v)
        × (v.password_encrypted ≡ (if input.clear_password then none else u.password_encrypted))
  unfolding update_upstream updated kept_password
  update_upstream-password db db' id salt input u h empty found =
      let (i, c1, h1) = >>=-eq-ok (normalize_upstream_input is_ip input) _ h in
      let (sealed, c2, h2) =
        >>=-eq-ok (seal_password aead salt i.password (upstream_aad aead show_id is_ip fails id)) _
          h1 in
      let (u3, c3, h3) =
        >>=-eq-ok (run_statement (fails 0 || any (λ u. u.id != id && u.name == i.name) db.proxies))
          _ h2 in
      let (u4, c4, h4) =
        >>=-eq-ok (fail_if (count_where (has_proxy_id id) db.proxies != 1) no_upstream) _ h3 in
      let (same_password, same_clear) = normalized-password is_ip input i c1 in
      let unsealed =
        seal_password_empty salt i.password (upstream_aad aead show_id is_ip fails id) sealed
          (same_password ∙ empty) c2 in
      let row = updated aead show_id is_ip fails i sealed u in
      rw (← ok-injective h4) (
        row,
        find-updated id i sealed db.proxies u found,
        ap (λ s. kept_password aead show_id is_ip fails s i.clear_password u.password_encrypted)
              unsealed
            ∙ ap (λ b. if b then none else u.password_encrypted) same_clear,
      )

  -- After a deletion no context goes through the proxy, and nobody is assigned it.
  pub delete_upstream-unused :
      (db db' : UpstreamDb) (id : ℕ)
      → delete_upstream aead show_id is_ip fails db id ≡ ok db'
      → (find (has_proxy_id id) db'.proxies ≡ none)
        × (any (is_through aead show_id is_ip fails id) db'.context_proxies ≡ false)
        × ((user : ℕ) → is_proxy_assigned db' user id ≡ false)
  unfolding delete_upstream
  delete_upstream-unused db db' id h =
      let shape : db' ≡ record db {
        proxies = filter (λ u. not (has_proxy_id id u)) db.proxies;
        context_proxies =
            filter (λ c. not (is_through aead show_id is_ip fails id c)) db.context_proxies;
        user_proxies = filter (λ (p : ℕ × ℕ). not (p.1 == id)) db.user_proxies;
        group_proxies = filter (λ (p : ℕ × ℕ). not (p.1 == id)) db.group_proxies;
      } =
        ground arith in
      rw shape (
        find-removed id db.proxies,
        any-removed id db.context_proxies,
        λ user.
            rw (no_pair-removed user id db.user_proxies)
              (no_group-removed user id db.group_proxies db.memberships),
      )
