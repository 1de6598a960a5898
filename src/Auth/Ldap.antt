-- ===== src/Auth/Ldap.antt =====
-- Store.UpsertLDAPUser of internal/auth/store.go: a user who logs in by LDAP, with the groups of the
-- directory. One transaction: an error changes nothing.
use tvpn.Auth.{
  AuthDb, AuthError, LdapGroup, User, ldap_user, local_user, normalize_username, query_failed,
  run_query,
}
use tvpn.Base.{
  >>=-eq-ok, Bool, List, Result, [], any, ap, arith, err, false, filter, find, if◌then◌else◌,
  length, list_eq, nat_eq, none, not, ok, ok-injective, refl, some, sym, true, update_where, ℕ,
  ◌&&◌, ◌*◌, ◌+◌, ◌==◌, ◌>>=◌, ◌>>◌, ◌||◌, ◌∙◌, ◌∷◌, ◌≡◌,
}
use tvpn.Text.{Text, trim_space}

-- LDAPIdentity; a group is its DN with its name.
pub record LdapIdentity : Type 0 where
  pub username : Text
  pub display_name : Text
  pub email : Text
  pub groups : List (Text × Text)

abbrev pub is_ldap : User → Bool
is_ldap u = elim u.auth_source [ local_user ↦ false | ldap_user ↦ true ]

unfoldable pub new_user : ℕ → LdapIdentity → User
new_user id who = record {
  id = id;
  username = trim_space who.username;
  normalized_username = normalize_username (trim_space who.username);
  display_name = trim_space who.display_name;
  email = trim_space who.email;
  auth_source = ldap_user;
  is_admin = false;
  password_hash = [];
  is_enabled = true;
}

unfoldable pub renamed : LdapIdentity → User → User
renamed who u = record u {
  username = trim_space who.username;
  display_name = trim_space who.display_name;
  email = trim_space who.email;
}

-- INSERT … ON CONFLICT (normalized_username) DO UPDATE … WHERE users.auth_source='ldap'; the row of a
-- local user is not updated, and then none is returned.
unfoldable pub put_user : List User → ℕ → LdapIdentity → Result AuthError (List User × User)
unfolding new_user renamed
put_user users id who =
    let name = normalize_username (trim_space who.username) in
    elim (find (λ u. u.normalized_username == name) users) [
      | none ↦ ok (new_user id who ∷ users, new_user id who)
      | some old ↦
          if is_ldap old
          then ok (
            update_where (λ u. u.normalized_username == name) (renamed who) users,
            renamed who old,
          )
          else err query_failed
    ]

-- INSERT … ON CONFLICT (external_dn) DO UPDATE … RETURNING id
unfoldable pub put_group : List LdapGroup → ℕ → Text → Text → List LdapGroup × ℕ
put_group groups id dn name = elim (find (λ g. g.external_dn == dn) groups) [
  | none ↦ (record { id = id; external_dn = dn; name = name } ∷ groups, id)
  | some old ↦
      (update_where (λ g. g.external_dn == dn) (λ g. record g { name = name }) groups, old.id)
]

abbrev pub is_member : ℕ → ℕ → ℕ × ℕ → Bool
is_member user group m = m.0 == user && m.1 == group

module _ (fails : ℕ → Bool) (fresh : ℕ → ℕ) where
  -- The loop over the groups; a membership that is already there is a conflict.
  unfoldable pub join_groups : List (Text × Text) → ℕ → AuthDb → Result AuthError AuthDb
  unfolding put_group
  join_groups [] user db = ok db
  join_groups ((dn, name) ∷ rest) user db =
      let n = length rest in
      let (groups, group) = put_group db.ldap_groups (fresh n) dn name in
      let taken = any (is_member user group) db.user_groups in
      if fails (5 + 2 * n) || fails (6 + 2 * n) || taken
      then err query_failed
      else join_groups rest user
          (record db { ldap_groups = groups; user_groups = (user, group) ∷ db.user_groups })

  -- Store.UpsertLDAPUser
  unfoldable pub upsert_ldap_user : AuthDb → ℕ → LdapIdentity → Result AuthError (AuthDb × User)
  upsert_ldap_user db id who = do
    run_query (fails 0) tt
    (users, user) ← put_user db.users id who
    run_query (fails 1) tt
    run_query (fails 2) tt
    joined ← join_groups who.groups user.id (record db {
      users = users;
      user_groups = filter (λ (m : ℕ × ℕ). not (m.0 == user.id)) db.user_groups;
    })
    run_query (fails 3) tt
    run_query (fails 4) tt
    ok (joined, user)

  -- The memberships of the other users.
  unfoldable pub other_members : ℕ → List (ℕ × ℕ) → List (ℕ × ℕ)
  other_members user l = filter (λ (m : ℕ × ℕ). not (m.0 == user)) l

  other_members_idem :
      (user : ℕ) (l : List (ℕ × ℕ))
      → other_members user (filter (λ (m : ℕ × ℕ). not (m.0 == user)) l) ≡ other_members user l
  unfolding other_members
  other_members_idem user [] = refl
  other_members_idem user (m ∷ l) = ground (arith, other_members_idem user l)

  join_groups-others :
      (groups : List (Text × Text)) (user : ℕ) (db db' : AuthDb)
      → join_groups groups user db ≡ ok db'
      → (other_members user db'.user_groups ≡ other_members user db.user_groups)
        × (db'.users ≡ db.users)
  unfolding join_groups other_members
  join_groups-others [] user db db' h = (ground arith, ground arith)
  join_groups-others ((dn, name) ∷ rest) user db db' h =
      let n = length rest in
      let put = put_group db.ldap_groups (fresh n) dn name in
      let next : AuthDb = record db {
        ldap_groups = put.0;
        user_groups = (user, put.1) ∷ db.user_groups;
      } in
      let more : join_groups rest user next ≡ ok db' = ground arith in
      let (members, users) = join_groups-others rest user next db' more in
      (members ∙ ground arith, users)

  -- A login by LDAP changes the groups of nobody but the user who logs in.
  pub upsert_ldap_user-other_members :
      (db db' : AuthDb) (id : ℕ) (who : LdapIdentity) (user : User)
      → upsert_ldap_user db id who ≡ ok (db', user)
      → other_members user.id db'.user_groups ≡ other_members user.id db.user_groups
  unfolding upsert_ldap_user
  upsert_ldap_user-other_members db db' id who user h =
      let (u0, r0, h0) = >>=-eq-ok (run_query (fails 0) tt) _ h in
      let (put, found, h1) = >>=-eq-ok (put_user db.users id who) _ h0 in
      let (u1, r1, h2) = >>=-eq-ok (run_query (fails 1) tt) _ h1 in
      let (u2, r2, h3) = >>=-eq-ok (run_query (fails 2) tt) _ h2 in
      let (joined, j, h4) =
        >>=-eq-ok
          (join_groups who.groups put.1.id (record db {
            users = put.0;
            user_groups = filter (λ (m : ℕ × ℕ). not (m.0 == put.1.id)) db.user_groups;
          }))
          _ h3 in
      let (u3, r3, h5) = >>=-eq-ok (run_query (fails 3) tt) _ h4 in
      let (u4, r4, h6) = >>=-eq-ok (run_query (fails 4) tt) _ h5 in
      let same = ok-injective h6 in
      let start : AuthDb = record db {
        users = put.0;
        user_groups = filter (λ (m : ℕ × ℕ). not (m.0 == put.1.id)) db.user_groups;
      } in
      ap (λ (p : AuthDb × User). other_members p.1.id p.0.user_groups) (sym same)
      ∙ (join_groups-others who.groups put.1.id start joined j).0
      ∙ other_members_idem put.1.id db.user_groups
      ∙ ap (λ (p : AuthDb × User). other_members p.1.id db.user_groups) same

  -- A login by LDAP with the name of a local account fails, so it takes over no local account.
  pub upsert_ldap_user-local :
      (db : AuthDb) (id : ℕ) (who : LdapIdentity) (user : User)
      → find (λ u. u.normalized_username == normalize_username (trim_space who.username)) db.users
        ≡ some user
      → user.auth_source ≡ local_user
      → upsert_ldap_user db id who ≡ err query_failed
  unfolding upsert_ldap_user put_user
  upsert_ldap_user-local db id who user h is_local = ground arith
