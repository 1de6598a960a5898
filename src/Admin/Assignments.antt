-- ===== src/Admin/Assignments.antt =====
-- replaceAssignments, replaceResourceAssignments and replaceDirectAssignments of
-- internal/admin/http.go, and the handlers that call them. Each is one transaction, whose statements run one
-- by one: where one fails, the error carries what was written so far. `has_user`, `has_group`, … tell the rows that a foreign key may name.
use tvpn.Admin.{AdminDb, Answer, answer, audit, given, no_content, problem}
use tvpn.Base.{
  Bool, List, Option, Result, [], any, err, fail_if, filter, if◌then◌else◌, length, list_eq, map,
  nat_eq, not, ok, suc, true, ℕ, ◌&&◌, ◌++◌, ◌+◌, ◌==◌, ◌>>=◌, ◌>>◌, ◌||◌, ◌∷◌,
}
use tvpn.Problems.{
  ErrorCode, err_invalid_assignment, err_invalid_id, err_invalid_policy, err_invalid_request,
}
use tvpn.Store.{row}
use tvpn.Text.{Text, text}

pub data AssignmentError : Type 0 where
  wrong_table assignment_failed : AssignmentError

abbrev pub pair_same : ℕ × ℕ → ℕ × ℕ → Bool
pair_same p q = p.0 == q.0 && p.1 == q.1

abbrev pub has_user : AdminDb → ℕ → Bool
has_user db id = any (λ u. u.id == id) db.accounts.users

abbrev pub has_group : AdminDb → ℕ → Bool
has_group db id = any (λ g. g.id == id) db.accounts.ldap_groups

abbrev pub has_policy : AdminDb → ℕ → Bool
has_policy db id = any (λ p. p.id == id) db.access.policies

abbrev pub has_proxy : AdminDb → ℕ → Bool
has_proxy db id = any (λ u. u.id == id) db.outputs.proxies

module _ (fails : ℕ → Bool) where
  -- A statement of a transaction that has written `written`.
  abbrev pub tx_exec {ℓ} : {S : Type ℓ} → S → Bool → Result S (Unit {0})
  tx_exec written failed = fail_if failed written

  -- An error comes with the database that it leaves.
  abbrev pub Changed : Type 0
  Changed = Result (AssignmentError × AdminDb) AdminDb

  -- Commit puts the table into the database. After an error the deferred Rollback drops what the transaction
  -- has written.
  unfoldable pub end_transaction :
      {Row : Type 0} → AdminDb → (List Row → AdminDb) → Result (List Row) (List Row) → Changed
  end_transaction db put (err written) = err (assignment_failed, db)
  end_transaction db put (ok written) = ok (put written)

  module _ {Row : Type 0} (same : Row → Row → Bool) (is_valid : Row → Bool) where
    -- The loop of INSERTs from statement number n on. A row may not be there twice, and its foreign keys
    -- have to exist.
    unfoldable pub insert_rows : ℕ → List Row → List Row → Result (List Row) (List Row)
    insert_rows n table [] = ok table
    insert_rows n table (row ∷ rows) = do
      tx_exec table (fails n || any (same row) table || not (is_valid row))
      insert_rows (suc n) (table ++ (row ∷ [])) rows

    -- The transaction: BEGIN, DELETE … WHERE, the INSERTs and COMMIT.
    unfoldable pub replace_rows : (Row → Bool) → List Row → List Row → Result (List Row) (List Row)
    replace_rows is_old table rows = do
      tx_exec table (fails 0)
      tx_exec table (fails 1)
      replaced ← insert_rows 2 (filter (λ r. not (is_old r)) table) rows
      tx_exec replaced (fails (2 + length rows))
      ok replaced

  -- replaceAssignments
  unfoldable pub replace_assignments : AdminDb → Text → ℕ → List ℕ → Changed
  unfolding end_transaction
  replace_assignments db table id policies =
      let rows : List (ℕ × ℕ) = map (λ policy. (id, policy)) policies in
      let is_old = λ (r : ℕ × ℕ). r.0 == id in
      if table == text "user_policies"
      then (let is_valid = λ (r : ℕ × ℕ). has_user db r.0 && has_policy db r.1 in
          end_transaction db
            (λ bound. record db { access = record db.access { user_policies = bound } })
            (replace_rows pair_same is_valid is_old db.access.user_policies rows))
      else if table == text "ldap_group_policies"
      then (let is_valid = λ (r : ℕ × ℕ). has_group db r.0 && has_policy db r.1 in
          end_transaction db
            (λ bound. record db { access = record db.access { ldap_group_policies = bound } })
            (replace_rows pair_same is_valid is_old db.access.ldap_group_policies rows))
      else err (wrong_table, db)

  -- replaceResourceAssignments
  unfoldable pub replace_resource_assignments : AdminDb → Text → Text → ℕ → List ℕ → Changed
  unfolding end_transaction
  replace_resource_assignments db table column proxy ids =
      let rows : List (ℕ × ℕ) = map (λ id. (id, proxy)) ids in
      let is_old = λ (r : ℕ × ℕ). r.1 == proxy in
      if table == text "user_upstream_proxies" && column == text "user_id"
      then (let is_valid = λ (r : ℕ × ℕ). has_user db r.0 && has_proxy db r.1 in
          end_transaction db
            (λ bound. record db { outputs = record db.outputs { user_proxies = bound } })
            (replace_rows pair_same is_valid is_old db.outputs.user_proxies rows))
      else if table == text "ldap_group_upstream_proxies" && column == text "group_id"
      then (let is_valid = λ (r : ℕ × ℕ). has_group db r.0 && has_proxy db r.1 in
          end_transaction db
            (λ bound. record db { outputs = record db.outputs { group_proxies = bound } })
            (replace_rows pair_same is_valid is_old db.outputs.group_proxies rows))
      else err (wrong_table, db)

  abbrev pub id_same : ℕ → ℕ → Bool
  id_same a b = a == b

  -- replaceDirectAssignments
  unfoldable pub replace_direct_assignments : AdminDb → Text → Text → List ℕ → Changed
  unfolding end_transaction
  replace_direct_assignments db table column ids =
      let is_old = λ (r : ℕ). true in
      if table == text "direct_access_users" && column == text "user_id"
      then end_transaction db
          (λ bound. record db { outputs = record db.outputs { direct_users = bound } })
          (replace_rows id_same (has_user db) is_old db.outputs.direct_users ids)
      else if table == text "direct_access_ldap_groups" && column == text "group_id"
      then end_transaction db
          (λ bound. record db { outputs = record db.outputs { direct_groups = bound } })
          (replace_rows id_same (has_group db) is_old db.outputs.direct_groups ids)
      else err (wrong_table, db)

  module _ (actor : ℕ) (show_id : ℕ → Text) where
    -- The statement of the audit comes after those of the transaction.
    abbrev audited : AdminDb → Text → Text → List ℕ → Answer
    audited db event_type target ids = (
      audit actor show_id fails (3 + length ids) db event_type (text "success") target,
      no_content,
    )

    -- What a handler answers with after its transaction.
    abbrev reply_after : ErrorCode → Changed → Text → Text → List ℕ → Answer
    reply_after code (err (e, left)) event_type target ids = (left, problem code)
    reply_after code (ok changed) event_type target ids = audited changed event_type target ids

    -- HTTP.setUserPolicies
    unfoldable pub set_user_policies : AdminDb → Option ℕ → Option (List ℕ) → Answer
    unfolding replace_assignments
    set_user_policies db path body = answer db (do
      id ← given err_invalid_id path
      ids ← given err_invalid_request body
      ok (
          reply_after err_invalid_policy (replace_assignments db (text "user_policies") id ids)
            (text "user.policies") (show_id id) ids))

    -- HTTP.setGroupPolicies
    unfoldable pub set_group_policies : AdminDb → Option ℕ → Option (List ℕ) → Answer
    unfolding replace_assignments
    set_group_policies db path body = answer db (do
      id ← given err_invalid_id path
      ids ← given err_invalid_request body
      ok (
          reply_after err_invalid_policy
            (replace_assignments db (text "ldap_group_policies") id ids) (text "group.policies")
            (show_id id) ids))

    -- HTTP.setUpstreamAssignments
    unfoldable pub set_upstream_assignments :
        AdminDb → Text → Text → Text → Option ℕ → Option (List ℕ) → Answer
    unfolding replace_resource_assignments
    set_upstream_assignments db table column event_type path body = answer db (do
      id ← given err_invalid_id path
      ids ← given err_invalid_request body
      ok (
          reply_after err_invalid_assignment (replace_resource_assignments db table column id ids)
            event_type (show_id id) ids))

    -- HTTP.setUpstreamProxyUsers
    unfoldable pub set_upstream_proxy_users : AdminDb → Option ℕ → Option (List ℕ) → Answer
    unfolding set_upstream_assignments
    set_upstream_proxy_users db path body =
        set_upstream_assignments db (text "user_upstream_proxies") (text "user_id")
          (text "upstream_proxy.users") path body

    -- HTTP.setUpstreamProxyGroups
    unfoldable pub set_upstream_proxy_groups : AdminDb → Option ℕ → Option (List ℕ) → Answer
    unfolding set_upstream_assignments
    set_upstream_proxy_groups db path body =
        set_upstream_assignments db (text "ldap_group_upstream_proxies") (text "group_id")
          (text "upstream_proxy.groups") path body

    -- HTTP.setDirectAssignments
    unfoldable pub set_direct_assignments : AdminDb → Text → Text → Text → Option (List ℕ) → Answer
    unfolding replace_direct_assignments
    set_direct_assignments db table column event_type body = answer db (do
      ids ← given err_invalid_request body
      ok (
          reply_after err_invalid_assignment (replace_direct_assignments db table column ids)
            event_type (text "direct") ids))

    -- HTTP.setDirectAccessUsers
    unfoldable pub set_direct_access_users : AdminDb → Option (List ℕ) → Answer
    unfolding set_direct_assignments
    set_direct_access_users db body =
        set_direct_assignments db (text "direct_access_users") (text "user_id")
          (text "direct_access.users") body

    -- HTTP.setDirectAccessGroups
    unfoldable pub set_direct_access_groups : AdminDb → Option (List ℕ) → Answer
    unfolding set_direct_assignments
    set_direct_access_groups db body =
        set_direct_assignments db (text "direct_access_ldap_groups") (text "group_id")
          (text "direct_access.groups") body
