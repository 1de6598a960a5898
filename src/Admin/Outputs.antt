-- ===== src/Admin/Outputs.antt =====
-- The handlers of proxies and of direct access in internal/admin/http.go, with List and DirectAccess of
-- internal/proxy/upstream.go. Listings are without their order.
use tvpn.Admin.{
  AdminDb, Answer, ProxyItem, answer, as_code, audit, created, direct_access_item, given,
  no_content, proxy_items,
}
use tvpn.Base.{
  Bool, List, Option, Result, [], fail_if, filter, list_eq, map, nat_eq, ok, suc, ℕ, ◌==◌, ◌>>=◌,
  ◌>>◌, ◌∷◌,
}
use tvpn.Cookies.{Aead}
use tvpn.Ldap.{groups}
use tvpn.Net.{Addr, addr_eq}
use tvpn.Problems.{
  ErrorCode, err_internal, err_invalid_id, err_invalid_request, err_invalid_upstream_proxy,
  err_upstream_proxy_not_found,
}
use tvpn.Text.{Text, text}
use tvpn.Upstream.{
  Upstream, UpstreamDb, UpstreamError, UpstreamInput, create_upstream, delete_upstream,
  run_statement, update_upstream,
}
use tvpn.Upstream.Access.{set_direct_restricted}

module _ (fails : ℕ → Bool) where
  -- UpstreamStore.List
  unfoldable pub list_upstreams : UpstreamDb → Result UpstreamError (List Upstream)
  list_upstreams db = do run_statement (fails 0); ok db.proxies

  -- UpstreamStore.DirectAccess: the setting, the users and the groups.
  unfoldable pub direct_access : UpstreamDb → Result UpstreamError (Bool × List ℕ × List ℕ)
  direct_access db = do
    run_statement (fails 0)
    run_statement (fails 1)
    run_statement (fails 2)
    ok (db.restricted, db.direct_users, db.direct_groups)

  -- The members that a table binds to a proxy.
  abbrev pub members_of : List (ℕ × ℕ) → ℕ → List ℕ
  members_of table id = map (λ (p : ℕ × ℕ). p.0) (filter (λ (p : ℕ × ℕ). p.1 == id) table)

  -- The loop of listUpstreamProxies from statement number n on: two queries for each proxy.
  unfoldable pub proxy_entries : UpstreamDb → ℕ → List Upstream → Result ErrorCode (List ProxyItem)
  proxy_entries db n [] = ok []
  proxy_entries db n (u ∷ l) = do
    fail_if (fails n) err_internal
    fail_if (fails (suc n)) err_internal
    rest ← proxy_entries db (suc (suc n)) l
    ok (
        record {
          proxy = u;
          user_ids = members_of db.user_proxies u.id;
          group_ids = members_of db.group_proxies u.id;
        }
        ∷ rest)

  -- HTTP.listUpstreamProxies
  unfoldable pub list_upstream_proxies : AdminDb → Answer
  unfolding list_upstreams proxy_entries
  list_upstream_proxies db = answer db (do
    values ← as_code err_internal (list_upstreams db.outputs)
    items ← proxy_entries db.outputs 1 values
    ok (db, proxy_items items))

  -- HTTP.getDirectAccess
  unfoldable pub get_direct_access : AdminDb → Answer
  unfolding direct_access
  get_direct_access db = answer db (do
    (restricted, users, groups) ← as_code err_internal (direct_access db.outputs)
    ok (db, direct_access_item restricted users groups))

  module _ (aead : Aead) (show_id : ℕ → Text) (is_ip : Text → Bool) (actor : ℕ) where
    abbrev done : ℕ → AdminDb → UpstreamDb → Text → Text → AdminDb
    done n db outputs event_type target =
        audit actor show_id fails n (record db { outputs = outputs }) event_type (text "success")
          target

    -- HTTP.createUpstreamProxy; the nonce of the cipher is random.
    unfoldable pub create_upstream_proxy : Option Text → AdminDb → ℕ → Option UpstreamInput → Answer
    create_upstream_proxy salt db fresh body = answer db (do
      input ← given err_invalid_request body
      (outputs, id) ←
          as_code err_invalid_upstream_proxy
            (create_upstream aead show_id is_ip fails db.outputs fresh salt input)
      ok (done 1 db outputs (text "upstream_proxy.create") (show_id id), created id))

    -- HTTP.updateUpstreamProxy
    unfoldable pub update_upstream_proxy :
        Option Text → AdminDb → Option ℕ → Option UpstreamInput → Answer
    update_upstream_proxy salt db path body = answer db (do
      id ← given err_invalid_id path
      input ← given err_invalid_request body
      outputs ←
          as_code err_invalid_upstream_proxy
            (update_upstream aead show_id is_ip fails db.outputs id salt input)
      ok (done 1 db outputs (text "upstream_proxy.update") (show_id id), no_content))

    -- HTTP.deleteUpstreamProxy
    unfoldable pub delete_upstream_proxy : AdminDb → Option ℕ → Answer
    delete_upstream_proxy db path = answer db (do
      id ← given err_invalid_id path
      outputs ←
          as_code err_upstream_proxy_not_found
            (delete_upstream aead show_id is_ip fails db.outputs id)
      ok (done 4 db outputs (text "upstream_proxy.delete") (show_id id), no_content))

    -- HTTP.updateDirectAccess
    unfoldable pub update_direct_access : (Addr → Text) → AdminDb → Option Bool → Answer
    update_direct_access show_addr db body = answer db (do
      restricted ← given err_invalid_request body
      outputs ←
          as_code err_internal
            (set_direct_restricted aead show_id show_addr fails db.outputs restricted)
      ok (done 1 db outputs (text "direct_access.update") (text "direct"), no_content))
