-- ===== src/Admin/Policies.antt =====
-- The handlers of policies in internal/admin/http.go. savePolicy is one transaction, whose
-- statements run one by one: where one fails, the error carries what was written so far. The description of a policy is left out.
use tvpn.Admin.{
  AdminDb, Answer, Reply, answer, created, given, no_content, policy_items, problem, succeeded,
}
use tvpn.Base.{
  Bool, List, Option, Result, [], any, count_where, err, fail_if, false, filter, if◌then◌else◌,
  length, list_eq, map, nat_eq, not, ok, suc, true, update_where, ℕ, ◌!=◌, ◌&&◌, ◌++◌, ◌+◌, ◌==◌,
  ◌>>=◌, ◌>>◌, ◌||◌, ◌∷◌,
}
use tvpn.Net.{Parsers}
use tvpn.Policy.{
  Mode, Policy, RuleKind, cidr, domain_suffix, exact_host, unknown_kind, unknown_mode, url_prefix,
}
use tvpn.Policy.Effective.{RuleRow, Tables, with_rules}
use tvpn.Policy.Rules.{RuleError, validate_rule}
use tvpn.Problems.{ErrorCode, err_internal, err_invalid_id, err_invalid_policy, err_invalid_request}
use tvpn.Text.{Text, text, trim_space}

pub record PolicyInput : Type 0 where
  pub name : Text
  pub mode : Mode
  pub enabled : Bool
  pub rules : List (RuleKind × Text)

pub data PolicyError : Type 0 where
  policy_name_required invalid_mode policy_not_found policy_unsaved : PolicyError
  rule_refused : RuleError → PolicyError

-- The text of a kind, which is what the table holds.
unfoldable pub kind_text : RuleKind → Text
kind_text exact_host = text "exact_host"
kind_text domain_suffix = text "domain_suffix"
kind_text cidr = text "cidr"
kind_text url_prefix = text "url_prefix"
kind_text (unknown_kind name) = name

unfoldable pub is_known_mode : Mode → Bool
is_known_mode (unknown_mode name) = false
is_known_mode _ = true

abbrev pub accept_rule {ℓ} :
    {S : Type ℓ} → S → Result RuleError Text → Result (PolicyError × S) Text
accept_rule written (err e) = err (rule_refused e, written)
accept_rule written (ok value) = ok value

-- What a part of a transaction has written, seen in the whole.
abbrev pub written_in {ℓ} :
    {S T : Type ℓ} → (S → T) → Result (PolicyError × S) S → Result (PolicyError × T) S
written_in whole (err (e, written)) = err (e, whole written)
written_in whole (ok written) = ok written

-- After an error the deferred Rollback drops what the transaction has written.
unfoldable pub roll_back :
    Tables → Result (PolicyError × Tables) Tables → Result (PolicyError × Tables) Tables
roll_back db (err (e, written)) = err (e, db)
roll_back db (ok written) = ok written

abbrev pub has_policy_id : ℕ → Policy → Bool
has_policy_id id p = p.id == id

abbrev pub is_rule_of : ℕ → RuleRow → Bool
is_rule_of id r = r.policy == id

-- UNIQUE (policy_id, kind, value), and the key of policy_rules
abbrev pub same_rule : RuleRow → RuleRow → Bool
same_rule r s =
    r.rule.id == s.rule.id
    || (r.policy == s.policy
        && kind_text r.rule.kind == kind_text s.rule.kind
        && r.rule.value == s.rule.value)

module _ (fails : ℕ → Bool) where
  -- A statement of a transaction that has written `written`.
  abbrev pub save {ℓ} : {S : Type ℓ} → S → Bool → Result (PolicyError × S) (Unit {0})
  save written failed = fail_if failed (policy_unsaved, written)

  -- The INSERT or the UPDATE of the row; its rules stand in their own table.
  unfoldable pub put_policy :
      List Policy → ℕ → Text → PolicyInput → Bool → Result (PolicyError × List Policy) (List Policy)
  put_policy policies id name input create =
      if create
      then (do
        save policies (fails 1 || any (λ p. p.id == id || p.name == name) policies)
        ok (
            record { id = id; name = name; mode = input.mode; enabled = input.enabled; rules = [] }
            ∷ policies))
      else (do
        save policies (fails 1 || any (λ p. p.id != id && p.name == name) policies)
        fail_if (count_where (has_policy_id id) policies != 1) (policy_not_found, policies)
        ok (
            update_where (has_policy_id id)
              (λ p. record p { name = name; mode = input.mode; enabled = input.enabled }) policies))

  module _ (lib : Parsers) (fresh : ℕ → ℕ) where
    -- The loop over the rules from statement number n on; `fresh n` is the identifier of the row.
    unfoldable pub insert_rules :
        ℕ
        → ℕ
        → List RuleRow
        → List (RuleKind × Text)
        → Result (PolicyError × List RuleRow) (List RuleRow)
    insert_rules id n table [] = ok table
    insert_rules id n table ((kind, raw) ∷ items) = do
      value ← accept_rule table (validate_rule lib kind raw)
      let row : RuleRow = record {
        policy = id;
        rule = record { id = fresh n; kind = kind; value = value };
      }
      save table (fails n || any (same_rule row) table)
      insert_rules id (suc n) (table ++ (row ∷ [])) items

    -- The transaction of savePolicy.
    unfoldable pub write_policy :
        Tables → ℕ → Text → PolicyInput → Bool → Result (PolicyError × Tables) Tables
    unfolding put_policy insert_rules
    write_policy db id name input create = do
      save db (fails 0)
      policies ←
          written_in (λ l. record db { policies = l }) (put_policy db.policies id name input create)
      let named = record db { policies = policies }
      save named (fails 2)
      rules ←
          written_in (λ l. record named { policy_rules = l })
            (insert_rules id 3 (filter (λ r. not (is_rule_of id r)) db.policy_rules) input.rules)
      let whole = record named { policy_rules = rules }
      save whole (fails (3 + length input.rules))
      ok whole

    -- HTTP.savePolicy; an error comes with the tables that it leaves.
    unfoldable pub save_policy :
        Tables → ℕ → PolicyInput → Bool → Result (PolicyError × Tables) Tables
    unfolding write_policy roll_back
    save_policy db id input create = do
      let name = trim_space input.name
      fail_if (name == []) (policy_name_required, db)
      fail_if (not (is_known_mode input.mode)) (invalid_mode, db)
      roll_back db (write_policy db id name input create)

    module _ (actor : ℕ) (show_id : ℕ → Text) where
      abbrev saved : AdminDb → Tables → PolicyInput → Text → ℕ → AdminDb
      saved db access input event_type id =
          succeeded actor show_id fails (4 + length input.rules) (record db { access = access })
            event_type id

      -- What a handler answers with after its transaction.
      abbrev save_reply :
          AdminDb → Result (PolicyError × Tables) Tables → PolicyInput → Text → ℕ → Reply → Answer
      save_reply db (err (e, left)) input event_type id reply =
          (record db { access = left }, problem err_invalid_policy)
      save_reply db (ok access) input event_type id reply =
          (saved db access input event_type id, reply)

      -- HTTP.createPolicy; `id` is a new identifier.
      unfoldable pub create_policy : AdminDb → ℕ → Option PolicyInput → Answer
      unfolding save_policy
      create_policy db id body = answer db (do
        input ← given err_invalid_request body
        ok (
            save_reply db (save_policy db.access id input true) input (text "policy.create") id
              (created id)))

      -- HTTP.updatePolicy
      unfoldable pub update_policy : AdminDb → Option ℕ → Option PolicyInput → Answer
      unfolding save_policy
      update_policy db path body = answer db (do
        id ← given err_invalid_id path
        input ← given err_invalid_request body
        ok (
            save_reply db (save_policy db.access id input false) input (text "policy.update") id
              no_content))

  -- DELETE FROM policies, and the rows that go with it.
  abbrev pub without_policy : Tables → ℕ → Tables
  without_policy db id = record db {
    policies = filter (λ p. not (has_policy_id id p)) db.policies;
    policy_rules = filter (λ r. not (is_rule_of id r)) db.policy_rules;
    user_policies = filter (λ (r : ℕ × ℕ). not (r.1 == id)) db.user_policies;
    ldap_group_policies = filter (λ (r : ℕ × ℕ). not (r.1 == id)) db.ldap_group_policies;
  }

  module _ (actor : ℕ) (show_id : ℕ → Text) where
    -- HTTP.deletePolicy
    unfoldable pub delete_policy : AdminDb → Option ℕ → Answer
    delete_policy db path = answer db (do
      id ← given err_invalid_id path
      fail_if (fails 0) err_internal
      ok (
        succeeded actor show_id fails 1 (record db { access = without_policy db.access id })
            (text "policy.delete") id,
        no_content,
      ))

  -- One of the statements from number n on, one for each row, fails.
  unfoldable pub any_fails {ℓ} : {A : Type ℓ} → ℕ → List A → Bool
  any_fails n [] = false
  any_fails n (x ∷ xs) = fails n || any_fails (suc n) xs

  -- HTTP.policies, without its order; the second query runs once for each policy.
  unfoldable pub policies_of : Tables → Result ErrorCode (List Policy)
  unfolding any_fails
  policies_of db = do
    fail_if (fails 0) err_internal
    fail_if (any_fails 1 db.policies) err_internal
    ok (map (with_rules db) db.policies)

  -- HTTP.listPolicies
  unfoldable pub list_policies : AdminDb → Answer
  unfolding policies_of
  list_policies db = answer db (do values ← policies_of db.access; ok (db, policy_items values))
