-- ===== src/Admin/Saved.antt =====
-- What savePolicy of internal/admin/http.go leaves in the tables.
use mathlib.Core.List.{append-nil, append_assoc}
use tvpn.Admin.Policies.{
  PolicyError, PolicyInput, accept_rule, insert_rules, invalid_mode, is_known_mode, is_rule_of,
  policy_name_required, put_policy, roll_back, same_rule, save, save_policy, write_policy,
  written_in,
}
use tvpn.Base.{
  >>=-eq-ok, Bool, List, Option, Result, [], any, ap, arith, err, fail_if, filter, length, list_eq,
  map, nat_eq, none, not, ok, ok-injective, refl, some, suc, sym, ℕ, ◌++◌, ◌+◌, ◌==◌, ◌||◌, ◌∙◌,
  ◌∷◌, ◌≡◌,
}
use tvpn.Net.{Parsers}
use tvpn.Policy.{RuleKind}
use tvpn.Policy.Effective.{RuleRow, Tables}
use tvpn.Policy.Rules.{validate_rule}
use tvpn.Text.{Text, trim_space}

abbrev kind_value : RuleRow → RuleKind × Text
kind_value r = (r.rule.kind, r.rule.value)

module _ (fails : ℕ → Bool) (lib : Parsers) (fresh : ℕ → ℕ) where
  -- The rules of an input as ValidateRule writes them, if it accepts them all.
  abbrev pub accepted : List (RuleKind × Text) → Option (List (RuleKind × Text))
  accepted [] = some []
  accepted ((kind, raw) ∷ items) = elim (validate_rule lib kind raw) [
    | err e ↦ none
    | ok value ↦ elim (accepted items) [ none ↦ none | some rest ↦ some ((kind, value) ∷ rest) ]
  ]

  -- The rows that the loop adds stand behind the old ones, belong to the policy and hold the accepted
  -- rules in order.
  insert_rules-rows :
      (id n : ℕ) (table after : List RuleRow) (items : List (RuleKind × Text))
      → insert_rules fails lib fresh id n table items ≡ ok after
      → (rows : List RuleRow) × (after ≡ table ++ rows)
        × (accepted items ≡ some (map kind_value rows))
        × (filter (is_rule_of id) rows ≡ rows)
        × (filter (λ r. not (is_rule_of id r)) rows ≡ [])
  unfolding insert_rules
  insert_rules-rows id n table after [] h =
      ([], sym (ok-injective h) ∙ sym (append-nil table), refl, refl, refl)
  insert_rules-rows id n table after ((kind, raw) ∷ items) h =
      let (value, e0, h0) = >>=-eq-ok (accept_rule table (validate_rule lib kind raw)) _ h in
      let row : RuleRow = record {
        policy = id;
        rule = record { id = fresh n; kind = kind; value = value };
      } in
      let (u, e1, h1) = >>=-eq-ok (save fails table (fails n || any (same_rule row) table)) _ h0 in
      let (rows, added, valid, mine, others) =
        insert_rules-rows id (suc n) (table ++ (row ∷ [])) after items h1 in
      (
        row ∷ rows,
        added ∙ append_assoc table (row ∷ []) rows,
        ground (arith, valid),
        ground (arith, mine),
        ground (arith, others),
      )

module _ {A : Type 0} (p : A → Bool) where
  filter-append : (xs ys : List A) → filter p (xs ++ ys) ≡ filter p xs ++ filter p ys
  filter-append [] ys = refl
  filter-append (x ∷ xs) ys = ground (arith, filter-append xs ys)

  filter-others : (xs : List A) → filter p (filter (λ x. not (p x)) xs) ≡ []
  filter-others [] = refl
  filter-others (x ∷ xs) = ground (arith, filter-others xs)

  filter-twice : (xs : List A) → filter p (filter p xs) ≡ filter p xs
  filter-twice [] = refl
  filter-twice (x ∷ xs) = ground (arith, filter-twice xs)

module _ (fails : ℕ → Bool) (lib : Parsers) (fresh : ℕ → ℕ) where
  roll_back-ok :
      (db : Tables) (r : Result (PolicyError × Tables) Tables) (after : Tables)
      → roll_back db r ≡ ok after
      → r ≡ ok after
  unfolding roll_back
  roll_back-ok db (err (e, written)) after h = cc
  roll_back-ok db (ok written) after h = ap ok (ok-injective h)

  written_in-ok {ℓ} :
      {S T : Type ℓ} (whole : S → T) (r : Result (PolicyError × S) S) {after : S}
      → written_in whole r ≡ ok after
      → r ≡ ok after
  written_in-ok whole (err (e, written)) h = cc
  written_in-ok whole (ok written) h = ap ok (ok-injective h)

  -- A policy that is saved has exactly the rules of the input, each in the form that ValidateRule gives it
  -- and in their order, whatever rules it had; the rules of other policies and every assignment stay.
  pub save_policy-exact :
      (db after : Tables) (id : ℕ) (input : PolicyInput) (create : Bool)
      → save_policy fails lib fresh db id input create ≡ ok after
      → (accepted fails lib fresh input.rules
          ≡ some (map kind_value (filter (is_rule_of id) after.policy_rules)))
        × (filter (λ r. not (is_rule_of id r)) after.policy_rules
            ≡ filter (λ r. not (is_rule_of id r)) db.policy_rules)
        × (after.user_policies ≡ db.user_policies)
        × (after.ldap_group_policies ≡ db.ldap_group_policies)
  unfolding save_policy write_policy
  save_policy-exact db after id input create h =
      let name = trim_space input.name in
      let is_other = λ (r : RuleRow). not (is_rule_of id r) in
      let old = filter is_other db.policy_rules in
      let (u0, e0, h0) = >>=-eq-ok (fail_if (name == []) (policy_name_required, db)) _ h in
      let (u1, e1, h1) =
        >>=-eq-ok (fail_if (not (is_known_mode input.mode)) (invalid_mode, db)) _ h0 in
      let written =
        roll_back-ok db (write_policy fails lib fresh db id name input create) after h1 in
      let (u2, e2, h2) = >>=-eq-ok (save fails db (fails 0)) _ written in
      let (policies, e3, h3) =
        >>=-eq-ok
          (written_in (λ l. record db { policies = l })
            (put_policy fails db.policies id name input create))
          _ h2 in
      let named : Tables = record db { policies = policies } in
      let (u4, e4, h4) = >>=-eq-ok (save fails named (fails 2)) _ h3 in
      let (stored, e5, h5) =
        >>=-eq-ok
          (written_in (λ l. record named { policy_rules = l })
            (insert_rules fails lib fresh id 3 old input.rules))
          _ h4 in
      let whole : Tables = record named { policy_rules = stored } in
      let (u6, e6, h6) = >>=-eq-ok (save fails whole (fails (3 + length input.rules))) _ h5 in
      let (rows, added, valid, mine, others) =
        insert_rules-rows fails lib fresh id 3 old stored input.rules (written_in-ok _ _ e5) in
      rw (← ok-injective h6) (
        valid
            ∙ ap (λ l. some (map kind_value l))
                (sym (
                  ap (filter (is_rule_of id)) added
                  ∙ filter-append (is_rule_of id) old rows
                  ∙ ap (λ l. l ++ filter (is_rule_of id) rows)
                      (filter-others (is_rule_of id) db.policy_rules)
                  ∙ mine)),
        ap (filter is_other) added
            ∙ filter-append is_other old rows
            ∙ ap (λ l. filter is_other old ++ l) others
            ∙ append-nil (filter is_other old)
            ∙ filter-twice is_other db.policy_rules,
        refl,
        refl,
      )
