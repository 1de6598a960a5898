-- ===== src/Policy/Effective.antt =====
-- Store.Effective: the policies that apply to a user, as the query selects them from the tables.
use mathlib.Core.List.{Memᴰ}
use mathlib.Core.Path.{subst}
use tvpn.Base.{
  All-at, All-intro, Bool, Bool-cases, List, [], any, filter, filter-mem, if◌then◌else◌, inl, inr,
  list_eq, map, map-mem, mem-cases, mem-filter, mem-map, nat_eq, refl, sym, true, ℕ, ◌&&◌, ◌==◌,
  ◌||◌, ◌↔◌, ◌∷◌, ◌≡◌, ◌≢◌,
}
use tvpn.Net.{Addr, Parsers, Url, addr_eq}
use tvpn.Policy.{Policy, Rule, evaluate}
use tvpn.Policy.Decide.{Permits, evaluate_iff}
use tvpn.Text.{Text}

pub record RuleRow : Type 0 where
  pub policy : ℕ
  pub rule : Rule

-- The tables `policies`, `policy_rules`, `user_policies`, `user_ldap_groups`, `ldap_group_policies`;
-- the rules of a row of `policies` are empty, they stand in their own table.
pub record Tables : Type 0 where
  pub policies : List Policy
  pub policy_rules : List RuleRow
  pub user_policies : List (ℕ × ℕ)
  pub user_ldap_groups : List (ℕ × ℕ)
  pub ldap_group_policies : List (ℕ × ℕ)

abbrev pub has_pair : ℕ → ℕ → List (ℕ × ℕ) → Bool
has_pair a b l = any (λ r. r.0 == a && r.1 == b) l

-- EXISTS (… JOIN …): some group of the user is bound to the policy.
abbrev pub has_group_pair : ℕ → ℕ → List (ℕ × ℕ) → List (ℕ × ℕ) → Bool
has_group_pair user item member bound = any (λ r. r.0 == user && has_pair r.1 item bound) member

-- WHERE p.enabled=true AND (EXISTS … OR EXISTS …)
abbrev pub is_assigned : Tables → ℕ → Policy → Bool
is_assigned db user p =
    p.enabled
    && (has_pair user p.id db.user_policies
        || has_group_pair user p.id db.user_ldap_groups db.ldap_group_policies)

-- The second loop: the rules of each policy are read from their table.
abbrev pub with_rules : Tables → Policy → Policy
with_rules db p = record p {
  rules = map (λ r. r.rule) (filter (λ r. r.policy == p.id) db.policy_rules);
}

-- `before` is the collation of the database.
module _ (before : Text → Text → Bool) where
  unfoldable pub insert_by : Policy → List Policy → List Policy
  insert_by p [] = p ∷ []
  insert_by p (q ∷ l) =
      let rest = insert_by p l in if before q.name p.name then q ∷ rest else p ∷ q ∷ l

  -- ORDER BY p.name
  unfoldable pub order_by_name : List Policy → List Policy
  order_by_name [] = []
  order_by_name (p ∷ l) = insert_by p (order_by_name l)

  unfoldable pub effective : Tables → ℕ → List Policy
  unfolding insert_by order_by_name
  effective db user = map (with_rules db) (order_by_name (filter (is_assigned db user) db.policies))

  mem-insert_by :
      (p : Policy) {x : Policy} (l : List Policy) → Memᴰ x (p ∷ l) → Memᴰ x (insert_by p l)
  unfolding insert_by
  mem-insert_by p [] m = m
  mem-insert_by p (q ∷ l) m = elim (Bool-cases (before q.name p.name)) [
    | inl later ↦ rw (later, insert_by) (mem-later p l (mem-insert_by p l) m)
    | inr first ↦ rw (first, insert_by) m
  ]
    where
      mem-later :
          (p : Policy) {x q : Policy} (l : List Policy)
          → (Memᴰ x (p ∷ l) → Memᴰ x (insert_by p l))
          → Memᴰ x (p ∷ q ∷ l)
          → Memᴰ x (q ∷ insert_by p l)
      mem-later p l ih (Memᴰ.head e) = Memᴰ.tail (ih (Memᴰ.head e))
      mem-later p l ih (Memᴰ.tail (Memᴰ.head e)) = Memᴰ.head e
      mem-later p l ih (Memᴰ.tail (Memᴰ.tail m)) = Memᴰ.tail (ih (Memᴰ.tail m))

  insert_by-mem :
      (p : Policy) {x : Policy} (l : List Policy) → Memᴰ x (insert_by p l) → Memᴰ x (p ∷ l)
  unfolding insert_by
  insert_by-mem p [] m = m
  insert_by-mem p (q ∷ l) m = elim (Bool-cases (before q.name p.name)) [
    | inl later ↦ swapped p l (insert_by-mem p l) (rw (later, insert_by) at m)
    | inr first ↦ rw (first, insert_by) at m
  ]
    where
      swapped :
          (p : Policy) {x q : Policy} (l : List Policy)
          → (Memᴰ x (insert_by p l) → Memᴰ x (p ∷ l))
          → Memᴰ x (q ∷ insert_by p l)
          → Memᴰ x (p ∷ q ∷ l)
      swapped p l ih (Memᴰ.head e) = Memᴰ.tail (Memᴰ.head e)
      swapped p l ih (Memᴰ.tail m) = under (ih m)
        where
          under : {x q : Policy} → Memᴰ x (p ∷ l) → Memᴰ x (p ∷ q ∷ l)
          under (Memᴰ.head e) = Memᴰ.head e
          under (Memᴰ.tail n) = Memᴰ.tail (Memᴰ.tail n)

  mem-order_by_name : {x : Policy} (l : List Policy) → Memᴰ x l → Memᴰ x (order_by_name l)
  unfolding order_by_name
  mem-order_by_name [] m = m
  mem-order_by_name (p ∷ l) (Memᴰ.head e) = mem-insert_by p (order_by_name l) (Memᴰ.head e)
  mem-order_by_name (p ∷ l) (Memᴰ.tail m) =
      mem-insert_by p (order_by_name l) (Memᴰ.tail (mem-order_by_name l m))

  order_by_name-mem : {x : Policy} (l : List Policy) → Memᴰ x (order_by_name l) → Memᴰ x l
  unfolding order_by_name
  order_by_name-mem [] m = m
  order_by_name-mem (p ∷ l) m = elim (mem-cases (insert_by-mem p (order_by_name l) m)) [
    | inl here ↦ Memᴰ.head here
    | inr there ↦ Memᴰ.tail (order_by_name-mem l there)
  ]

  -- The query returns exactly the enabled policies that are bound to the user or to one of the user's
  -- groups, each with its rules.
  pub effective-mem_iff :
      (db : Tables) (user : ℕ) (q : Policy)
      → Memᴰ q (effective db user) ↔ (
          (p : Policy) × Memᴰ p db.policies
          × (is_assigned db user p ≡ true)
          × (q ≡ with_rules db p))
  unfolding effective
  effective-mem_iff db user q = (
    λ m.
        let (p, n, e) = mem-map (with_rules db) _ m in
        let (k, h) = filter-mem (is_assigned db user) db.policies (order_by_name-mem _ n) in
        (p, k, h, e),
    λ w.
        rw w.3 (
          map-mem (with_rules db) (mem-order_by_name _ (mem-filter (is_assigned db user) w.1 w.2))),
  )

  -- A list that is not empty has an element.
  nonempty-mem : (l : List Policy) → l ≢ [] → (q : Policy) × Memᴰ q l
  nonempty-mem [] h = absurd (h refl)
  nonempty-mem (q ∷ l) h = (q, Memᴰ.head refl)

  mem-nonempty : {q : Policy} {l : List Policy} → Memᴰ q l → l ≢ []
  mem-nonempty (Memᴰ.head e) h = cc
  mem-nonempty (Memᴰ.tail m) h = cc

  effective-nonempty :
      (db : Tables) (user : ℕ)
      → effective db user ≢ []
      → (p : Policy) × Memᴰ p db.policies × (is_assigned db user p ≡ true)
  effective-nonempty db user h =
      let (q, m) = nonempty-mem (effective db user) h in
      let (p, n, a, e) = (effective-mem_iff db user q).0 m in (p, n, a)

  nonempty-effective :
      (db : Tables) (user : ℕ) (p : Policy)
      → Memᴰ p db.policies
      → is_assigned db user p ≡ true
      → effective db user ≢ []
  nonempty-effective db user p m a =
      mem-nonempty ((effective-mem_iff db user (with_rules db p)).1 (p, m, a, refl))

  -- What an assigned policy asks of the target.
  abbrev pub AllAssigned : Parsers → Tables → ℕ → Url → List Addr → Type 0
  AllAssigned lib db user target addresses =
      (p : Policy)
      → Memᴰ p db.policies
      → is_assigned db user p ≡ true
      → Permits lib target addresses (with_rules db p)

  -- A user may reach a target exactly when some enabled policy is assigned to the user and each of
  -- those permits the target. The order in which the database returns the policies plays no part.
  pub evaluate-effective_iff :
      (lib : Parsers) (db : Tables) (user : ℕ) (target : Url) (addresses : List Addr)
      → ((evaluate lib (effective db user) target addresses).allowed ≡ true) ↔ (
          ((p : Policy) × Memᴰ p db.policies × (is_assigned db user p ≡ true))
          × AllAssigned lib db user target addresses)
  evaluate-effective_iff lib db user target addresses = (
    λ h.
        let (nonempty, all_permit) = (evaluate_iff lib target addresses _).0 h in
        (
          effective-nonempty db user nonempty,
          λ p m a.
              All-at (Permits lib target addresses) all_permit
                ((effective-mem_iff db user (with_rules db p)).1 (p, m, a, refl)),
        ),
    λ w. (evaluate_iff lib target addresses _).1 (
      nonempty-effective db user w.0.0 w.0.1 w.0.2,
      All-intro (Permits lib target addresses) _ (λ q m.
          let (p, n, a, e) = (effective-mem_iff db user q).0 m in
          subst (Permits lib target addresses) (sym e) (w.1 p n a)),
    ),
  )
