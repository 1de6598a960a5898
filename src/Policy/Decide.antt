-- ===== src/Policy/Decide.antt =====
-- What a decision says of the policies: they are taken together, each must let the target through.
use mathlib.Core.List.{Memᴰ}
use tvpn.Base.{
  All, All-append_left, Bool, Bool-cases, List, Option-cases, [], any, any_complete, any_sound,
  arith, false, inl, inr, none, refl, some, true, ◌++◌, ◌↔◌, ◌∷◌, ◌≡◌, ◌≢◌, ◌⊎◌,
}
use tvpn.Net.{Addr, Parsers, Url}
use tvpn.Policy.{
  Decision, Mode, Policy, Rule, blacklist, deny_all, deny_intranet, evaluate, evaluate_from,
  is_non_public, judge, match, matches_any, unknown_mode, verdict, whitelist,
}

module _ (lib : Parsers) (target : Url) (addresses : List Addr) where
  -- A rule of the policy matches the target.
  abbrev pub HasMatch : Policy → Type 0
  HasMatch item = (rule : Rule) × Memᴰ rule item.rules × (match lib rule target addresses ≡ true)

  -- What each mode asks of the target, stated without the evaluation.
  abbrev pub PermitsMode : Mode → Policy → Type 0
  PermitsMode deny_all item = ⊥
  PermitsMode whitelist item = HasMatch item
  PermitsMode blacklist item = ¬ (HasMatch item)
  PermitsMode deny_intranet item =
      ((a : Addr) → Memᴰ a addresses → is_non_public a ≡ false) × (¬ (HasMatch item))
  PermitsMode (unknown_mode name) item = ⊥

  abbrev pub Permits : Policy → Type 0
  Permits item = PermitsMode item.mode item

  matches_any_iff :
      (item : Policy) → (matches_any lib item.rules target addresses ≡ true) ↔ HasMatch item
  unfolding matches_any
  matches_any_iff item = (any_sound _ item.rules, λ (rule, m, h). any_complete _ m h)

  any-false :
      (l : List Addr)
      → ((a : Addr) → Memᴰ a l → is_non_public a ≡ false)
      → any is_non_public l ≡ false
  any-false [] h = refl
  any-false (a ∷ l) h = ground (arith, h a (Memᴰ.head refl), any-false l (λ b m. h b (Memᴰ.tail m)))

  any-false_inv :
      (l : List Addr)
      → any is_non_public l ≡ false
      → (a : Addr) → Memᴰ a l
      → is_non_public a ≡ false
  any-false_inv l h a m = elim (Bool-cases (is_non_public a)) [
    | inl hit ↦ cc (any_complete is_non_public m hit)
    | inr miss ↦ miss
  ]

  unmatched :
      (item : Policy) → matches_any lib item.rules target addresses ≡ false → ¬ (HasMatch item)
  unmatched item h w = cc ((matches_any_iff item).1 w)

  judge_iff :
      (mode : Mode) (item : Policy)
      → (judge mode (matches_any lib item.rules target addresses) item addresses ≡ none)
        ↔ PermitsMode mode item
  unfolding judge
  judge_iff deny_all item = (λ h. cc, λ h. absurd h)
  judge_iff (unknown_mode name) item = (λ h. cc, λ h. absurd h)
  judge_iff whitelist item =
      (λ h. (matches_any_iff item).0 (ground arith), λ w. rw ((matches_any_iff item).1 w))
  judge_iff blacklist item = (
    λ h. unmatched item (ground arith),
    λ w. elim (Bool-cases (matches_any lib item.rules target addresses)) [
      | inl hit ↦ absurd (w ((matches_any_iff item).0 hit))
      | inr miss ↦ rw miss
    ],
  )
  judge_iff deny_intranet item = (
    λ h. (any-false_inv addresses (ground arith), unmatched item (ground arith)),
    λ w. elim (Bool-cases (matches_any lib item.rules target addresses)) [
      | inl hit ↦ absurd (w.1 ((matches_any_iff item).0 hit))
      | inr miss ↦ rw (miss, any-false addresses w.0)
    ],
  )

  -- A policy raises no objection exactly when it permits the target.
  pub verdict-none_iff : (item : Policy) → (verdict lib item target addresses ≡ none) ↔ Permits item
  unfolding verdict
  verdict-none_iff item = judge_iff item.mode item

  judge-denies :
      (mode : Mode) (matched : Bool) (item : Policy) (d : Decision)
      → judge mode matched item addresses ≡ some d
      → d.allowed ≡ false
  unfolding judge
  judge-denies deny_all matched item d h = ground arith
  judge-denies _ matched item d h = ground arith

  judge-policy_id :
      (mode : Mode) (matched : Bool) (item : Policy) (d : Decision)
      → judge mode matched item addresses ≡ some d
      → d.policy_id ≡ item.id
  unfolding judge
  judge-policy_id deny_all matched item d h = ground arith
  judge-policy_id _ matched item d h = ground arith

  verdict-policy_id :
      (item : Policy) (d : Decision)
      → verdict lib item target addresses ≡ some d
      → d.policy_id ≡ item.id
  unfolding verdict
  verdict-policy_id item d h = judge-policy_id item.mode _ item d h

  verdict-denies :
      (item : Policy) (d : Decision)
      → verdict lib item target addresses ≡ some d
      → d.allowed ≡ false
  unfolding verdict
  verdict-denies item d h = judge-denies item.mode _ item d h

  evaluate_from_iff :
      (items : List Policy)
      → ((evaluate_from lib items target addresses).allowed ≡ true) ↔ All Permits items
  unfolding evaluate_from
  evaluate_from_iff [] = (λ h. tt, λ h. refl)
  evaluate_from_iff (item ∷ rest) = elim (Option-cases (verdict lib item target addresses)) [
    | inl silent ↦ (
      λ h. (
        (verdict-none_iff item).0 silent,
        (evaluate_from_iff rest).0 (rw (silent, evaluate_from) at h),
      ),
      λ h. rw (silent, evaluate_from) ((evaluate_from_iff rest).1 h.1),
    )
    | inr (d, raised) ↦ (
      λ h. cc (verdict-denies item d raised, rw (raised, evaluate_from) at h),
      λ h. cc ((verdict-none_iff item).1 h.0),
    )
  ]

  -- A target is allowed exactly when there is a policy and every policy permits it.
  pub evaluate_iff :
      (items : List Policy)
      → ((evaluate lib items target addresses).allowed ≡ true) ↔ ((items ≢ []) × All Permits items)
  unfolding evaluate
  evaluate_iff [] = (λ h. cc, λ h. absurd (h.0 refl))
  evaluate_iff (item ∷ rest) = (
    λ h. (λ e. cc, (evaluate_from_iff (item ∷ rest)).0 h),
    λ h. (evaluate_from_iff (item ∷ rest)).1 h.1,
  )

  -- Assigning further policies never opens a target: what a larger set of policies allows, a part of
  -- it that is not empty allows too.
  pub evaluate-append :
      (items more : List Policy)
      → items ≢ []
      → (evaluate lib (items ++ more) target addresses).allowed ≡ true
      → (evaluate lib items target addresses).allowed ≡ true
  evaluate-append items more some_policy h =
      (evaluate_iff items).1
        (some_policy, All-append_left Permits items more ((evaluate_iff (items ++ more)).0 h).1)

  evaluate_from-id :
      (items : List Policy)
      → (evaluate_from lib items target addresses).allowed ≡ false
      → (item : Policy) × Memᴰ item items
        × (verdict lib item target addresses ≡ some (evaluate_from lib items target addresses))
  unfolding evaluate_from
  evaluate_from-id [] h = cc
  evaluate_from-id (item ∷ rest) h = elim (Option-cases (verdict lib item target addresses)) [
    | inl silent ↦
        let (culprit, m, e) = evaluate_from-id rest (rw (silent, evaluate_from) at h) in
        (culprit, Memᴰ.tail m, rw (silent, evaluate_from) e)
    | inr (d, raised) ↦ (item, Memᴰ.head refl, rw (raised, evaluate_from))
  ]

  -- A refusal is the objection of an assigned policy and carries its identifier, or there is none.
  pub evaluate-policy_id :
      (items : List Policy)
      → (evaluate lib items target addresses).allowed ≡ false
      → (items ≡ [])
        ⊎ ((item : Policy) × Memᴰ item items
            × (¬ (Permits item))
            × ((evaluate lib items target addresses).policy_id ≡ item.id))
  unfolding evaluate
  evaluate-policy_id [] h = inl refl
  evaluate-policy_id (item ∷ rest) h =
      let (culprit, m, e) = evaluate_from-id (item ∷ rest) h in
      inr (culprit, m, λ w. cc ((verdict-none_iff culprit).1 w), verdict-policy_id culprit _ e)
