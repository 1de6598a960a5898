-- ===== src/Policy.antt =====
-- internal/policy/policy.go: access policies, their rules, and the decision on a target.
pub mod Decide
pub mod Ranges
pub mod Rules
pub mod Effective
use tvpn.Base.{
  Bool, List, Option, [], any, false, if◌then◌else◌, list_eq, nat_eq, none, not, some, true, ℕ,
  ◌&&◌, ◌*◌, ◌++◌, ◌+◌, ◌==◌, ◌^◌, ◌||◌, ◌∷◌,
}
use tvpn.Net.{
  Addr, Parsers, Prefix, Url, addr_eq, hostname, is_global_unicast, prefix_contains, unmap, v4, v6,
}
use tvpn.Text.{Text, equal_fold, has_prefix, has_suffix, text, to_lower, trim_suffix}

-- The modes and kinds are strings in the code; the last constructor of each is any other string.
pub data Mode : Type 0 where
  deny_intranet whitelist blacklist deny_all : Mode
  unknown_mode : Text → Mode

pub data RuleKind : Type 0 where
  exact_host domain_suffix cidr url_prefix : RuleKind
  unknown_kind : Text → RuleKind

pub record Rule : Type 0 where
  pub id : ℕ
  pub kind : RuleKind
  pub value : Text

pub record Policy : Type 0 where
  pub id : ℕ
  pub name : Text
  pub mode : Mode
  pub enabled : Bool
  pub rules : List Rule

-- The identifier of the policy that decided is 0, the zero UUID, where none did.
pub record Decision : Type 0 where
  pub allowed : Bool
  pub reason : Text
  pub policy_id : ℕ

abbrev octets : ℕ → ℕ → ℕ → ℕ → Addr
octets a b c d = v4 (((a * 256 + b) * 256 + c) * 256 + d)

abbrev v4_prefix : ℕ → ℕ → ℕ → ℕ → ℕ → Prefix
v4_prefix a b c d bits = record { addr = octets a b c d; bits = bits }

abbrev v6_prefix : ℕ → ℕ → Prefix
v6_prefix n bits = record { addr = v6 n []; bits = bits }

abbrev pub non_public_prefixes : List Prefix
non_public_prefixes =
    v4_prefix 0 0 0 0 8
    ∷ v4_prefix 10 0 0 0 8
    ∷ v4_prefix 100 64 0 0 10
    ∷ v4_prefix 127 0 0 0 8
    ∷ v4_prefix 169 254 0 0 16
    ∷ v4_prefix 172 16 0 0 12
    ∷ v4_prefix 192 0 0 0 24
    ∷ v4_prefix 192 0 2 0 24
    ∷ v4_prefix 192 168 0 0 16
    ∷ v4_prefix 198 18 0 0 15
    ∷ v4_prefix 198 51 100 0 24
    ∷ v4_prefix 203 0 113 0 24
    ∷ v4_prefix 224 0 0 0 4
    ∷ v4_prefix 240 0 0 0 4
    ∷ v6_prefix 0 128
    ∷ v6_prefix 1 128
    ∷ v6_prefix (0xfc00 * 2 ^ 112) 7
    ∷ v6_prefix (0xfe80 * 2 ^ 112) 10
    ∷ v6_prefix (0xff00 * 2 ^ 112) 8
    ∷ v6_prefix (0x20010db8 * 2 ^ 96) 32
    ∷ []

-- policy.IsNonPublic
unfoldable pub is_non_public : Addr → Bool
is_non_public address =
    let plain = unmap address in
    any (λ prefix. prefix_contains prefix plain) non_public_prefixes
    || not (is_global_unicast plain)

unfoldable pub allowed_scheme : Text → Bool
allowed_scheme value =
    value == text "http" || value == text "https" || value == text "ws" || value == text "wss"

unfoldable pub matches_url_prefix : Option Url → Url → Bool
matches_url_prefix none target = false
matches_url_prefix (some prefix) target =
    target.scheme == prefix.scheme
    && equal_fold target.host prefix.host
    && has_prefix target.escaped_path prefix.escaped_path

unfoldable pub matches_cidr : Option Prefix → List Addr → Bool
matches_cidr none addresses = false
matches_cidr (some prefix) addresses = any (λ a. prefix_contains prefix (unmap a)) addresses

-- The name that host rules are compared with.
abbrev pub rule_host : Url → Text
rule_host target = to_lower (trim_suffix (hostname target) (text "."))

abbrev deny : Text → Policy → Option Decision
deny reason item = some (record { allowed = false; reason = reason; policy_id = item.id })

-- The switch on the mode: the decision if the policy denies.
unfoldable pub judge : Mode → Bool → Policy → List Addr → Option Decision
judge deny_all matched item addresses = deny (text "deny_all") item
judge whitelist matched item addresses =
    if matched then none else deny (text "not_whitelisted") item
judge blacklist matched item addresses = if matched then deny (text "blacklisted") item else none
judge deny_intranet matched item addresses =
    if any is_non_public addresses
    then deny (text "intranet_address") item
    else if matched
    then deny (text "custom_intranet") item
    else none
judge (unknown_mode name) matched item addresses = deny (text "invalid_policy") item

module _ (lib : Parsers) where
  -- `match`, one case for each kind.
  unfoldable pub matches_kind : RuleKind → Text → Url → List Addr → Bool
  matches_kind exact_host value target addresses = rule_host target == value
  matches_kind domain_suffix value target addresses =
      rule_host target == value || has_suffix (rule_host target) (text "." ++ value)
  matches_kind url_prefix value target addresses = matches_url_prefix (lib.parse_url value) target
  matches_kind cidr value target addresses = matches_cidr (lib.parse_prefix value) addresses
  matches_kind (unknown_kind name) value target addresses = false

  unfoldable pub match : Rule → Url → List Addr → Bool
  unfolding matches_kind matches_url_prefix matches_cidr
  match rule target addresses = matches_kind rule.kind rule.value target addresses

  unfoldable pub matches_any : List Rule → Url → List Addr → Bool
  matches_any rules target addresses = any (λ rule. match rule target addresses) rules

  -- One round of the loop of `Evaluate`.
  unfoldable pub verdict : Policy → Url → List Addr → Option Decision
  unfolding judge
  verdict item target addresses =
      judge item.mode (matches_any item.rules target addresses) item addresses

  -- The loop: the first policy that denies decides.
  unfoldable pub evaluate_from : List Policy → Url → List Addr → Decision
  evaluate_from [] target addresses = record {
    allowed = true;
    reason = text "allowed";
    policy_id = 0;
  }
  evaluate_from (item ∷ rest) target addresses = elim (verdict item target addresses) [
    | none ↦ evaluate_from rest target addresses
    | some decision ↦ decision
  ]

  unfoldable pub evaluate : List Policy → Url → List Addr → Decision
  evaluate [] target addresses = record {
    allowed = false;
    reason = text "no_policy";
    policy_id = 0;
  }
  evaluate (item ∷ rest) target addresses = evaluate_from (item ∷ rest) target addresses
