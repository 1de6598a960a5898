-- ===== src/Policy/Rules.antt =====
-- The rules of a policy: their validation, and what a host rule matches.
use tvpn.Base.{
  List, Option, Result, [], arith, err, false, if◌then◌else◌, inl, inr, list_eq, nat_eq, none, not,
  ok, or-eq-true, some, text_eq_iff, true, ℕ, ◌++◌, ◌==◌, ◌||◌, ◌↔◌, ◌≡◌, ◌⊎◌,
}
use tvpn.Net.{Addr, Parsers, Prefix, Url, addr_eq}
use tvpn.Policy.{
  RuleKind, allowed_scheme, cidr, domain_suffix, exact_host, match, rule_host, unknown_kind,
  url_prefix,
}
use tvpn.Text.{Text, contains_any, text, to_lower, trim_space, trim_suffix}
use tvpn.Text.Laws.{has_suffix_iff, to_lower_idem}

pub data RuleError : Type 0 where
  value_required invalid_host invalid_cidr invalid_url_prefix unsupported_kind : RuleError

module _ (lib : Parsers) where
  unfoldable pub validate_host : Text → Result RuleError Text
  validate_host value =
      let name = to_lower (trim_suffix value (text ".")) in
      if contains_any name (text "/:@") then err invalid_host else ok name

  unfoldable pub validate_cidr : Option Prefix → Result RuleError Text
  validate_cidr none = err invalid_cidr
  validate_cidr (some prefix) = ok (lib.show_masked prefix)

  -- `IsAbs` asks for a scheme.
  unfoldable pub validate_url_prefix : Option Url → Result RuleError Text
  validate_url_prefix none = err invalid_url_prefix
  validate_url_prefix (some parsed) =
      if parsed.scheme == [] || not (allowed_scheme parsed.scheme) || parsed.user
      then err invalid_url_prefix
      else ok (
          lib.show_url
            (record parsed { host = to_lower parsed.host; fragment = []; raw_query = [] }))

  -- The switch on the kind, for a value that is trimmed and not empty.
  unfoldable pub validate_kind : RuleKind → Text → Result RuleError Text
  unfolding validate_host validate_cidr validate_url_prefix
  validate_kind exact_host value = validate_host value
  validate_kind domain_suffix value = validate_host value
  validate_kind cidr value = validate_cidr (lib.parse_prefix value)
  validate_kind url_prefix value = validate_url_prefix (lib.parse_url value)
  validate_kind (unknown_kind name) value = err unsupported_kind

  -- policy.ValidateRule
  unfoldable pub validate_rule : RuleKind → Text → Result RuleError Text
  unfolding validate_kind
  validate_rule kind value =
      let trimmed = trim_space value in
      if trimmed == [] then err value_required else validate_kind kind trimmed

  abbrev pub IsHostKind : RuleKind → Type 0
  IsHostKind kind = (kind ≡ exact_host) ⊎ (kind ≡ domain_suffix)

  validate_host-canonical :
      (value stored : Text)
      → validate_host value ≡ ok stored
      → (to_lower stored ≡ stored) × (contains_any stored (text "/:@") ≡ false)
  unfolding validate_host
  validate_host-canonical value stored h =
      let lower = to_lower_idem (trim_suffix value (text ".")) in
      (ground (arith, lower), ground arith)

  -- A host rule that passes validation is stored in lower case and holds no scheme, path, port or
  -- credentials.
  pub validate_rule-canonical :
      (kind : RuleKind) (value stored : Text)
      → IsHostKind kind
      → validate_rule kind value ≡ ok stored
      → (to_lower stored ≡ stored) × (contains_any stored (text "/:@") ≡ false)
  unfolding validate_rule
  validate_rule-canonical exact_host value stored k h =
      validate_host-canonical (trim_space value) stored (ground arith)
  validate_rule-canonical domain_suffix value stored k h =
      validate_host-canonical (trim_space value) stored (ground arith)
  validate_rule-canonical _ value stored k h = ground arith

  -- A domain suffix rule matches its own domain and the names below it, and nothing else.
  pub match-domain_suffix :
      (id : ℕ) (value : Text) (target : Url) (addresses : List Addr)
      → (match lib (record { id = id; kind = domain_suffix; value = value }) target addresses
          ≡ true)
        ↔ ((rule_host target ≡ value)
            ⊎ ((label : Text) × (rule_host target ≡ label ++ (text "." ++ value))))
  unfolding match
  match-domain_suffix id value target addresses =
      let name = rule_host target in
      let (to, from) = has_suffix_iff name (text "." ++ value) in
      (
        λ h. elim (or-eq-true _ _ h) [
          | inl same ↦ inl ((text_eq_iff name value).0 same)
          | inr below ↦ inr (to below)
        ],
        elim [
          | inl same ↦ ground (arith, (text_eq_iff name value).1 same)
          | inr below ↦ ground (arith, from below)
        ],
      )
