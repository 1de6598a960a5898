-- ===== src/Ldap/Accepted.antt =====
-- The settings of the directory that UpdateSettings accepts, and what a login with them cannot run into.
use tvpn.Base.{
  >>=-eq-ok, Bool, Bool-cases, Option, [], ap, arith, fail_if, fail_if-false, false, if◌then◌else◌,
  inl, inr, list_eq, nat_eq, none, not, ok, ok-injective, some, sym, text_eq_iff, true, ◌!=◌, ◌&&◌,
  ◌==◌, ◌||◌, ◌∙◌, ◌≡◌, ◌≢◌, ◌⊎◌,
}
use tvpn.Ldap.{
  LdapError, Settings, bad_dn_template, bad_search_bind, check_enabled, group_mode_unknown,
  is_ldap_scheme, mode_unknown, need, no_ldap_host, settings_unsaved, update_settings,
  username_mark,
}
use tvpn.Net.{Url, hostname}
use tvpn.Text.{Text, contains, text, trim_space}

-- An enabled directory is complete for its modes.
pub record IsComplete (parse_url : Text → Option Url) (s : Settings) : Type 0 where
  pub url_read : Url
  pub reads : parse_url s.url ≡ some url_read
  pub scheme : is_ldap_scheme url_read.scheme ≡ true
  pub named : hostname url_read ≢ []
  pub searches : s.mode ≡ text "search_bind" → s.bind_dn ≢ []
  pub filters : s.mode ≡ text "search_bind" → contains s.user_filter username_mark ≡ true
  pub renders : s.mode ≡ text "dn_template" → contains s.user_dn_template username_mark ≡ true

module _ (parse_url : Text → Option Url) where
  not_empty : (t : Text) → t == [] ≡ false → t ≢ []
  not_empty t h e = absurd (ground (arith, (text_eq_iff t []).1 e))

  need-none : {A : Type 0} (e : LdapError) (o : Option A) {a : A} → need e o ≡ ok a → o ≡ some a
  need-none e none h = cc
  need-none e (some b) h = ap some (ok-injective h)

  implied : (a b : Bool) → (a && b) ≡ false → a ≡ true → b ≡ false
  implied a b h k = ground arith

  or-eq-false : (a b : Bool) → (a || b) ≡ false → (a ≡ false) × (b ≡ false)
  or-eq-false a b h = ground arith

  not-false : (b : Bool) → not b ≡ false → b ≡ true
  not-false b h = ground arith

  check_enabled-IsComplete :
      (s : Settings) {u : Unit {0}} → check_enabled parse_url s ≡ ok u → IsComplete parse_url s
  unfolding check_enabled
  check_enabled-IsComplete s h =
      let (parsed, e0, h0) = >>=-eq-ok (need no_ldap_host (parse_url s.url)) _ h in
      let (u1, e1, h1) =
        >>=-eq-ok
          (fail_if (not (is_ldap_scheme parsed.scheme) || hostname parsed == []) no_ldap_host) _
          h0 in
      let (u2, e2, h2) =
        >>=-eq-ok
          (fail_if
            (s.mode == text "search_bind"
              && (s.bind_dn == [] || not (contains s.user_filter username_mark)))
            bad_search_bind)
          _ h1 in
      let (u3, e3, h3) =
        >>=-eq-ok
          (fail_if (s.mode == text "dn_template" && not (contains s.user_dn_template username_mark))
            bad_dn_template)
          _ h2 in
      let host =
        or-eq-false (not (is_ldap_scheme parsed.scheme)) _ (fail_if-false _ no_ldap_host e1) in
      let by_search = λ (m : s.mode ≡ text "search_bind"). or-eq-false (s.bind_dn == []) _ (
        implied (s.mode == text "search_bind") _ (fail_if-false _ bad_search_bind e2)
          ((text_eq_iff s.mode (text "search_bind")).1 m)) in
      record {
        url_read = parsed;
        reads = need-none no_ldap_host (parse_url s.url) e0;
        scheme = not-false _ host.0;
        named = not_empty _ host.1;
        searches = λ m. not_empty s.bind_dn (by_search m).0;
        filters = λ m. not-false _ (by_search m).1;
        renders = λ m. not-false _ (
            implied (s.mode == text "dn_template") _ (fail_if-false _ bad_dn_template e3)
              ((text_eq_iff s.mode (text "dn_template")).1 m));
      }

  one_of : (t a b : Text) → ((t != a) && (t != b)) ≡ false → (t ≡ a) ⊎ (t ≡ b)
  one_of t a b h = elim (Bool-cases (t == a)) [
    | inl same ↦ inl ((text_eq_iff t a).0 same)
    | inr other ↦ inr ((text_eq_iff t b).0 (ground arith))
  ]

  abbrev trimmed : Settings → Settings
  trimmed raw = record raw { url = trim_space raw.url }

  -- The settings that are stored have one of the two modes and one of the two ways to find groups, and if
  -- the directory is enabled they are complete: an LDAP address with a host, a bind name and a filter for
  -- the user name in the mode search_bind, and a template for it in the mode dn_template.
  pub update_settings-IsComplete :
      (failed : Bool) (raw s : Settings)
      → update_settings parse_url failed raw ≡ ok s
      → ((s.mode ≡ text "search_bind") ⊎ (s.mode ≡ text "dn_template"))
        × ((s.group_mode ≡ text "member_of") ⊎ (s.group_mode ≡ text "search"))
        × (s.enabled ≡ true → IsComplete parse_url s)
  unfolding update_settings
  update_settings-IsComplete failed raw s h =
      let (u, e0, h0) =
        >>=-eq-ok
          (fail_if (raw.mode != text "search_bind" && raw.mode != text "dn_template") mode_unknown)
          _ h in
      let (v, e1, h1) =
        >>=-eq-ok
          (fail_if (raw.group_mode != text "member_of" && raw.group_mode != text "search")
            group_mode_unknown)
          _ h0 in
      let (w, e2, h2) =
        >>=-eq-ok (if raw.enabled then check_enabled parse_url (trimmed raw) else ok tt) _ h1 in
      let (x, e3, h3) = >>=-eq-ok (fail_if failed settings_unsaved) _ h2 in
      rw (← ok-injective h3) (
        one_of raw.mode _ _ (fail_if-false _ mode_unknown e0),
        one_of raw.group_mode _ _ (fail_if-false _ group_mode_unknown e1),
        λ on.
            check_enabled-IsComplete (trimmed raw)
              (ap (λ b. if b then check_enabled parse_url (trimmed raw) else ok tt) (sym on) ∙ e2),
      )
