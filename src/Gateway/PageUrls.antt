-- ===== src/Gateway/PageUrls.antt =====
-- Where the URLs of a rewritten page lead.
use mathlib.Core.List.{append_assoc}
use tvpn.Base.{
  Bool-cases, [], ap, arith, false, inl, inr, list_eq, nat_eq, some, true, ◌++◌, ◌==◌, ◌||◌, ◌∙◌,
  ◌≡◌,
}
use tvpn.Gateway.Contexts.{Moment, ProxyEnv, query_suffix}
use tvpn.Gateway.Rewriting.{
  HtmlLib, Rewriting, is_kept, is_same_origin, rewrite_resolved, rewrite_url,
}
use tvpn.Net.{Url}
use tvpn.Store.{Route}
use tvpn.Text.{Text, text, trim_space}

module _ (env : ProxyEnv) (html : HtmlLib) (m : Moment) (route : Route) (base : Url) where
  -- A URL of the page's own origin whose path begins with two slashes becomes a text that begins with two
  -- slashes, which a browser reads as the name of another host.
  pub rewrite_url-other_host :
      (st : Rewriting) (untrimmed : Text) (target : Url) (rest : Text)
      → is_kept (trim_space untrimmed) ≡ false
      → env.parsers.resolve_reference base (trim_space untrimmed) ≡ some target
      → (target.scheme == text "http" || target.scheme == text "https") ≡ true
      → is_same_origin target base ≡ true
      → target.escaped_path ≡ text "//" ++ rest
      → (behind : Text) × ((rewrite_url env html m route base st untrimmed).1
          ≡ text "//" ++ (rest ++ behind))
  unfolding rewrite_url rewrite_resolved
  rewrite_url-other_host st untrimmed target rest led found web same slashes =
      elim (Bool-cases (target.fragment == [])) [
        | inl plain ↦ (
          query_suffix target.raw_query,
          ground (arith, ap (λ p. p ++ query_suffix target.raw_query) slashes),
        )
        | inr marked ↦ (
          query_suffix target.raw_query ++ (text "#" ++ html.path_escape target.fragment),
          let suffix = query_suffix target.raw_query in
              let tail = text "#" ++ html.path_escape target.fragment in
              let written : (rewrite_url env html m route base st untrimmed).1
                  ≡ (target.escaped_path ++ suffix) ++ tail =
                ground arith in
              written
              ∙ ap (λ p. (p ++ suffix) ++ tail) slashes
              ∙ append_assoc (text "//" ++ rest) suffix tail,
        )
      ]
