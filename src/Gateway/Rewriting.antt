-- ===== src/Gateway/Rewriting.antt =====
-- internal/proxy/rewrite.go: the URLs of pages and style sheets are made to lead through the proxy. The
-- parser and the printer of HTML and the regular expression for style sheets are libraries.
use tvpn.Authorize.{resolved}
use tvpn.Base.{
  Bool, List, Option, [], any, drop, err, if◌then◌else◌, list_eq, nat_eq, none, not, ok, some, suc,
  take, ℕ, ◌!=◌, ◌&&◌, ◌++◌, ◌+◌, ◌==◌, ◌||◌, ◌∷◌,
}
use tvpn.Gateway.Contexts.{Moment, ProxyDb, ProxyEnv, query_suffix, route_url}
use tvpn.Net.{Url}
use tvpn.Store.{Route, resolve_route}
use tvpn.Text.{Text, equal_fold, fields, has_prefix, join, split, text, to_lower, trim_space}

abbrev pub Attribute : Type 0
Attribute = Text × Text

-- html.Node as its first child and its next sibling; a leaf is any node below the document that is no
-- element, and a document is its first child.
pub data Nodes : Type 0 where
  no_node : Nodes
  element : Text → List Attribute → Nodes → Nodes → Nodes
  leaf : Text → Nodes → Nodes

-- A piece of a style sheet: text, or a match of cssURLPattern with its quote and its URL.
pub data CssPart : Type 0 where
  css_text : Text → CssPart
  css_url : Text → Text → CssPart

-- `css_parts` cuts a style sheet at the matches, `path_escape` is url.PathEscape, and `encode_config` the
-- JSON of the configuration for the upstream's URL, the context, the cookies and the compatibility mode.
pub record HtmlLib : Type 0 where
  pub parse_html : Text → Option Nodes
  pub render : Nodes → Option Text
  pub css_parts : Text → List CssPart
  pub path_escape : Text → Text
  pub encode_config : Text → Text → Text → Bool → Text

-- The database, and how many routes were asked for, which numbers new identifiers and statements.
pub record Rewriting : Type 0 where
  pub db : ProxyDb
  pub asked : ℕ

pub data RewriteError : Type 0 where
  too_large no_html no_head cookies_hidden not_rendered : RewriteError

abbrev about_blank : Text
about_blank = text "about:blank"

-- (?i)^(data|blob|javascript|mailto|tel):
unfoldable pub is_inert : Text → Bool
is_inert raw =
    any (λ scheme. has_prefix (to_lower raw) (scheme ++ text ":"))
      (text "data" ∷ text "blob" ∷ text "javascript" ∷ text "mailto" ∷ text "tel" ∷ [])

-- A URL that stays as it is.
abbrev pub is_kept : Text → Bool
is_kept raw = raw == [] || has_prefix raw (text "#") || is_inert raw

abbrev pub is_same_origin : Url → Url → Bool
is_same_origin a b = equal_fold a.scheme b.scheme && equal_fold a.host b.host

-- The attributes that hold a URL.
unfoldable pub is_url_attribute : Text → Bool
is_url_attribute key =
    any (λ name. key == name)
      (text "href"
        ∷ text "src"
        ∷ text "action"
        ∷ text "formaction"
        ∷ text "poster"
        ∷ text "data"
        ∷ text "cite"
        ∷ text "background"
        ∷ text "manifest"
        ∷ [])

-- The last attribute of the loop that passes a test.
unfoldable pub last_value : (Text → Bool) → List Attribute → Option Text
last_value p [] = none
last_value p ((key, value) ∷ l) = elim (last_value p l) [
  | some v ↦ some v
  | none ↦ if p key then some value else none
]

unfoldable pub set_last : (Text → Bool) → Text → List Attribute → List Attribute
set_last p new [] = []
set_last p new ((key, value) ∷ l) =
    let rest = set_last p new l in
    elim (last_value p l) [
      | some v ↦ (key, value) ∷ rest
      | none ↦ (key, if p key then new else value) ∷ rest
    ]

-- What stands up to and behind the first `url=`, in either case.
unfoldable pub at_url_mark : Text → Option (Text × Text)
at_url_mark [] = none
at_url_mark (c ∷ s) =
    let rest = at_url_mark s in
    if has_prefix (to_lower (c ∷ s)) (text "url=")
    then some (take 4 (c ∷ s), drop 4 (c ∷ s))
    else elim rest [ none ↦ none | some (before, url) ↦ some (c ∷ before, url) ]

-- The scripts before the first child of the first head; `none` where there is no head.
unfoldable pub insert_scripts : Text → Nodes → Option Nodes
insert_scripts config no_node = none
insert_scripts config (leaf raw next) = elim (insert_scripts config next) [
  | none ↦ none
  | some n ↦ some (leaf raw n)
]
insert_scripts config (element tag attributes child next) =
    let inside = insert_scripts config child in
    let behind = insert_scripts config next in
    let runtime =
      element (text "script") ((text "src", text "/__tvpn/runtime.js") ∷ []) no_node child in
    let first_script = element (text "script") [] (leaf config no_node) runtime in
    if tag == text "head" then some (element tag attributes first_script next) else elim inside [
      | some c ↦ some (element tag attributes c next)
      | none ↦ elim behind [ none ↦ none | some n ↦ some (element tag attributes child n) ]
    ]

module _ (env : ProxyEnv) (html : HtmlLib) (m : Moment) (route : Route) (base : Url) where
  abbrev pub with_fragment : Text → Text → Text
  with_fragment value fragment =
      if fragment == [] then value else value ++ (text "#" ++ html.path_escape fragment)

  -- A URL of another origin gets a route.
  unfoldable pub route_for : Rewriting → Url → Rewriting × Text
  unfolding route_url
  route_for st target =
      let asked = record st { asked = suc st.asked } in
      elim (resolve_route env.hash (m.fails (10 + st.asked)) st.db.store (m.ids st.asked)
        route.context_id route.user_id target) [
          | err e ↦ (asked, about_blank)
          | ok (store, mapped) ↦ (
            record asked { db = record st.db { store = store } },
            with_fragment (route_url env mapped target) target.fragment,
          )
        ]

  -- Service.rewriteURL for what base.Parse gave.
  unfoldable pub rewrite_resolved : Rewriting → Option Url → Rewriting × Text
  unfolding route_for query_suffix
  rewrite_resolved st none = (st, about_blank)
  rewrite_resolved st (some resolved) =
      if not (resolved.scheme == text "http" || resolved.scheme == text "https")
      then (st, about_blank)
      else if is_same_origin resolved base
      then (
        st,
        with_fragment (resolved.escaped_path ++ query_suffix resolved.raw_query) resolved.fragment,
      )
      else route_for st resolved

  -- Service.rewriteURL
  unfoldable pub rewrite_url : Rewriting → Text → Rewriting × Text
  unfolding rewrite_resolved is_inert
  rewrite_url st untrimmed =
      let raw = trim_space untrimmed in
      if is_kept raw
      then (st, raw)
      else rewrite_resolved st (env.parsers.resolve_reference base raw)

  -- Service.rewriteCSS, over the pieces of the style sheet.
  unfoldable pub rewrite_parts : Rewriting → List CssPart → Rewriting × Text
  unfolding rewrite_url
  rewrite_parts st [] = (st, [])
  rewrite_parts st (css_text plain ∷ parts) =
      let (after, rest) = rewrite_parts st parts in (after, plain ++ rest)
  rewrite_parts st (css_url quote url ∷ parts) =
      let (st1, rewritten) = rewrite_url st url in
      let (after, rest) = rewrite_parts st1 parts in
      (after, text "url(" ++ (quote ++ (rewritten ++ (quote ++ (text ")" ++ rest)))))

  abbrev pub rewrite_css : Rewriting → Text → Rewriting × Text
  rewrite_css st value = rewrite_parts st (html.css_parts value)

  -- The candidates of a srcset: the URL is the first word of each.
  unfoldable pub rewrite_candidates : Rewriting → List Text → Rewriting × List Text
  unfolding rewrite_url
  rewrite_candidates st [] = (st, [])
  rewrite_candidates st (part ∷ parts) = elim (fields (trim_space part)) [
    | [] ↦ let (after, rest) = rewrite_candidates st parts in (after, part ∷ rest)
    | url ∷ words ↦
        let (st1, rewritten) = rewrite_url st url in
        let (after, rest) = rewrite_candidates st1 parts in
        (after, join (text " ") (rewritten ∷ words) ∷ rest)
  ]

  unfoldable pub rewrite_value : Rewriting → Text → Text → Rewriting × Text
  unfolding rewrite_url rewrite_parts rewrite_candidates is_url_attribute
  rewrite_value st key value =
      if is_url_attribute key
      then rewrite_url st value
      else if key == text "style"
      then rewrite_css st value
      else if key == text "srcset"
      then (let (after, parts) = rewrite_candidates st (split value b',') in
          (after, join (text ", ") parts))
      else (st, value)

  -- The loop over the attributes: integrity goes, the others are rewritten.
  unfoldable pub rewrite_attributes : Rewriting → List Attribute → Rewriting × List Attribute
  unfolding rewrite_value
  rewrite_attributes st [] = (st, [])
  rewrite_attributes st ((key, value) ∷ l) =
      let dropped = rewrite_attributes st l in
      let (st1, rewritten) = rewrite_value st key value in
      let (after, rest) = rewrite_attributes st1 l in
      if key == text "integrity" then dropped else (after, (key, rewritten) ∷ rest)

  -- A refresh that a meta element asks for.
  unfoldable pub rewrite_refresh :
      Rewriting → List Attribute → Option Text → Option Text → Rewriting × List Attribute
  unfolding rewrite_url at_url_mark set_last
  rewrite_refresh st l (some equiv) (some content) =
      if not (equal_fold equiv (text "refresh")) then (st, l) else elim (at_url_mark content) [
        | none ↦ (st, l)
        | some (before, url) ↦
            let (after, rewritten) = rewrite_url st (trim_space url) in
            (after, set_last (λ key. key == text "content") (before ++ rewritten) l)
      ]
  rewrite_refresh st l _ _ = (st, l)

  -- Service.rewriteElement
  unfoldable pub rewrite_element : Rewriting → Text → List Attribute → Rewriting × List Attribute
  unfolding rewrite_attributes rewrite_refresh last_value
  rewrite_element st tag attributes =
      let (after, l) = rewrite_attributes st attributes in
      if tag != text "meta"
      then (after, l)
      else rewrite_refresh after l (last_value (λ key. equal_fold key (text "http-equiv")) l)
          (last_value (λ key. key == text "content") l)

  -- The walk of rewriteHTML over the elements.
  unfoldable pub walk : Rewriting → Nodes → Rewriting × Nodes
  unfolding rewrite_element
  walk st no_node = (st, no_node)
  walk st (leaf raw next) = let (after, n) = walk st next in (after, leaf raw n)
  walk st (element tag attributes child next) =
      let (st1, l) = rewrite_element st tag attributes in
      let (st2, c) = walk st1 child in let (after, n) = walk st2 next in (after, element tag l c n)
