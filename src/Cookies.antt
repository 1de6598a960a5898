-- ===== src/Cookies.antt =====
-- internal/proxy/cookies.go and crypto.go: the cookie jar of a context, kept on the server with its
-- values sealed.
pub mod Seal
pub mod Jar
pub mod Sent
pub mod Trip
use mathlib.Core.List.{reverse}
use tvpn.Base.{
  Bool, List, Option, [], drop, false, filter, if◌then◌else◌, length, list_eq, ltb, nat_eq, none,
  not, some, take, true, ℕ, ◌!=◌, ◌&&◌, ◌++◌, ◌==◌, ◌||◌, ◌∷◌,
}
use tvpn.Net.{Url, hostname}
use tvpn.Text.{Text, has_prefix, has_suffix, join, split, text, to_lower, trim_prefix, trim_suffix}

-- cipher.AEAD, as crypto.go uses it.
pub record Aead : Type 0 where
  pub nonce_size : ℕ
  -- Seal nonce value aad
  pub seal : Text → Text → Text → Text
  -- Open nonce sealed aad
  pub unseal : Text → Text → Text → Option Text

-- `nonce` is what the random source gave, `none` where it failed.
unfoldable pub encrypt : Aead → Option Text → Text → Text → Option Text
encrypt aead none value aad = none
encrypt aead (some nonce) value aad = some (nonce ++ aead.seal nonce value aad)

unfoldable pub decrypt : Aead → Text → Text → Option Text
decrypt aead value aad =
    if ltb (length value) aead.nonce_size
    then none
    else aead.unseal (take aead.nonce_size value) (drop aead.nonce_size value) aad

-- http.Cookie, with what the code reads of it.
pub record Cookie : Type 0 where
  pub name : Text
  pub value : Text
  pub domain : Text
  pub path : Text
  -- `MaxAge < 0`
  pub max_age_negative : Bool
  -- The zero time is `none`.
  pub expires : Option ℕ
  pub secure : Bool
  pub http_only : Bool

-- A row of `proxy_cookies`.
pub record CookieRow : Type 0 where
  pub context_id : ℕ
  pub name : Text
  pub domain : Text
  pub path : Text
  pub sealed : Text
  pub host_only : Bool
  pub secure : Bool
  pub http_only : Bool
  pub expires_at : Option ℕ

unfoldable pub domain_matches : Text → Text → Bool
domain_matches host domain = host == domain || has_suffix host (text "." ++ domain)

unfoldable pub path_matches : Text → Text → Bool
path_matches request_path cookie_path =
    let path = if request_path == [] then text "/" else request_path in
    path == cookie_path || has_prefix path (trim_suffix cookie_path (text "/") ++ text "/")

-- One part of a rooted path, for path.Clean; the list has the last part at its head.
unfoldable pub clean_part : List Text → Text → List Text
clean_part stack part =
    if part == [] || part == text "."
    then stack
    else if part == text ".."
    then drop 1 stack
    else part ∷ stack

unfoldable pub clean_parts : List Text → List Text → List Text
clean_parts stack [] = stack
clean_parts stack (part ∷ parts) = clean_parts (clean_part stack part) parts

-- The directory of a rooted path: what stands before the last slash, cleaned.
unfoldable pub rooted_dir : Text → Text
unfolding clean_part clean_parts
rooted_dir value =
    b'/'
    ∷ join (text "/") (reverse (clean_parts [] (reverse (drop 1 (reverse (split value b'/'))))))

unfoldable pub default_cookie_path : Text → Text
default_cookie_path [] = text "/"
default_cookie_path (c ∷ s) = if c != b'/' then text "/" else rooted_dir (c ∷ s)

abbrev pub has_key : ℕ → Text → Text → Text → CookieRow → Bool
has_key context name domain path r =
    r.context_id == context && r.name == name && r.domain == domain && r.path == path

-- DELETE … WHERE: the rows with the key go.
unfoldable pub remove_row : ℕ → Text → Text → Text → List CookieRow → List CookieRow
remove_row context name domain path jar = filter (λ r. not (has_key context name domain path r)) jar

-- INSERT … ON CONFLICT … DO UPDATE: the row with the same key is replaced.
unfoldable pub put_row : CookieRow → List CookieRow → List CookieRow
unfolding remove_row
put_row r jar = r ∷ remove_row r.context_id r.name r.domain r.path jar

unfoldable pub cookie_path : Url → Cookie → Text
cookie_path origin cookie =
    if cookie.path == [] then default_cookie_path origin.path else cookie.path

abbrev pub is_expired : ℕ → Cookie → Bool
is_expired now cookie =
    cookie.max_age_negative || elim cookie.expires [ none ↦ false | some e ↦ ltb e now ]

abbrev pub is_stored : ℕ → ℕ → CookieRow → Bool
is_stored now context r =
    r.context_id == context && elim r.expires_at [ none ↦ true | some e ↦ ltb now e ]

-- The tests of the loop: what is sent to the target.
abbrev pub is_sent : Url → Bool → CookieRow → Bool
is_sent target visible_only r =
    let host = to_lower (hostname target) in
    not (visible_only && r.http_only)
    && not (r.secure && target.scheme != text "https")
    && (if r.host_only then host == r.domain else domain_matches host r.domain)
    && path_matches target.path r.path

unfoldable pub cons_opened : Text → Text → Option (List (Text × Text)) → Option (List (Text × Text))
cons_opened name plain none = none
cons_opened name plain (some l) = some ((name, plain) ∷ l)

-- Parameters of the jar: the cipher, the list of public suffixes, and the text of an identifier.
module _ (aead : Aead) (public_suffix : Text → Text) (show_id : ℕ → Text) where
  abbrev pub cookie_aad : ℕ → Text → Text → Text → Text
  cookie_aad context name domain path =
      show_id context ++ (0 ∷ (name ++ (0 ∷ (domain ++ (0 ∷ path)))))

  -- The domain that a cookie is kept under and whether it is for that host alone; `none` is a cookie
  -- that is ignored, of a foreign domain or of a public suffix.
  unfoldable pub cookie_scope : Url → Cookie → Option (Text × Bool)
  cookie_scope origin cookie =
      let domain = to_lower (trim_prefix cookie.domain (text ".")) in
      let host = to_lower (hostname origin) in
      if domain == []
      then some (host, true)
      else if not (domain_matches host domain)
      then none
      else if public_suffix domain == domain
      then none
      else some (domain, false)

  -- The statement for a cookie in scope; `none` where it fails.
  unfoldable pub save_scoped :
      Bool
      → Option Text
      → ℕ
      → ℕ
      → Url
      → Cookie
      → Text
      → Bool
      → List CookieRow
      → Option (List CookieRow)
  save_scoped fails nonce now context origin cookie domain host_only jar =
      let path = cookie_path origin cookie in
      if is_expired now cookie
      then (if fails then none else some (remove_row context cookie.name domain path jar))
      else elim (encrypt aead nonce cookie.value (cookie_aad context cookie.name domain path)) [
        | none ↦ none
        | some sealed ↦
            if fails
            then none
            else some (
                put_row
                  (record {
                    context_id = context;
                    name = cookie.name;
                    domain = domain;
                    path = path;
                    sealed = sealed;
                    host_only = host_only;
                    secure = cookie.secure;
                    http_only = cookie.http_only;
                    expires_at = cookie.expires;
                  })
                  jar)
      ]

  -- One round of the loop of SaveCookies.
  unfoldable pub save_cookie :
      Bool → Option Text → ℕ → ℕ → Url → Cookie → List CookieRow → Option (List CookieRow)
  unfolding save_scoped put_row remove_row
  save_cookie fails nonce now context origin cookie jar = elim (cookie_scope origin cookie) [
    | none ↦ some jar
    | some (domain, host_only) ↦
        save_scoped fails nonce now context origin cookie domain host_only jar
  ]

  -- Store.SaveCookies: the jar, and whether all went well. What was written before a failure stays.
  unfoldable pub save_cookies :
      (ℕ → Bool)
      → (ℕ → Option Text)
      → ℕ
      → ℕ
      → Url
      → List Cookie
      → List CookieRow
      → List CookieRow × Bool
  save_cookies fails nonces now context origin [] jar = (jar, true)
  save_cookies fails nonces now context origin (c ∷ cookies) jar =
      elim (save_cookie (fails (length cookies)) (nonces (length cookies)) now context origin c
        jar) [
          | none ↦ (jar, false)
          | some kept ↦ save_cookies fails nonces now context origin cookies kept
        ]

  unfoldable pub open_rows : ℕ → List CookieRow → Option (List (Text × Text))
  open_rows context [] = some []
  open_rows context (r ∷ rows) =
      let rest = open_rows context rows in
      elim (decrypt aead r.sealed (cookie_aad context r.name r.domain r.path)) [
        | none ↦ none
        | some plain ↦ cons_opened r.name plain rest
      ]

  -- Store.cookies; `none` is an error.
  unfoldable pub cookies : Bool → ℕ → ℕ → Url → Bool → List CookieRow → Option (List (Text × Text))
  unfolding open_rows cons_opened
  cookies fails now context target visible_only jar =
      if fails
      then none
      else open_rows context
          (filter (is_sent target visible_only) (filter (is_stored now context) jar))
