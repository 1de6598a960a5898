-- ===== src/Cookies/Jar.antt =====
-- What the jar holds: one row for each key, and no row for a whole public suffix.
use tvpn.Base.{
  All, Bool, Bool-cases, List, Option, Option-cases, [], ap, arith, false, filter, find, inl, inr,
  length, none, refl, some, text_eq_iff, ℕ, ◌∙◌, ◌∷◌, ◌≡◌, ◌≢◌, ◌⊎◌,
}
use tvpn.Cookies.{
  Aead, Cookie, CookieRow, cookie_aad, cookie_path, cookie_scope, encrypt, has_key, is_expired,
  put_row, remove_row, save_cookie, save_cookies, save_scoped,
}
use tvpn.Net.{Url}
use tvpn.Store.{random}
use tvpn.Text.{Text}

abbrev pub HasUniqueKeys : List CookieRow → Type 0
HasUniqueKeys [] = Unit
HasUniqueKeys (r ∷ jar) =
    (find (has_key r.context_id r.name r.domain r.path) jar ≡ none) × HasUniqueKeys jar

find-filter :
    (p q : CookieRow → Bool) (jar : List CookieRow)
    → find p jar ≡ none
    → find p (filter q jar) ≡ none
find-filter p q [] h = refl
find-filter p q (r ∷ jar) h = ground (arith, find-filter p q jar)

filter-HasUniqueKeys :
    (q : CookieRow → Bool) (jar : List CookieRow) → HasUniqueKeys jar → HasUniqueKeys (filter q jar)
filter-HasUniqueKeys q [] h = tt
filter-HasUniqueKeys q (r ∷ jar) h = elim (Bool-cases (q r)) [
  | inl kept ↦ rw kept (
      (
        find-filter (has_key r.context_id r.name r.domain r.path) q jar h.0,
        filter-HasUniqueKeys q jar h.1,
      ))
  | inr gone ↦ rw gone (filter-HasUniqueKeys q jar h.1)
]

find-removed :
    (context : ℕ) (name domain path : Text) (jar : List CookieRow)
    → find (has_key context name domain path) (remove_row context name domain path jar) ≡ none
unfolding remove_row
find-removed context name domain path [] = refl
find-removed context name domain path (r ∷ jar) =
    ground (arith, find-removed context name domain path jar)

put_row-HasUniqueKeys :
    (r : CookieRow) (jar : List CookieRow) → HasUniqueKeys jar → HasUniqueKeys (put_row r jar)
unfolding put_row remove_row
put_row-HasUniqueKeys r jar h =
    (find-removed r.context_id r.name r.domain r.path jar, filter-HasUniqueKeys _ jar h)

module _ (aead : Aead) (public_suffix : Text → Text) (show_id : ℕ → Text) where
  -- What one cookie does to the jar.
  abbrev Saved : ℕ → Url → Cookie → List CookieRow → List CookieRow → Type 0
  Saved context origin c jar kept =
      (kept ≡ jar)
      ⊎ (((domain : Text) × (kept ≡ remove_row context c.name domain (cookie_path origin c) jar))
          ⊎ ((r : CookieRow) × (kept ≡ put_row r jar)
              × (r.context_id ≡ context)
              × (cookie_scope aead public_suffix show_id origin c ≡ some (r.domain, r.host_only))))

  save_scoped-Saved :
      (fails : Bool) (random : Option Text) (now context : ℕ) (origin : Url) (c : Cookie)
      (domain : Text) (host_only : Bool) (jar kept : List CookieRow)
      → cookie_scope aead public_suffix show_id origin c ≡ some (domain, host_only)
      → save_scoped aead public_suffix show_id fails random now context origin c domain host_only
          jar
        ≡ some kept
      → Saved context origin c jar kept
  unfolding save_scoped
  save_scoped-Saved fails random now context origin c domain host_only jar kept scope h =
      elim (Bool-cases (is_expired now c)) [
        | inl gone ↦ inr (inl (domain, ground arith))
        | inr alive ↦
            elim (Option-cases (
              encrypt aead random c.value (
                cookie_aad aead public_suffix show_id context c.name domain
                  (cookie_path origin c)))) [
                    | inl failed ↦ absurd (ground arith)
                    | inr (sealed, e) ↦ inr (
                        inr (
                          record {
                            context_id = context;
                            name = c.name;
                            domain = domain;
                            path = cookie_path origin c;
                            sealed = sealed;
                            host_only = host_only;
                            secure = c.secure;
                            http_only = c.http_only;
                            expires_at = c.expires;
                          },
                          ground arith,
                          refl,
                          scope,
                        ))
                  ]
      ]

  save_cookie-Saved :
      (fails : Bool) (random : Option Text) (now context : ℕ) (origin : Url) (c : Cookie)
      (jar kept : List CookieRow)
      → save_cookie aead public_suffix show_id fails random now context origin c jar ≡ some kept
      → Saved context origin c jar kept
  unfolding save_cookie
  save_cookie-Saved fails random now context origin c jar kept h =
      elim (Option-cases (cookie_scope aead public_suffix show_id origin c)) [
        | inl ignored ↦ inl (ground arith)
        | inr ((domain, host_only), scope) ↦
            save_scoped-Saved fails random now context origin c domain host_only jar kept scope
              (rw (scope, save_cookie) at h)
      ]

  Saved-HasUniqueKeys :
      (context : ℕ) (origin : Url) (c : Cookie) (jar kept : List CookieRow)
      → HasUniqueKeys jar
      → Saved context origin c jar kept
      → HasUniqueKeys kept
  Saved-HasUniqueKeys context origin c jar kept u (inl e) = rw e u
  Saved-HasUniqueKeys context origin c jar kept u (inr (inl (domain, e))) =
      rw e (unfold remove_row in filter-HasUniqueKeys _ jar u)
  Saved-HasUniqueKeys context origin c jar kept u (inr (inr (r, e, _, _))) =
      rw e (put_row-HasUniqueKeys r jar u)

  -- A row that is not for one host alone is for a domain that is no public suffix.
  abbrev pub IsScoped : CookieRow → Type 0
  IsScoped r = r.host_only ≡ false → public_suffix r.domain ≢ r.domain

  cookie_scope-IsScoped :
      (origin : Url) (c : Cookie) (domain : Text)
      → cookie_scope aead public_suffix show_id origin c ≡ some (domain, false)
      → public_suffix domain ≢ domain
  unfolding cookie_scope
  cookie_scope-IsScoped origin c domain h e =
      ground (arith, text_eq_iff (public_suffix domain) domain)

  All-filter :
      (q : CookieRow → Bool) (jar : List CookieRow) → All IsScoped jar → All IsScoped (filter q jar)
  All-filter q [] h = tt
  All-filter q (r ∷ jar) h = elim (Bool-cases (q r)) [
    | inl kept ↦ rw kept (h.0, All-filter q jar h.1)
    | inr gone ↦ rw gone (All-filter q jar h.1)
  ]

  Saved-IsScoped :
      (context : ℕ) (origin : Url) (c : Cookie) (jar kept : List CookieRow)
      → All IsScoped jar
      → Saved context origin c jar kept
      → All IsScoped kept
  unfolding put_row remove_row
  Saved-IsScoped context origin c jar kept a (inl e) = rw e a
  Saved-IsScoped context origin c jar kept a (inr (inl (domain, e))) = rw e (All-filter _ jar a)
  Saved-IsScoped context origin c jar kept a (inr (inr (r, e, _, scope))) = rw e (
    λ wide.
        cookie_scope-IsScoped origin c r.domain
          (scope ∙ ap (λ (b : Bool). some (r.domain, b)) wide),
    All-filter _ jar a,
  )

  -- Whatever cookies a target sets, and whichever statements fail, the jar keeps one row for each key
  -- and never a row for a public suffix.
  pub save_cookies-keeps :
      (fails : ℕ → Bool) (randoms : ℕ → Option Text) (now context : ℕ) (origin : Url)
      (l : List Cookie) (jar : List CookieRow)
      → HasUniqueKeys jar × All IsScoped jar
      → HasUniqueKeys
          (save_cookies aead public_suffix show_id fails randoms now context origin l jar).0
        × All IsScoped
            (save_cookies aead public_suffix show_id fails randoms now context origin l jar).0
  unfolding save_cookies
  save_cookies-keeps fails randoms now context origin [] jar h = h
  save_cookies-keeps fails randoms now context origin (c ∷ l) jar h =
      elim (Option-cases (
        save_cookie aead public_suffix show_id (fails (length l)) (randoms (length l)) now context
          origin c jar)) [
            | inl failed ↦ rw (failed, save_cookies) h
            | inr (kept, e) ↦
                let saved = save_cookie-Saved _ _ now context origin c jar kept e in
                rw (e, save_cookies)
                  (save_cookies-keeps fails randoms now context origin l kept (
                    Saved-HasUniqueKeys context origin c jar kept h.0 saved,
                    Saved-IsScoped context origin c jar kept h.1 saved,
                  ))
          ]
