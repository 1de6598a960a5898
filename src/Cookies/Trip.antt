-- ===== src/Cookies/Trip.antt =====
-- A cookie that a target sets comes back to it.
use tvpn.Base.{
  Option-cases, [], arith, false, filter, inl, inr, length, list_beq, refl, some, text_eq_iff,
  text_eq_self, true, ℕ, ◌++◌, ◌<◌, ◌∷◌, ◌≡◌,
}
use tvpn.Cookies.{
  Aead, Cookie, CookieRow, cons_opened, cookie_aad, cookie_path, cookie_scope, cookies, decrypt,
  encrypt, is_expired, is_sent, is_stored, open_rows, path_matches, save_cookie, save_cookies,
}
use tvpn.Cookies.Seal.{OpensSealed, decrypt-encrypt}
use tvpn.Net.{Url, hostname}
use tvpn.Text.{Text, text, to_lower, trim_prefix}

module _ (aead : Aead) (public_suffix : Text → Text) (show_id : ℕ → Text) where
  -- A cookie of the host itself is in scope under that host, for that host alone.
  cookie_scope-own :
      (origin : Url) (c : Cookie)
      → to_lower (trim_prefix c.domain (text ".")) ≡ []
      → cookie_scope aead public_suffix show_id origin c ≡ some (to_lower (hostname origin), true)
  unfolding cookie_scope list_beq
  cookie_scope-own origin c h = rw h

  -- The row that is stored for such a cookie.
  stored_row : ℕ → Url → Cookie → Text → CookieRow
  stored_row context origin c sealed = record {
    context_id = context;
    name = c.name;
    domain = to_lower (hostname origin);
    path = cookie_path origin c;
    sealed = sealed;
    host_only = true;
    secure = c.secure;
    http_only = c.http_only;
    expires_at = c.expires;
  }

  own_aad : ℕ → Url → Cookie → Text
  own_aad context origin c =
      cookie_aad aead public_suffix show_id context c.name (to_lower (hostname origin))
        (cookie_path origin c)

  save_cookies-own :
      (salt : Text) (now context : ℕ) (origin : Url) (c : Cookie)
      → to_lower (trim_prefix c.domain (text ".")) ≡ []
      → is_expired now c ≡ false
      → (save_cookies aead public_suffix show_id
          (λ n. false)
          (λ n. some salt)
          now
          context
          origin
          (c ∷ [])
          []).0
        ≡ stored_row context origin c (salt ++ aead.seal salt c.value (own_aad context origin c))
          ∷ []
  unfolding save_cookies save_cookie encrypt stored_row own_aad list_beq
  save_cookies-own salt now context origin c domain alive =
      ground (arith, cookie_scope-own origin c domain)

  stored_row-stored :
      (later context : ℕ) (origin : Url) (c : Cookie) (sealed : Text)
      → ((e : ℕ) → c.expires ≡ some e → later < e)
      → is_stored later context (stored_row context origin c sealed) ≡ true
  unfolding stored_row
  stored_row-stored later context origin c sealed lasts = elim (Option-cases c.expires) [
    | inl never ↦ ground arith
    | inr (e, known) ↦ ground (arith, lasts e known)
  ]

  stored_row-sent :
      (later context : ℕ) (origin : Url) (c : Cookie) (sealed : Text)
      → (c.secure ≡ true → origin.scheme ≡ text "https")
      → ((e : ℕ) → c.expires ≡ some e → later < e)
      → path_matches origin.path (cookie_path origin c) ≡ true
      → filter
          (is_sent origin false)
          (filter (is_stored later context) (stored_row context origin c sealed ∷ []))
        ≡ stored_row context origin c sealed ∷ []
  unfolding stored_row
  stored_row-sent later context origin c sealed safe lasts path =
      let row_alive : is_stored later context (stored_row context origin c sealed) ≡ true =
        stored_row-stored later context origin c sealed lasts in
      let row_due : is_sent origin false (stored_row context origin c sealed) ≡ true = ground (
        arith,
        text_eq_self (to_lower (hostname origin)),
        text_eq_iff origin.scheme (text "https"),
        safe,
      ) in
      rw row_alive (rw row_due)

  sealed_lem :
      (salt value aad : Text)
      → encrypt aead (some salt) value aad ≡ some (salt ++ aead.seal salt value aad)
  unfolding encrypt
  sealed_lem salt value aad = refl

  stored_row-opens :
      (context : ℕ) (origin : Url) (c : Cookie) (salt : Text)
      → OpensSealed aead
      → length salt ≡ aead.nonce_size
      → open_rows aead public_suffix show_id context (
          stored_row context origin c (salt ++ aead.seal salt c.value (own_aad context origin c))
          ∷ [])
        ≡ some ((c.name, c.value) ∷ [])
  unfolding stored_row own_aad open_rows cons_opened
  stored_row-opens context origin c salt opens size =
      let aad = own_aad context origin c in
      let sealed = salt ++ aead.seal salt c.value aad in
      let opened : decrypt aead sealed aad ≡ some c.value =
        decrypt-encrypt aead salt c.value aad sealed opens size (sealed_lem salt c.value aad) in
      ground (arith, opened)

  -- A cookie without a domain, saved alone into an empty jar with no statement that fails, at a time when
  -- it has not expired, is stored for its host and sent back to the same origin with the same value.
  pub cookies-save_cookies :
      (salt : Text) (now later context : ℕ) (origin : Url) (c : Cookie)
      → OpensSealed aead
      → length salt ≡ aead.nonce_size
      → to_lower (trim_prefix c.domain (text ".")) ≡ []
      → is_expired now c ≡ false
      → (c.secure ≡ true → origin.scheme ≡ text "https")
      → ((e : ℕ) → c.expires ≡ some e → later < e)
      → path_matches origin.path (cookie_path origin c) ≡ true
      → cookies aead public_suffix show_id false later context origin false
          (save_cookies aead public_suffix show_id
            (λ n. false)
            (λ n. some salt)
            now
            context
            origin
            (c ∷ [])
            []).0
        ≡ some ((c.name, c.value) ∷ [])
  unfolding cookies
  cookies-save_cookies salt now later context origin c opens size domain alive safe lasts path =
      rw (save_cookies-own salt now context origin c domain alive) (
        rw (stored_row-sent later context origin c _ safe lasts path)
          (stored_row-opens context origin c salt opens size))
