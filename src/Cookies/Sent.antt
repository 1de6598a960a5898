-- ===== src/Cookies/Sent.antt =====
-- Which cookies a target is sent.
use mathlib.Core.List.{Memᴰ}
use tvpn.Base.{
  Bool, List, Option-cases, [], ap, arith, false, filter-mem, inl, inr, mem-cases, or-eq-true, refl,
  some, sym, text_eq_iff, true, ℕ, ◌++◌, ◌<◌, ◌↔◌, ◌∙◌, ◌∷◌, ◌≡◌, ◌⊎◌,
}
use tvpn.Cookies.{
  Aead, CookieRow, cons_opened, cookie_aad, cookies, decrypt, domain_matches, is_sent, is_stored,
  open_rows, path_matches,
}
use tvpn.Net.{Url, hostname}
use tvpn.Text.{Text, text, to_lower}
use tvpn.Text.Laws.{has_suffix_iff}

-- A host belongs to a domain exactly when it is the domain or a name below it.
pub domain_matches_iff :
    (host domain : Text)
    → (domain_matches host domain ≡ true)
      ↔ ((host ≡ domain) ⊎ ((label : Text) × (host ≡ label ++ (text "." ++ domain))))
unfolding domain_matches
domain_matches_iff host domain =
    let (to, from) = has_suffix_iff host (text "." ++ domain) in
    (
      λ h. elim (or-eq-true _ _ h) [
        | inl same ↦ inl ((text_eq_iff host domain).0 same)
        | inr below ↦ inr (to below)
      ],
      elim [
        | inl same ↦ ground (arith, (text_eq_iff host domain).1 same)
        | inr below ↦ ground (arith, from below)
      ],
    )

-- What a row needs to be sent to a target at a time.
pub record IsDue (now context : ℕ) (target : Url) (visible_only : Bool) (r : CookieRow)
    : Type 0 where
  pub own_context : r.context_id ≡ context
  pub alive : (e : ℕ) → r.expires_at ≡ some e → now < e
  pub shown : visible_only ≡ true → r.http_only ≡ false
  pub safe : r.secure ≡ true → target.scheme ≡ text "https"
  pub own_host : r.host_only ≡ true → to_lower (hostname target) ≡ r.domain
  pub own_domain : r.host_only ≡ false → domain_matches (to_lower (hostname target)) r.domain ≡ true
  pub own_path : path_matches target.path r.path ≡ true

is_sent-IsDue :
    (now context : ℕ) (target : Url) (visible_only : Bool) (r : CookieRow)
    → is_stored now context r ≡ true
    → is_sent target visible_only r ≡ true
    → IsDue now context target visible_only r
is_sent-IsDue now context target visible_only r stored sent = record {
  own_context = ground arith;
  alive = λ e h. ground arith;
  shown = λ h. ground arith;
  safe = λ h. ground (arith, text_eq_iff target.scheme (text "https"));
  own_host = λ h. ground (arith, text_eq_iff (to_lower (hostname target)) r.domain);
  own_domain = λ h. ground arith;
  own_path = ground arith;
}

module _ (aead : Aead) (public_suffix : Text → Text) (show_id : ℕ → Text) where
  -- Every pair is the name and the opened value of one of the rows.
  abbrev pub Opened : ℕ → List CookieRow → Text × Text → Type 0
  Opened context rows pair =
      (r : CookieRow) × Memᴰ r rows
      × (pair.0 ≡ r.name)
      × (decrypt aead r.sealed
            (cookie_aad aead public_suffix show_id context r.name r.domain r.path)
          ≡ some pair.1)

  open_rows-Opened :
      (context : ℕ) (rows : List CookieRow) (out : List (Text × Text))
      → open_rows aead public_suffix show_id context rows ≡ some out
      → (pair : Text × Text) → Memᴰ pair out
      → Opened context rows pair
  unfolding open_rows cons_opened
  open_rows-Opened context [] out h pair m = let e : out ≡ [] = ground arith in elim (rw e at m) [ ]
  open_rows-Opened context (r ∷ rows) out h pair m =
      let sealed_under = cookie_aad aead public_suffix show_id context r.name r.domain r.path in
      elim (Option-cases (decrypt aead r.sealed sealed_under)) [
        | inl broken ↦ absurd (ground arith)
        | inr (plain, opened) ↦
            elim (Option-cases (open_rows aead public_suffix show_id context rows)) [
              | inl broken ↦ absurd (ground arith)
              | inr (l, rest) ↦
                  let e : out ≡ (r.name, plain) ∷ l = ground arith in
                  elim (mem-cases (rw e at m)) [
                    | inl here ↦ (
                      r,
                      Memᴰ.head refl,
                      ap (λ (p : Text × Text). p.0) here,
                      opened ∙ ap (λ (p : Text × Text). some p.1) (sym here),
                    )
                    | inr there ↦
                        let (q, n, name, value) = open_rows-Opened context rows l rest pair there in
                        (q, Memᴰ.tail n, name, value)
                  ]
            ]
      ]

  -- A target is sent only what the jar holds for it: from its own context, not expired, for its host and
  -- path, over HTTPS alone where the cookie is secure, and to scripts nothing that is HttpOnly.
  pub cookies-IsDue :
      (fails : Bool) (now context : ℕ) (target : Url) (visible_only : Bool) (jar : List CookieRow)
      (out : List (Text × Text))
      → cookies aead public_suffix show_id fails now context target visible_only jar ≡ some out
      → (pair : Text × Text) → Memᴰ pair out
      → (r : CookieRow) × Memᴰ r jar × (pair.0 ≡ r.name) × IsDue now context target visible_only r
  unfolding cookies
  cookies-IsDue fails now context target visible_only jar out h pair m =
      let (r, n, name, opened) = open_rows-Opened context _ out (ground arith) pair m in
      let (n1, sent) = filter-mem (is_sent target visible_only) _ n in
      let (n2, stored) = filter-mem (is_stored now context) jar n1 in
      (r, n2, name, is_sent-IsDue now context target visible_only r stored sent)
