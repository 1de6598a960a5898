-- ===== src/Store/Labels.antt =====
-- routeLabel, parseLabel and RouteByLabel: a route is addressed by a label, its identifier without
-- dashes, as the first part of a host name.
use tvpn.Base.{
  All, Bool, Option, Result, [], ap, arith, drop, drop-add, drop_exact, err, false, find,
  if◌then◌else◌, length, length-append, list_eq, nat_eq, none, ok, refl, some, take, take_exact, ℕ,
  ◌!=◌, ◌&&◌, ◌++◌, ◌-◌, ◌==◌, ◌>>=◌, ◌>>◌, ◌∙◌, ◌∷◌, ◌≡◌,
}
use tvpn.Store.{Context, Db, Route, RouteRow, StoreError, exec, invalid_label, row}
use tvpn.Text.{Text, text}

-- strings.ReplaceAll(id.String(), "-", "")
unfoldable pub route_label : Text → Text
route_label [] = []
route_label (c ∷ s) = let rest = route_label s in if c == b'-' then rest else c ∷ rest

-- value[a:b]
abbrev slice : ℕ → ℕ → Text → Text
slice a b value = take (b - a) (drop a value)

-- The text that `uuid.Parse` reads; `parse` is that function.
unfoldable pub parse_label : (Text → Option ℕ) → Text → Result StoreError ℕ
parse_label parse value =
    if length value != 32
    then err invalid_label
    else elim (parse (
        slice 0 8 value
        ++ (text "-"
            ++ (slice 8 12 value
                ++ (text "-"
                    ++ (slice 12 16 value
                        ++ (text "-" ++ (slice 16 20 value ++ (text "-" ++ drop 20 value))))))))) [
                          | none ↦ err invalid_label
                          | some id ↦ ok id
                        ]

-- Only digits and letters: no byte is a dash.
abbrev pub HasNoDash : Text → Type 0
HasNoDash s = All (λ c. c == b'-' ≡ false) s

route_label-append : (s t : Text) → route_label (s ++ t) ≡ route_label s ++ route_label t
unfolding route_label
route_label-append [] t = refl
route_label-append (c ∷ s) t = ground (arith, route_label-append s t)

route_label_self : (s : Text) → HasNoDash s → route_label s ≡ s
unfolding route_label
route_label_self [] h = refl
route_label_self (c ∷ s) h = rw (h.0, route_label_self s h.1)

module _ (a b c d e : Text) where
  -- The text of a UUID.
  abbrev pub dashed : Text
  dashed = a ++ (text "-" ++ (b ++ (text "-" ++ (c ++ (text "-" ++ (d ++ (text "-" ++ e)))))))

  pub record IsUuid : Type 0 where
    pub plain_a : HasNoDash a
    pub plain_b : HasNoDash b
    pub plain_c : HasNoDash c
    pub plain_d : HasNoDash d
    pub plain_e : HasNoDash e
    pub len_a : length a ≡ 8
    pub len_b : length b ≡ 4
    pub len_c : length c ≡ 4
    pub len_d : length d ≡ 4
    pub len_e : length e ≡ 12

  route_label-dashed : IsUuid → route_label dashed ≡ a ++ (b ++ (c ++ (d ++ e)))
  route_label-dashed u =
      simp
        (
          route_label-append,
          route_label_self a u.plain_a,
          route_label_self b u.plain_b,
          route_label_self c u.plain_c,
          route_label_self d u.plain_d,
          route_label_self e u.plain_e,
        )
        (unfold route_label in refl)

  drops :
      IsUuid
      → (drop 8 (a ++ (b ++ (c ++ (d ++ e)))) ≡ b ++ (c ++ (d ++ e)))
        × (drop 12 (a ++ (b ++ (c ++ (d ++ e)))) ≡ c ++ (d ++ e))
        × (drop 16 (a ++ (b ++ (c ++ (d ++ e)))) ≡ d ++ e)
        × (drop 20 (a ++ (b ++ (c ++ (d ++ e)))) ≡ e)
  drops u =
      let d8 = drop_exact 8 a (b ++ (c ++ (d ++ e))) u.len_a in
      let d12 =
        drop-add 8 4 (a ++ (b ++ (c ++ (d ++ e))))
        ∙ (ap (drop 4) d8 ∙ drop_exact 4 b (c ++ (d ++ e)) u.len_b) in
      let d16 =
        drop-add 12 4 (a ++ (b ++ (c ++ (d ++ e))))
        ∙ (ap (drop 4) d12 ∙ drop_exact 4 c (d ++ e) u.len_c) in
      let d20 =
        drop-add 16 4 (a ++ (b ++ (c ++ (d ++ e))))
        ∙ (ap (drop 4) d16 ∙ drop_exact 4 d e u.len_d) in
      (d8, d12, d16, d20)

  label_length : IsUuid → length (a ++ (b ++ (c ++ (d ++ e)))) ≡ 32
  label_length u = omega (
    arith,
    length-append a (b ++ (c ++ (d ++ e))),
    length-append b (c ++ (d ++ e)),
    length-append c (d ++ e),
    length-append d e,
  )

  -- Reading a label gives back the identifier whose label it is.
  pub parse_label-route_label :
      (parse : Text → Option ℕ) (id : ℕ)
      → IsUuid
      → parse dashed ≡ some id
      → parse_label parse (route_label dashed) ≡ ok id
  unfolding parse_label
  parse_label-route_label parse id u h =
      let (d8, d12, d16, d20) = drops u in
      let t0 = take_exact 8 a (b ++ (c ++ (d ++ e))) u.len_a in
      let t8 = take_exact 4 b (c ++ (d ++ e)) u.len_b in
      let t12 = take_exact 4 c (d ++ e) u.len_c in
      let t16 = take_exact 4 d e u.len_d in
      rw (route_label-dashed u, label_length u) (simp (d8, d12, d16, d20, t0, t8, t12, t16, h))

module _ (parse : Text → Option ℕ) (fails : ℕ → Bool) where
  unfoldable pub joined : RouteRow → Context → Route
  joined r c = record {
    id = r.id;
    context_id = r.context_id;
    user_id = c.user_id;
    scheme = r.scheme;
    host = r.host;
    port = r.port;
    current_url = c.current_url;
    upstream_proxy_id = c.upstream_proxy_id;
    compatibility_mode = c.compatibility_mode;
  }

  -- Store.RouteByLabel
  unfoldable pub route_by_label : Db → Text → Result StoreError Route
  unfolding joined
  route_by_label db label = do
    id ← parse_label parse label
    exec (fails 0) tt
    r ← row (find (λ r. r.id == id) db.routes)
    c ← row (find (λ c. c.id == r.context_id && c.is_open) db.contexts)
    ok (joined r c)
