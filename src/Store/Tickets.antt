-- ===== src/Store/Tickets.antt =====
-- Tickets: what a ticket opens, and that it opens it once.
use tvpn.Base.{
  Bool, Bool-cases, List, Option, [], any, arith, err, false, find, inl, inr, list_eq, nat_eq, none,
  ok, refl, some, text_eq_self, update_where, ℕ, ◌+◌, ◌<◌, ◌==◌, ◌∷◌, ◌≡◌, ◌≤◌,
}
use tvpn.Store.{
  Db, StoreError, Ticket, authenticate_proxy, consume_ticket, create_ticket, is_live_ticket,
  mark_used, no_rows, statement_failed, ticket_ttl,
}
use tvpn.Text.{Text}

-- Every statement of the operation succeeds.
abbrev pub no_fault : ℕ → Bool
no_fault n = false

module _ (hash : Text → Text) (token : Text) where
  -- After the update no row is live at a later time: what was live is used, what was expired stays so.
  find-used :
      (fails fails' : ℕ → Bool) (now now' : ℕ) (l : List Ticket)
      → now ≤ now'
      → find
          (is_live_ticket hash fails' now' token)
          (update_where (is_live_ticket hash fails now token) (mark_used hash fails now) l)
        ≡ none
  find-used fails fails' now now' [] h = refl
  find-used fails fails' now now' (t ∷ l) h = ground (arith, find-used fails fails' now now' l h)

  consume_ticket-tickets :
      (fails : ℕ → Bool) (db : Db) (now ttl : ℕ) (fresh : Option Text) (out : Db × Text × ℕ × ℕ)
      → consume_ticket hash fails db now fresh ttl token ≡ ok out
      → out.0.tickets
        ≡ update_where (is_live_ticket hash fails now token) (mark_used hash fails now) db.tickets
  unfolding consume_ticket
  consume_ticket-tickets fails db now ttl fresh out h = ground arith

  -- Where no live ticket has the token, the operation fails.
  consume_ticket-refused :
      (fails : ℕ → Bool) (db : Db) (now ttl : ℕ) (fresh : Option Text)
      → find (is_live_ticket hash fails now token) db.tickets ≡ none
      → (e : StoreError) × (consume_ticket hash fails db now fresh ttl token ≡ err e)
  unfolding consume_ticket
  consume_ticket-refused fails db now ttl fresh h = elim (Bool-cases (fails 0)) [
    | inl fault ↦ (statement_failed, ground arith)
    | inr begun ↦ elim (Bool-cases (fails 1)) [
      | inl fault ↦ (statement_failed, ground arith)
      | inr updated ↦ (no_rows, ground arith)
    ]
  ]

  -- A ticket is used at most once: where it has been consumed, consuming it at the same time or later
  -- fails, whatever the other circumstances.
  pub consume_ticket-once :
      (fails fails' : ℕ → Bool) (db : Db) (now now' ttl ttl' : ℕ) (fresh fresh' : Option Text)
      (out : Db × Text × ℕ × ℕ)
      → consume_ticket hash fails db now fresh ttl token ≡ ok out
      → now ≤ now'
      → (e : StoreError) × (consume_ticket hash fails' out.0 now' fresh' ttl' token ≡ err e)
  consume_ticket-once fails fails' db now now' ttl ttl' fresh fresh' out h later =
      consume_ticket-refused fails' out.0 now' ttl' fresh' (
        rw (consume_ticket-tickets fails db now ttl fresh out h)
          (find-used fails fails' now now' db.tickets later))

  -- The session that a ticket opens is the session of the ticket's user: until it expires its token
  -- authenticates that user.
  pub consume_ticket-authenticates :
      (fails : ℕ → Bool) (db : Db) (now now' ttl : ℕ) (fresh : Option Text)
      (out : Db × Text × ℕ × ℕ)
      → consume_ticket hash fails db now fresh ttl token ≡ ok out
      → now' < now + ttl
      → authenticate_proxy hash no_fault out.0 now' out.1 ≡ ok out.2
  unfolding consume_ticket authenticate_proxy
  consume_ticket-authenticates fails db now now' ttl fresh out h early =
      ground (arith, text_eq_self (hash out.1))

  abbrev new_ticket : ℕ → ℕ → ℕ → Ticket
  new_ticket now user context = record {
    token_hash = hash token;
    user_id = user;
    context_id = context;
    expires_at = now + ticket_ttl;
    used_at = none;
  }

  create_ticket-tickets :
      (fails : ℕ → Bool) (db db' : Db) (now user context : ℕ) (fresh : Option Text)
      → create_ticket hash fails db now fresh user context ≡ ok (db', token)
      → (db'.tickets ≡ new_ticket now user context ∷ db.tickets)
        × (any (λ t. t.token_hash == hash token) db.tickets ≡ false)
  unfolding create_ticket
  create_ticket-tickets fails db db' now user context fresh h = (ground arith, ground arith)

  find-unknown :
      (fails : ℕ → Bool) (now : ℕ) (l : List Ticket)
      → any (λ t. t.token_hash == hash token) l ≡ false
      → find (is_live_ticket hash fails now token) l ≡ none
  find-unknown fails now [] h = refl
  find-unknown fails now (t ∷ l) h = ground (arith, find-unknown fails now l)

  abbrev pub opened : Db → ℕ → ℕ → ℕ → ℕ → Text → Db
  opened db' now now' ttl user session = record db' {
    tickets =
        update_where (is_live_ticket hash no_fault now' token) (mark_used hash no_fault now')
          db'.tickets;
    sessions =
        record { token_hash = hash session; user_id = user; expires_at = now' + ttl }
        ∷ db'.sessions;
  }

  -- Until two minutes have passed a new ticket opens a session of its user in its context, if no
  -- statement fails and the random session token is not in use.
  pub create_ticket-consume :
      (fails : ℕ → Bool) (db db' : Db) (now now' ttl user context : ℕ) (fresh : Option Text)
      (session : Text)
      → create_ticket hash fails db now fresh user context ≡ ok (db', token)
      → now' < now + ticket_ttl
      → any (λ s. s.token_hash == hash session) db'.sessions ≡ false
      → consume_ticket hash no_fault db' now' (some session) ttl token
        ≡ ok (opened db' now now' ttl user session, session, user, context)
  unfolding consume_ticket
  create_ticket-consume fails db db' now now' ttl user context fresh session h early free =
      let shape = (create_ticket-tickets fails db db' now user context fresh h).0 in
      ground (arith, text_eq_self (hash token), shape)

  -- From two minutes on it opens nothing.
  pub create_ticket-expired :
      (fails fails' : ℕ → Bool) (db db' : Db) (now now' ttl user context : ℕ)
      (fresh fresh' : Option Text)
      → create_ticket hash fails db now fresh user context ≡ ok (db', token)
      → now + ticket_ttl ≤ now'
      → (e : StoreError) × (consume_ticket hash fails' db' now' fresh' ttl token ≡ err e)
  create_ticket-expired fails fails' db db' now now' ttl user context fresh fresh' h late =
      let (shape, unknown) = create_ticket-tickets fails db db' now user context fresh h in
      consume_ticket-refused fails' db' now' ttl fresh'
        (rw shape (ground (arith, find-unknown fails' now' db.tickets unknown)))
