-- ===== src/Admin/Passwords.antt =====
-- setPassword of internal/admin/http.go and the sessions of the user.
use mathlib.Core.List.{Memᴰ}
use mathlib.Core.Path.{subst}
use tvpn.Admin.{AdminDb, audit, no_content, set_password}
use tvpn.Auth.{AuthDb, Session, SessionRow, User, enabled_user, session_by_token}
use tvpn.Base.{
  Bool, Option, Option-cases, arith, false, filter, filter-mem, find, find_sound, inl, inr, list_eq,
  ltb, nat_eq, not, ok, some, ℕ, ◌&&◌, ◌==◌, ◌≡◌, ◌≢◌,
}
use tvpn.Password.{Argon}
use tvpn.Store.{row}
use tvpn.Store.Tickets.{opened}
use tvpn.Text.{Text}

module _ (hash : Text → Text) (fails : ℕ → Bool) where
  -- A session that is opened is one of a stored row of its user.
  session_by_token-row :
      (db : AuthDb) (now : ℕ) (token : Text) (s : Session)
      → session_by_token hash fails db now token ≡ ok s
      → (row : SessionRow) × Memᴰ row db.sessions × (s.user.id ≡ row.user_id)
  unfolding session_by_token
  session_by_token-row db now token s h =
      let is_live = λ (r : SessionRow). r.token_hash == hash token && ltb now r.expires_at in
      elim (Option-cases (find is_live db.sessions)) [
        | inl no_row ↦ absurd (ground arith)
        | inr (row, e) ↦ elim (Option-cases (enabled_user hash fails db row.user_id)) [
          | inl no_user ↦ absurd (ground arith)
          | inr (user, found) ↦
              let (m, is_owner) =
                find_sound (λ (u : User). u.id == row.user_id && u.is_enabled) db.users found in
              (row, (find_sound is_live db.sessions e).0, ground arith)
        ]
      ]

module _ (actor : ℕ) (show_id : ℕ → Text) (fails : ℕ → Bool) (lib : Argon)
    (salt : Option Text) where
  set_password-sessions :
      (db : AdminDb) (id : ℕ) (password : Text)
      → fails 1 ≡ false
      → (set_password actor show_id fails lib salt db (some id) (some password)).1 ≡ no_content
      → (set_password actor show_id fails lib salt db (some id) (some password)).0.accounts.sessions
        ≡ filter (λ s. not (s.user_id == id)) db.accounts.sessions
  unfolding set_password audit
  set_password-sessions db id password ran h = ground arith

  -- After an administrator set a password, if the sessions could be deleted, no token of a browser session
  -- opens one of that user at any time.
  pub set_password-session_by_token :
      (hash : Text → Text) (fails' : ℕ → Bool) (db : AdminDb) (id now : ℕ) (password token : Text)
      (s : Session)
      → fails 1 ≡ false
      → (set_password actor show_id fails lib salt db (some id) (some password)).1 ≡ no_content
      → session_by_token hash fails'
          (set_password actor show_id fails lib salt db (some id) (some password)).0.accounts
          now
          token
        ≡ ok s
      → s.user.id ≢ id
  set_password-session_by_token hash fails' db id now password token s ran h opened same =
      let (row, mem, owner) = session_by_token-row hash fails' _ now token s opened in
      let (kept, other) =
        filter-mem (λ (r : SessionRow). not (r.user_id == id)) db.accounts.sessions
          (subst (λ l. Memᴰ row l) (set_password-sessions db id password ran h) mem) in
      absurd (ground arith)
