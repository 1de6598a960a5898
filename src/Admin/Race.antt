-- ===== src/Admin/Race.antt =====
-- Two requests to updateUser of internal/admin/http.go that run at the same time: the guard and the UPDATE
-- of each are single steps, but they are no transaction. No statement fails.
use tvpn.Admin.{
  AdminDb, Answer, UserChange, apply_change, audit, changed_by, check_last_admin, has_user_id,
  is_active_admin, no_content, succeeded, with_users,
}
use tvpn.Admin.Counts.{count_where-any, count_where-le, count_where-removed, count_where-same}
use tvpn.Auth.{User}
use tvpn.Auth.Sessions.{no_failure}
use tvpn.Base.{
  List, [], any, arith, count_where, false, none, ok, refl, some, true, update_where, ℕ, ◌&&◌, ◌+◌,
  ◌∙◌, ◌∷◌, ◌≡◌, ◌≢◌, ◌≤◌,
}
use tvpn.Ldap.{first}
use tvpn.Text.{Text, text}

pub data Phase : Type 0 where
  waiting checked finished : Phase

pub record RaceState : Type 0 where
  pub db : AdminDb
  pub first_phase : Phase
  pub second_phase : Phase

-- The request that takes the rights of an administrator away.
abbrev pub demotion : UserChange
demotion = record { display_name = none; email = none; is_admin = some false; disabled = none }

module _ (actor : ℕ) (show_id : ℕ → Text) (a b : ℕ) where
  abbrev Passes : AdminDb → ℕ → Type 0
  Passes db id = check_last_admin actor show_id no_failure db id demotion ≡ ok tt

  abbrev Updates : AdminDb → ℕ → Answer → Type 0
  Updates db id after = apply_change actor show_id no_failure db id demotion ≡ ok after

  -- A step of one of the requests: for the user `a` the first, for `b` the second.
  pub data Step : RaceState → RaceState → Type 0 where
    check_first :
        {s : RaceState}
        → s.first_phase ≡ waiting
        → Passes s.db a
        → Step s (record s { first_phase = checked })
    check_second :
        {s : RaceState}
        → s.second_phase ≡ waiting
        → Passes s.db b
        → Step s (record s { second_phase = checked })
    apply_first :
        {s : RaceState} {after : Answer}
        → s.first_phase ≡ checked
        → Updates s.db a after
        → Step s (record s { db = after.0; first_phase = finished })
    apply_second :
        {s : RaceState} {after : Answer}
        → s.second_phase ≡ checked
        → Updates s.db b after
        → Step s (record s { db = after.0; second_phase = finished })

  pub data Steps : RaceState → RaceState → Type 0 where
    no_step : {s : RaceState} → Steps s s
    then_step : {s t u : RaceState} → Step s t → Steps t u → Steps s u

  abbrev pub begun : AdminDb → RaceState
  begun db = record { db = db; first_phase = waiting; second_phase = waiting }

  passed-check :
      (db : AdminDb) (id : ℕ) → 2 ≤ count_where is_active_admin db.accounts.users → Passes db id
  unfolding check_last_admin
  passed-check db id two = ground arith

  abbrev demoted : ℕ → List User → List User
  demoted id users = update_where (has_user_id id) (changed_by demotion) users

  -- A demotion takes exactly one administrator away.
  demoted-count :
      (id : ℕ) (users : List User)
      → count_where (has_user_id id) users ≤ 1
      → any (λ u. has_user_id id u && is_active_admin u) users ≡ true
      → count_where is_active_admin (demoted id users) + 1 ≡ count_where is_active_admin users
  unfolding changed_by
  demoted-count id users key active = ground (
    arith,
    count_where-removed is_active_admin (has_user_id id) (changed_by demotion) users (λ u. refl),
    count_where-any is_active_admin (has_user_id id) users active,
    count_where-le is_active_admin (has_user_id id) users,
  )

  -- A demotion does not touch another user.
  other-active :
      (users : List User)
      → a ≢ b
      → any (λ u. has_user_id b u && is_active_admin u) (demoted a users)
        ≡ any (λ u. has_user_id b u && is_active_admin u) users
  unfolding changed_by
  other-active [] differ = refl
  other-active (u ∷ users) differ = ground (arith, other-active users differ)

  other-key :
      (users : List User)
      → count_where (has_user_id b) (demoted a users) ≡ count_where (has_user_id b) users
  unfolding changed_by
  other-key users =
      count_where-same (has_user_id b) (has_user_id a) (changed_by demotion) users (λ u h. refl)

  -- Two administrators, demoted one after the other.
  both-demoted :
      (users : List User)
      → ((id : ℕ) → count_where (has_user_id id) users ≤ 1)
      → a ≢ b
      → any (λ u. has_user_id a u && is_active_admin u) users ≡ true
      → any (λ u. has_user_id b u && is_active_admin u) users ≡ true
      → count_where is_active_admin users ≡ 2
      → count_where is_active_admin (demoted b (demoted a users)) ≡ 0
  both-demoted users keys differ first second two =
      let one = demoted-count a users (keys a) first in
      let key : count_where (has_user_id b) (demoted a users) ≤ 1 = rw (other-key users) (keys b) in
      let none_left = demoted-count b (demoted a users) key (other-active users differ ∙ second) in
      omega (arith, one, none_left, two)

  abbrev changed : AdminDb → ℕ → Answer
  changed db id = (
    succeeded actor show_id no_failure 3 (with_users db (demoted id db.accounts.users))
        (text "user.update") id,
    no_content,
  )

  changed-Updates : (db : AdminDb) (id : ℕ) → Updates db id (changed db id)
  unfolding apply_change
  changed-Updates db id = refl

  changed-users :
      (db : AdminDb) (id : ℕ) → (changed db id).0.accounts.users ≡ demoted id db.accounts.users
  unfolding audit
  changed-users db id = refl

  -- Where two users are the only enabled administrators, two requests that each demote one of them can
  -- both succeed and leave none: both guards run before either UPDATE.
  pub Steps-unstaffed :
      (db : AdminDb)
      → ((id : ℕ) → count_where (has_user_id id) db.accounts.users ≤ 1)
      → a ≢ b
      → any (λ u. has_user_id a u && is_active_admin u) db.accounts.users ≡ true
      → any (λ u. has_user_id b u && is_active_admin u) db.accounts.users ≡ true
      → count_where is_active_admin db.accounts.users ≡ 2
      → (s : RaceState) × Steps (begun db) s
        × (s.first_phase ≡ finished)
        × (s.second_phase ≡ finished)
        × (count_where is_active_admin s.db.accounts.users ≡ 0)
  Steps-unstaffed db keys differ first second two =
      let guards = passed-check db in
      let middle = (changed db a).0 in
      let done : RaceState = record {
        db = (changed middle b).0;
        first_phase = finished;
        second_phase = finished;
      } in
      (
        done,
        then_step (check_first refl (guards a (omega (arith, two)))) (
            then_step (check_second refl (guards b (omega (arith, two)))) (
              then_step (apply_first refl (changed-Updates db a))
                (then_step (apply_second refl (changed-Updates middle b)) no_step))),
        refl,
        refl,
        rw (changed-users middle b, changed-users db a)
            (both-demoted db.accounts.users keys differ first second two),
      )
