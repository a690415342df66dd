-- ===== src/Teams/Sync/Memberships.antt =====
-- The functions on memberships keep the invariant, on every path.
use ullav_user_management.Prelude.{
  ℕ, ◌+◌, ◌≡◌, refl, sym, ap, subst, ◌∙◌, inl, inr, Bool, true, false, not, ◌||◌, Option, none,
  some, List, [], ◌∷◌, ◌==◌, to_eq, of_eq, to_and, arith, any, find, select, update_where, Mem,
  of_any, of_find, of_update, Bool-cases, String,
}
use ullav_user_management.Errors.{conflict, database, not_found}
use ullav_user_management.Exec.{modify, or_fail, transaction, ◌>>=◌}
use ullav_user_management.Exec.Keeps.{after-fail_if, after-guard}
use ullav_user_management.Teams.{Member, TeamDb, is_active, has_team, is_member}
use ullav_user_management.Accounts.{User, has_user}
use ullav_user_management.Teams.Members.{
  direct_member, activate_member, has_token, accepted, activated, is_pending, add_member_roles,
  assign_all_role_to_member, invite_team_member, add_team_member_active, accept_team_invitation,
  decline_team_invitation, remove_team_member, refresh_invite_token,
}
use ullav_user_management.Teams.Sync.{Synced}
use ullav_user_management.Teams.Sync.Tables.{cascade-Synced, members-selected}
use ullav_user_management.Teams.Sync.Updates.{kept, members-updated}
use ullav_user_management.Teams.Sync.Activation.{
  member-added, assigned, member-activated, add_member_roles-keeps,
}

any-or :
    {A : Type 0} (p q : A → Bool) (xs : List A)
    → any (λ x. p x || q x) xs ≡ false
    → any p xs ≡ false
any-or p q [] h = refl
any-or p q (x ∷ xs) h = ground (arith, any-or p q xs)

of_is_member : (t u : ℕ) (m : Member) → is_member t u m ≡ true → (m.team_id ≡ t) × (m.user_id ≡ u)
of_is_member t u m e = ground arith

first_found :
    (t u : ℕ) (n m : Member)
    → n.team_id ≡ t
    → n.user_id ≡ u
    → (ms : List Member) → find (is_member t u) (n ∷ ms) ≡ some m
    → n ≡ m
first_found t u n m e d ms found = some_injective (rw (to_and (to_eq e) (to_eq d)) at found)
  where
    some_injective : some n ≡ some m → n ≡ m
    some_injective e = ground arith

module _ (db : TeamDb) (h : Synced db) where
  pub invite_team_member-Synced :
      (team_id user_id invited_by : ℕ) (token : String) (expires_at now : ℕ)
      → Synced (invite_team_member team_id user_id invited_by token expires_at now db).1
  unfolding invite_team_member
  invite_team_member-Synced team_id user_id invited_by token expires_at now =
      after-guard Synced (any (λ m. is_member team_id user_id m || has_token token m) db.members)
        conflict _ db h
        λ free.
          after-guard Synced (not (has_team db.teams team_id)) (database "foreign_key_violation") _
            db h
            λ found.
              member-added h.0 h.1 _ db.member_roles (ground (arith, found))
                (any-or (is_member team_id user_id) (has_token token) db.members free) (λ x i. i)
                (λ a. absurd (ground (arith, a)))

  pub decline_team_invitation-Synced :
      (member_id : ℕ) → Synced (decline_team_invitation member_id db).1
  unfolding decline_team_invitation
  decline_team_invitation-Synced member_id =
      cascade-Synced (record db { members = select (λ m. not (m.id == member_id)) db.members })
        (members-selected h.0 (λ m. not (m.id == member_id)))

  pub remove_team_member-Synced :
      (team_id user_id : ℕ) → Synced (remove_team_member team_id user_id db).1
  unfolding remove_team_member
  remove_team_member-Synced team_id user_id =
      after-fail_if Synced (not (any (is_member team_id user_id) db.members)) not_found _ (
        cascade-Synced
          (record db { members = select (λ m. not (is_member team_id user_id m)) db.members })
          (members-selected h.0 (λ m. not (is_member team_id user_id m))))

  pub refresh_invite_token-Synced :
      (team_id user_id : ℕ) (token : String) (expires_at now : ℕ)
      → Synced (refresh_invite_token team_id user_id token expires_at now db).1
  unfolding refresh_invite_token
  refresh_invite_token-Synced team_id user_id token expires_at now =
      after-fail_if Synced (not (any (is_pending team_id user_id) db.members)) not_found _ (
        members-updated h.0 (is_pending team_id user_id) _ (λ m. refl) (λ m. refl) (λ m. refl)
          (λ m. refl) h.1)

  pub accept_team_invitation-Synced :
      (member_id now : ℕ) → Synced (accept_team_invitation member_id now db).1
  unfolding accept_team_invitation assign_all_role_to_member
  accept_team_invitation-Synced member_id now =
      member-activated h.0 h.1 (λ m. m.id == member_id) (accepted now) member_id (λ m. refl)
        (λ m. refl) (λ m. refl) (λ m i e. of_eq e)

  add_existing :
      (team_id user_id now : ℕ) (m : Member)
      → find
          (is_member team_id user_id)
          (update_where (is_member team_id user_id) (activated now) db.members)
        ≡ some m
      → Synced (
          assign_all_role_to_member m.id (record db {
            members = update_where (is_member team_id user_id) (activated now) db.members;
          }))
  unfolding assign_all_role_to_member
  add_existing team_id user_id now m found =
      member-activated h.0 h.1 (is_member team_id user_id) (activated now) m.id (λ m. refl)
        (λ m. refl) (λ m. refl) same_row
    where
      same_row : (n : Member) → Mem n db.members → is_member team_id user_id n ≡ true → n.id ≡ m.id
      same_row n i e =
          let (mi, mk) = of_find (is_member team_id user_id) m _ found in
          let (m', m'i, m'e) =
            of_update (is_member team_id user_id) (activated now) m db.members mi in
          let (nt, nu) = of_is_member team_id user_id n e in
          let (mt, mu) = of_is_member team_id user_id m mk in
          let b = is_member team_id user_id m' in
          h.0.one_row n m' i m'i
            (nt
              ∙ sym mt
              ∙ ap (λ (m : Member). m.team_id) (sym m'e)
              ∙ kept (λ (m : Member). m.team_id) b refl)
            (nu
              ∙ sym mu
              ∙ ap (λ (m : Member). m.user_id) (sym m'e)
              ∙ kept (λ (m : Member). m.user_id) b refl)
          ∙ sym (kept (λ (m : Member). m.id) b refl)
          ∙ ap (λ (m : Member). m.id) m'e

  add_new :
      (team_id user_id : ℕ) (m : Member)
      → m.team_id ≡ team_id
      → m.user_id ≡ user_id
      → is_active m.status ≡ true
      → has_team db.teams team_id ≡ true
      → any (is_member team_id user_id) db.members ≡ false
      → Synced (
          assign_all_role_to_member m.id
            (record db { members = m ∷ db.members; next_id = db.next_id + 1 }))
  unfolding assign_all_role_to_member
  add_new team_id user_id m t u a found free =
      let (team, i, e) = of_any (λ t. t.id == team_id) db.teams found in
      member-added h.0 h.1 m (add_member_roles db.roles m.id (m ∷ db.members) db.member_roles)
        (rw t found) (rw (t, u) free)
        (add_member_roles-keeps db.roles m.id (m ∷ db.members) db.member_roles)
        (λ a. assigned h.0 h.1 (m ∷ db.members) m (inl refl) a (team, i, of_eq e ∙ sym t))

  activate_then_assign :
      (team_id user_id added_by now : ℕ)
      → has_team db.teams team_id ≡ true
      → (b : Bool) → any (is_member team_id user_id) db.members ≡ b
      → (m : Member)
      → find (is_member team_id user_id) (activate_member team_id user_id added_by now db).members
        ≡ some m
      → Synced (assign_all_role_to_member m.id (activate_member team_id user_id added_by now db))
  activate_then_assign team_id user_id added_by now team true e m found =
      rw e (add_existing team_id user_id now m (rw e at found))
  activate_then_assign team_id user_id added_by now team false e m found =
      let n = direct_member db.next_id team_id user_id added_by now in
      rw e (
        subst
          (λ (m : Member). Synced (
            assign_all_role_to_member m.id
              (record db { members = n ∷ db.members; next_id = db.next_id + 1 })))
          (first_found team_id user_id n m refl refl db.members (rw e at found))
          (add_new team_id user_id n refl refl refl team e))

  -- Without a row the transaction is rolled back.
  finish :
      (mid : TeamDb) (row : Option Member)
      → ((m : Member) → row ≡ some m → Synced (assign_all_role_to_member m.id mid))
      → Synced
          (transaction
            (λ _.
              (or_fail row (database "no row") >>= λ m. modify (assign_all_role_to_member m.id))
                mid)
            db).1
  finish mid none next = h
  finish mid (some m) next = next m refl

  pub add_team_member_active-Synced :
      (users : List User) (team_id user_id added_by now : ℕ)
      → Synced (add_team_member_active users team_id user_id added_by now db).1
  unfolding add_team_member_active
  add_team_member_active-Synced users team_id user_id added_by now =
      elim (Bool-cases (has_user users user_id)) [
        | inr u ↦ rw u h
        | inl u ↦ elim (Bool-cases (has_team db.teams team_id)) [
          | inl team ↦
              rw (u, team)
                (finish (activate_member team_id user_id added_by now db)
                  (find (is_member team_id user_id)
                    (activate_member team_id user_id added_by now db).members)
                  (activate_then_assign team_id user_id added_by now team _ refl))
          | inr no_team ↦ rw (u, no_team) h
        ]
      ]
