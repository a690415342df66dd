-- ===== src/Teams/Rights.antt =====
-- Who may remove members, and who becomes a member by an invitation.
use ullav_user_management.Prelude.{
  ℕ, ◌≤◌, ◌≡◌, ◌≢◌, ◌↔◌, refl, sym, ap, ◌∙◌, ◌⊎◌, inl, inr, true, false, not, Option, none, some,
  List, ◌==◌, arith, any, find, update_where, String, Bool-cases, Option-cases, Mem, to_eq,
  find-none, of_update, of_find,
}
use ullav_user_management.Errors.{ok, err, forbidden, invalid_token}
use ullav_user_management.Exec.Keeps.{guard-passed}
use ullav_user_management.Accounts.{Claims, caller_id}
use ullav_user_management.Teams.{Team, Member, TeamDb, is_member}
use ullav_user_management.Teams.Store.{get_team_ownership}
use ullav_user_management.Teams.Members.{
  has_token, get_team_member_by_token, accept_team_invitation, remove_team_member,
  assign_all_role_to_member, accepted,
}
use ullav_user_management.Teams.Handlers.{
  remove_member, accept_invitation, decline_invitation, expired,
}

expired_iff : (now : ℕ) (e : Option ℕ) → (expired now e ≡ false) ↔ ((t : ℕ) → e ≡ some t → now ≤ t)
expired_iff now none = ground arith
expired_iff now (some t) = (λ h t' e. ground arith, λ h. let k = h t refl in ground (arith, k))

-- The row that was accepted has no token, and the others have other tokens.
no_token :
    (token : String) (now : ℕ) (m : Member) (ms : List Member)
    → ((n : Member) → Mem n ms → has_token token n ≡ true → n.id ≡ m.id)
    → find (has_token token) (update_where (λ n. n.id == m.id) (accepted now) ms) ≡ none
no_token token now m ms unique = find-none (has_token token) _ impossible
  where
    impossible :
        (x : Member)
        → Mem x (update_where (λ n. n.id == m.id) (accepted now) ms)
        → has_token token x ≡ true
        → ⊥
    impossible x i k =
        let (y, yi, e) = of_update (λ n. n.id == m.id) (accepted now) x ms i in
        elim (Bool-cases (y.id == m.id)) [
          | inl same ↦
              let x_new = rw same at e in absurd (ground (arith, ap (has_token token) x_new ∙ k))
          | inr other ↦
              let x_old = rw other at e in
              absurd (cc (other, to_eq (unique y yi (ap (has_token token) x_old ∙ k))))
        ]

refused :
    (token : String) (later : ℕ) (db : TeamDb)
    → find (has_token token) db.members ≡ none
    → (claims : Option Claims) (c : ℕ) → caller_id claims ≡ ok c
    → ((accept_invitation claims token later db).0 ≡ err invalid_token)
      × ((decline_invitation claims token db).0 ≡ err invalid_token)
unfolding accept_invitation decline_invitation get_team_member_by_token
refused token later db gone claims c known = (rw (known, gone) refl, rw (known, gone) refl)

module _ (claims : Option Claims) (caller : ℕ) (db : TeamDb)
    (known : caller_id claims ≡ ok caller) where
  -- Where the caller is known and the team exists, the caller removes a member exactly if the caller is that member, the team's owner or
  -- its leader, the member is not the owner, and there is such a member.
  pub remove_member_iff :
      (team_id target : ℕ) (t : Team)
      → find (λ t. t.id == team_id) db.teams ≡ some t
      → ((remove_member claims team_id target db).0 ≡ ok tt) ↔ (
          ((caller ≡ target) ⊎ (caller ≡ t.owner_id) ⊎ (caller ≡ t.leader_id))
          × (target ≢ t.owner_id)
          × (any (is_member team_id target) db.members ≡ true))
  unfolding remove_member get_team_ownership remove_team_member
  remove_member_iff team_id target t found = rw (known, found) (ground arith)

  -- Where a membership has the token, a known caller accepts the invitation exactly if the membership is the
  -- caller's and the token has not expired.
  pub accept_invitation_iff :
      (token : String) (now : ℕ) (m : Member)
      → find (has_token token) db.members ≡ some m
      → ((accept_invitation claims token now db).0 ≡ ok tt)
        ↔ ((m.user_id ≡ caller) × ((t : ℕ) → m.invite_token_expires_at ≡ some t → now ≤ t))
  unfolding accept_invitation get_team_member_by_token accept_team_invitation
  accept_invitation_iff token now m found =
      rw (known, found) (ground (arith, expired_iff now m.invite_token_expires_at))

  consumed :
      (token : String) (now : ℕ)
      → ((m n : Member)
          → Mem m db.members
          → Mem n db.members
          → has_token token m ≡ true
          → has_token token n ≡ true
          → m.id ≡ n.id)
      → (accept_invitation claims token now db).0 ≡ ok tt
      → find (has_token token) (accept_invitation claims token now db).1.members ≡ none
  unfolding accept_invitation get_team_member_by_token accept_team_invitation
      assign_all_role_to_member
  consumed token now unique done = elim (Option-cases (find (has_token token) db.members)) [
    | inl e ↦ absurd (ground (arith, (rw (known, e) at done)))
    | inr (m, e) ↦
        let (i, k) = of_find (has_token token) m db.members e in
        let done2 = rw (known, e) at done in
        let first = guard-passed (not (m.user_id == caller)) forbidden _ db tt done2 in
        let second =
          guard-passed (expired now m.invite_token_expires_at) invalid_token _ db tt
            (ap (λ r. r.0) (sym first) ∙ done2) in
        rw (known, e)
          (ap (λ r. find (has_token token) r.1.members) (first ∙ second)
            ∙ no_token token now m db.members (λ n j l. unique n m j i l k))
  ]

  -- An accepted invitation cannot be accepted or declined again: where no two members have one token, the next request
  -- with the token is refused as invalid, whichever known caller sends it.
  pub accept_invitation_once :
      (token : String) (now later : ℕ)
      → ((m n : Member)
          → Mem m db.members
          → Mem n db.members
          → has_token token m ≡ true
          → has_token token n ≡ true
          → m.id ≡ n.id)
      → (accept_invitation claims token now db).0 ≡ ok tt
      → (other : Option Claims) (c : ℕ) → caller_id other ≡ ok c
      → ((accept_invitation other token later (accept_invitation claims token now db).1).0
          ≡ err invalid_token)
        × ((decline_invitation other token (accept_invitation claims token now db).1).0
            ≡ err invalid_token)
  accept_invitation_once token now later unique done other c known_other =
      refused token later (accept_invitation claims token now db).1 (consumed token now unique done)
        other c known_other
