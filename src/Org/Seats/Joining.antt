-- ===== src/Org/Seats/Joining.antt =====
-- services/core/src/modules/org/org.routes.ts: what joining does to invitations and members.
use devops_lab.Prelude.{
  ◌≡◌, ◌≤◌, ◌<◌, refl, ap, ◌∙◌, Bool, true, false, ◌&&◌, inl, inr, some, String, List, [], ◌∷◌,
  string_eq, ltb, any, count, count-append, All, arith, update_where, Bool-cases, Option-cases,
  eq_self, suc,
}
use devops_lab.Services.{Prisma}
use devops_lab.Org.State.{
  OrgInvite, accepted, OrgState, OrgCaller, user_id_of, Organisation, is_org, is_member_of,
  invite_used,
}
use devops_lab.Org.Seats.{
  Join, join, join_with, accept_invite, joined, refused, has_token, has_invite_id, with_status,
  is_pending_invite, is_known_user, is_joined,
}

-- A test of the invitations that are still open under a token.
abbrev is_open : String → OrgInvite → Bool
is_open token i = has_token token i && is_pending_invite i.status

any-update-token :
    (token id : String) (rows : List OrgInvite)
    → any (has_token token) (update_where (has_invite_id id) (with_status accepted) rows)
      ≡ any (has_token token) rows
any-update-token token id [] = refl
any-update-token token id (i ∷ rows) =
    ground (arith, any-update-token token id rows, Bool-cases (has_invite_id id i))

none_open :
    (token id : String) (rows : List OrgInvite)
    → All (λ (j : OrgInvite). has_token token j ≡ true → has_invite_id id j ≡ true) rows
    → any (is_open token) (update_where (has_invite_id id) (with_status accepted) rows) ≡ false
none_open token id [] h = refl
none_open token id (i ∷ rows) h = elim (Bool-cases (has_token token i)) [
  | inl e ↦ let hit = h.0 e in ground (arith, none_open token id rows h.1, hit, e)
  | inr e ↦ ground (arith, none_open token id rows h.1, e, Bool-cases (has_invite_id id i))
]

module _ (P : Prisma) where
  count_rows-create :
      {Row : Type 0} (p : Row → Bool) (r : Row) (t : P.Table Row)
      → p r ≡ true
      → P.count_rows p (P.create r t) ≡ suc (P.count_rows p t)
  count_rows-create p r t h =
      let one : count p (r ∷ []) ≡ 1 = rw h refl in
      let split = count-append p (P.rows t) (r ∷ []) in
      let after = P.count_rows_lem p (P.create r t) ∙ ap (count p) (P.rows-create r t) in
      omega (arith, one, split, after, P.count_rows_lem p t)

  -- The invitations behind a use of a token, when the rows under the token are one.
  join_used :
      (q : Join) (c : OrgCaller) (token id : String) (s : OrgState P)
      → q.token ≡ token
      → any (has_token token) (P.rows s.invites) ≡ true
      → any (is_open token) (P.rows s.invites) ≡ false
      → join P q c s ≡ (s, refused invite_used)
  unfolding join join_with
  join_used q c token id s same there closed =
      elim (Option-cases (P.find_first (has_token token) s.invites)) [
        | inl e ↦ absurd (ground (arith, there, P.find_first-none (has_token token) s.invites e))
        | inr (j, e) ↦
            let found = P.find_first-some (has_token token) s.invites j e in
            elim (Bool-cases (is_pending_invite j.status)) [
              | inl p ↦
                  absurd (ground (arith, closed, found.1 (is_open token) (rw (found.0, p) refl)))
              | inr p ↦ rw (same, e, p, join, join_with) refl
            ]
      ]

  -- A join that succeeds was on an open invitation, by a user who became a member.
  join-joined :
      (q : Join) (c : OrgCaller) (i : OrgInvite) (s : OrgState P)
      → P.find_first (has_token q.token) s.invites ≡ some i
      → (join P q c s).1 ≡ joined
      → (join P q c s).0.invites
        ≡ P.update_many (has_invite_id i.id) (with_status accepted) s.invites
  unfolding join join_with accept_invite
  join-joined q c i s e done = ground (arith, e, done)

  -- If an invitation's token is on no other invitation, then after a join with it succeeds every
  -- further join with it, by anyone at any time, is refused and changes nothing.
  pub join-once :
      (q q' : Join) (c c' : OrgCaller) (i : OrgInvite) (s : OrgState P)
      → P.find_first (has_token q.token) s.invites ≡ some i
      → All
          (λ (j : OrgInvite). has_token q.token j ≡ true → has_invite_id i.id j ≡ true)
          (P.rows s.invites)
      → (join P q c s).1 ≡ joined
      → q'.token ≡ q.token
      → let s' = (join P q c s).0 in join P q' c' s' ≡ (s', refused invite_used)
  join-once q q' c c' i s e unique done same =
      let s' = (join P q c s).0 in
      let found = P.find_first-some (has_token q.token) s.invites i e in
      let moved : P.rows s'.invites
          ≡ update_where (has_invite_id i.id) (with_status accepted) (P.rows s.invites) =
        ap P.rows (join-joined q c i s e done)
        ∙ P.rows-update_many (has_invite_id i.id) (with_status accepted) s.invites in
      join_used q' c' q.token i.id s' same
        (ap (any (has_token q.token)) moved
          ∙ any-update-token q.token i.id (P.rows s.invites)
          ∙ found.1 (has_token q.token) found.0)
        (ap (any (is_open q.token)) moved ∙ none_open q.token i.id (P.rows s.invites) unique)

  -- A pending invitation that has not expired is accepted also when all seats are taken: if the
  -- four writes succeed and the user is known and no member yet, the organisation then has more
  -- members than seats, whoever was invited.
  pub join-over :
      (q : Join) (c : OrgCaller) (i : OrgInvite) (user_id : String) (o : Organisation)
      (s : OrgState P)
      → P.find_first (has_token q.token) s.invites ≡ some i
      → is_pending_invite i.status ≡ true
      → q.now ≤ i.expires_at
      → 4 ≤ q.writes
      → user_id_of c ≡ some user_id
      → is_known_user P user_id s ≡ true
      → is_joined P user_id i.org_id s ≡ false
      → P.find_first (is_org i.org_id) s.orgs ≡ some o
      → o.seats_purchased ≤ P.count_rows (is_member_of i.org_id) s.members
      → let r = join P q c s in
        (r.1 ≡ joined)
        × (P.find_first (is_org i.org_id) r.0.orgs ≡ some o)
        × (o.seats_purchased < P.count_rows (is_member_of i.org_id) r.0.members)
  unfolding join join_with accept_invite
  join-over q c i user_id o s e waiting live all_written caller known new found full =
      let in_time : ltb i.expires_at q.now ≡ false = ground (arith, live) in
      let first : ltb q.writes 1 ≡ false = ground (arith, all_written) in
      let second : ltb q.writes 2 ≡ false = ground (arith, all_written) in
      let third : ltb q.writes 3 ≡ false = ground (arith, all_written) in
      let fourth : ltb q.writes 4 ≡ false = ground (arith, all_written) in
      rw
        (
          e, waiting, in_time, caller, first, second, third, fourth, known, new, join, join_with,
          accept_invite,
        )
        (
          refl,
          found,
          omega (
            arith,
            full,
            count_rows-create (is_member_of i.org_id)
                (record {
                  user_id = user_id;
                  org_id = i.org_id;
                  org_role = i.org_role;
                  joined_at = q.now;
                })
                s.members (eq_self i.org_id),
          ),
        )
