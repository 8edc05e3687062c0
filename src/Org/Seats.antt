-- ===== src/Org/Seats.antt =====
-- services/core/src/modules/org/org.routes.ts: creating an organisation, inviting to it, and joining
-- it.
pub mod Joining
use devops_lab.Prelude.{
  ℕ, ◌+◌, ◌*◌, Bool, true, false, ◌&&◌, ◌||◌, Option, none, some, String, string_eq, ◌==◌, leb, ltb,
  is_some, or_else, if◌then◌else◌, not,
}
use devops_lab.Services.{Prisma}
use devops_lab.Core.Rows.{PlanTier, free, pro, team}
use devops_lab.Org.State.{
  OrgRole, owner, member, Organisation, OrgUser, OrgMember, OrgInvite, InviteStatus, pending,
  accepted, expired, cancelled, OrgState, OrgError, fields_missing, slug_taken, seats_full,
  invite_not_found, invite_used, invite_expired, no_organisation, server_error, OrgCaller,
  user_id_of, is_org_user, is_org, is_member_of, invite_sent, member_joined, given,
}
use devops_lab.Org.Access.{
  MinRole, at_least_admin, is_membership, resolve, entered, check_org_access,
}

pub data SeatReply : Type 0 where
  refused : OrgError → SeatReply
  organisation : Organisation → SeatReply
  my_organisation : Organisation → OrgRole → SeatReply
  invited : OrgInvite → SeatReply
  joined : SeatReply

-- `writes` is how many of the writes in the transaction succeed before one throws: the clients of
-- packages/db/index.ts run each of them in a transaction of its own, so those before it stay.
pub record CreateOrg : Type 0 where
  pub name : String
  pub slug : String
  pub plan_tier : Option PlanTier
  pub new_id : String
  pub now : ℕ
  pub writes : ℕ

-- The invitation's identifier and token are the database's; the two writes are no transaction.
pub record Invite : Type 0 where
  pub email : String
  pub org_role : Option OrgRole
  pub new_id : String
  pub new_token : String
  pub now : ℕ
  pub invite_written : Bool
  pub event_written : Bool

pub record Join : Type 0 where
  pub token : String
  pub now : ℕ
  pub writes : ℕ

abbrev pub seats_of : Option PlanTier → ℕ
seats_of (some team) = 50
seats_of (some pro) = 5
seats_of _ = 1

abbrev pub invite_ms : ℕ
invite_ms = 7 * 24 * 60 * 60 * 1000

abbrev pub new_org : CreateOrg → Organisation
new_org q = record {
  id = q.new_id;
  name = q.name;
  slug = q.slug;
  plan_tier = or_else q.plan_tier free;
  seats_purchased = seats_of q.plan_tier;
}

abbrev pub new_invite : Invite → String → OrgInvite
new_invite q org_id = record {
  id = q.new_id;
  org_id = org_id;
  email = q.email;
  token = q.new_token;
  org_role = or_else q.org_role member;
  status = pending;
  expires_at = q.now + invite_ms;
}

abbrev pub is_pending_invite : InviteStatus → Bool
is_pending_invite pending = true
is_pending_invite _ = false

abbrev pub has_token : String → OrgInvite → Bool
has_token token i = i.token == token

abbrev pub has_invite_id : String → OrgInvite → Bool
has_invite_id id i = i.id == id

abbrev pub with_status : InviteStatus → OrgInvite → OrgInvite
with_status status i = record i { status = status }

abbrev pub in_org : String → OrgUser → OrgUser
in_org org_id u = record u { org_id = some org_id }

abbrev pub role_in : Option OrgMember → OrgRole
role_in none = member
role_in (some m) = m.org_role

module _ (P : Prisma) where
  abbrev pub is_known_user : String → OrgState P → Bool
  is_known_user user_id s = is_some (P.find_first (is_org_user user_id) s.users)

  abbrev pub is_joined : String → String → OrgState P → Bool
  is_joined user_id org_id s = is_some (P.find_first (is_membership user_id org_id) s.members)

  abbrev pub move_user : String → String → OrgState P → OrgState P
  move_user user_id org_id s = record s {
    users = P.update_many (is_org_user user_id) (in_org org_id) s.users;
  }

  abbrev pub add_member : ℕ → String → String → OrgRole → OrgState P → OrgState P
  add_member now user_id org_id role s = record s {
    members =
        P.create (record { user_id = user_id; org_id = org_id; org_role = role; joined_at = now })
          s.members;
  }

  -- The three writes of a new organisation: it, its owner, who must be known and no member yet, and
  -- the owner's reference.
  unfoldable pub found_org : CreateOrg → String → OrgState P → OrgState P × SeatReply
  found_org q user_id s =
      let with_org = record s { orgs = P.create (new_org q) s.orgs } in
      let with_owner = add_member q.now user_id q.new_id owner with_org in
      if ltb q.writes 1
      then (s, refused server_error)
      else (if ltb q.writes 2 || not (is_known_user user_id s) || is_joined user_id q.new_id s
          then (with_org, refused server_error)
          else (if ltb q.writes 3
              then (with_owner, refused server_error)
              else (move_user user_id q.new_id with_owner, organisation (new_org q))))

  -- POST /orgs
  unfoldable pub create_org : CreateOrg → OrgCaller → OrgState P → OrgState P × SeatReply
  unfolding found_org
  create_org q c s =
      if q.name == "" || q.slug == ""
      then (s, refused fields_missing)
      else (if is_some (P.find_first (λ (o : Organisation). o.slug == q.slug) s.orgs)
          then (s, refused slug_taken)
          else elim (user_id_of c) [
            | none ↦ (s, refused server_error)
            | some user_id ↦ found_org q user_id s
          ])

  -- GET /orgs/me
  unfoldable pub my_org : OrgCaller → OrgState P → SeatReply
  my_org c s = elim (user_id_of c) [
    | none ↦ refused server_error
    | some user_id ↦ elim (P.find_first (is_org_user user_id) s.users) [
      | none ↦ refused no_organisation
      | some u ↦ elim u.org_id [
        | none ↦ refused no_organisation
        | some org_id ↦ elim (P.find_first (is_org org_id) s.orgs) [
          | none ↦ refused no_organisation
          | some o ↦
              my_organisation o (role_in (P.find_first (is_membership user_id org_id) s.members))
        ]
      ]
    ]
  ]

  -- `org && org._count.members >= org.seatsPurchased`
  abbrev pub is_full : Option Organisation → ℕ → Bool
  is_full none n = false
  is_full (some o) n = leb o.seats_purchased n

  unfoldable pub invite_to : Invite → OrgState P → String → OrgState P × SeatReply
  invite_to q s org_id =
      let i = new_invite q org_id in
      let sent = record s { invites = P.create i s.invites } in
      if q.email == ""
      then (s, refused fields_missing)
      else (if is_full (P.find_first (is_org org_id) s.orgs)
            (P.count_rows (is_member_of org_id) s.members)
          then (s, refused seats_full)
          else (if q.invite_written
              then (if q.event_written
                  then (
                    record sent {
                      events = P.create (invite_sent i.id org_id i.email i.token) s.events;
                    },
                    invited i,
                  )
                  else (sent, refused server_error))
              else (s, refused server_error)))

  -- POST /orgs/:orgId/invites
  unfoldable pub invite : Invite → OrgCaller → String → OrgState P → OrgState P × SeatReply
  unfolding resolve check_org_access invite_to
  invite q c org_id s =
      entered P (λ e. (s, refused e)) at_least_admin c s (invite_to q s)
        (resolve P (user_id_of c) org_id s)

  -- The four writes of joining: the user's reference, which throws for an unknown user, the member,
  -- which throws for one who is a member, the invitation, and the event.
  unfoldable pub accept_invite :
      Join → Option String → OrgInvite → OrgState P → OrgState P × SeatReply
  accept_invite q none i s = (s, refused server_error)
  accept_invite q (some user_id) i s =
      let moved = move_user user_id i.org_id s in
      let enrolled = add_member q.now user_id i.org_id i.org_role moved in
      let marked = record enrolled {
        invites = P.update_many (has_invite_id i.id) (with_status accepted) s.invites;
      } in
      let told = record marked {
        events = P.create (member_joined user_id i.org_id i.org_role) s.events;
      } in
      if ltb q.writes 1 || not (is_known_user user_id s)
      then (s, refused server_error)
      else (if ltb q.writes 2 || is_joined user_id i.org_id s
          then (moved, refused server_error)
          else (if ltb q.writes 3
              then (enrolled, refused server_error)
              else (if ltb q.writes 4 then (marked, refused server_error) else (told, joined))))

  unfoldable pub join_with :
      Join → OrgCaller → Option OrgInvite → OrgState P → OrgState P × SeatReply
  unfolding accept_invite
  join_with q c none s = (s, refused invite_not_found)
  join_with q c (some i) s =
      if is_pending_invite i.status
      then (if ltb i.expires_at q.now
          then (
            record s {
              invites = P.update_many (has_invite_id i.id) (with_status expired) s.invites;
            },
            refused invite_expired,
          )
          else accept_invite q (user_id_of c) i s)
      else (s, refused invite_used)

  -- POST /orgs/join/:token
  unfoldable pub join : Join → OrgCaller → OrgState P → OrgState P × SeatReply
  unfolding join_with
  join q c s = join_with q c (P.find_first (has_token q.token) s.invites) s
