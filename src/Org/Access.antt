-- ===== src/Org/Access.antt =====
-- services/core/src/modules/org/org.routes.ts: the guard of the routes of an organisation.
pub mod Guard
use devops_lab.Prelude.{
  ℕ, ◌≡◌, Bool, true, false, ◌&&◌, ◌⊎◌, Option, none, some, String, string_eq, ◌==◌, if◌then◌else◌,
}
use devops_lab.Services.{Prisma}
use devops_lab.Org.State.{
  OrgRole, owner, admin, member, OrgUser, OrgMember, OrgState, OrgError, unauthorized, not_a_member,
  owner_required, admin_required, no_organisation, server_error, OrgCaller, given, user_id_of,
  is_org_user,
}

-- The parameter `minRole`.
pub data MinRole : Type 0 where
  anyone at_least_admin only_owner : MinRole

pub data Access : Type 0 where
  denied : OrgError → Access
  granted : OrgMember → Access

pub data Resolved : Type 0 where
  stops : OrgError → Resolved
  known : String → Resolved

abbrev pub access_of : MinRole → OrgMember → OrgRole → Access
access_of anyone m r = granted m
access_of only_owner m owner = granted m
access_of only_owner m admin = denied owner_required
access_of only_owner m member = denied owner_required
access_of at_least_admin m owner = granted m
access_of at_least_admin m admin = granted m
access_of at_least_admin m member = denied admin_required

abbrev pub is_membership : String → String → OrgMember → Bool
is_membership user_id org_id m = m.user_id == user_id && m.org_id == org_id

abbrev pub resolved_org : Option String → Resolved
resolved_org none = stops no_organisation
resolved_org (some o) = known o

module _ (P : Prisma) where
  abbrev pub check_membership : MinRole → Option OrgMember → Access
  check_membership min none = denied not_a_member
  check_membership min (some m) = access_of min m m.org_role

  abbrev pub check_user : MinRole → Option String → String → OrgState P → Access
  check_user min none org_id s = denied unauthorized
  check_user min (some user_id) org_id s =
      check_membership min (P.find_first (is_membership user_id org_id) s.members)

  unfoldable pub check_org_access : MinRole → OrgCaller → String → OrgState P → Access
  check_org_access min c org_id s = check_user min (user_id_of c) org_id s

  -- `me` stands for the caller's own organisation. The identifier of the caller that the route
  -- looks up is an argument: the query throws if it is missing.
  abbrev pub own_org : Option String → OrgState P → Resolved
  own_org none s = stops server_error
  own_org (some user_id) s = elim (P.find_first (is_org_user user_id) s.users) [
    | none ↦ stops no_organisation
    | some u ↦ resolved_org (given u.org_id)
  ]

  unfoldable pub resolve : Option String → String → OrgState P → Resolved
  resolve user_id org_id s = if org_id == "me" then own_org user_id s else known org_id

  -- The beginning of a route: the organisation, the guard, and then its handler.
  abbrev pub admitted {ℓ} : {Reply : Type ℓ} → (OrgError → Reply) → Reply → Access → Reply
  admitted fails handled (denied e) = fails e
  admitted fails handled (granted m) = handled

  abbrev pub entered {ℓ} :
      {Reply : Type ℓ}
      → (OrgError → Reply)
      → MinRole
      → OrgCaller
      → OrgState P
      → (String → Reply)
      → Resolved
      → Reply
  entered fails min c s handle (stops e) = fails e
  entered fails min c s handle (known org_id) =
      admitted fails (handle org_id) (check_org_access min c org_id s)

  -- A caller who may act on an organisation as an administrator.
  abbrev pub IsAdmin : OrgCaller → String → OrgState P → Type 0
  IsAdmin c org_id s =
      (user_id : String) × (m : OrgMember) × (user_id_of c ≡ some user_id)
      × (P.find_first (is_membership user_id org_id) s.members ≡ some m)
      × ((m.org_role ≡ owner) ⊎ (m.org_role ≡ admin))
