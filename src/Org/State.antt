-- ===== src/Org/State.antt =====
-- The rows of packages/db/prisma/schema.prisma that services/core/src/modules/org/org.routes.ts
-- reads and writes.
use devops_lab.Prelude.{
  ℕ, Bool, true, false, Option, none, some, String, List, string_eq, ◌==◌, if◌then◌else◌,
}
use devops_lab.Services.{Prisma}
use devops_lab.Core.Rows.{PlanTier, SessionStatus}

pub data OrgRole : Type 0 where
  owner admin member : OrgRole

pub record Organisation : Type 0 where
  pub id : String
  pub name : String
  pub slug : String
  pub plan_tier : PlanTier
  pub seats_purchased : ℕ

pub record OrgUser : Type 0 where
  pub id : String
  pub org_id : Option String
  pub name : Option String
  pub email : String
  pub job_title : Option String
  pub xp : ℕ

pub record OrgMember : Type 0 where
  pub user_id : String
  pub org_id : String
  pub org_role : OrgRole
  pub joined_at : ℕ

pub data InviteStatus : Type 0 where
  pending accepted expired cancelled : InviteStatus

pub record OrgInvite : Type 0 where
  pub id : String
  pub org_id : String
  pub email : String
  pub token : String
  pub org_role : OrgRole
  pub status : InviteStatus
  pub expires_at : ℕ

pub data Difficulty : Type 0 where
  junior mid senior : Difficulty

pub data Category : Type 0 where
  kubernetes docker cicd terraform bash security monitoring : Category

pub record ScenarioCheck : Type 0 where
  pub check_id : String
  pub description : String
  pub pass_criteria : String

pub record OrgScenario : Type 0 where
  pub org_id : String
  pub created_by_user_id : String
  pub title : String
  pub description : String
  pub difficulty : Difficulty
  pub category : Category
  pub docker_image : String
  pub setup_instructions : String
  pub checks : List ScenarioCheck

pub record PathAssignment : Type 0 where
  pub org_id : String
  pub learning_path_id : String
  pub user_id : Option String
  pub assigned_by_user_id : String
  pub assigned_at : ℕ

-- A session with the title of its challenge, as the query joins them.
pub record OrgSession : Type 0 where
  pub user_id : String
  pub status : SessionStatus
  pub title : String

pub record NodeCompletion : Type 0 where
  pub user_id : String
  pub node_id : String
  pub created_at : ℕ

-- A path with the challenges of its modules.
pub record LearningPath : Type 0 where
  pub id : String
  pub title : String
  pub modules : List (List String)

pub data OrgEvent : Type 0 where
  invite_sent : String → String → String → String → OrgEvent
  member_joined : String → String → OrgRole → OrgEvent

pub record OrgState (P : Prisma) : Type 0 where
  pub orgs : P.Table Organisation
  pub users : P.Table OrgUser
  pub members : P.Table OrgMember
  pub invites : P.Table OrgInvite
  pub scenarios : P.Table OrgScenario
  pub assignments : P.Table PathAssignment
  pub sessions : P.Table OrgSession
  pub completions : P.Table NodeCompletion
  pub paths : P.Table LearningPath
  pub events : P.Table OrgEvent

pub data OrgError : Type 0 where
  unauthorized not_a_member owner_required admin_required no_organisation fields_missing slug_taken
        seats_full invite_not_found invite_used invite_expired server_error :
      OrgError

-- `reply.status(…)`
abbrev pub org_status_of : OrgError → ℕ
org_status_of unauthorized = 401
org_status_of no_organisation = 404
org_status_of invite_not_found = 404
org_status_of fields_missing = 400
org_status_of invite_used = 400
org_status_of slug_taken = 409
org_status_of seats_full = 409
org_status_of invite_expired = 410
org_status_of server_error = 500
org_status_of _ = 403

-- The claims `id` and `sub` of the token.
pub record OrgCaller : Type 0 where
  pub id : Option String
  pub sub : Option String

-- What JavaScript's `||` passes over: a missing text, and an empty one.
abbrev pub given : Option String → Option String
given none = none
given (some x) = if x == "" then none else some x

abbrev pub either : Option String → Option String → Option String
either none y = y
either (some x) y = some x

-- `request.user?.id || request.user?.sub`
abbrev pub user_id_of : OrgCaller → Option String
user_id_of c = either (given c.id) (given c.sub)

abbrev pub is_org_user : String → OrgUser → Bool
is_org_user id u = u.id == id

abbrev pub is_org : String → Organisation → Bool
is_org id o = o.id == id

abbrev pub is_member_of : String → OrgMember → Bool
is_member_of org_id m = m.org_id == org_id

abbrev pub same_option : Option String → Option String → Bool
same_option none none = true
same_option none (some y) = false
same_option (some x) none = false
same_option (some x) (some y) = x == y
