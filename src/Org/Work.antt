-- ===== src/Org/Work.antt =====
-- services/core/src/modules/org/org.routes.ts: the scenarios and the assigned paths of an
-- organisation.
use devops_lab.Prelude.{
  ℕ, Bool, ◌&&◌, ◌||◌, Option, none, some, String, List, string_eq, ◌==◌, is_some, or_else,
  if◌then◌else◌,
}
use devops_lab.Services.{Prisma}
use devops_lab.Org.State.{
  OrgScenario, PathAssignment, OrgState, OrgError, fields_missing, server_error, OrgCaller,
  user_id_of, given, same_option, Difficulty, mid, Category, kubernetes, ScenarioCheck,
}
use devops_lab.Org.Access.{anyone, at_least_admin, resolve, entered, check_org_access}

pub data WorkReply : Type 0 where
  refused : OrgError → WorkReply
  scenario : OrgScenario → WorkReply
  scenarios : List OrgScenario → WorkReply
  assignments : List PathAssignment → WorkReply
  assigned : WorkReply

pub record CreateScenario : Type 0 where
  pub title : String
  pub description : String
  pub difficulty : Option Difficulty
  pub category : Option Category
  pub docker_image : String
  pub setup_instructions : Option String
  pub checks : List ScenarioCheck
  pub written : Bool

-- `written` says whether the database carries out the write; with a missing user the key of the
-- upsert_assignment has a null, which is the client's to accept.
pub record Assign : Type 0 where
  pub learning_path_id : String
  pub user_id : Option String
  pub now : ℕ
  pub written : Bool

abbrev pub new_scenario : CreateScenario → String → String → OrgScenario
new_scenario q created_by org_id = record {
  org_id = org_id;
  created_by_user_id = created_by;
  title = q.title;
  description = q.description;
  difficulty = or_else q.difficulty mid;
  category = or_else q.category kubernetes;
  docker_image = q.docker_image;
  setup_instructions = or_else q.setup_instructions "";
  checks = q.checks;
}

abbrev pub same_assignment : String → Assign → PathAssignment → Bool
same_assignment org_id q a =
    a.org_id == org_id
    && (a.learning_path_id == q.learning_path_id && same_option a.user_id (given q.user_id))

module _ (P : Prisma) where
  -- `createdByUserId: request.user!.id`: the client refuses a missing one.
  unfoldable pub scenario_in :
      CreateScenario → OrgCaller → OrgState P → String → OrgState P × WorkReply
  scenario_in q c s org_id =
      if q.title == "" || (q.description == "" || q.docker_image == "")
      then (s, refused fields_missing)
      else elim c.id [
        | none ↦ (s, refused server_error)
        | some created_by ↦
            if q.written
            then (
              record s { scenarios = P.create (new_scenario q created_by org_id) s.scenarios },
              scenario (new_scenario q created_by org_id),
            )
            else (s, refused server_error)
      ]

  -- POST /orgs/:orgId/scenarios
  unfoldable pub create_scenario :
      CreateScenario → OrgCaller → String → OrgState P → OrgState P × WorkReply
  unfolding resolve check_org_access scenario_in
  create_scenario q c org_id s =
      entered P (λ e. (s, refused e)) at_least_admin c s (scenario_in q c s)
        (resolve P (user_id_of c) org_id s)

  -- GET /orgs/:orgId/scenarios, less the order.
  unfoldable pub list_scenarios : OrgCaller → String → OrgState P → WorkReply
  unfolding resolve check_org_access
  list_scenarios c org_id s =
      entered P refused anyone c s
        (λ o. scenarios (P.find_many (λ (x : OrgScenario). x.org_id == o) s.scenarios))
        (resolve P (user_id_of c) org_id s)

  -- GET /orgs/:orgId/assignments
  unfoldable pub list_assignments : OrgCaller → String → OrgState P → WorkReply
  unfolding resolve check_org_access
  list_assignments c org_id s =
      entered P refused anyone c s
        (λ o. assignments (P.find_many (λ (x : PathAssignment). x.org_id == o) s.assignments))
        (resolve P (user_id_of c) org_id s)

  -- The upsert_assignment.
  abbrev pub upsert_assignment :
      Assign → String → String → P.Table PathAssignment → P.Table PathAssignment
  upsert_assignment q assigned_by org_id t =
      let row : PathAssignment = record {
        org_id = org_id;
        learning_path_id = q.learning_path_id;
        user_id = given q.user_id;
        assigned_by_user_id = assigned_by;
        assigned_at = q.now;
      } in
      if is_some (P.find_first (same_assignment org_id q) t)
      then P.update_many (same_assignment org_id q)
          (λ (a : PathAssignment). record a { assigned_at = q.now }) t
      else P.create row t

  unfoldable pub assign_in : Assign → OrgCaller → OrgState P → String → OrgState P × WorkReply
  assign_in q c s org_id =
      if q.learning_path_id == "" then (s, refused fields_missing) else elim (user_id_of c) [
        | none ↦ (s, refused server_error)
        | some assigned_by ↦
            if q.written
            then (
              record s { assignments = upsert_assignment q assigned_by org_id s.assignments },
              assigned,
            )
            else (s, refused server_error)
      ]

  -- POST /orgs/:orgId/assignments
  unfoldable pub assign : Assign → OrgCaller → String → OrgState P → OrgState P × WorkReply
  unfolding resolve check_org_access assign_in
  assign q c org_id s =
      entered P (λ e. (s, refused e)) at_least_admin c s (assign_in q c s)
        (resolve P (user_id_of c) org_id s)
