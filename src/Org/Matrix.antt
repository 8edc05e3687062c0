-- ===== src/Org/Matrix.antt =====
-- services/core/src/modules/org/org.routes.ts: the members of an organisation, their analytics and
-- the matrix of their progress.
pub mod Progress
use devops_lab.Prelude.{
  ℕ, zero, suc, ◌+◌, ◌-◌, ◌*◌, ◌/◌, Bool, true, false, Option, none, some, String, List, [], ◌∷◌,
  ◌++◌, map, string_eq, ◌==◌, ltb, leb, nat_eq, or_else, any, count, length, where_rows,
  if◌then◌else◌,
}
use devops_lab.Services.{Prisma}
use devops_lab.Core.Rows.{is_active}
use devops_lab.Org.State.{
  OrgUser, OrgMember, OrgRole, OrgSession, NodeCompletion, LearningPath, PathAssignment, OrgState,
  OrgError, server_error, OrgCaller, given, user_id_of, is_org_user, is_member_of,
}
use devops_lab.Org.Access.{MinRole, anyone, at_least_admin, resolve, entered, check_org_access}

pub record MemberRow : Type 0 where
  pub id : String
  pub name : String
  pub role : String
  pub org_role : OrgRole
  pub active : Bool
  pub current_sandbox : String
  pub score : ℕ

pub record Analytics : Type 0 where
  pub total_engineers : ℕ
  pub active_sandboxes : ℕ
  pub avg_skill_score : ℕ
  pub paths_completed : ℕ
  pub paths_completed_this_week : ℕ
  pub engineers_added_this_month : ℕ

pub data PathStatus : Type 0 where
  completed in_progress not_started : PathStatus

pub record PathProgress : Type 0 where
  pub path_id : String
  pub total_challenges : ℕ
  pub completed_challenges : ℕ
  pub percentage : ℕ
  pub status : PathStatus

pub record MatrixRow : Type 0 where
  pub user_id : String
  pub name : String
  pub org_role : OrgRole
  pub xp : ℕ
  pub assignments : List PathProgress

pub data ReportReply : Type 0 where
  refused : OrgError → ReportReply
  members_are : List MemberRow → ReportReply
  analytics_are : Analytics → ReportReply
  matrix_is : List MatrixRow → ReportReply

-- `Math.round(a / b)` for a positive divisor.
abbrev pub round_quotient : ℕ → ℕ → ℕ
round_quotient a b = (2 * a + b) / (2 * b)

abbrev pub sum : List ℕ → ℕ
sum [] = 0
sum (n ∷ ns) = n + sum ns

abbrev pub flatten : {A : Type 0} → List (List A) → List A
flatten [] = []
flatten (xs ∷ xss) = xs ++ flatten xss

abbrev pub day_ms : ℕ
day_ms = 24 * 60 * 60 * 1000

abbrev pub first_title : List OrgSession → String
first_title [] = "-"
first_title (x ∷ xs) = x.title

abbrev pub is_nonempty : {A : Type 0} → List A → Bool
is_nonempty [] = false
is_nonempty (x ∷ xs) = true

-- The node of a completion is among the user's.
abbrev pub done_by : List NodeCompletion → String → Bool
done_by cs node_id = any (λ (c : NodeCompletion). c.node_id == node_id) cs

abbrev pub percentage_of : ℕ → ℕ → ℕ
percentage_of total done = if ltb 0 total then round_quotient (100 * done) total else 0

abbrev pub path_status_of : ℕ → PathStatus
path_status_of p = if p == 100 then completed else (if ltb 0 p then in_progress else not_started)

unfoldable pub path_progress : List NodeCompletion → LearningPath → PathProgress
path_progress cs path =
    let challenges = flatten path.modules in
    let done = count (done_by cs) challenges in
    let percentage = percentage_of (length challenges) done in
    record {
      path_id = path.id;
      total_challenges = length challenges;
      completed_challenges = done;
      percentage = percentage;
      status = path_status_of percentage;
    }

module _ (P : Prisma) where
  -- The rows that a relation of a query joins; a row whose other side is gone does not occur.
  abbrev pub users_of : OrgState P → List OrgMember → List (OrgMember × OrgUser)
  users_of s [] = []
  users_of s (m ∷ ms) = elim (P.find_first (is_org_user m.user_id) s.users) [
    | none ↦ users_of s ms
    | some u ↦ (m, u) ∷ users_of s ms
  ]

  abbrev pub paths_of : OrgState P → List PathAssignment → List LearningPath
  paths_of s [] = []
  paths_of s (a ∷ rest) =
      elim (P.find_first (λ (p : LearningPath). p.id == a.learning_path_id) s.paths) [
        | none ↦ paths_of s rest
        | some p ↦ p ∷ paths_of s rest
      ]

  abbrev pub org_members : String → OrgState P → List (OrgMember × OrgUser)
  org_members org_id s = users_of s (P.find_many (is_member_of org_id) s.members)

  abbrev pub active_sandboxes_of : OrgUser → OrgState P → List OrgSession
  active_sandboxes_of u s =
      where_rows (λ (x : OrgSession). is_active x.status)
        (P.find_many (λ (x : OrgSession). x.user_id == u.id) s.sessions)

  abbrev pub completions_of : OrgUser → OrgState P → List NodeCompletion
  completions_of u s = P.find_many (λ (x : NodeCompletion). x.user_id == u.id) s.completions

  abbrev pub member_row : OrgState P → OrgMember × OrgUser → MemberRow
  member_row s (m, u) = record {
    id = u.id;
    name = or_else (given u.name) u.email;
    role = or_else (given u.job_title) "Engineer";
    org_role = m.org_role;
    active = is_nonempty (active_sandboxes_of u s);
    current_sandbox = first_title (active_sandboxes_of u s);
    score = u.xp;
  }

  -- GET /orgs/:orgId/members, whose `me` is looked up by the claim `id`.
  unfoldable pub list_members : OrgCaller → String → OrgState P → ReportReply
  unfolding resolve check_org_access
  list_members c org_id s =
      entered P refused anyone c s (λ o. members_are (map (member_row s) (org_members o s)))
        (resolve P c.id org_id s)

  unfoldable pub analytics_in : ℕ → OrgState P → String → Analytics
  analytics_in now s org_id =
      let ms = org_members org_id s in
      let total_xp = sum (map (λ (x : OrgMember × OrgUser). x.1.xp) ms) in
      record {
        total_engineers = length ms;
        active_sandboxes =
            sum (map (λ (x : OrgMember × OrgUser). length (active_sandboxes_of x.1 s)) ms);
        avg_skill_score = if ltb 0 (length ms) then round_quotient total_xp (length ms) else 0;
        paths_completed = sum (map (λ (x : OrgMember × OrgUser). length (completions_of x.1 s)) ms);
        paths_completed_this_week = sum (
            map
              (λ (x : OrgMember × OrgUser).
                count (λ (k : NodeCompletion). leb (now - 7 * day_ms) k.created_at)
                  (completions_of x.1 s))
              ms);
        engineers_added_this_month =
            count (λ (x : OrgMember × OrgUser). leb (now - 30 * day_ms) x.0.joined_at) ms;
      }

  -- GET /orgs/:orgId/analytics
  unfoldable pub analytics : ℕ → OrgCaller → String → OrgState P → ReportReply
  unfolding resolve check_org_access analytics_in
  analytics now c org_id s =
      entered P refused at_least_admin c s (λ o. analytics_are (analytics_in now s o))
        (resolve P c.id org_id s)

  abbrev pub matrix_row : OrgState P → List LearningPath → OrgMember × OrgUser → MatrixRow
  matrix_row s paths (m, u) = record {
    user_id = u.id;
    name = or_else (given u.name) u.email;
    org_role = m.org_role;
    xp = u.xp;
    assignments = map (path_progress (completions_of u s)) paths;
  }

  abbrev pub matrix_in : OrgState P → String → List MatrixRow
  matrix_in s org_id =
      map
        (matrix_row s
          (paths_of s (P.find_many (λ (a : PathAssignment). a.org_id == org_id) s.assignments)))
        (org_members org_id s)

  -- GET /orgs/:orgId/assignments/matrix
  unfoldable pub matrix : OrgCaller → String → OrgState P → ReportReply
  unfolding resolve check_org_access path_progress
  matrix c org_id s =
      entered P refused at_least_admin c s (λ o. matrix_is (matrix_in s o))
        (resolve P (user_id_of c) org_id s)
