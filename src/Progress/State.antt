-- ===== src/Progress/State.antt =====
-- The tables that the progress of a user lives in. A `where` on a composite key is a test on the
-- row, and an `upsert` is a read of the row by its key, then an update or a create.
use devops_lab.Prelude.{
  ℕ, Bool, ◌&&◌, Option, String, nat_eq, string_eq, ◌==◌, is_some, if◌then◌else◌,
}
use devops_lab.Services.{Prisma}
use devops_lab.Core.Rows.{LabSession, User, Challenge}

pub record Node : Type 0 where
  pub id : ℕ
  pub xp : ℕ

pub record Completion : Type 0 where
  pub user_id : String
  pub node_id : ℕ

pub record CheckResult : Type 0 where
  pub user_id : String
  pub challenge_id : ℕ
  pub check_id : String
  pub passed : Bool
  pub message : String
  pub last_run_at : ℕ

pub record Submission : Type 0 where
  pub user_id : String
  pub challenge_id : ℕ
  pub solved : Bool

pub record Badge : Type 0 where
  pub id : ℕ
  pub slug : String
  pub roadmap_id : Option ℕ

pub record UserBadge : Type 0 where
  pub user_id : String
  pub badge_id : ℕ
  pub earned_at : ℕ

pub record Progress (P : Prisma) : Type 0 where
  pub users : P.Table User
  pub challenges : P.Table Challenge
  pub sessions : P.Table LabSession
  pub nodes : P.Table Node
  pub completions : P.Table Completion
  pub check_results : P.Table CheckResult
  pub submissions : P.Table Submission
  pub badges : P.Table Badge
  pub user_badges : P.Table UserBadge

abbrev pub is_award : String → ℕ → UserBadge → Bool
is_award user_id badge_id b = b.user_id == user_id && b.badge_id == badge_id

abbrev pub is_completion : String → ℕ → Completion → Bool
is_completion user_id node_id c = c.user_id == user_id && c.node_id == node_id

abbrev pub is_check : String → ℕ → String → CheckResult → Bool
is_check user_id challenge_id check_id c =
    c.user_id == user_id && (c.challenge_id == challenge_id && c.check_id == check_id)

-- `prisma.<table>.upsert({ where, update, create })`
abbrev pub upsert :
    (P : Prisma) {Row : Type 0} → (Row → Bool) → (Row → Row) → Row → P.Table Row → P.Table Row
upsert P p update create t =
    if is_some (P.find_first p t) then P.update_many p update t else P.create create t
