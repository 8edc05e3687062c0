-- ===== src/Progress/Consumers.antt =====
-- services/core/src/modules/progress/consumers.ts: what the core service does with the sandbox's
-- events. Each handler catches every error, so a write that throws ends the handler, with the
-- writes before it kept; an `Outage` says which write throws.
pub mod Users
pub mod Redelivery
use devops_lab.Prelude.{
  ℕ, zero, suc, ◌+◌, Bool, true, false, ◌&&◌, not, Option, none, some, String, List, [], ◌∷◌,
  nat_eq, string_eq, ◌==◌, is_some, or_else, if◌then◌else◌,
}
use devops_lab.Services.{Prisma}
use devops_lab.Core.Rows.{LabSession, User, Challenge, is_guest, is_active, completed, terminated}
use devops_lab.Core.Sessions.{is_live, close_with}
use devops_lab.Streak.{StreakState, StreakUpdateResult, calculate_streak}
use devops_lab.Progress.State.{
  Progress, Node, Completion, CheckResult, Submission, is_completion, is_check, upsert,
}
use devops_lab.Progress.Badges.{evaluate_milestones}

pub record Check : Type 0 where
  pub check_id : String
  pub passed : Bool
  pub message : String

-- The payload of a solved or a failed event, without the output of the run. No `checks` is the
-- empty list.
pub record Validated : Type 0 where
  pub submission_id : ℕ
  pub challenge_id : ℕ
  pub user_id : String
  pub checks : List Check

-- Which of the writes throws: of the node, of the completion, of the check at an index, of the
-- user, of the session, of the submission, and which awards of a badge.
pub record Outage : Type 0 where
  pub node : Bool
  pub completion : Bool
  pub check : ℕ → Bool
  pub user : Bool
  pub session : Bool
  pub submission : Bool
  pub badge : String → Bool

-- `challenge?.xp || 100`, in the metadata of the node, and `challenge?.xp ?? 100`, the XP earned.
abbrev pub node_xp : Option Challenge → ℕ
node_xp none = 100
node_xp (some c) = if c.xp == 0 then 100 else c.xp

abbrev pub xp_earned : Option Challenge → ℕ
xp_earned none = 100
xp_earned (some c) = c.xp

abbrev pub streak_of : User → StreakState
streak_of u = record {
  current_streak = u.current_streak;
  longest_streak = u.longest_streak;
  last_activity_date = u.last_activity_date;
}

-- `data: { xp: { increment }, currentStreak, longestStreak, lastActivityDate }`
abbrev pub credit : ℕ → StreakUpdateResult → User → User
credit xp r u = record u {
  xp = u.xp + xp;
  current_streak = r.current_streak;
  longest_streak = r.longest_streak;
  last_activity_date = some r.last_activity_date;
}

module _ (P : Prisma) where
  -- The loop of upserts of the check results, from an index; `false` if one of them throws.
  unfoldable pub upsert_checks :
      (ℕ → Bool) → ℕ → ℕ → String → ℕ → List Check → Progress P → Progress P × Bool
  upsert_checks throws i now user_id challenge_id [] s = (s, true)
  upsert_checks throws i now user_id challenge_id (c ∷ cs) s =
      let row : CheckResult = record {
        user_id = user_id;
        challenge_id = challenge_id;
        check_id = c.check_id;
        passed = c.passed;
        message = c.message;
        last_run_at = now;
      } in
      let renew = λ (r : CheckResult). record r {
        passed = c.passed;
        message = c.message;
        last_run_at = now;
      } in
      let s' = record s {
        check_results =
            upsert P (is_check user_id challenge_id c.check_id) renew row s.check_results;
      } in
      let rest = upsert_checks throws (suc i) now user_id challenge_id cs s' in
      if throws i then (s, false) else rest

  unfoldable pub close_session : Bool → ℕ → ℕ → Progress P → Progress P
  close_session throws now id s =
      if throws
      then s
      else record s { sessions = P.update_many (is_live id) (close_with completed now) s.sessions }

  -- The end of the handler: the session, the submission, and the badges of a first solve.
  unfoldable pub solved_rest : Outage → ℕ → Validated → Bool → ℕ → Progress P → Progress P
  solved_rest o now ev first streak s =
      let closed = record s {
        sessions = P.update_many (is_live ev.submission_id) (close_with completed now) s.sessions;
      } in
      let submitted = record closed {
        submissions =
            P.create
              (record { user_id = ev.user_id; challenge_id = ev.challenge_id; solved = true })
              closed.submissions;
      } in
      if o.session
      then s
      else (if o.submission
          then closed
          else (if first
              then (evaluate_milestones P o.badge now ev.user_id streak (some ev.challenge_id)
                  submitted).0
              else submitted))

  -- The XP and the streak, on a first solve; `user.update` throws if there is no such user.
  unfoldable pub solved_user :
      Outage → ℕ → Validated → Option Challenge → Bool → Progress P → Progress P
  unfolding solved_rest
  solved_user o now ev challenge first s =
      elim (P.find_first (λ (u : User). u.id == ev.user_id) s.users) [
        | none ↦ if first then s else solved_rest o now ev first 0 s
        | some u ↦
            let r = calculate_streak (streak_of u) now in
            let credited = record s {
              users =
                  P.update_many (λ (x : User). x.id == ev.user_id) (credit (xp_earned challenge) r)
                    s.users;
            } in
            if first
            then (if o.user then s else solved_rest o now ev first r.current_streak credited)
            else solved_rest o now ev first r.current_streak s
      ]

  unfoldable pub solved_checks :
      Outage → ℕ → Validated → Option Challenge → Bool → Progress P → Progress P
  unfolding solved_user upsert_checks
  solved_checks o now ev challenge first s =
      let (s', done) = upsert_checks o.check 0 now ev.user_id ev.challenge_id ev.checks s in
      if done then solved_user o now ev challenge first s' else s'

  abbrev pub challenge_of : Validated → Progress P → Option Challenge
  challenge_of ev s = P.find_first (λ (c : Challenge). c.id == ev.challenge_id) s.challenges

  abbrev pub with_node : Validated → Progress P → Progress P
  with_node ev s =
      let xp = node_xp (challenge_of ev s) in
      record s {
        nodes =
            upsert P (λ (n : Node). n.id == ev.challenge_id) (λ n. record n { xp = xp })
              (record { id = ev.challenge_id; xp = xp }) s.nodes;
      }

  abbrev pub with_completion : Validated → Progress P → Progress P
  with_completion ev s = record s {
    completions =
        upsert P (is_completion ev.user_id ev.challenge_id) (λ c. c)
          (record { user_id = ev.user_id; node_id = ev.challenge_id }) s.completions;
  }

  -- `isFirstSolve`
  abbrev pub is_first_solve : Validated → Progress P → Bool
  is_first_solve ev s =
      not (is_some (P.find_first (is_completion ev.user_id ev.challenge_id) s.completions))

  -- The node, whether this is the first solve, and the completion.
  unfoldable pub solved_member : Outage → ℕ → Validated → Progress P → Progress P
  unfolding solved_checks
  solved_member o now ev s =
      let noded = with_node ev s in
      if o.node
      then s
      else (if o.completion
          then noded
          else solved_checks o now ev (challenge_of ev s) (is_first_solve ev s)
              (with_completion ev noded))

  -- The consumer of CHALLENGE_SOLVED.
  unfoldable pub on_solved : Outage → ℕ → Validated → Progress P → Progress P
  unfolding solved_member close_session
  on_solved o now ev s =
      if is_guest ev.user_id
      then close_session o.session now ev.submission_id s
      else solved_member o now ev s

  -- The consumer of CHALLENGE_FAILED.
  unfoldable pub on_failed : Outage → ℕ → Validated → Progress P → Progress P
  unfolding upsert_checks
  on_failed o now ev s =
      let submitted = record s {
        submissions =
            P.create
              (record { user_id = ev.user_id; challenge_id = ev.challenge_id; solved = false })
              s.submissions;
      } in
      if is_guest ev.user_id
      then s
      else (if o.submission
          then s
          else (upsert_checks o.check 0 now ev.user_id ev.challenge_id ev.checks submitted).0)

  -- The consumer of SESSION_FAILED.
  unfoldable pub on_session_failed : Bool → ℕ → ℕ → Progress P → Progress P
  on_session_failed throws now id s =
      if throws
      then s
      else record s { sessions = P.update_many (is_live id) (close_with terminated now) s.sessions }
