-- ===== src/Social/State.antt =====
-- The tables behind the challenge pages, the social graph and the comments
-- (packages/db/prisma/schema.prisma), with the columns that the routes read.
use devops_lab.Prelude.{ℕ, Bool, ◌&&◌, Option, String, nat_eq, string_eq, ◌==◌}
use devops_lab.Prelude.Int.{ℤ}
use devops_lab.Services.{Prisma}
use devops_lab.Core.Rows.{LabSession}
use devops_lab.Progress.State.{Completion, CheckResult, UserBadge}

pub data Role : Type 0 where
  guest learner contributor admin : Role

pub data OnboardingState : Type 0 where
  fresh_user tour_dismissed tour_completed : OnboardingState

pub record SocialUser : Type 0 where
  pub id : String
  pub username : Option String
  pub org_id : Option ℕ
  pub role : Role
  pub is_public : Bool
  pub onboarding_state : OnboardingState
  pub xp : ℕ
  pub current_streak : ℕ

pub record ChallengePage : Type 0 where
  pub id : ℕ
  pub title : String
  pub contributed_by_org_id : Option ℕ
  pub editorial : Option String
  pub created_at : ℕ

-- A like or a bookmark.
pub record Mark : Type 0 where
  pub challenge_id : ℕ
  pub user_id : String

pub record UserFollow : Type 0 where
  pub follower_id : String
  pub followed_id : String

pub record Comment : Type 0 where
  pub id : ℕ
  pub challenge_id : ℕ
  pub user_id : String
  pub parent_id : Option ℕ
  pub content : String

pub record CommentVote : Type 0 where
  pub comment_id : ℕ
  pub user_id : String
  pub vote : ℤ

pub record Social (P : Prisma) : Type 0 where
  pub users : P.Table SocialUser
  pub challenges : P.Table ChallengePage
  pub sessions : P.Table LabSession
  pub completions : P.Table Completion
  pub check_results : P.Table CheckResult
  pub likes : P.Table Mark
  pub bookmarks : P.Table Mark
  pub follows : P.Table UserFollow
  pub user_badges : P.Table UserBadge
  pub comments : P.Table Comment
  pub votes : P.Table CommentVote

abbrev pub is_page : ℕ → ChallengePage → Bool
is_page id c = c.id == id

abbrev pub is_social_user : String → SocialUser → Bool
is_social_user id u = u.id == id

-- `challengeId_userId`
abbrev pub is_mark : ℕ → String → Mark → Bool
is_mark challenge_id user_id m = m.challenge_id == challenge_id && m.user_id == user_id

abbrev pub is_mark_of : ℕ → Mark → Bool
is_mark_of challenge_id m = m.challenge_id == challenge_id

-- `followerId_followedId`
abbrev pub is_follow : String → String → UserFollow → Bool
is_follow follower followed f = f.follower_id == follower && f.followed_id == followed

abbrev pub is_follow_by : String → UserFollow → Bool
is_follow_by follower f = f.follower_id == follower

abbrev pub is_follow_of : String → UserFollow → Bool
is_follow_of followed f = f.followed_id == followed

-- `commentId_userId`
abbrev pub is_vote : ℕ → String → CommentVote → Bool
is_vote comment_id user_id v = v.comment_id == comment_id && v.user_id == user_id

abbrev pub is_vote_on : ℕ → CommentVote → Bool
is_vote_on comment_id v = v.comment_id == comment_id
