-- ===== src/Social/Shares.antt =====
-- services/core/src/modules/social/share.routes.ts: tokens that show an achievement. `metadata` is
-- the object of the request; the fields that the code adds for a challenge stand beside it.
pub mod Unsolved
use devops_lab.Prelude.{
  ℕ, suc, ◌≡◌, ◌≢◌, refl, sym, ap, ◌∙◌, Bool, true, false, ◌&&◌, Option, none, some, String,
  string_eq, nat_eq, ◌==◌, List, any, is_some, if◌then◌else◌, arith, inl, inr, Bool-cases,
  Option-cases, subst, eq_self, [], ◌∷◌, any-append,
}
use devops_lab.Services.{Prisma, is_some-find_first}
use devops_lab.Progress.State.{Completion, CheckResult, is_completion}
use devops_lab.Social.State.{Social, is_page, is_social_user}

pub data ShareType : Type 0 where
  challenge_solve badge_share quiz_mastery certificate : ShareType

-- What the code adds to the metadata: the time of the completion, or the current time if there is
-- none, and the results of the checks.
pub record ShareFacts : Type 0 where
  pub completed_at : ℕ
  pub verified_checks : List CheckResult

pub record ShareToken (Metadata : Type 0) : Type 0 where
  pub token : String
  pub share_type : ShareType
  pub user_id : String
  pub challenge_id : Option ℕ
  pub metadata : Metadata
  pub facts : Option ShareFacts
  pub views : ℕ

pub data ShareError : Type 0 where
  share_unauthorized share_user_missing share_challenge_missing share_missing share_failed :
      ShareError

-- `isVerified: true`, with the token's record, in `verified`.
pub data ShareReply (Metadata : Type 0) : Type 0 where
  share_refused : ShareError → ShareReply Metadata
  share_created : String → ShareType → ShareReply Metadata
  verified : ShareToken Metadata → ShareReply Metadata

-- The request, the token that `randomBytes` gives, whether the write returns, and the time.
pub record CreateShare (Metadata : Type 0) : Type 0 where
  pub challenge_id : Option ℕ
  pub share_type : ShareType
  pub metadata : Metadata
  pub new_token : String
  pub written : Bool
  pub now : ℕ

abbrev pub has_share_token : {Metadata : Type 0} → String → ShareToken Metadata → Bool
has_share_token token r = r.token == token

abbrev pub is_check_of : String → ℕ → CheckResult → Bool
is_check_of user_id id c = c.user_id == user_id && c.challenge_id == id

-- `completed_at` is the database's column `createdAt` of a completion.
abbrev pub share_facts : (P : Prisma) → (Completion → ℕ) → String → ℕ → ℕ → Social P → ShareFacts
share_facts P completed_at user_id id now s = record {
  completed_at = elim (P.find_first (is_completion user_id id) s.completions) [
    | none ↦ now
    | some c ↦ completed_at c
  ];
  verified_checks = P.find_many (is_check_of user_id id) s.check_results;
}

module _ {Metadata : Type 0} where
  abbrev pub new_share : String → CreateShare Metadata → Option ShareFacts → ShareToken Metadata
  new_share user_id q facts = record {
    token = q.new_token;
    share_type = q.share_type;
    user_id = user_id;
    challenge_id = q.challenge_id;
    metadata = q.metadata;
    facts = facts;
    views = 0;
  }

module _ (P : Prisma) {Metadata : Type 0} where
  abbrev pub put_share :
      String
      → CreateShare Metadata
      → Option ShareFacts
      → P.Table (ShareToken Metadata)
      → P.Table (ShareToken Metadata) × ShareReply Metadata
  put_share user_id q facts t =
      if q.written
      then (P.create (new_share user_id q facts) t, share_created q.new_token q.share_type)
      else (t, share_refused share_failed)

  -- GET /shares/:token; the reply counts the view that is being written.
  unfoldable pub get_share :
      String
      → Bool
      → P.Table (ShareToken Metadata)
      → P.Table (ShareToken Metadata) × ShareReply Metadata
  get_share token counted t = elim (P.find_first (has_share_token token) t) [
    | none ↦ (t, share_refused share_missing)
    | some r ↦ (
      if counted
          then P.update_many (has_share_token token) (λ x. record x { views = suc x.views }) t
          else t,
      verified (record r { views = suc r.views }),
    )
  ]

module _ (P : Prisma) {Metadata : Type 0} (completed_at : Completion → ℕ) where
  -- POST /shares, for a challenge if one is named.
  abbrev pub share_for :
      String
      → Option ℕ
      → CreateShare Metadata
      → Social P
      → P.Table (ShareToken Metadata)
      → P.Table (ShareToken Metadata) × ShareReply Metadata
  share_for user_id none q s t = put_share P user_id q none t
  share_for user_id (some id) q s t =
      if is_some (P.find_first (is_page id) s.challenges)
      then put_share P user_id q (some (share_facts P completed_at user_id id q.now s)) t
      else (t, share_refused share_challenge_missing)

  unfoldable pub create_share :
      Option String
      → CreateShare Metadata
      → Social P
      → P.Table (ShareToken Metadata)
      → P.Table (ShareToken Metadata) × ShareReply Metadata
  create_share none q s t = (t, share_refused share_unauthorized)
  create_share (some user_id) q s t =
      if is_some (P.find_first (is_social_user user_id) s.users)
      then share_for user_id q.challenge_id q s t
      else (t, share_refused share_user_missing)
