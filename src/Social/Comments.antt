-- ===== src/Social/Comments.antt =====
-- services/core/src/modules/challenge/comment.routes.ts: comments, replies and votes. `trim` is
-- JavaScript's; `by_pin` and `by_age` are the database's orders of the two queries of comments.
pub mod Threads
use devops_lab.Prelude.{
  ℕ, zero, suc, Bool, true, false, not, ◌&&◌, ◌||◌, Option, none, some, String, string_eq, nat_eq,
  ◌==◌, List, map, length, count, is_some, if◌then◌else◌,
}
use devops_lab.Prelude.Int.{ℤ, pos, negsuc, sub_ℕ}
use devops_lab.Services.{Prisma, find}
use devops_lab.Social.State.{
  Social, SocialUser, Comment, CommentVote, Role, admin, is_page, is_social_user, is_vote,
  is_vote_on,
}

pub data CommentError : Type 0 where
  comment_unauthorized empty_content no_challenge no_parent no_comment not_permitted
        comment_failed :
      CommentError

pub data CommentReply : Type 0 where
  comment_refused : CommentError → CommentReply
  comment_view : Comment → CommentReply
  vote_view : ℤ → ℤ → CommentReply
  comment_deleted : CommentReply

abbrev pub is_comment : ℕ → Comment → Bool
is_comment id c = c.id == id

-- `where: { challengeId, parentId: null }`
abbrev pub is_top : ℕ → Comment → Bool
is_top challenge_id c = c.challenge_id == challenge_id && not (is_some c.parent_id)

abbrev pub is_reply_to : ℕ → Comment → Bool
is_reply_to id c = elim c.parent_id [ none ↦ false | some p ↦ p == id ]

-- `vote > 0` and `vote < 0`, of a stored vote.
abbrev pub is_up : CommentVote → Bool
is_up v = elim v.vote [ pos zero ↦ false | pos (suc n) ↦ true | negsuc n ↦ false ]

abbrev pub is_down : CommentVote → Bool
is_down v = elim v.vote [ pos n ↦ false | negsuc n ↦ true ]

-- The body's `vote`, a number or missing: `vote === 0`, `existing.vote === vote`, and
-- `vote > 0 ? 1 : -1`. What is missing is no number, and it is not greater than 0.
abbrev pub is_zero : Option ℤ → Bool
is_zero none = false
is_zero (some (pos zero)) = true
is_zero (some (pos (suc n))) = false
is_zero (some (negsuc n)) = false

abbrev pub same_int : ℤ → ℤ → Bool
same_int (pos m) (pos n) = m == n
same_int (pos m) (negsuc n) = false
same_int (negsuc m) (pos n) = false
same_int (negsuc m) (negsuc n) = m == n

abbrev pub same_vote : ℤ → Option ℤ → Bool
same_vote v none = false
same_vote v (some w) = same_int v w

abbrev pub sign_of : Option ℤ → ℤ
sign_of none = negsuc 0
sign_of (some (pos zero)) = negsuc 0
sign_of (some (pos (suc n))) = pos 1
sign_of (some (negsuc n)) = negsuc 0

abbrev pub new_vote : ℕ → String → ℤ → CommentVote
new_vote comment_id user_id v = record { comment_id = comment_id; user_id = user_id; vote = v }

-- The vote of a user among those of a comment, 0 if there is none.
abbrev pub vote_in : String → List CommentVote → ℤ
vote_in user_id votes = elim (find (λ (v : CommentVote). v.user_id == user_id) votes) [
  | none ↦ pos 0
  | some v ↦ v.vote
]

abbrev pub score_of_votes : List CommentVote → ℤ
score_of_votes votes = sub_ℕ (count is_up votes) (count is_down votes)

-- A comment as it is shown: its score, the caller's vote, and its replies.
pub record Shown : Type 0 where
  pub comment : Comment
  pub score : ℤ
  pub user_vote : ℤ

pub record Thread : Type 0 where
  pub top : Shown
  pub replies : List Shown

pub record NewComment : Type 0 where
  pub new_id : ℕ
  pub content : String
  pub parent_id : Option ℕ

module _ (P : Prisma) where
  abbrev pub format_comment : Option String → Social P → Comment → Shown
  format_comment viewer s c =
      let votes = P.find_many (is_vote_on c.id) s.votes in
      record {
        comment = c;
        score = score_of_votes votes;
        user_vote = elim viewer [ none ↦ pos 0 | some u ↦ vote_in u votes ];
      }

  abbrev pub thread_of : (List Comment → List Comment) → Option String → Social P → Comment → Thread
  thread_of by_age viewer s c = record {
    top = format_comment viewer s c;
    replies = map (format_comment viewer s) (by_age (P.find_many (is_reply_to c.id) s.comments));
  }

  -- GET /challenges/:id/comments
  unfoldable pub get_comments :
      (List Comment → List Comment)
      → (List Comment → List Comment)
      → ℕ
      → Option String
      → Social P
      → List Thread
  get_comments by_pin by_age challenge_id viewer s =
      map (thread_of by_age viewer s) (by_pin (P.find_many (is_top challenge_id) s.comments))

  -- A parent is a comment of the same challenge.
  abbrev pub has_parent : ℕ → Option ℕ → Social P → Bool
  has_parent challenge_id none s = true
  has_parent challenge_id (some id) s = elim (P.find_first (is_comment id) s.comments) [
    | none ↦ false
    | some c ↦ c.challenge_id == challenge_id
  ]

  abbrev pub new_row : (String → String) → ℕ → String → NewComment → Comment
  new_row trim challenge_id user_id q = record {
    id = q.new_id;
    challenge_id = challenge_id;
    user_id = user_id;
    parent_id = q.parent_id;
    content = trim q.content;
  }

  -- POST /challenges/:id/comments
  unfoldable pub create_comment :
      (String → String) → ℕ → Option String → NewComment → Bool → Social P → Social P × CommentReply
  create_comment trim challenge_id none q written s = (s, comment_refused comment_unauthorized)
  create_comment trim challenge_id (some user_id) q written s =
      let row = new_row trim challenge_id user_id q in
      if q.content == "" || trim q.content == ""
      then (s, comment_refused empty_content)
      else (if is_some (P.find_first (is_page challenge_id) s.challenges)
          then (if has_parent challenge_id q.parent_id s
              then (if written
                  then (record s { comments = P.create row s.comments }, comment_view row)
                  else (s, comment_refused comment_failed))
              else (s, comment_refused no_parent))
          else (s, comment_refused no_challenge))

  -- A repeated vote or a 0 cancels, another one changes or creates the vote.
  unfoldable pub record_vote : ℕ → String → Option ℤ → P.Table CommentVote → P.Table CommentVote
  record_vote comment_id user_id vote t =
      let p = is_vote comment_id user_id in
      elim (P.find_first p t) [
        | none ↦ if is_zero vote then t else P.create (new_vote comment_id user_id (sign_of vote)) t
        | some v ↦
            if same_vote v.vote vote || is_zero vote
            then P.delete_many p t
            else P.update_many p (λ w. record w { vote = sign_of vote }) t
      ]

  -- POST /comments/:id/vote
  unfoldable pub vote_comment :
      ℕ → Option String → Option ℤ → Bool → Social P → Social P × CommentReply
  unfolding record_vote
  vote_comment comment_id none vote written s = (s, comment_refused comment_unauthorized)
  vote_comment comment_id (some user_id) vote written s =
      let t = record_vote comment_id user_id vote s.votes in
      let votes = P.find_many (is_vote_on comment_id) t in
      if is_some (P.find_first (is_comment comment_id) s.comments)
      then (if written
          then (record s { votes = t }, vote_view (score_of_votes votes) (vote_in user_id votes))
          else (s, comment_refused comment_failed))
      else (s, comment_refused no_comment)

  abbrev pub is_admin_user : Option SocialUser → Bool
  is_admin_user none = false
  is_admin_user (some u) = elim u.role [ admin ↦ true | _ ↦ false ]

  -- DELETE /comments/:id; `cascade` is the deletion in the database, which takes the replies and the
  -- votes with the comment.
  unfoldable pub delete_comment :
      (ℕ → Social P → Social P) → ℕ → Option String → Bool → Social P → Social P × CommentReply
  delete_comment cascade id none written s = (s, comment_refused comment_unauthorized)
  delete_comment cascade id (some user_id) written s =
      elim (P.find_first (is_comment id) s.comments) [
        | none ↦ (s, comment_refused no_comment)
        | some c ↦
            if c.user_id == user_id || is_admin_user (P.find_first (is_social_user user_id) s.users)
            then (if written
                then (cascade id s, comment_deleted)
                else (s, comment_refused comment_failed))
            else (s, comment_refused not_permitted)
      ]
