-- ===== src/Social/Toggles.antt =====
-- services/core/src/modules/challenge/challenge.routes.ts: likes, bookmarks and follows.
pub mod Rows
pub mod Marks
use devops_lab.Prelude.{
  ℕ, Bool, true, false, Option, none, some, String, string_eq, ◌==◌, is_some, if◌then◌else◌,
}
use devops_lab.Services.{Prisma}
use devops_lab.Social.State.{
  Social, Mark, UserFollow, is_page, is_social_user, is_mark, is_mark_of, is_follow, is_follow_by,
  is_follow_of,
}

pub data SocialError : Type 0 where
  page_not_found user_not_found self_follow toggle_failed : SocialError

pub data ToggleReply : Type 0 where
  toggle_refused : SocialError → ToggleReply
  liked_reply : ℕ → Bool → ToggleReply
  saved_reply : Bool → ToggleReply
  follow_reply : Bool → ℕ → ℕ → ToggleReply

-- Whether the write returns or throws, and whether the counts after it do.
pub record Writes : Type 0 where
  pub written : Bool
  pub recounted : Bool

module _ (P : Prisma) where
  -- A row that is there is deleted, one that is not is created; the flag says which.
  unfoldable pub toggle : {Row : Type 0} → (Row → Bool) → Row → P.Table Row → P.Table Row × Bool
  toggle p row t =
      if is_some (P.find_first p t) then (P.delete_many p t, false) else (P.create row t, true)

  -- POST /challenges/:id/like
  unfoldable pub like : ℕ → String → Writes → Social P → Social P × ToggleReply
  unfolding toggle
  like id user_id w s =
      let row : Mark = record { challenge_id = id; user_id = user_id } in
      let toggled = toggle (is_mark id user_id) row s.likes in
      let likes = P.count_rows (is_mark_of id) toggled.0 in
      let s' = record s { likes = toggled.0 } in
      if is_some (P.find_first (is_page id) s.challenges)
      then (if w.written
          then (
            s',
            if w.recounted then liked_reply likes toggled.1 else toggle_refused toggle_failed,
          )
          else (s, toggle_refused toggle_failed))
      else (s, toggle_refused page_not_found)

  -- POST /challenges/:id/bookmark
  unfoldable pub bookmark : ℕ → String → Writes → Social P → Social P × ToggleReply
  unfolding toggle
  bookmark id user_id w s =
      let row : Mark = record { challenge_id = id; user_id = user_id } in
      let toggled = toggle (is_mark id user_id) row s.bookmarks in
      if is_some (P.find_first (is_page id) s.challenges)
      then (if w.written
          then (record s { bookmarks = toggled.0 }, saved_reply toggled.1)
          else (s, toggle_refused toggle_failed))
      else (s, toggle_refused page_not_found)

  -- GET /challenges/:id/interactions: the likes, and the caller's like and bookmark.
  unfoldable pub interactions : ℕ → Option String → Social P → ℕ × Bool × Bool
  interactions id none s = (P.count_rows (is_mark_of id) s.likes, false, false)
  interactions id (some user_id) s = (
    P.count_rows (is_mark_of id) s.likes,
    is_some (P.find_first (is_mark id user_id) s.likes),
    is_some (P.find_first (is_mark id user_id) s.bookmarks),
  )

  -- POST /users/:id/follow
  unfoldable pub follow : String → String → Writes → Social P → Social P × ToggleReply
  unfolding toggle
  follow followed_id follower_id w s =
      let row : UserFollow = record { follower_id = follower_id; followed_id = followed_id } in
      let toggled = toggle (is_follow follower_id followed_id) row s.follows in
      let following = P.count_rows (is_follow_by followed_id) toggled.0 in
      let followers = P.count_rows (is_follow_of followed_id) toggled.0 in
      let s' = record s { follows = toggled.0 } in
      if follower_id == followed_id
      then (s, toggle_refused self_follow)
      else (if is_some (P.find_first (is_social_user followed_id) s.users)
          then (if w.written
              then (
                s',
                if w.recounted
                    then follow_reply toggled.1 following followers
                    else toggle_refused toggle_failed,
              )
              else (s, toggle_refused toggle_failed))
          else (s, toggle_refused user_not_found))
