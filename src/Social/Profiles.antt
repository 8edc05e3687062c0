-- ===== src/Social/Profiles.antt =====
-- services/core/src/modules/challenge/challenge.routes.ts: public profiles, the discovery of users,
-- and one's bookmarks and followed users. The database's orders are parameters, and so is its search
-- in the names (`matches`).
pub mod Follows
use devops_lab.Prelude.{
  ℕ, Bool, true, false, ◌&&◌, ◌||◌, Option, none, some, String, string_eq, nat_eq, ◌==◌, List, [],
  ◌∷◌, map, any, take, is_some, if◌then◌else◌,
}
use devops_lab.Prelude.Int.{ℤ}
use devops_lab.Services.{Prisma}
use devops_lab.Core.Rows.{LabSession, is_completed}
use devops_lab.Social.State.{
  Social, SocialUser, Mark, UserFollow, is_follow, is_follow_by, is_follow_of,
}
use devops_lab.Social.Feed.{Ordered, take_limit, ended}

-- `OR: [{ username }, { id: username }], isPublic: true`
abbrev pub is_profile_of : String → SocialUser → Bool
is_profile_of name u =
    (elim u.username [ none ↦ false | some n ↦ n == name ] || u.id == name) && u.is_public

abbrev pub is_solved_by : String → LabSession → Bool
is_solved_by user_id x = x.user_id == user_id && is_completed x.status

-- The challenges of the sessions, each at its first session.
unfoldable pub completed_ids : List ℕ → List LabSession → List ℕ
completed_ids seen [] = []
completed_ids seen (c ∷ cs) =
    let skipped = completed_ids seen cs in
    let rest = completed_ids (c.challenge_id ∷ seen) cs in
    if any (λ (i : ℕ). i == c.challenge_id) seen then skipped else c.challenge_id ∷ rest

pub record ProfileView : Type 0 where
  pub user : SocialUser
  pub followers : ℕ
  pub following : ℕ
  pub completed_challenges : List ℕ
  pub is_following : Bool

pub record FoundUser : Type 0 where
  pub user : SocialUser
  pub followers : ℕ
  pub is_following : Bool
  pub is_self : Bool

module _ (P : Prisma) where
  -- Whether the viewer, who is somebody else, follows the user.
  abbrev pub follows_user : Option String → String → Social P → Bool
  follows_user none id s = false
  follows_user (some v) id s =
      if v == id then false else is_some (P.find_first (is_follow v id) s.follows)

  unfoldable pub view_profile : Ordered P → Option String → Social P → SocialUser → ProfileView
  unfolding completed_ids
  view_profile O viewer s u = record {
    user = u;
    followers = P.count_rows (is_follow_of u.id) s.follows;
    following = P.count_rows (is_follow_by u.id) s.follows;
    completed_challenges = completed_ids [] (O.latest ended 20 (is_solved_by u.id) s.sessions);
    is_following = follows_user viewer u.id s;
  }

  -- GET /users/:username/profile; `none` is the answer 404.
  unfoldable pub public_profile : Ordered P → String → Option String → Social P → Option ProfileView
  unfolding view_profile
  public_profile O name viewer s = elim (P.find_first (is_profile_of name) s.users) [
    | none ↦ none
    | some u ↦ some (view_profile O viewer s u)
  ]

  -- The set of those whom the viewer follows.
  abbrev pub following_set : Option String → Social P → List String
  following_set none s = []
  following_set (some v) s =
      map (λ (f : UserFollow). f.followed_id) (P.find_many (is_follow_by v) s.follows)

  abbrev pub is_viewer : Option String → String → Bool
  is_viewer none id = false
  is_viewer (some v) id = v == id

  -- GET /users/discover; the query is the trimmed `q`, if it is not empty.
  unfoldable pub discover :
      (List SocialUser → List SocialUser)
      → (String → SocialUser → Bool)
      → Option String
      → Option ℤ
      → Option String
      → Social P
      → List FoundUser
  discover by_streak matches query limit viewer s =
      let is_found =
        λ (u : SocialUser). u.is_public && elim query [ none ↦ true | some q ↦ matches q u ] in
      map
        (λ (u : SocialUser). record {
          user = u;
          followers = P.count_rows (is_follow_of u.id) s.follows;
          is_following = any (λ (i : String). i == u.id) (following_set viewer s);
          is_self = is_viewer viewer u.id;
        })
        (take (take_limit limit) (by_streak (P.find_many is_found s.users)))

  -- GET /users/me/bookmarks
  abbrev pub my_bookmarks : (List Mark → List Mark) → String → Social P → List ℕ
  my_bookmarks by_age user_id s =
      map (λ (m : Mark). m.challenge_id)
        (by_age (P.find_many (λ (m : Mark). m.user_id == user_id) s.bookmarks))

  -- GET /users/me/following
  abbrev pub my_following : (List UserFollow → List UserFollow) → String → Social P → List String
  my_following by_age user_id s =
      map (λ (f : UserFollow). f.followed_id)
        (by_age (P.find_many (is_follow_by user_id) s.follows))
