-- ===== src/Social/Profiles/Follows.antt =====
-- services/core/src/modules/challenge/challenge.routes.ts: a follow, and the profile it is seen in.
use devops_lab.Prelude.{
  ◌+◌, ◌≤◌, ◌≡◌, refl, ap, ◌∙◌, true, false, not, Option, some, String, string_eq, ◌==◌, eq_self,
  any, count, if◌then◌else◌, arith,
}
use devops_lab.Services.{Prisma, is_some-find_first}
use devops_lab.Social.State.{
  Social, SocialUser, UserFollow, is_social_user, is_follow, is_follow_of,
}
use devops_lab.Social.Toggles.{toggle, follow, follow_reply}
use devops_lab.Social.Toggles.Rows.{any-toggled, count-toggled}
use devops_lab.Social.Toggles.Marks.{both_return, rows-toggle, flag-toggle}
use devops_lab.Social.Feed.{Ordered}
use devops_lab.Social.Profiles.{view_profile, public_profile, is_profile_of}

module _ (P : Prisma) (O : Ordered P) where
  -- The user's view before and after, for any user.
  follow-view :
      (u : SocialUser) (viewer : String) (s : Social P)
      → (viewer == u.id) ≡ false
      → any (is_social_user u.id) (P.rows s.users) ≡ true
      → count (is_follow viewer u.id) (P.rows s.follows) ≤ 1
      → let (s', answer) = follow P u.id viewer both_return s in
        let before = view_profile P O (some viewer) s u in
        let after = view_profile P O (some viewer) s' u in
        (answer ≡ follow_reply after.is_following after.following after.followers)
        × (after.is_following ≡ not before.is_following)
        × (after.followers + (if before.is_following then 1 else 0)
            ≡ before.followers + (if before.is_following then 0 else 1))
        × (after.completed_challenges ≡ before.completed_challenges)
  unfolding follow view_profile
  follow-view u viewer s other known single =
      let row : UserFollow = record { follower_id = viewer; followed_id = u.id } in
      let p = is_follow viewer u.id in
      let t = P.rows s.follows in
      let hit : p row ≡ true = ground (arith, eq_self viewer, eq_self u.id) in
      let left = rows-toggle P p row s.follows in
      let follows' = (toggle P p row s.follows).0 in
      let was = is_some-find_first P p s.follows in
      let now = is_some-find_first P p follows' ∙ ap (any p) left ∙ any-toggled p row t hit in
      let of = is_follow_of u.id in
      let total = P.count_rows_lem of follows' ∙ ap (count of) left in
      let total_was = P.count_rows_lem of s.follows in
      let counted = count-toggled p of row t (eq_self u.id) (λ r h. ground (arith, h)) single in
      rw (other, is_some-find_first P (is_social_user u.id) s.users, known)
        (
          rw (flag-toggle P p row s.follows, now) refl,
          rw (now, was) refl,
          rw (total, total_was, was) counted,
          refl,
        )

  public_profile-found :
      (name : String) (u : SocialUser) (viewer : Option String) (s : Social P)
      → P.find_first (is_profile_of name) s.users ≡ some u
      → public_profile P O name viewer s ≡ some (view_profile P O viewer s u)
  unfolding public_profile
  public_profile-found name u viewer s found = rw (found, public_profile) refl

  follow-users :
      (id viewer : String) (s : Social P) → (follow P id viewer both_return s).0.users ≡ s.users
  unfolding follow
  follow-users id viewer s = ground arith

  -- If a name finds a user whose profile is public, who is not the viewer and is followed by the
  -- viewer at most once, and the database answers, the profile under that name is shown before and
  -- after a follow, and the follow is answered with what the profile then shows the viewer: the
  -- flag is the opposite of before, the followers are one more or one less, and the completed
  -- challenges are as before.
  pub follow-view_profile :
      (name : String) (u : SocialUser) (viewer : String) (s : Social P)
      → P.find_first (is_profile_of name) s.users ≡ some u
      → (viewer == u.id) ≡ false
      → count (is_follow viewer u.id) (P.rows s.follows) ≤ 1
      → let (s', answer) = follow P u.id viewer both_return s in
        let before = view_profile P O (some viewer) s u in
        let after = view_profile P O (some viewer) s' u in
        (public_profile P O name (some viewer) s ≡ some before)
        × (public_profile P O name (some viewer) s' ≡ some after)
        × (answer ≡ follow_reply after.is_following after.following after.followers)
        × (after.is_following ≡ not before.is_following)
        × (after.followers + (if before.is_following then 1 else 0)
            ≡ before.followers + (if before.is_following then 0 else 1))
        × (after.completed_challenges ≡ before.completed_challenges)
  follow-view_profile name u viewer s found other single =
      let s' = (follow P u.id viewer both_return s).0 in
      let row = P.find_first-some (is_profile_of name) s.users u found in
      let view = follow-view u viewer s other (row.1 (is_social_user u.id) (eq_self u.id)) single in
      let found' = ap (P.find_first (is_profile_of name)) (follow-users u.id viewer s) ∙ found in
      (
        public_profile-found name u (some viewer) s found,
        public_profile-found name u (some viewer) s' found',
        view.0,
        view.1,
        view.2,
        view.3,
      )
