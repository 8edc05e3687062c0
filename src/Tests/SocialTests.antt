-- ===== src/Tests/SocialTests.antt =====
-- The challenge pages, the social graph, the comments and the shares at a concrete state.
use devops_lab.Prelude.{
  ℕ, ◌+◌, ◌≡◌, refl, ap, ◌∙◌, true, false, not, Option, some, none, ◌&&◌, String, [], ◌∷◌, ◌++◌,
  All, map, take, any, arith, if◌then◌else◌, nat_eq, string_eq, ◌==◌, All-take,
}
use devops_lab.Prelude.Sorting.{sort_desc, map-sort, sort-All}
use devops_lab.Services.{lists, find}
use devops_lab.Core.Rows.{completed}
use devops_lab.Progress.State.{Completion}
use devops_lab.Social.{Social, SocialUser, Comment, learner, fresh_user}
use devops_lab.Social.Toggles.Marks.{IsSingle, both_return, like-interactions}
use devops_lab.Social.Feed.{Ordered, feed, followed_by, take_limit, key_of}
use devops_lab.Social.Feed.Chronology.{at, times_of, IsOf, map-take, feed-latest}
use devops_lab.Social.Toggles.{like, interactions, liked_reply, follow, follow_reply}
use devops_lab.Social.Profiles.{view_profile, public_profile}
use devops_lab.Social.Profiles.Follows.{follow-view_profile}
use devops_lab.Social.Catalog.{get_challenge, list_challenges}
use devops_lab.Social.Catalog.Listed.{is_view, get_challenge-listed}
use devops_lab.Social.Comments.{NewComment, create_comment, get_comments, comment_view, new_row}
use devops_lab.Social.Comments.Threads.{create_comment-nested}
use devops_lab.Social.Shares.{
  CreateShare, ShareToken, certificate, create_share, get_share, verified,
}
use devops_lab.Social.Shares.Unsolved.{is_sealed, get_share-unsolved}

-- Ada follows Bob, who has solved a challenge and earned a badge; Eve's reply answers Bob's comment.
abbrev social : Social lists
social = record {
  users =
      record {
        id = "ada";
        username = some "ada_l";
        org_id = some 5;
        role = learner;
        is_public = true;
        onboarding_state = fresh_user;
        xp = 40;
        current_streak = 1;
      }
      ∷ [];
  challenges =
      record {
        id = 4;
        title = "Pods";
        contributed_by_org_id = some 5;
        editorial = none;
        created_at = 1;
      }
      ∷ [];
  sessions =
      record {
        id = 6;
        user_id = "bob";
        challenge_id = 4;
        status = completed;
        started_at = 10;
        ended_at = some 30;
      }
      ∷ [];
  completions = [];
  check_results = [];
  likes = record { challenge_id = 4; user_id = "bob" } ∷ [];
  bookmarks = [];
  follows = record { follower_id = "ada"; followed_id = "bob" } ∷ [];
  user_badges = record { user_id = "bob"; badge_id = 31; earned_at = 35 } ∷ [];
  comments =
      record { id = 1; challenge_id = 4; user_id = "bob"; parent_id = none; content = "How?" }
      ∷ record { id = 2; challenge_id = 4; user_id = "eve"; parent_id = some 1; content = "So." }
      ∷ [];
  votes = [];
}

social-IsSingle : IsSingle lists social.likes
social-IsSingle id user_id = ground arith

like-interactions_example :
    let s' = (like lists 4 "ada" both_return social).0 in
    let before = interactions lists 4 (some "ada") social in
    let after = interactions lists 4 (some "ada") s' in
    ((like lists 4 "ada" both_return social).1 ≡ liked_reply after.0 after.1)
    × (after.1 ≡ not before.1)
    × (after.0 + (if before.1 then 1 else 0) ≡ before.0 + (if before.1 then 0 else 1))
    × (after.2 ≡ before.2)
    × IsSingle lists s'.likes
    × ((c : ℕ) (v : String)
        → (4 == c && "ada" == v) ≡ false
        → (interactions lists c (some v) s').1 ≡ (interactions lists c (some v) social).1)
like-interactions_example = like-interactions lists 4 "ada" social refl social-IsSingle

-- An ordered query sorts the matching rows.
abbrev sorted : Ordered lists
sorted = record {
  latest = λ {Row} key n p t. take n (sort_desc (key_of key) (lists.find_many p t));
  map-latest = λ {Row} key n p t h.
      let rows = lists.find_many p t in
      map-take (key_of key) n (sort_desc (key_of key) rows)
      ∙ ap (take n) (map-sort (λ k. k) (key_of key) rows);
  latest-All = λ {Row} Q key n p t h.
      let rows = lists.find_many p t in
      All-take Q n (sort_desc (key_of key) rows) (sort-All (key_of key) Q rows h);
}

feed-latest_example :
    let ids = followed_by lists "ada" social in
    let items = feed lists sorted "ada" none social in
    (map at items ≡ take (take_limit none) (sort_desc (λ k. k) (times_of lists sorted ids social)))
    × All (IsOf lists sorted ids) items
feed-latest_example = feed-latest lists sorted "ada" none social (refl, tt)

get_challenge-listed_example :
    is_view (get_challenge lists 4 (some "ada") social)
    ≡ any (λ c. c.id == 4) (list_challenges lists (λ l. l) (some "ada") social)
get_challenge-listed_example =
    get_challenge-listed lists (λ l. l) 4 (some "ada") social (λ q l. refl) (omega arith)

abbrev nested_reply : NewComment
nested_reply = record { new_id = 3; content = "Why?"; parent_id = some 2 }

abbrev eves : Comment
eves = record { id = 2; challenge_id = 4; user_id = "eve"; parent_id = some 1; content = "So." }

create_comment-nested_example :
    let created = create_comment lists (λ c. c) 4 (some "ada") nested_reply true social in
    (created.1 ≡ comment_view (new_row lists (λ c. c) 4 "ada" nested_reply))
    × (lists.rows created.0.comments
        ≡ lists.rows social.comments ++ new_row lists (λ c. c) 4 "ada" nested_reply ∷ [])
    × ((ch : ℕ) (viewer : Option String)
        → get_comments lists (λ l. l) (λ l. l) ch viewer created.0
          ≡ get_comments lists (λ l. l) (λ l. l) ch viewer social)
unfolding find
create_comment-nested_example =
    create_comment-nested lists (λ c. c) (λ l. l) (λ l. l) 4 2 "ada" nested_reply eves social
      (λ Q l h. h) refl refl (omega arith) refl refl refl refl

abbrev boast : CreateShare String
boast = record {
  challenge_id = some 4;
  share_type = certificate;
  metadata = "Kubernetes expert";
  new_token = "c0ffee";
  written = true;
  now = 90;
}

abbrev no_time : Completion → ℕ
no_time c = 0

get_share-unsolved_example :
    let created = create_share lists no_time (some "ada") boast social [] in
    (r : ShareToken String) × ((get_share lists "c0ffee" true created.0).1 ≡ verified r)
    × (is_sealed "ada" 4 90 r ≡ true)
get_share-unsolved_example =
    get_share-unsolved lists no_time "ada" 4 boast social [] true refl refl refl refl refl refl refl

abbrev ada : SocialUser
ada = record {
  id = "ada";
  username = some "ada_l";
  org_id = some 5;
  role = learner;
  is_public = true;
  onboarding_state = fresh_user;
  xp = 40;
  current_streak = 1;
}

follow-view_profile_example :
    let (s', answer) = follow lists "ada" "eve" both_return social in
    let before = view_profile lists sorted (some "eve") social ada in
    let after = view_profile lists sorted (some "eve") s' ada in
    (public_profile lists sorted "ada_l" (some "eve") social ≡ some before)
    × (public_profile lists sorted "ada_l" (some "eve") s' ≡ some after)
    × (answer ≡ follow_reply after.is_following after.following after.followers)
    × (after.is_following ≡ not before.is_following)
    × (after.followers + (if before.is_following then 1 else 0)
        ≡ before.followers + (if before.is_following then 0 else 1))
    × (after.completed_challenges ≡ before.completed_challenges)
unfolding find
follow-view_profile_example =
    follow-view_profile lists sorted "ada_l" ada "eve" social refl refl (omega arith)
