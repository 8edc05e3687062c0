-- ===== src/ChallengeLists.antt =====
-- services/core/src/modules/content/list.routes.ts: a user's own lists of challenges. `trim` is
-- JavaScript's.
pub mod Owned
use devops_lab.Prelude.{
  ℕ, Bool, true, false, ◌&&◌, ◌||◌, not, Option, none, some, String, List, string_eq, nat_eq, ◌==◌,
  is_some, if◌then◌else◌,
}
use devops_lab.Services.{Prisma}
use devops_lab.Core.Rows.{Challenge}

pub record ChallengeList : Type 0 where
  pub id : String
  pub user_id : String
  pub name : String
  pub is_public : Bool

pub record ListItem : Type 0 where
  pub list_id : String
  pub challenge_id : ℕ
  pub order : ℕ

pub record ListState (P : Prisma) : Type 0 where
  pub lists : P.Table ChallengeList
  pub items : P.Table ListItem
  pub challenges : P.Table Challenge

pub data ListError : Type 0 where
  unauthorized name_required duplicate_name list_not_found access_denied forbidden
        challenge_required challenge_not_found server_error :
      ListError

pub data ListReply : Type 0 where
  refused : ListError → ListReply
  created : ChallengeList → ListReply
  list_view : ChallengeList → List ListItem → ListReply
  done : ListReply

pub record CreateList : Type 0 where
  pub name : String
  pub is_public : Bool
  pub new_id : String
  pub written : Bool

abbrev pub is_list : String → ChallengeList → Bool
is_list id l = l.id == id

abbrev pub is_item_of : String → ListItem → Bool
is_item_of list_id i = i.list_id == list_id

abbrev pub is_item : String → ℕ → ListItem → Bool
is_item list_id challenge_id i = i.list_id == list_id && i.challenge_id == challenge_id

abbrev pub is_caller : Option String → String → Bool
is_caller none owner = false
is_caller (some u) owner = owner == u

module _ (P : Prisma) where
  -- POST /lists
  unfoldable pub create_list :
      (String → String) → CreateList → Option String → ListState P → ListState P × ListReply
  create_list trim q none s = (s, refused unauthorized)
  create_list trim q (some user_id) s =
      let name = trim q.name in
      let row : ChallengeList = record {
        id = q.new_id;
        user_id = user_id;
        name = name;
        is_public = q.is_public;
      } in
      if name == ""
      then (s, refused name_required)
      else (if is_some
            (P.find_first (λ (l : ChallengeList). l.user_id == user_id && l.name == name) s.lists)
          then (s, refused duplicate_name)
          else (if q.written
              then (record s { lists = P.create row s.lists }, created row)
              else (s, refused server_error)))

  -- GET /lists/:id; the caller is `none` without a token.
  unfoldable pub get_list : String → Option String → ListState P → ListReply
  get_list id current s = elim (P.find_first (is_list id) s.lists) [
    | none ↦ refused list_not_found
    | some l ↦
        if not l.is_public && not (is_caller current l.user_id)
        then refused access_denied
        else list_view l (P.find_many (is_item_of id) s.items)
  ]

  -- The beginning of a route that changes a list.
  abbrev pub owned_by :
      String
      → ListState P × ListReply
      → Option ChallengeList
      → ListState P
      → ListState P × ListReply
  owned_by user_id handled none s = (s, refused list_not_found)
  owned_by user_id handled (some l) s =
      if l.user_id == user_id then handled else (s, refused forbidden)

  abbrev pub for_owner :
      Option String → String → ListState P → ListState P × ListReply → ListState P × ListReply
  for_owner none list_id s handled = (s, refused unauthorized)
  for_owner (some user_id) list_id s handled =
      owned_by user_id handled (P.find_first (is_list list_id) s.lists) s

  -- The new item's order is the number of the items.
  abbrev pub put_item : String → ℕ → P.Table ListItem → P.Table ListItem
  put_item list_id challenge_id t =
      if is_some (P.find_first (is_item list_id challenge_id) t)
      then t
      else P.create
          (record {
            list_id = list_id;
            challenge_id = challenge_id;
            order = P.count_rows (is_item_of list_id) t;
          })
          t

  unfoldable pub add_to : String → ℕ → Bool → ListState P → ListState P × ListReply
  add_to list_id challenge_id written s =
      if is_some (P.find_first (λ (c : Challenge). c.id == challenge_id) s.challenges)
      then (if written
          then (record s { items = put_item list_id challenge_id s.items }, done)
          else (s, refused server_error))
      else (s, refused challenge_not_found)

  -- POST /lists/:id/items
  unfoldable pub add_item :
      Option String → String → Option ℕ → Bool → ListState P → ListState P × ListReply
  unfolding add_to
  add_item none list_id c written s = (s, refused unauthorized)
  add_item (some user_id) list_id none written s = (s, refused challenge_required)
  add_item (some user_id) list_id (some c) written s =
      for_owner (some user_id) list_id s (add_to list_id c written s)

  unfoldable pub remove_from : String → ℕ → Bool → ListState P → ListState P × ListReply
  remove_from list_id challenge_id written s =
      if written
      then (record s { items = P.delete_many (is_item list_id challenge_id) s.items }, done)
      else (s, refused server_error)

  -- DELETE /lists/:id/items/:challengeId
  unfoldable pub remove_item :
      Option String → String → ℕ → Bool → ListState P → ListState P × ListReply
  unfolding remove_from
  remove_item user list_id c written s = for_owner user list_id s (remove_from list_id c written s)

  -- The items go with their list.
  unfoldable pub drop_list : String → Bool → ListState P → ListState P × ListReply
  drop_list list_id written s =
      if written
      then (
        record s {
          lists = P.delete_many (is_list list_id) s.lists;
          items = P.delete_many (is_item_of list_id) s.items;
        },
        done,
      )
      else (s, refused server_error)

  -- DELETE /lists/:id
  unfoldable pub delete_list : Option String → String → Bool → ListState P → ListState P × ListReply
  unfolding drop_list
  delete_list user list_id written s = for_owner user list_id s (drop_list list_id written s)
