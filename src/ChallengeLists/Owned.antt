-- ===== src/ChallengeLists/Owned.antt =====
-- services/core/src/modules/content/list.routes.ts: who changes a list, and what else changes.
use devops_lab.Prelude.{
  ℕ, ◌≡◌, ◌≢◌, ◌⊎◌, refl, sym, Bool, true, false, inl, inr, Option, none, some, String, string_eq,
  nat_eq, ◌==◌, eq_of_beq, Bool-cases, Option-cases, arith, ap,
}
use devops_lab.Services.{Prisma, find_many-create, find_many-delete}
use devops_lab.ChallengeLists.{
  ChallengeList, ListItem, ListState, ListReply, is_list, is_item_of, is_item, for_owner, add_to,
  add_item, remove_from, remove_item, drop_list, delete_list,
}

-- A change of a list: an item added or removed, or the list deleted.
pub data Change : Type 0 where
  adding : Option ℕ → Bool → Change
  removing : ℕ → Bool → Change
  deleting : Bool → Change

module _ (P : Prisma) where
  unfoldable pub changed_by : Change → Option String → String → ListState P → ListState P
  unfolding add_item remove_item delete_list
  changed_by (adding c written) user list_id s = (add_item P user list_id c written s).0
  changed_by (removing c written) user list_id s = (remove_item P user list_id c written s).0
  changed_by (deleting written) user list_id s = (delete_list P user list_id written s).0

  -- The other lists and their items are as before.
  abbrev pub IsApart : String → ListState P → ListState P → Type 0
  IsApart list_id s s' =
      (x : String)
      → x ≢ list_id
      → (P.find_many (is_list x) s'.lists ≡ P.find_many (is_list x) s.lists)
        × (P.find_many (is_item_of x) s'.items ≡ P.find_many (is_item_of x) s.items)

  abbrev pub IsOwner : Option String → String → ListState P → Type 0
  IsOwner user list_id s =
      (l : ChallengeList) × (P.find_first (is_list list_id) s.lists ≡ some l)
      × (user ≡ some l.user_id)

  differs : (x o : String) → x ≢ o → (o == x) ≡ false
  differs x o ne = elim (Bool-cases (o == x)) [
    | inl e ↦ absurd (ne (sym (eq_of_beq o x e)))
    | inr e ↦ e
  ]

  -- A test of an identifier that is the list's misses the others.
  misses : (x o y : String) → x ≢ o → (y == o) ≡ true → (y == x) ≡ false
  misses x o y ne e = rw (eq_of_beq y o e) (differs x o ne)

  for_owner_lem :
      (user : Option String) (list_id : String) (s : ListState P)
      (handled : ListState P × ListReply)
      → IsApart list_id s handled.0
      → let s' = (for_owner P user list_id s handled).0 in
        (s' ≡ s) ⊎ (IsOwner user list_id s × IsApart list_id s s')
  for_owner_lem none list_id s handled h = inl refl
  for_owner_lem (some u) list_id s handled h =
      elim (Option-cases (P.find_first (is_list list_id) s.lists)) [
        | inl e ↦ inl (rw e refl)
        | inr (l, e) ↦ elim (Bool-cases (l.user_id == u)) [
          | inl own ↦ inr (rw (e, own) ((l, refl, sym (ap some (eq_of_beq l.user_id u own))), h))
          | inr other ↦ inl (rw (e, other) refl)
        ]
      ]

  add_to-IsApart :
      (list_id : String) (c : ℕ) (written : Bool) (s : ListState P)
      → IsApart list_id s (add_to P list_id c written s).0
  unfolding add_to
  add_to-IsApart list_id c written s x ne =
      let row : ListItem = record {
        list_id = list_id;
        challenge_id = c;
        order = P.count_rows (is_item_of list_id) s.items;
      } in
      ground (arith, find_many-create P (is_item_of x) row s.items (differs x list_id ne))

  remove_from-IsApart :
      (list_id : String) (c : ℕ) (written : Bool) (s : ListState P)
      → IsApart list_id s (remove_from P list_id c written s).0
  unfolding remove_from
  remove_from-IsApart list_id c written s x ne =
      let kept =
        find_many-delete P (is_item_of x) (is_item list_id c) s.items
          (λ r hit. misses x list_id r.list_id ne (ground (arith, hit))) in
      ground (arith, kept)

  drop_list-IsApart :
      (list_id : String) (written : Bool) (s : ListState P)
      → IsApart list_id s (drop_list P list_id written s).0
  unfolding drop_list
  drop_list-IsApart list_id written s x ne =
      let rows =
        find_many-delete P (is_list x) (is_list list_id) s.lists
          (λ r hit. misses x list_id r.id ne hit) in
      let items =
        find_many-delete P (is_item_of x) (is_item_of list_id) s.items
          (λ r hit. misses x list_id r.list_id ne hit) in
      ground (arith, rows, items)

  -- Adding an item to a list, removing one, and deleting the list change nothing, or the list
  -- exists and the caller is its owner, and every other list and its items stay as they were.
  pub changed_by-IsOwner :
      (c : Change) (user : Option String) (list_id : String) (s : ListState P)
      → let s' = changed_by c user list_id s in
        (s' ≡ s) ⊎ (IsOwner user list_id s × IsApart list_id s s')
  unfolding changed_by add_item remove_item delete_list
  changed_by-IsOwner (adding none written) none list_id s = inl refl
  changed_by-IsOwner (adding none written) (some u) list_id s = inl refl
  changed_by-IsOwner (adding (some c) written) none list_id s = inl refl
  changed_by-IsOwner (adding (some c) written) (some u) list_id s =
      for_owner_lem (some u) list_id s (add_to P list_id c written s)
        (add_to-IsApart list_id c written s)
  changed_by-IsOwner (removing c written) user list_id s =
      for_owner_lem user list_id s (remove_from P list_id c written s)
        (remove_from-IsApart list_id c written s)
  changed_by-IsOwner (deleting written) user list_id s =
      for_owner_lem user list_id s (drop_list P list_id written s)
        (drop_list-IsApart list_id written s)
