-- ===== src/Social/Comments/Threads.antt =====
-- services/core/src/modules/challenge/comment.routes.ts: what becomes of a reply to a reply.
use devops_lab.Prelude.{
  ℕ, ◌≤◌, ◌≡◌, refl, ap, ◌∙◌, Bool, true, false, ◌&&◌, not, ◌||◌, inl, inr, Option, some, String,
  string_eq, nat_eq, ◌==◌, eq_flip, Bool-cases, List, [], ◌∷◌, ◌++◌, map, any, count, All,
  where_rows, is_some, arith,
}
use mathlib.Core.Path.{ap₂}
use devops_lab.Services.{Prisma, find_many-create, is_some-find_first}
use devops_lab.Social.State.{Social, Comment, is_page}
use devops_lab.Social.Catalog.Listed.{only-any}
use devops_lab.Social.Comments.{
  NewComment, comment_view, is_comment, is_top, is_reply_to, format_comment, thread_of, new_row,
  create_comment, get_comments, has_parent,
}

map-All : {A B : Type 0} (f g : A → B) (xs : List A) → All (λ x. f x ≡ g x) xs → map f xs ≡ map g xs
map-All f g [] h = refl
map-All f g (x ∷ xs) h = ap₂ (λ y l. y ∷ l) h.0 (map-All f g xs h.1)

All-under :
    {A : Type 0} (P Q : A → Type 0) (xs : List A) → ((x : A) → P x → Q x) → All P xs → All Q xs
All-under P Q [] f h = tt
All-under P Q (x ∷ xs) f h = (f x h.0, All-under P Q xs f h.1)

abbrev is_root : ℕ → Comment → Bool
is_root id c = is_comment id c && not (is_some c.parent_id)

-- A comment that is a reply is none of the top ones.
top-apart :
    (id ch : ℕ) (rows : List Comment)
    → any (is_root id) rows ≡ false
    → All (λ c. (id == c.id) ≡ false) (where_rows (is_top ch) rows)
top-apart id ch [] h = tt
top-apart id ch (c ∷ rows) h = elim (Bool-cases (is_top ch c)) [
  | inl e ↦ rw e (ground (arith, h, e, eq_flip id c.id), top-apart id ch rows (ground (arith, h)))
  | inr e ↦ rw e (top-apart id ch rows (ground (arith, h)))
]

module _ (P : Prisma) where
  -- A comment that is no reply to a thread's first one leaves the thread.
  thread_of-create :
      (by_age : List Comment → List Comment) (viewer : Option String) (s : Social P)
      (row c : Comment)
      → is_reply_to c.id row ≡ false
      → thread_of P by_age viewer (record s { comments = P.create row s.comments }) c
        ≡ thread_of P by_age viewer s c
  thread_of-create by_age viewer s row c h =
      ap
        (λ l. record {
          top = format_comment P viewer s c;
          replies = map (format_comment P viewer s) (by_age l);
        })
        (find_many-create P (is_reply_to c.id) row s.comments h)

  -- If the parent of a new comment with a text is the only comment with its identifier, is of the
  -- same existing challenge and is a reply itself, the comment is accepted and written as the last
  -- row, and the comments that anybody is shown of any challenge are the same as before: a reply
  -- to a reply is never seen, whatever order of the database keeps what holds of all rows.
  pub create_comment-nested :
      (trim : String → String) (by_pin by_age : List Comment → List Comment)
      (challenge_id parent_id : ℕ) (user_id : String) (q : NewComment) (parent : Comment)
      (s : Social P)
      → ((Q : Comment → Type 0) (l : List Comment) → All Q l → All Q (by_pin l))
      → q.parent_id ≡ some parent_id
      → P.find_first (is_comment parent_id) s.comments ≡ some parent
      → count (is_comment parent_id) (P.rows s.comments) ≤ 1
      → is_some parent.parent_id ≡ true
      → (parent.challenge_id == challenge_id) ≡ true
      → any (is_page challenge_id) (P.rows s.challenges) ≡ true
      → (q.content == "" || trim q.content == "") ≡ false
      → let created = create_comment P trim challenge_id (some user_id) q true s in
        (created.1 ≡ comment_view (new_row P trim challenge_id user_id q))
        × (P.rows created.0.comments
            ≡ P.rows s.comments ++ new_row P trim challenge_id user_id q ∷ [])
        × ((ch : ℕ) (viewer : Option String)
            → get_comments P by_pin by_age ch viewer created.0
              ≡ get_comments P by_pin by_age ch viewer s)
  unfolding create_comment get_comments
  create_comment-nested trim by_pin by_age challenge_id parent_id user_id q parent s pinned eq found
        single nested same page filled =
      let row = new_row P trim challenge_id user_id q in
      let t = s.comments in
      let s' : Social P = record s { comments = P.create row t } in
      let no_root =
        only-any P (is_comment parent_id) (λ (c : Comment). not (is_some c.parent_id)) t parent
          single found
        ∙ ap not nested in
      let has : has_parent P challenge_id q.parent_id s ≡ true = rw (eq, has_parent, found) same in
      let is_reply : is_some q.parent_id ≡ true = rw eq refl in
      rw (filled, is_some-find_first P (is_page challenge_id) s.challenges, page, has)
        (
          refl,
          P.rows-create row t,
          λ ch viewer.
              let tops = P.find_many (is_top ch) t in
              let kept : P.find_many (is_top ch) (P.create row t) ≡ tops =
                find_many-create P (is_top ch) row t (ground (arith, is_reply)) in
              ap (λ l. map (thread_of P by_age viewer s') (by_pin l)) kept
              ∙ map-All (thread_of P by_age viewer s') (thread_of P by_age viewer s) (by_pin tops) (
                  pinned (λ c. thread_of P by_age viewer s' c ≡ thread_of P by_age viewer s c) tops
                    (rw (P.find_many_lem (is_top ch) t) (
                      All-under (λ c. (parent_id == c.id) ≡ false)
                        (λ c. thread_of P by_age viewer s' c ≡ thread_of P by_age viewer s c)
                        (where_rows (is_top ch) (P.rows t))
                        (λ c apart.
                          thread_of-create by_age viewer s row c (rw (eq, is_reply_to) apart))
                        (top-apart parent_id ch (P.rows t) no_root)))),
        )
