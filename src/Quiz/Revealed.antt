-- ===== src/Quiz/Revealed.antt =====
-- services/core/src/modules/content/quiz.routes.ts: what the reply to a submission tells.
use devops_lab.Prelude.{
  ℕ, suc, ◌≡◌, ◌<◌, refl, sym, ap, ◌∙◌, true, false, inl, inr, some, String, List, [], ◌∷◌, map,
  string_eq, nat_eq, ◌==◌, eq_self, any, any-append, length, arith, Bool-cases, Option-cases, All,
}
use devops_lab.Services.{Prisma}
use devops_lab.Org.State.{NodeCompletion}
use devops_lab.Quiz.{
  Question, QuestionResult, QuizNode, QuizState, QuizReply, graded, Submit, submit, grade_quiz,
  submitter, is_quiz, is_done, grade, score_of, has_passed, answer_to, is_right, complete,
}

-- No two questions have one identifier.
abbrev pub IsDistinct : List Question → Type 0
IsDistinct [] = Unit
IsDistinct (q ∷ qs) = All (λ (x : Question). (q.id == x.id) ≡ false) qs × IsDistinct qs

abbrev answer_in : QuestionResult → String × ℕ
answer_in r = (r.question_id, r.correct_index)

-- The answers that a reply names.
abbrev pub revealed : QuizReply → List (String × ℕ)
revealed (graded passed score total results) = map answer_in results
revealed _ = []

abbrev key : List Question → List (String × ℕ)
key qs = map (λ (q : Question). (q.id, q.correct_index)) qs

revealed-key :
    (answers : List (String × ℕ)) (qs : List Question)
    → map answer_in (map (grade answers) qs) ≡ key qs
revealed-key answers [] = refl
revealed-key answers (q ∷ qs) = ap (λ xs. (q.id, q.correct_index) ∷ xs) (revealed-key answers qs)

-- Every question of the list is answered right by these answers.
abbrev AllRight : List (String × ℕ) → List Question → Type 0
AllRight answers = All (λ (q : Question). is_right (answer_to answers q.id) q.correct_index ≡ true)

AllRight-cons :
    (k : String) (n : ℕ) (answers : List (String × ℕ)) (qs : List Question)
    → All (λ (x : Question). (k == x.id) ≡ false) qs
    → AllRight answers qs
    → AllRight ((k, n) ∷ answers) qs
AllRight-cons k n answers [] h a = tt
AllRight-cons k n answers (q ∷ qs) h a = (rw h.0 a.0, AllRight-cons k n answers qs h.1 a.1)

key-AllRight : (qs : List Question) → IsDistinct qs → AllRight (key qs) qs
key-AllRight [] h = tt
key-AllRight (q ∷ qs) h = (
  rw (eq_self q.id) (eq_self q.correct_index),
  AllRight-cons q.id q.correct_index (key qs) qs h.0 (key-AllRight qs h.1),
)

score-AllRight :
    (answers : List (String × ℕ)) (qs : List Question)
    → AllRight answers qs
    → score_of (map (grade answers) qs) ≡ length qs
score-AllRight answers [] h = refl
score-AllRight answers (q ∷ qs) h = rw h.0 (ap suc (score-AllRight answers qs h.1))

module _ (P : Prisma) where
  complete-done :
      (now : ℕ) (u n : String) (t : P.Table NodeCompletion)
      → any (is_done u n) (P.rows (complete P now u n t)) ≡ true
  complete-done now u n t = elim (Option-cases (P.find_first (is_done u n) t)) [
    | inl e ↦
        let row : NodeCompletion = record { user_id = u; node_id = n; created_at = now } in
        let own : is_done u n row ≡ true = rw (eq_self u, eq_self n) refl in
        let added =
          ap (any (is_done u n)) (P.rows-create row t)
          ∙ any-append (is_done u n) (P.rows t) (row ∷ []) in
        rw (e, added, own) (ground arith)
    | inr (c, e) ↦
        let found = P.find_first-some (is_done u n) t c e in rw e (found.1 (is_done u n) found.0)
  ]

  -- A submission whose writes succeed is answered with its results.
  grade_quiz-graded :
      (q : Submit) (u : String) (answers : List (String × ℕ)) (id : String) (qs : List Question)
      (s : QuizState P)
      → q.completion_written ≡ true
      → let results = map (grade answers) qs in
        let passed = has_passed (length qs) (score_of results) in
        let r = grade_quiz P q u answers id qs s in
        (r.1 ≡ graded passed (score_of results) (length qs) results)
        × (r.0.nodes ≡ s.nodes)
        × (passed ≡ true → any (is_done u id) (P.rows r.0.completions) ≡ true)
  unfolding grade_quiz
  grade_quiz-graded q u answers id qs s ok =
      elim (Bool-cases (has_passed (length qs) (score_of (map (grade answers) qs)))) [
        | inl e ↦ rw (e, ok) (refl, refl, λ h. complete-done q.now u id s.completions)
        | inr e ↦ rw e (refl, refl, λ h. cc)
      ]

  -- The answers of the key pass.
  grade_quiz-key :
      (q : Submit) (u : String) (id : String) (qs : List Question) (s : QuizState P)
      → q.completion_written ≡ true
      → 0 < length qs
      → IsDistinct qs
      → let r = grade_quiz P q u (key qs) id qs s in
        (r.1 ≡ graded true (length qs) (length qs) (map (grade (key qs)) qs))
        × (any (is_done u id) (P.rows r.0.completions) ≡ true)
  grade_quiz-key q u id qs s ok pos distinct =
      let full = score-AllRight (key qs) qs (key-AllRight qs distinct) in
      let passed : has_passed (length qs) (score_of (map (grade (key qs)) qs)) ≡ true =
        rw full (ground (arith, pos)) in
      let r = grade_quiz-graded q u (key qs) id qs s ok in
      (r.0 ∙ rw (passed, full) refl, r.2 passed)

  submit_quiz :
      (q : Submit) (u : String) (answers : List (String × ℕ)) (n : QuizNode) (qs : List Question)
      (s : QuizState P)
      → submitter q ≡ some u
      → q.answers ≡ some answers
      → P.find_first (is_quiz q.quiz) s.nodes ≡ some n
      → n.questions ≡ some qs
      → submit P q s ≡ grade_quiz P q u answers n.id qs s
  unfolding submit
  submit_quiz q u answers n qs s us given_answers found questions =
      rw (us, given_answers, found, questions, submit) refl

  -- If a quiz has questions, with distinct identifiers, the reply to any first submission reveals
  -- the key: a second submission with the answers that it names, by any user, is graded as passed
  -- with the full score, and that user has the completion, if the completions are written.
  pub submit-revealed :
      (q q' : Submit) (u u' : String) (answers : List (String × ℕ)) (n : QuizNode)
      (qs : List Question) (s : QuizState P)
      → submitter q ≡ some u
      → submitter q' ≡ some u'
      → q.answers ≡ some answers
      → q.completion_written ≡ true
      → q'.completion_written ≡ true
      → q'.quiz ≡ q.quiz
      → P.find_first (is_quiz q.quiz) s.nodes ≡ some n
      → n.questions ≡ some qs
      → 0 < length qs
      → IsDistinct qs
      → let first = submit P q s in
        q'.answers ≡ some (revealed first.1)
        → let second = submit P q' first.0 in
          (second.1 ≡ graded true (length qs) (length qs) (map (grade (revealed first.1)) qs))
          × (any (is_done u' n.id) (P.rows second.0.completions) ≡ true)
  submit-revealed q q' u u' answers n qs s us us' given_answers ok ok' same found questions pos
        distinct again =
      let first = submit P q s in
      let one = submit_quiz q u answers n qs s us given_answers found questions in
      let kept = grade_quiz-graded q u answers n.id qs s ok in
      let told : revealed first.1 ≡ key qs =
        ap (λ r. revealed r.1) one ∙ ap revealed kept.0 ∙ revealed-key answers qs in
      let nodes : first.0.nodes ≡ s.nodes = ap (λ r. r.0.nodes) one ∙ kept.1 in
      let found' : P.find_first (is_quiz q'.quiz) first.0.nodes ≡ some n =
        ap (λ id. P.find_first (is_quiz id) first.0.nodes) same
        ∙ ap (P.find_first (is_quiz q.quiz)) nodes
        ∙ found in
      let two =
        submit_quiz q' u' (key qs) n qs first.0 us' (again ∙ ap some told) found' questions in
      let done = grade_quiz-key q' u' n.id qs first.0 ok' pos distinct in
      (
        ap (λ r. r.1) two
            ∙ done.0
            ∙ ap (λ a. graded true (length qs) (length qs) (map (grade a) qs)) (sym told),
        ap (λ r. any (is_done u' n.id) (P.rows r.0.completions)) two ∙ done.1,
      )
